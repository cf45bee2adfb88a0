-- ===== src/Prefix/RoundTrip.antt =====
-- What parsing accepts is in normal form, and what is in normal form is printed and read back.
use asnprefix_map.Base.{
  ℕ, ◌-◌, ◌%◌, ◌^◌, ◌≤◌, ◌<◌, ◌≡◌, refl, ◌∙◌, ap, subst, inl, inr, true, some, Bool-cases, ltb, [],
  ◌∷◌, ◌++◌, arith, nat_eq, Option-cases, length, Bytes, ok, >>=-eq-ok,
}
use mathlib.Core.List.{append-nil}
use asnprefix_map.Base.Text.{free_of, c_str, c_str-id, cut_at-append}
use asnprefix_map.Base.Decimal.{stoul, to_string, stoul-to_string}
use asnprefix_map.Prefix.{
  PrefixV4, PrefixV6, BinaryPrefix, v4, v6, PrefixFamily, family_v4, family_v6,
}
use asnprefix_map.Prefix.Mask.{
  apply_mask_v4, apply_mask_v6, apply_mask_v4_lem, apply_mask_v6_lem, cleared-mod, AreBytes,
  ClearBehind, apply_mask_v6-ClearBehind, apply_mask_v6-fixed,
}
use asnprefix_map.Prefix.Inet.{Inet, IsInet}
use asnprefix_map.Prefix.Cidr.{
  split_cidr, address_part, infer_family_from_text, read_address_v4, parse_prefix_v4,
  read_address_v6, parse_prefix_v6, parse_as, parse_prefix, prefix_to_string,
}

pub record IsCanonicalV4 (p : PrefixV4) : Type 0 where
  pub address : p.network < 2 ^ 32
  pub short : p.length ≤ 32
  pub clear : p.network % 2 ^ (32 - p.length) ≡ 0

pub record IsCanonicalV6 (p : PrefixV6) : Type 0 where
  pub sixteen : length p.network ≡ 16
  pub bytes : AreBytes p.network
  pub short : p.length ≤ 128
  pub clear : ClearBehind p.length p.network

-- The host bits of the address are clear, and address and length are in range.
abbrev pub IsCanonical : BinaryPrefix → Type 0
IsCanonical (v4 p) = IsCanonicalV4 p
IsCanonical (v6 p) = IsCanonicalV6 p

module _ (i : Inet) (laws : IsInet i) where
  read_address_v4-IsCanonical :
      (text address : Bytes) (n : ℕ) (p : PrefixV4)
      → read_address_v4 i text address n ≡ ok p
      → IsCanonicalV4 p
  unfolding read_address_v4
  read_address_v4-IsCanonical text address n p h = elim (Option-cases (i.pton_v4 (c_str address))) [
    | inl bad ↦ ground (arith, h, bad)
    | inr (host, good) ↦
        let host_fits = laws.reads_v4 (c_str address) host good in
        elim (Bool-cases (ltb 32 n)) [
          | inl long ↦ absurd (ground (arith, h, good))
          | inr fits ↦
              let short : n ≤ 32 = ground arith in
              let masked = apply_mask_v4_lem host n host_fits short in
              let network : p.network ≡ host - host % 2 ^ (32 - n) =
                ground (arith, h, good, masked) in
              let size : p.length ≡ n = ground (arith, h, good, masked) in
              record {
                address = omega (arith, network);
                short = omega (arith, size);
                clear = rw (network, size) (cleared-mod host (2 ^ (32 - n)));
              }
        ]
  ]

  read_address_v6-IsCanonical :
      (text address : Bytes) (n : ℕ) (p : PrefixV6)
      → read_address_v6 i text address n ≡ ok p
      → IsCanonicalV6 p
  unfolding read_address_v6
  read_address_v6-IsCanonical text address n p h = elim (Option-cases (i.pton_v6 (c_str address))) [
    | inl bad ↦ absurd (ground (arith, h, bad))
    | inr (bytes, good) ↦
        let (long, small) = laws.reads_v6 (c_str address) bytes good in
        let (kept, _) = apply_mask_v6_lem bytes n small in
        let (still, behind) = apply_mask_v6-ClearBehind bytes n small in
        let network : p.network ≡ apply_mask_v6 bytes n = ground (arith, h, good) in
        let size : p.length ≡ n = ground (arith, h, good) in
        record {
          sixteen = rw network (kept ∙ long);
          bytes = rw network still;
          short = ground (arith, h, good);
          clear = rw (network, size) behind;
        }
  ]

  parse_as-IsCanonical :
      (family : PrefixFamily) (text : Bytes) (b : BinaryPrefix)
      → parse_as i family text ≡ ok b
      → IsCanonical b
  unfolding parse_as parse_prefix_v4 parse_prefix_v6
  parse_as-IsCanonical family_v4 text b h =
      let (p, parsed, e) = >>=-eq-ok (parse_prefix_v4 i text) (λ p. ok (v4 p)) h in
      let ((address, n), _, r) =
        >>=-eq-ok (split_cidr text) (λ c. read_address_v4 i text c.0 c.1) parsed in
      let same : v4 p ≡ b = cc in
      subst IsCanonical same (read_address_v4-IsCanonical text address n p r)
  parse_as-IsCanonical family_v6 text b h =
      let (p, parsed, e) = >>=-eq-ok (parse_prefix_v6 i text) (λ p. ok (v6 p)) h in
      let ((address, n), _, r) =
        >>=-eq-ok (split_cidr text) (λ c. read_address_v6 i text c.0 c.1) parsed in
      let same : v6 p ≡ b = cc in
      subst IsCanonical same (read_address_v6-IsCanonical text address n p r)

  -- With an `inet_pton` and an `inet_ntop` that keep the laws of `IsInet`, what `parse_prefix`
  -- accepts is in normal form: an address of 32 bits or of 16 bytes, a length of at most 32 or 128,
  -- and each bit of the address behind the length is zero.
  pub parse_prefix-IsCanonical :
      (text : Bytes) (b : BinaryPrefix) → parse_prefix i text ≡ ok b → IsCanonical b
  unfolding parse_prefix
  parse_prefix-IsCanonical text b h =
      let (family, _, k) = >>=-eq-ok (infer_family_from_text text) (λ f. parse_as i f text) h in
      parse_as-IsCanonical family text b k

  split_cidr-print :
      (text : Bytes) (n : ℕ)
      → free_of b'/' text ≡ true
      → n ≤ 255
      → split_cidr (text ++ (b'/' ∷ to_string n)) ≡ ok (text, n)
  unfolding split_cidr
  split_cidr-print text n h l =
      let number : stoul (to_string n) ≡ ok n =
        rw append-nil at (stoul-to_string n [] (omega arith) refl) in
      let cut = cut_at-append b'/' text (to_string n) h in ground (arith, number, cut)

  -- With an `inet_pton` and an `inet_ntop` that keep the laws of `IsInet`, a prefix in normal form
  -- has a text, and the text is parsed to the prefix.
  pub parse_prefix-prefix_to_string :
      (b : BinaryPrefix)
      → IsCanonical b
      → (text : Bytes) × (prefix_to_string i b ≡ some text) × (parse_prefix i text ≡ ok b)
  unfolding prefix_to_string parse_prefix parse_as parse_prefix_v4 parse_prefix_v6
      infer_family_from_text address_part read_address_v4 read_address_v6
  parse_prefix-prefix_to_string (v4 p) c =
      let (buffer, printed, read, no_slash, no_zero, no_colon, dot) =
        laws.prints_v4 p.network c.address in
      let short = c.short in
      let masked : apply_mask_v4 p.network p.length ≡ some p.network =
        apply_mask_v4_lem p.network p.length c.address short ∙ ap some (omega (arith, c.clear)) in
      let cidr = split_cidr-print buffer p.length no_slash (omega arith) in
      let cut = cut_at-append b'/' buffer (to_string p.length) no_slash in
      (
        buffer ++ (b'/' ∷ to_string p.length),
        rw (printed, prefix_to_string),
        ground (arith, cidr, cut, read, c_str-id buffer no_zero, no_colon, dot, masked),
      )
  parse_prefix-prefix_to_string (v6 p) c =
      let (buffer, printed, read, no_slash, no_zero, colon) =
        laws.prints_v6 p.network c.sixteen c.bytes in
      let short = c.short in
      let masked = apply_mask_v6-fixed p.network p.length c.bytes c.clear in
      let cidr = split_cidr-print buffer p.length no_slash (omega arith) in
      let cut = cut_at-append b'/' buffer (to_string p.length) no_slash in
      (
        buffer ++ (b'/' ∷ to_string p.length),
        rw (printed, prefix_to_string),
        ground (arith, cidr, cut, read, c_str-id buffer no_zero, colon, masked),
      )
