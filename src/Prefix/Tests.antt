-- ===== src/Prefix/Tests.antt =====
-- Prefixes at concrete texts, and the theorems about them over a concrete address printer.
use asnprefix_map.Base.{
  ℕ, suc, ◌+◌, ◌-◌, ◌%◌, ◌^◌, ◌<◌, ◌≡◌, refl, ap, ◌∙◌, inl, inr, Bool-cases, true, ◌&&◌, Option,
  none, some, [], ◌∷◌, map, arith, ◌==◌, nat_eq, if◌then◌else◌, length, get_elem?, Bytes, ok,
}
use asnprefix_map.Base.Text.{cut_at, has_byte, free_of, c_str}
use asnprefix_map.Base.Decimal.{stoul, skip_spaces, read_signed, read_number, read_digits}
use asnprefix_map.Prefix.{v4}
use asnprefix_map.Prefix.Mask.{
  apply_mask_v4, apply_mask_v6, mask_bytes, AreBytes, apply_mask_v4_lem, apply_mask_v6_lem,
  bits_behind,
}
use asnprefix_map.Prefix.Inet.{Inet, IsInet}
use asnprefix_map.Prefix.Cidr.{
  split_cidr, address_part, infer_family_from_text, read_address_v4, parse_prefix_v4, parse_as,
  parse_prefix, prefix_to_string,
}
use asnprefix_map.Prefix.RoundTrip.{
  IsCanonical, parse_prefix-IsCanonical, parse_prefix-prefix_to_string,
}

-- An address is the family's mark and the number or the bytes, moved out of the range of ASCII.
abbrev read_v4 : Bytes → Option ℕ
read_v4 (c ∷ n ∷ []) = if c == b'.' then some (n % 2 ^ 32) else none
read_v4 _ = none

abbrev read_v6 : Bytes → Option Bytes
read_v6 [] = none
read_v6 (c ∷ bytes) =
    if c == b':' && length bytes == 16 then some (map (λ x. x % 256) bytes) else none

abbrev pub marked : Inet
marked = record {
  pton_v4 = read_v4;
  ntop_v4 = λ n. some (b'.' ∷ (n + 2 ^ 32) ∷ []);
  pton_v6 = read_v6;
  ntop_v6 = λ bytes. some (b':' ∷ map (λ x. x + 256) bytes);
}

reduced :
    (xs : Bytes) → (length (map (λ x. x % 256) xs) ≡ length xs) × AreBytes (map (λ x. x % 256) xs)
reduced [] = (refl, tt)
reduced (x ∷ xs) = (ap suc (reduced xs).0, (omega arith, (reduced xs).1))

moved :
    (xs : Bytes)
    → AreBytes xs
    → (length (map (λ x. x + 256) xs) ≡ length xs)
      × (map (λ x. x % 256) (map (λ x. x + 256) xs) ≡ xs)
      × (free_of b'/' (map (λ x. x + 256) xs) ≡ true)
      × (free_of 0 (map (λ x. x + 256) xs) ≡ true)
moved [] v = (refl, refl, refl, refl)
moved (x ∷ xs) v =
    let (long, back, no_slash, no_zero) = moved xs v.1 in
    let here : (x + 256) % 256 ≡ x = omega arith in
    (ap suc long, rw (here, back), ground (arith, no_slash), ground (arith, no_zero))

reads_v4 : (text : Bytes) (n : ℕ) → read_v4 text ≡ some n → n < 2 ^ 32
reads_v4 (c ∷ m ∷ []) n h = ground arith
reads_v4 text n h = ground arith

some_same : {xs ys : Bytes} → some xs ≡ some ys → xs ≡ ys
some_same h = cc

none-some : {ys : Bytes} → none ≡ some ys → ⊥
none-some h = cc

reads_v6 : (text bytes : Bytes) → read_v6 text ≡ some bytes → (length bytes ≡ 16) × AreBytes bytes
reads_v6 [] bytes h = absurd (cc)
reads_v6 (c ∷ xs) bytes h = elim (Bool-cases (c == b':' && length xs == 16)) [
  | inl fits ↦
      let same : map (λ x. x % 256) xs ≡ bytes = some_same (rw fits at h) in
      rw (← same) ((reduced xs).0 ∙ ground arith, (reduced xs).1)
  | inr other ↦ absurd (none-some (rw other at h))
]

pub marked-IsInet : IsInet marked
unfolding has_byte
marked-IsInet = record {
  reads_v4 = reads_v4;
  reads_v6 = reads_v6;
  prints_v4 = λ n h. (
    b'.' ∷ (n + 2 ^ 32) ∷ [],
    refl,
    ground arith,
    ground arith,
    ground arith,
    ground arith,
    ground arith,
  );
  prints_v6 = λ bytes long small.
      let (same, back, no_slash, no_zero) = moved bytes small in
      (
        b':' ∷ map (λ x. x + 256) bytes,
        refl,
        ground (arith, same, back),
        no_slash,
        no_zero,
        ground arith,
      );
}

-- ".<10.1.2.3>/8" over that printer, the mask included; what follows the length is not read.
abbrev pub eight : Bytes
eight = b'.' ∷ (0x0a010203 + 2 ^ 32) ∷ b'/' ∷ b'8' ∷ b'x' ∷ []

parsed_eight : parse_prefix marked eight ≡ ok (v4 (record { network = 0x0a000000; length = 8 }))
unfolding parse_prefix infer_family_from_text address_part cut_at has_byte parse_as parse_prefix_v4
    split_cidr stoul skip_spaces read_signed read_number read_digits read_address_v4 c_str
    apply_mask_v4
parsed_eight = refl

masked_v6 : apply_mask_v6 (0x20 ∷ 0x01 ∷ 0x0d ∷ 0xb8 ∷ []) 20 ≡ 0x20 ∷ 0x01 ∷ 0 ∷ 0 ∷ []
unfolding apply_mask_v6 mask_bytes
masked_v6 = refl

apply_mask_v4_lem_example :
    apply_mask_v4 0x0a0b0c0d 12 ≡ some (0x0a0b0c0d - 0x0a0b0c0d % 2 ^ (32 - 12))
apply_mask_v4_lem_example = apply_mask_v4_lem 0x0a0b0c0d 12 (omega arith) (omega arith)

apply_mask_v6_lem_example :
    let bytes : Bytes = 0x20 ∷ 0x01 ∷ 0x0d ∷ 0xb8 ∷ [] in
    (length (apply_mask_v6 bytes 20) ≡ length bytes)
    × ((i byte : ℕ)
        → get_elem? bytes i ≡ some byte
        → get_elem? (apply_mask_v6 bytes 20) i ≡ some (byte - byte % 2 ^ bits_behind 20 i))
apply_mask_v6_lem_example = apply_mask_v6_lem (0x20 ∷ 0x01 ∷ 0x0d ∷ 0xb8 ∷ []) 20 (omega arith)

parse_prefix-IsCanonical_example : IsCanonical (v4 (record { network = 0x0a000000; length = 8 }))
parse_prefix-IsCanonical_example =
    parse_prefix-IsCanonical marked marked-IsInet eight
      (v4 (record { network = 0x0a000000; length = 8 })) parsed_eight

pub ten-IsCanonical : IsCanonical (v4 (record { network = 0x0a000000; length = 8 }))
ten-IsCanonical = record { address = omega arith; short = omega arith; clear = refl }

parse_prefix-prefix_to_string_example :
    let b = v4 (record { network = 0x0a000000; length = 8 }) in
    (text : Bytes) × (prefix_to_string marked b ≡ some text) × (parse_prefix marked text ≡ ok b)
parse_prefix-prefix_to_string_example =
    parse_prefix-prefix_to_string marked marked-IsInet
      (v4 (record { network = 0x0a000000; length = 8 })) ten-IsCanonical
