-- ===== src/Prefix/Cidr.antt =====
-- src/prefix/prefix.cpp: prefixes as text.
use asnprefix_map.Base.{
  ℕ, Option, none, some, [], ◌∷◌, ◌++◌, ltb, ◌==◌, bytes_eq, nat_eq, if◌then◌else◌, Bytes, Result,
  ok, err, ◌>>=◌, missing_cidr_length, invalid_cidr_length, unable_to_infer_family, unknown_family,
  v4_length_out_of_range, invalid_v4_prefix, v6_length_out_of_range, invalid_v6_prefix,
  undefined_shift,
}
use asnprefix_map.Base.Text.{cut_at, has_byte, c_str}
use asnprefix_map.Base.Decimal.{stoul, to_string}
use asnprefix_map.Prefix.{
  PrefixV4, PrefixV6, BinaryPrefix, v4, v6, PrefixFamily, family_v4, family_v6,
}
use asnprefix_map.Prefix.Mask.{apply_mask_v4, apply_mask_v6}
use asnprefix_map.Prefix.Inet.{Inet}

unfoldable pub split_cidr : Bytes → Result (Bytes × ℕ)
split_cidr cidr_text = elim (cut_at b'/' cidr_text) [
  | none ↦ err (missing_cidr_length cidr_text)
  | some (address, length_text) ↦ do
    length_value ← stoul length_text
    if ltb 255 length_value then err (invalid_cidr_length cidr_text) else ok (address, length_value)
]

-- The text before the slash, or the whole text.
unfoldable pub address_part : Bytes → Bytes
address_part cidr_text = elim (cut_at b'/' cidr_text) [
  | none ↦ cidr_text
  | some (address, length_text) ↦ address
]

unfoldable pub infer_family_from_text : Bytes → Result PrefixFamily
infer_family_from_text cidr_text =
    if has_byte b':' (address_part cidr_text)
    then ok family_v6
    else if has_byte b'.' (address_part cidr_text)
    then ok family_v4
    else err (unable_to_infer_family cidr_text)

unfoldable pub family_to_string : PrefixFamily → Bytes
family_to_string family_v4 = b'v' ∷ b'4' ∷ []
family_to_string family_v6 = b'v' ∷ b'6' ∷ []

unfoldable pub parse_family : Bytes → Result PrefixFamily
parse_family family_text =
    if family_text == (b'v' ∷ b'4' ∷ [])
    then ok family_v4
    else if family_text == (b'v' ∷ b'6' ∷ [])
    then ok family_v6
    else err (unknown_family family_text)

module _ (i : Inet) where
  unfoldable pub read_address_v4 : Bytes → Bytes → ℕ → Result PrefixV4
  read_address_v4 cidr_text address length' =
      if ltb 32 length'
      then err (v4_length_out_of_range cidr_text)
      else elim (i.pton_v4 (c_str address)) [
        | none ↦ err (invalid_v4_prefix cidr_text)
        | some host_order ↦ elim (apply_mask_v4 host_order length') [
          | none ↦ err undefined_shift
          | some network ↦ ok (record { network = network; length = length' })
        ]
      ]

  unfoldable pub parse_prefix_v4 : Bytes → Result PrefixV4
  parse_prefix_v4 cidr_text = do
    (address, length') ← split_cidr cidr_text
    read_address_v4 cidr_text address length'

  unfoldable pub read_address_v6 : Bytes → Bytes → ℕ → Result PrefixV6
  read_address_v6 cidr_text address length' =
      if ltb 128 length'
      then err (v6_length_out_of_range cidr_text)
      else elim (i.pton_v6 (c_str address)) [
        | none ↦ err (invalid_v6_prefix cidr_text)
        | some bytes ↦ ok (record { network = apply_mask_v6 bytes length'; length = length' })
      ]

  unfoldable pub parse_prefix_v6 : Bytes → Result PrefixV6
  parse_prefix_v6 cidr_text = do
    (address, length') ← split_cidr cidr_text
    read_address_v6 cidr_text address length'

  -- The two branches of `parse_prefix`.
  unfoldable pub parse_as : PrefixFamily → Bytes → Result BinaryPrefix
  parse_as family_v4 cidr_text = do p ← parse_prefix_v4 cidr_text; ok (v4 p)
  parse_as family_v6 cidr_text = do p ← parse_prefix_v6 cidr_text; ok (v6 p)

  unfoldable pub parse_prefix : Bytes → Result BinaryPrefix
  parse_prefix cidr_text = do family ← infer_family_from_text cidr_text; parse_as family cidr_text

  -- `none` is the `throw` after a failed `inet_ntop`.
  unfoldable pub prefix_to_string : BinaryPrefix → Option Bytes
  prefix_to_string (v4 p) = elim (i.ntop_v4 p.network) [
    | none ↦ none
    | some buffer ↦ some (buffer ++ (b'/' ∷ to_string p.length))
  ]
  prefix_to_string (v6 p) = elim (i.ntop_v6 p.network) [
    | none ↦ none
    | some buffer ↦ some (buffer ++ (b'/' ∷ to_string p.length))
  ]
