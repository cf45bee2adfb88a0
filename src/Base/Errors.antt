-- ===== src/Base/Errors.antt =====
-- `std::runtime_error` and the exceptions of the number parsers, as values.
use mathlib.Core.Path.{◌≡◌, refl}
use Prim.Native.Nat.{ℕ}
use package.asnprefix_map.Base.Lists.{Bytes}

-- One constructor for each `throw` of the modelled code; the data are what the message quotes. Two
-- are no `throw` of it: `json_out_of_range` is the exception of the JSON library for a number that
-- no `double` holds, and `undefined_shift` stands for a shift whose behaviour is not defined.
pub data Error : Type 0 where
  duplicate_peer_id unknown_peer_id : ℕ → Error
  duplicate_peer_identity malformed_peer_key : Bytes → Error
  missing_cidr_length invalid_cidr_length : Bytes → Error
  unable_to_infer_family unknown_family : Bytes → Error
  v4_length_out_of_range invalid_v4_prefix : Bytes → Error
  v6_length_out_of_range invalid_v6_prefix : Bytes → Error
  file_not_opened invalid_boolean unsupported_source : Bytes → Error
  unprintable_prefix : Error
  expected_snapshot_header data_before_section peer_line_fields observation_line_fields : ℕ → Error
  unknown_section_name repeated_peer_id : ℕ → Bytes → Error
  missing_snapshot_header : Error
  state_unknown_peer_id observation_unknown_peer_id : ℕ → Error
  invalid_argument out_of_range json_out_of_range undefined_shift : Error

pub data Result {ℓ} (A : Type ℓ) : Type ℓ where
  ok : A → Result A
  err : Error → Result A

infixl 5 ◌>>=◌
abbrev pub ◌>>=◌ {ℓ κ} : {T : Type ℓ} {U : Type κ} → Result T → (T → Result U) → Result U
err error >>= next = err error
ok value >>= next = next value

-- A chain that succeeds has succeeded at each step.
pub >>=-eq-ok {ℓ κ} :
    {T : Type ℓ} {U : Type κ} (first : Result T) (next : T → Result U) {last : U}
    → (first >>= next) ≡ ok last
    → (value : T) × (first ≡ ok value) × (next value ≡ ok last)
>>=-eq-ok (err error) next succeeds = cc
>>=-eq-ok (ok value) next succeeds = (value, refl, succeeds)

-- A chain whose second step always fails, fails.
pub >>=-err {ℓ κ} :
    {T : Type ℓ} {U : Type κ} (first : Result T) (next : T → Result U)
    → ((value : T) → (e : Error) × (next value ≡ err e))
    → (e : Error) × ((first >>= next) ≡ err e)
>>=-err (err e) next h = (e, refl)
>>=-err (ok value) next h = h value
