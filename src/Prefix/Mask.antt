-- ===== src/Prefix/Mask.antt =====
-- `apply_mask_v4` and `apply_mask_v6` of src/prefix/prefix.cpp.
use Prim.Native.Nat.{bit_and}
use mathlib.Core.Path.{ap₂}
use native.Mathlib.Nat.{div-add-mod', mul-mod_left}
use asnprefix_map.Base.Bits.{bit_and_high, power_split, factor-le, one-le-pow}
use asnprefix_map.Base.{
  ℕ, zero, suc, ◌+◌, ◌-◌, ◌*◌, ◌/◌, ◌%◌, ◌^◌, ◌≤◌, ◌<◌, min, ◌≡◌, refl, sym, ◌∙◌, ap, inl, inr,
  Bool-cases, false, ◌||◌, Option, none, some, [], ◌∷◌, arith, ltb, leb, ◌==◌, nat_eq,
  if◌then◌else◌, length, get_elem?, get_elem?-lt, get_elem?-total, Bytes,
}

-- `x << (a - b)` on a `uint32_t`; `none` is a shift by a negative number or by 32 and more, which
-- has no defined behaviour.
unfoldable pub shift_left32 : ℕ → ℕ → ℕ → Option ℕ
shift_left32 x a b = if ltb a b || leb 32 (a - b) then none else some ((x * 2 ^ (a - b)) % 2 ^ 32)

-- `none` is a call whose behaviour is not defined.
unfoldable pub apply_mask_v4 : ℕ → ℕ → Option ℕ
unfolding shift_left32
apply_mask_v4 network length =
    if length == 0 then some 0 else elim (shift_left32 0xFFFFFFFF 32 length) [
      | none ↦ none
      | some mask ↦ some (bit_and network mask)
    ]

-- The loop over the bytes; `bits_left` is what remains of the length.
unfoldable pub mask_bytes : Bytes → ℕ → Bytes
mask_bytes [] bits_left = []
mask_bytes (byte ∷ bytes) bits_left =
    let rest = mask_bytes bytes (if leb 8 bits_left then bits_left - 8 else 0) in
    if leb 8 bits_left
    then byte ∷ rest
    else if bits_left == 0
    then 0 ∷ rest
    else bit_and byte ((0xFF * 2 ^ (8 - bits_left)) % 2 ^ 8) ∷ rest

unfoldable pub apply_mask_v6 : Bytes → ℕ → Bytes
apply_mask_v6 network length = mask_bytes network length

mask_example : apply_mask_v4 0x0a0b0c0d 12 ≡ some 0x0a000000
unfolding apply_mask_v4
mask_example = refl

mask8 : (b : ℕ) → 1 ≤ b → b ≤ 256 → (255 * b) % 256 ≡ 256 - b
mask8 b h l = omega arith

mask32 : (b : ℕ) → 1 ≤ b → b ≤ 4294967296 → (4294967295 * b) % 4294967296 ≡ 4294967296 - b
mask32 b h l = omega arith

byte_mask_lem :
    (x b : ℕ) → x < 256 → b < 8 → bit_and x ((0xFF * 2 ^ (8 - b)) % 2 ^ 8) ≡ x - x % 2 ^ (8 - b)
byte_mask_lem x b h l =
    let split = power_split 8 b (omega arith) in
    let fits = factor-le 256 (2 ^ b) (2 ^ (8 - b)) (one-le-pow b) split in
    bit_and_high x _ 256 b (8 - b) split (mask8 (2 ^ (8 - b)) (one-le-pow (8 - b)) fits) h

-- For a 32-bit address and a length of at most 32, the mask of an IPv4 address is made without a
-- shift that has no defined behaviour, for length 0 too, and the result is the address with its
-- last `32 - length` bits cleared.
pub apply_mask_v4_lem :
    (network length : ℕ)
    → network < 2 ^ 32
    → length ≤ 32
    → apply_mask_v4 network length ≡ some (network - network % 2 ^ (32 - length))
unfolding apply_mask_v4
apply_mask_v4_lem network zero h l = ap some (omega arith)
apply_mask_v4_lem network (suc length) h l =
    let k = 32 - suc length in
    let split = power_split 32 (suc length) l in
    let fits = factor-le (2 ^ 32) (2 ^ suc length) (2 ^ k) (one-le-pow (suc length)) split in
    let nonzero : (suc length == 0) ≡ false = ground arith in
    let defined : (ltb 32 (suc length) || leb 32 k) ≡ false = ground arith in
    rw (nonzero, defined)
      (ap some (
        bit_and_high network _ (2 ^ 32) (suc length) k split (mask32 (2 ^ k) (one-le-pow k) fits)
          h))

-- A multiple of `m`: what is left of `n` when its remainder is taken away.
pub cleared-mod : (n m : ℕ) → (n - n % m) % m ≡ 0
cleared-mod n m =
    let cleared : n - n % m ≡ n / m * m = omega (arith, div-add-mod' n m) in
    rw cleared (mul-mod_left (n / m) m)

abbrev pub AreBytes : Bytes → Type 0
AreBytes [] = Unit {0}
AreBytes (x ∷ xs) = (x < 256) × AreBytes xs

-- How many of the last bits of byte `i` stand behind the first `length` bits of an address.
abbrev pub bits_behind : ℕ → ℕ → ℕ
bits_behind length' i = min 8 (8 * i + 8 - length')

-- No bit is set behind the first `length` bits.
abbrev pub ClearBehind : ℕ → Bytes → Type 0
ClearBehind length' bytes =
    (i byte : ℕ) → get_elem? bytes i ≡ some byte → byte % 2 ^ bits_behind length' i ≡ 0

mask_bytes-length : (xs : Bytes) (b : ℕ) → length (mask_bytes xs b) ≡ length xs
unfolding mask_bytes
mask_bytes-length [] b = refl
mask_bytes-length (x ∷ xs) b = ground (arith, mask_bytes-length xs (if leb 8 b then b - 8 else 0))

-- The byte that the loop is at.
mask_bytes-head :
    (x b : ℕ) (xs : Bytes)
    → x < 256
    → get_elem? (mask_bytes (x ∷ xs) b) 0 ≡ some (x - x % 2 ^ bits_behind b 0)
unfolding mask_bytes
mask_bytes-head x b xs small = elim (Bool-cases (leb 8 b)) [
  | inl whole ↦
      let none_behind : min 8 (8 * 0 + 8 - b) ≡ 0 = ground arith in
      rw (whole, none_behind) (ap some (omega arith))
  | inr part ↦ elim (Bool-cases (b == 0)) [
    | inl none_left ↦
        let all_behind : min 8 (8 * 0 + 8 - b) ≡ 8 = ground arith in
        rw (part, none_left, all_behind) (ap some (omega arith))
    | inr some_left ↦
        let some_behind : min 8 (8 * 0 + 8 - b) ≡ 8 - b = ground arith in
        rw (part, some_left, some_behind) (ap some (byte_mask_lem x b small (ground arith)))
  ]
]

-- The bytes behind it.
mask_bytes-tail :
    (x b i : ℕ) (xs : Bytes)
    → (get_elem? (mask_bytes (x ∷ xs) b) (suc i)
        ≡ get_elem? (mask_bytes xs (if leb 8 b then b - 8 else 0)) i)
      × (bits_behind (if leb 8 b then b - 8 else 0) i ≡ bits_behind b (suc i))
unfolding mask_bytes
mask_bytes-tail x b i xs = ground arith

mask_bytes_lem :
    (xs : Bytes) (b i byte : ℕ)
    → AreBytes xs
    → get_elem? xs i ≡ some byte
    → get_elem? (mask_bytes xs b) i ≡ some (byte - byte % 2 ^ bits_behind b i)
mask_bytes_lem [] b i byte v h = ground arith
mask_bytes_lem (x ∷ xs) b zero byte v h =
    let same : x ≡ byte = ground arith in rw (← same) (mask_bytes-head x b xs v.0)
mask_bytes_lem (x ∷ xs) b (suc i) byte v h =
    let (later, behind) = mask_bytes-tail x b i xs in
    let b' = if leb 8 b then b - 8 else 0 in
    later ∙ mask_bytes_lem xs b' i byte v.1 h ∙ ap (λ (n : ℕ). some (byte - byte % 2 ^ n)) behind

-- An IPv6 address of any number of bytes keeps that number under a mask, and each byte has its bits
-- that stand behind the first `length` bits of the address cleared, and its other bits as they were.
pub apply_mask_v6_lem :
    (network : Bytes) (length' : ℕ)
    → AreBytes network
    → (length (apply_mask_v6 network length') ≡ length network)
      × ((i byte : ℕ)
          → get_elem? network i ≡ some byte
          → get_elem? (apply_mask_v6 network length') i
            ≡ some (byte - byte % 2 ^ bits_behind length' i))
unfolding apply_mask_v6
apply_mask_v6_lem network length' v =
    (mask_bytes-length network length', λ i byte h. mask_bytes_lem network length' i byte v h)

-- Each byte of a list that is read at the indices of another.
AreBytes-get : (xs : Bytes) → ((i byte : ℕ) → get_elem? xs i ≡ some byte → byte < 256) → AreBytes xs
AreBytes-get [] h = tt
AreBytes-get (x ∷ xs) h = (h 0 x refl, AreBytes-get xs (λ i byte e. h (suc i) byte e))

get-AreBytes : (xs : Bytes) (i byte : ℕ) → AreBytes xs → get_elem? xs i ≡ some byte → byte < 256
get-AreBytes [] i byte v h = ground arith
get-AreBytes (x ∷ xs) zero byte v h = ground arith
get-AreBytes (x ∷ xs) (suc i) byte v h = get-AreBytes xs i byte v.1 h

some-injective : {x y : ℕ} → some x ≡ some y → x ≡ y
some-injective h = cc

-- What the mask leaves is made of bytes, and has no bit behind the length.
pub apply_mask_v6-ClearBehind :
    (network : Bytes) (length' : ℕ)
    → AreBytes network
    → AreBytes (apply_mask_v6 network length') × ClearBehind length' (apply_mask_v6 network length')
apply_mask_v6-ClearBehind network length' v =
    let (long, bytes) = apply_mask_v6_lem network length' v in
    let masked = apply_mask_v6 network length' in
    let from : (i byte : ℕ)
        → get_elem? masked i ≡ some byte
        → (old : ℕ) × (get_elem? network i ≡ some old)
          × (old - old % 2 ^ bits_behind length' i ≡ byte) =
      λ i byte h.
        let (old, e) =
          get_elem?-total network i (omega (arith, get_elem?-lt masked i byte h, long)) in
        (old, e, some-injective (sym (bytes i old e) ∙ h)) in
    (
      AreBytes-get masked (λ i byte h.
          let (old, e, same) = from i byte h in
          let small = get-AreBytes network i old v e in omega (arith, same)),
      λ i byte h.
          let (old, e, same) = from i byte h in
          rw (← same) (cleared-mod old (2 ^ bits_behind length' i)),
    )

eq_of_get :
    (xs ys : Bytes)
    → length xs ≡ length ys
    → ((i byte : ℕ) → get_elem? ys i ≡ some byte → get_elem? xs i ≡ some byte)
    → xs ≡ ys
eq_of_get [] [] e h = refl
eq_of_get [] (y ∷ ys) e h = absurd (omega arith)
eq_of_get (x ∷ xs) [] e h = absurd (omega arith)
eq_of_get (x ∷ xs) (y ∷ ys) e h =
    ap₂ ◌∷◌ (some-injective (h 0 y refl))
      (eq_of_get xs ys (omega arith) (λ i byte k. h (suc i) byte k))

-- An address with no bit behind the length is its own mask.
pub apply_mask_v6-fixed :
    (network : Bytes) (length' : ℕ)
    → AreBytes network
    → ClearBehind length' network
    → apply_mask_v6 network length' ≡ network
apply_mask_v6-fixed network length' v clear =
    let (long, bytes) = apply_mask_v6_lem network length' v in
    eq_of_get (apply_mask_v6 network length') network long
      (λ i byte h. bytes i byte h ∙ ap some (omega (arith, clear i byte h)))
