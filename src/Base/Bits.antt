-- ===== src/Base/Bits.antt =====
-- `bit_and` with a mask of `j` ones in front of `k` zeros.
use Prim.Native.Nat.{
  ℕ, zero, suc, ◌+◌, ◌-◌, ◌*◌, ◌/◌, ◌%◌, ◌^◌, ◌≤◌, ◌<◌, min, bit_and, digits, bit_and-bitwise,
}
use mathlib.Core.Path.{◌≡◌, refl, sym, ◌∙◌, ap}
use native.Mathlib.Omega.{arith}
use native.Mathlib.Nat.{pow-suc, div-add-mod', mod-lt}

-- The recursion over the binary digits that the native operation stands for.
abbrev and_digits : ℕ → ℕ → ℕ → ℕ
and_digits n a b = digits (λ b. zero) min n a b

-- More fuel than the first number has digits changes nothing.
and_digits-fuel : (n m x y : ℕ) → x ≤ n → x ≤ m → and_digits n x y ≡ and_digits m x y
and_digits-fuel zero zero x y p q = refl
and_digits-fuel zero (suc m) (suc x) y p q = absurd (omega arith)
and_digits-fuel zero (suc m) zero y p q = refl
and_digits-fuel (suc n) zero (suc x) y p q = absurd (omega arith)
and_digits-fuel (suc n) zero zero y p q = refl
and_digits-fuel (suc n) (suc m) zero y p q = refl
and_digits-fuel (suc n) (suc m) (suc x) y p q =
    omega (arith, and_digits-fuel n m (suc x / 2) (y / 2) (omega arith) (omega arith))

-- The lowest digit, and the others.
bit_and_step : (x y : ℕ) → bit_and x y ≡ bit_and (x / 2) (y / 2) * 2 + min (x % 2) (y % 2)
bit_and_step zero y = omega (arith, bit_and-bitwise 0 (y / 2), bit_and-bitwise 0 y)
bit_and_step (suc x) y =
    let half = suc x / 2 in
    let enough = and_digits-fuel x half half (y / 2) (omega arith) (omega arith) in
    omega (arith, bit_and-bitwise (suc x) y, bit_and-bitwise half (y / 2), enough)

pub one-le-pow : (k : ℕ) → 1 ≤ 2 ^ k
one-le-pow zero = omega arith
one-le-pow (suc k) = omega (arith, one-le-pow k, pow-suc 2 k)

-- Below a mask of ones, `a` is given by its digits.
bit_and_zero : (n a : ℕ) → a ≤ n → bit_and a 0 ≡ 0
bit_and_zero n zero h = bit_and-bitwise 0 0
bit_and_zero zero (suc a) h = absurd (omega arith)
bit_and_zero (suc n) (suc a) h =
    omega (arith, bit_and_step (suc a) 0, bit_and_zero n (suc a / 2) (omega arith))

double : (m x y : ℕ) → y ≡ x * 2 → m * y ≡ m * x * 2
double m x y e = omega (arith, ap (λ (t : ℕ). m * t) e)

half_sum : (a b low : ℕ) → a ≡ b * 2 → (a + low) / 2 ≡ b + low / 2
half_sum a b low e = omega arith

even_min : (a b c d e : ℕ) → b ≡ c * 2 → e ≡ d * 2 → d * 2 + min (a % 2) (b % 2) ≡ e
even_min a b c d e p q = omega arith

by_halves :
    (a b a' b' c' c : ℕ)
    → a / 2 ≡ a'
    → b / 2 ≡ b'
    → bit_and a' b' ≡ c'
    → c' * 2 + min (a % 2) (b % 2) ≡ c
    → bit_and a b ≡ c
by_halves a b a' b' c' c p q e h = bit_and_step a b ∙ rw (p, q, e) h

bit_and_ones : (j q r : ℕ) → r < 2 ^ j → bit_and (q * 2 ^ j + r) (2 ^ j - 1) ≡ r
bit_and_ones zero q r h = bit_and_zero (q * 1 + r) (q * 1 + r) (omega arith) ∙ omega arith
bit_and_ones (suc j) q r h =
    let x = pow-suc 2 j in
    let pos = one-le-pow j in
    by_halves (q * 2 ^ suc j + r) (2 ^ suc j - 1) (q * 2 ^ j + r / 2) (2 ^ j - 1) (r / 2) r
      (omega (arith, ap (λ (t : ℕ). q * t) x)) (omega (arith, x, pos))
      (bit_and_ones j q (r / 2) (omega (arith, x))) (omega (arith, x, pos, ap (λ (t : ℕ). q * t) x))

-- The mask keeps `j` digits from the `k`-th on.
pub bit_and_field :
    (k j q r low : ℕ)
    → r < 2 ^ j
    → low < 2 ^ k
    → bit_and ((q * 2 ^ j + r) * 2 ^ k + low) ((2 ^ j - 1) * 2 ^ k) ≡ r * 2 ^ k
bit_and_field zero j q r low h l =
    let exact : (q * 2 ^ j + r) * 1 + low ≡ q * 2 ^ j + r = omega arith in
    let ones : (2 ^ j - 1) * 1 ≡ 2 ^ j - 1 = omega arith in
    rw (exact, ones) (bit_and_ones j q r h ∙ omega arith)
bit_and_field (suc k) j q r low h l =
    let m = q * 2 ^ j + r in
    let n = 2 ^ j - 1 in
    let x = pow-suc 2 k in
    let dm = double m (2 ^ k) (2 ^ suc k) x in
    let dn = double n (2 ^ k) (2 ^ suc k) x in
    let dr = double r (2 ^ k) (2 ^ suc k) x in
    by_halves (m * 2 ^ suc k + low) (n * 2 ^ suc k) (m * 2 ^ k + low / 2) (n * 2 ^ k) (r * 2 ^ k)
      (r * 2 ^ suc k) (half_sum _ _ low dm) (omega (arith, dn))
      (bit_and_field k j q r (low / 2) h (omega (arith, x))) (even_min _ _ _ _ _ dn dr)

pub pow_add : (j k : ℕ) → 2 ^ (j + k) ≡ 2 ^ j * 2 ^ k
pow_add zero k = ap (λ (t : ℕ). 2 ^ t) (zero-plus k) ∙ omega arith
  where
    zero-plus : (k : ℕ) → 0 + k ≡ k
    zero-plus k = omega arith
pow_add (suc j) k = omega (
  arith,
  ap (λ (t : ℕ). 2 ^ t) (suc-add j k),
  pow-suc 2 (j + k),
  pow_add j k,
  ap (λ (t : ℕ). t * 2 ^ k) (pow-suc 2 j),
)
  where
    suc-add : (j k : ℕ) → suc j + k ≡ suc (j + k)
    suc-add j k = omega arith

lt_of_mul-lt : (a b c : ℕ) → a * c < b * c → a < b
lt_of_mul-lt a b c h = grind arith

mask_product : (mask w a b : ℕ) → 1 ≤ a → w ≡ a * b → mask ≡ w - b → (a - 1) * b ≡ mask
mask_product mask w zero b h e f = absurd (omega arith)
mask_product mask w (suc a) b h e f =
    let one_less : suc a - 1 ≡ a = omega arith in rw one_less (omega arith)

of_field :
    (n mask r low x y : ℕ)
    → r * y + low ≡ n
    → (x - 1) * y ≡ mask
    → bit_and ((0 * x + r) * y + low) ((x - 1) * y) ≡ r * y
    → bit_and n mask ≡ n - low
of_field n mask r low x y p q h =
    let whole : (0 * x + r) * y + low ≡ n = omega arith in
    ap (λ t. bit_and t mask) (sym whole)
    ∙ ap (bit_and ((0 * x + r) * y + low)) (sym q)
    ∙ h
    ∙ omega arith

-- The mask whose ones reach up to the width clears the digits below `k`.
pub bit_and_high :
    (n mask w j k : ℕ)
    → w ≡ 2 ^ j * 2 ^ k
    → mask ≡ w - 2 ^ k
    → n < w
    → bit_and n mask ≡ n - n % 2 ^ k
bit_and_high n mask w j k split ones small =
    let parts = div-add-mod' n (2 ^ k) in
    let low = mod-lt n (one-le-pow k) in
    let high = lt_of_mul-lt (n / 2 ^ k) (2 ^ j) (2 ^ k) (omega arith) in
    let field = bit_and_field k j 0 (n / 2 ^ k) (n % 2 ^ k) high low in
    of_field n mask (n / 2 ^ k) (n % 2 ^ k) (2 ^ j) (2 ^ k) parts
      (mask_product mask w (2 ^ j) (2 ^ k) (one-le-pow j) split ones) field

pub power_split : (w k : ℕ) → k ≤ w → 2 ^ w ≡ 2 ^ k * 2 ^ (w - k)
power_split w k h =
    let sum : w ≡ k + (w - k) = omega arith in ap (λ (t : ℕ). 2 ^ t) sum ∙ pow_add k (w - k)

pub factor-le : (w a b : ℕ) → 1 ≤ a → w ≡ a * b → b ≤ w
factor-le w zero b h e = absurd (omega arith)
factor-le w (suc a) b h e = omega arith
