-- ===== src/Base/Lists.antt =====
-- Vectors as lists: reads and writes by index, removal of the last element, and counting.
use Prim.Native.Nat.{ℕ, zero, suc, ◌+◌, ◌-◌, ◌<◌, ◌≤◌}
use mathlib.Core.Path.{◌≡◌, refl, ap}
use mathlib.Core.Bool.{Bool, true, false}
use mathlib.Core.List.{List, [], ◌∷◌, ◌++◌}
use mathlib.Core.Option.{Option, none, some}
use native.Mathlib.Omega.{arith}
use package.asnprefix_map.Base.Tests.{nat_beq, if◌then◌else◌}

abbrev pub Bytes : Type 0
Bytes = List ℕ

abbrev pub bit : Bool → ℕ
bit true = 1
bit false = 0

module _ {ℓ} {A : Type ℓ} where
  abbrev pub length : List A → ℕ
  length [] = 0
  length (x ∷ xs) = suc (length xs)

  abbrev pub is_empty : List A → Bool
  is_empty [] = true
  is_empty (x ∷ xs) = false

  abbrev pub get_elem? : List A → ℕ → Option A
  get_elem? [] i = none
  get_elem? (x ∷ xs) zero = some x
  get_elem? (x ∷ xs) (suc i) = get_elem? xs i

  -- A write out of bounds changes nothing.
  abbrev pub set : List A → ℕ → A → List A
  set [] i v = []
  set (x ∷ xs) zero v = v ∷ xs
  set (x ∷ xs) (suc i) v = x ∷ set xs i v

  abbrev pub pop_back : List A → List A
  pop_back [] = []
  pop_back (x ∷ []) = []
  pop_back (x ∷ y ∷ xs) = x ∷ pop_back (y ∷ xs)

  -- How many elements pass a test.
  abbrev pub tally : (A → Bool) → List A → ℕ
  tally f [] = 0
  tally f (x ∷ xs) = bit (f x) + tally f xs

module _ {ℓ} {A : Type ℓ} where
  pub length_pos : (xs : List A) → is_empty xs ≡ false → 1 ≤ length xs
  length_pos [] h = ground arith
  length_pos (x ∷ xs) h = omega arith

  pub length-append : (xs ys : List A) → length (xs ++ ys) ≡ length xs + length ys
  length-append [] ys = omega arith
  length-append (x ∷ xs) ys = omega (arith, length-append xs ys)

  pub length-set : (xs : List A) (i : ℕ) (v : A) → length (set xs i v) ≡ length xs
  length-set [] i v = refl
  length-set (x ∷ xs) zero v = refl
  length-set (x ∷ xs) (suc i) v = ap suc (length-set xs i v)

  pub length-pop_back : (xs : List A) → length (pop_back xs) ≡ length xs - 1
  length-pop_back [] = omega arith
  length-pop_back (x ∷ []) = omega arith
  length-pop_back (x ∷ y ∷ xs) = omega (arith, length-pop_back (y ∷ xs))

  pub get_elem?-lt : (xs : List A) (i : ℕ) (x : A) → get_elem? xs i ≡ some x → i < length xs
  get_elem?-lt [] i x h = ground arith
  get_elem?-lt (y ∷ xs) zero x h = omega arith
  get_elem?-lt (y ∷ xs) (suc i) x h = omega (arith, get_elem?-lt xs i x h)

  pub get_elem?-total : (xs : List A) (i : ℕ) → i < length xs → (x : A) × (get_elem? xs i ≡ some x)
  get_elem?-total [] i h = absurd (omega arith)
  get_elem?-total (y ∷ xs) zero h = (y, refl)
  get_elem?-total (y ∷ xs) (suc i) h = get_elem?-total xs i (omega arith)

  pub get_elem?-set :
      (xs : List A) (i j : ℕ) (v : A)
      → i < length xs
      → get_elem? (set xs i v) j ≡ (if nat_beq i j then some v else get_elem? xs j)
  get_elem?-set [] i j v h = absurd (omega arith)
  get_elem?-set (x ∷ xs) zero zero v h = refl
  get_elem?-set (x ∷ xs) zero (suc j) v h = ground arith
  get_elem?-set (x ∷ xs) (suc i) zero v h = ground arith
  get_elem?-set (x ∷ xs) (suc i) (suc j) v h = ground (arith, get_elem?-set xs i j v (omega arith))

  pub tally-le-length : (f : A → Bool) (xs : List A) → tally f xs ≤ length xs
  tally-le-length f [] = omega arith
  tally-le-length f (x ∷ xs) = ground (arith, tally-le-length f xs)

  pub tally-append : (f : A → Bool) (xs ys : List A) → tally f (xs ++ ys) ≡ tally f xs + tally f ys
  tally-append f [] ys = omega arith
  tally-append f (x ∷ xs) ys = omega (arith, tally-append f xs ys)

  -- A write exchanges one element for another.
  pub tally-set :
      (f : A → Bool) (xs : List A) (i : ℕ) (old new : A)
      → get_elem? xs i ≡ some old
      → tally f (set xs i new) + bit (f old) ≡ tally f xs + bit (f new)
  tally-set f [] i old new h = ground arith
  tally-set f (x ∷ xs) zero old new h = ground arith
  tally-set f (x ∷ xs) (suc i) old new h = omega (arith, tally-set f xs i old new h)

  pub tally-pop_back :
      (f : A → Bool) (xs : List A) (last : ℕ) (back : A)
      → length xs ≡ suc last
      → get_elem? xs last ≡ some back
      → tally f (pop_back xs) + bit (f back) ≡ tally f xs
  tally-pop_back f [] last back e h = absurd (omega arith)
  tally-pop_back f (x ∷ []) zero back e h = ground arith
  tally-pop_back f (x ∷ []) (suc last) back e h = absurd (omega arith)
  tally-pop_back f (x ∷ y ∷ xs) zero back e h = absurd (omega arith)
  tally-pop_back f (x ∷ y ∷ xs) (suc last) back e h =
      omega (arith, tally-pop_back f (y ∷ xs) last back (omega arith) h)

-- Two vectors read at each index.
unfoldable pub pair_up {ℓ κ} : {A : Type ℓ} {B : Type κ} → List A → List B → List (A × B)
pair_up (a ∷ xs) (b ∷ ys) = (a, b) ∷ pair_up xs ys
pair_up _ _ = []
