-- ===== src/Base/Sorting.antt =====
-- `std::sort` by a comparator, as an insertion sort, and what sorting keeps. Where the comparator
-- tells any two different values apart, every sort gives this list.
use mathlib.Core.Path.{◌≡◌, refl, ap, ◌∙◌}
use mathlib.Core.Logic.{inl, inr}
use mathlib.Core.Bool.{Bool}
use mathlib.Core.Option.{some}
use mathlib.Core.List.{List, [], ◌∷◌, map}
use native.Mathlib.Omega.{arith}
use package.asnprefix_map.Base.Tests.{Eq, ==-iff, if◌then◌else◌, Bool-cases}
use package.asnprefix_map.Base.Lists.{length, tally}
use package.asnprefix_map.Base.Map.{Map, find, Distinct}

module _ {ℓ} {A : Type ℓ} (before : A → A → Bool) where
  unfoldable pub insert_by : A → List A → List A
  insert_by x [] = x ∷ []
  insert_by x (y ∷ ys) = let rest = insert_by x ys in if before y x then y ∷ rest else x ∷ y ∷ ys

  unfoldable pub sort_by : List A → List A
  sort_by [] = []
  sort_by (x ∷ xs) = insert_by x (sort_by xs)

  tally-insert_by :
      (f : A → Bool) (x : A) (xs : List A) → tally f (insert_by x xs) ≡ tally f (x ∷ xs)
  unfolding insert_by
  tally-insert_by f x [] = refl
  tally-insert_by f x (y ∷ ys) = ground (arith, tally-insert_by f x ys)

  pub tally-sort_by : (f : A → Bool) (xs : List A) → tally f (sort_by xs) ≡ tally f xs
  unfolding sort_by
  tally-sort_by f [] = refl
  tally-sort_by f (x ∷ xs) = omega (arith, tally-insert_by f x (sort_by xs), tally-sort_by f xs)

  length-insert_by : (x : A) (xs : List A) → length (insert_by x xs) ≡ length (x ∷ xs)
  unfolding insert_by
  length-insert_by x [] = refl
  length-insert_by x (y ∷ ys) = ground (arith, length-insert_by x ys)

  pub length-sort_by : (xs : List A) → length (sort_by xs) ≡ length xs
  unfolding sort_by
  length-sort_by [] = refl
  length-sort_by (x ∷ xs) = omega (arith, length-insert_by x (sort_by xs), length-sort_by xs)

-- What holds of every element.
abbrev pub All {ℓ κ} : {A : Type ℓ} → (A → Type κ) → List A → Type κ
All P [] = Unit
All P (x ∷ xs) = P x × All P xs

module _ {ℓ κ} {A : Type ℓ} (before : A → A → Bool) (P : A → Type κ) where
  insert_by-All : (x : A) (xs : List A) → P x → All P xs → All P (insert_by before x xs)
  unfolding insert_by
  insert_by-All x [] p ps = (p, tt)
  insert_by-All x (y ∷ ys) p (q, qs) = elim (Bool-cases (before y x)) [
    | inl after ↦ rw after (q, insert_by-All x ys p qs)
    | inr first ↦ rw first (p, (q, qs))
  ]

  pub sort_by-All : (xs : List A) → All P xs → All P (sort_by before xs)
  unfolding sort_by
  sort_by-All [] ps = tt
  sort_by-All (x ∷ xs) (p, ps) = insert_by-All x (sort_by before xs) p (sort_by-All xs ps)

module _ {ℓ κ} {A : Type ℓ} {B : Type κ} (f : A → B) (before : B → B → Bool) where
  insert_by-map :
      (x : A) (xs : List A)
      → insert_by before (f x) (map f xs) ≡ map f (insert_by (λ a b. before (f a) (f b)) x xs)
  unfolding insert_by
  insert_by-map x [] = refl
  insert_by-map x (y ∷ ys) = elim (Bool-cases (before (f y) (f x))) [
    | inl after ↦ rw after (ap (◌∷◌ (f y)) (insert_by-map x ys))
    | inr first ↦ rw first
  ]

  -- To sort the images is to sort by the images.
  pub sort_by-map :
      (xs : List A) → sort_by before (map f xs) ≡ map f (sort_by (λ a b. before (f a) (f b)) xs)
  unfolding sort_by
  sort_by-map [] = refl
  sort_by-map (x ∷ xs) =
      ap (insert_by before (f x)) (sort_by-map xs) ∙ insert_by-map x (sort_by _ xs)

module _ {ℓ κ μ} {A : Type ℓ} {P : A → Type κ} {Q : A → Type μ} (f : (x : A) → P x → Q x) where
  pub All-mono : (xs : List A) → All P xs → All Q xs
  All-mono [] ps = tt
  All-mono (x ∷ xs) (p, ps) = (f x p, All-mono xs ps)

-- What holds of every key that is found holds of every entry.
pub All-find {ℓ κ μ} :
    {K : Type ℓ} {V : Type κ} ⦃e : Eq K⦄ (P : K → Type μ) (m : Map K V)
    → Distinct m
    → ((k : K) (v : V) → find k m ≡ some v → P k)
    → All (λ entry. P entry.0) m
unfolding find
All-find P [] d h = tt
All-find P ((j, w) ∷ m) (new, d) h = (
  h j w (ground (arith, ==-iff j j)),
  All-find P m d (λ k v there. h k v (ground (arith, there, new, ==-iff j k))),
)
