-- ===== src/Base/Map.antt =====
-- `std::unordered_map` as an association list: `find`, `operator[]` on the left of an assignment,
-- `erase` and `size`. The order of the list stands for the order in which a loop meets the entries.
use Prim.Native.Nat.{suc, ◌+◌}
use mathlib.Core.Path.{◌≡◌, refl, sym, ◌∙◌, subst}
use mathlib.Core.Logic.{inl, inr}
use mathlib.Core.Bool.{Bool, true, false}
use mathlib.Core.List.{List, [], ◌∷◌, ◌++◌}
use mathlib.Core.Option.{Option, none, some}
use native.Mathlib.Omega.{arith}
use package.asnprefix_map.Base.Tests.{Eq, ◌==◌, ==-iff, if◌then◌else◌, Bool-cases}
use package.asnprefix_map.Base.Lists.{length}

abbrev pub Map {ℓ κ} : Type ℓ → Type κ → Type (ℓ ⊔ κ)
Map K V = List (K × V)

abbrev pub get_or {ℓ} : {A : Type ℓ} → A → Option A → A
get_or a none = a
get_or a (some b) = b

abbrev pub is_present {ℓ} : {A : Type ℓ} → Option A → Bool
is_present none = false
is_present (some a) = true

module _ {ℓ κ} {K : Type ℓ} {V : Type κ} ⦃e : Eq K⦄ where
  unfoldable pub find : K → Map K V → Option V
  find k [] = none
  find k ((j, v) ∷ m) = if j == k then some v else find k m

  unfoldable pub assign : K → V → Map K V → Map K V
  assign k v [] = (k, v) ∷ []
  assign k v ((j, w) ∷ m) = if j == k then (k, v) ∷ m else (j, w) ∷ assign k v m

  unfoldable pub erase : K → Map K V → Map K V
  erase k [] = []
  erase k ((j, w) ∷ m) = if j == k then m else (j, w) ∷ erase k m

  -- Every key stands once.
  abbrev pub Distinct : Map K V → Type κ
  Distinct [] = Unit
  Distinct ((k, v) ∷ m) = (find k m ≡ none) × Distinct m

module _ {ℓ κ} {K : Type ℓ} {V : Type κ} ⦃e : Eq K⦄ where
  pub find-assign :
      (k j : K) (v : V) (m : Map K V)
      → find j (assign k v m) ≡ (if k == j then some v else find j m)
  unfolding find assign
  find-assign k j v [] = refl
  find-assign k j v ((i, w) ∷ m) =
      ground (arith, ==-iff i k, ==-iff i j, ==-iff k j, find-assign k j v m)

  pub assign-Distinct : (k : K) (v : V) (m : Map K V) → Distinct m → Distinct (assign k v m)
  unfolding find assign
  assign-Distinct k v [] d = (refl, tt)
  assign-Distinct k v ((i, w) ∷ m) d =
      ground (arith, ==-iff i k, ==-iff k i, find-assign k i v m, assign-Distinct k v m d.1)

  pub find-erase :
      (k j : K) (m : Map K V)
      → Distinct m
      → find j (erase k m) ≡ (if k == j then none else find j m)
  unfolding find erase
  find-erase k j [] d = ground arith
  find-erase k j ((i, w) ∷ m) d =
      ground (arith, ==-iff i k, ==-iff i j, ==-iff k j, find-erase k j m d.1)

  pub erase-Distinct : (k : K) (m : Map K V) → Distinct m → Distinct (erase k m)
  unfolding find erase
  erase-Distinct k [] d = tt
  erase-Distinct k ((i, w) ∷ m) d = ground (arith, find-erase k i m d.1, erase-Distinct k m d.1)

  pub length-assign :
      (k : K) (v : V) (m : Map K V)
      → length (assign k v m) ≡ (if is_present (find k m) then length m else suc (length m))
  unfolding find assign
  length-assign k v [] = refl
  length-assign k v ((i, w) ∷ m) = ground (arith, length-assign k v m)

  pub length-erase :
      (k : K) (m : Map K V)
      → length (erase k m) + (if is_present (find k m) then 1 else 0) ≡ length m
  unfolding find erase
  length-erase k [] = ground arith
  length-erase k ((i, w) ∷ m) = ground (arith, length-erase k m)

-- A key that is new goes to the end.
module _ {ℓ κ} {K : Type ℓ} {V : Type κ} ⦃e : Eq K⦄ where
  pub assign_new : (k : K) (v : V) (m : Map K V) → find k m ≡ none → assign k v m ≡ m ++ (k, v) ∷ []
  unfolding find assign
  assign_new k v [] h = refl
  assign_new k v ((j, w) ∷ m) h = ground (arith, assign_new k v m)

  pub assign_self : (k : K) (v : V) (m : Map K V) → find k m ≡ some v → assign k v m ≡ m
  unfolding find assign
  assign_self k v [] h = cc
  assign_self k v ((j, w) ∷ m) h = ground (arith, assign_self k v m, ==-iff j k)

-- What holds of every value of a map.
module _ {ℓ κ μ} {K : Type ℓ} {V : Type κ} ⦃e : Eq K⦄ (P : V → Type μ) (k : K) (m : Map K V)
    (h : (j : K) (w : V) → find j m ≡ some w → P w) where
  pub assign-all : (v : V) → P v → (j : K) (w : V) → find j (assign k v m) ≡ some w → P w
  assign-all v p j w f =
      let f' : (if k == j then some v else find j m) ≡ some w = sym (find-assign k j v m) ∙ f in
      elim (Bool-cases (k == j)) [
        | inl same ↦ subst P (ground (arith, f', same)) p
        | inr other ↦ h j w (ground (arith, f', other))
      ]

  pub erase-all : Distinct m → (j : K) (w : V) → find j (erase k m) ≡ some w → P w
  erase-all d j w f =
      let f' : (if k == j then none else find j m) ≡ some w = sym (find-erase k j m d) ∙ f in
      h j w (ground (arith, f'))

-- Maps with the same keys have as many entries.
pub length_of_same_keys {ℓ κ μ} :
    {K : Type ℓ} {V : Type κ} {W : Type μ} ⦃e : Eq K⦄ (m : Map K V) (n : Map K W)
    → Distinct m
    → Distinct n
    → ((k : K) → is_present (find k m) ≡ is_present (find k n))
    → length m ≡ length n
unfolding find
length_of_same_keys [] [] d c h = refl
length_of_same_keys [] ((k, w) ∷ n) d c h = absurd (ground (arith, h k, ==-iff k k))
length_of_same_keys ((k, v) ∷ m) n d c h =
    let shorter = length-erase k n in
    let rest =
      length_of_same_keys m (erase k n) d.1 (erase-Distinct k n c)
        (λ j. ground (arith, h j, h k, find-erase k j n c, ==-iff k j, ==-iff k k, d.0)) in
    ground (arith, shorter, rest, h k, ==-iff k k)
