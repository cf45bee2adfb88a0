-- ===== src/Routing/Record/Winner.antt =====
-- What `recompute_selected_from_counts` looks for, whatever the order of the counters: the origin
-- with the most observations, and the smallest ASN among equals.
use asnprefix_map.Base.{
  ℕ, zero, suc, ◌≤◌, ◌≡◌, refl, ◌⊎◌, inl, inr, Option, none, some, [], ◌∷◌, arith, ◌==◌, nat_eq,
  Bool-cases,
}
use asnprefix_map.Base.Map.{Map, find, Distinct}
use asnprefix_map.Routing.Record.{is_better_selection, select_from}

-- `a`, with `c` observations, is the plurality of the counts `f`.
pub record IsWinner (f : ℕ → ℕ) (a c : ℕ) : Type 0 where
  pub attained : f a ≡ c
  pub most : (b : ℕ) → f b ≤ c
  pub least : (b : ℕ) → f b ≡ c → a ≤ b

-- A counter is kept for the origins that occur, and for no others.
abbrev pub positive : ℕ → Option ℕ
positive zero = none
positive (suc n) = some (suc n)

-- The pair `a, c` is as good as `b, d`.
abbrev AsGood : ℕ → ℕ → ℕ → ℕ → Type 0
AsGood a c b d = (d ≤ c) × (d ≡ c → a ≤ b)

select_from-AsGood_start :
    (m : Map ℕ ℕ) (a c : ℕ) → AsGood (select_from m a c).0 (select_from m a c).1 a c
unfolding select_from is_better_selection
select_from-AsGood_start [] a c = ground arith
select_from-AsGood_start ((b, d) ∷ m) a c =
    ground (arith, select_from-AsGood_start m b d, select_from-AsGood_start m a c)

select_from-AsGood :
    (m : Map ℕ ℕ) (a c b d : ℕ)
    → find b m ≡ some d
    → AsGood (select_from m a c).0 (select_from m a c).1 b d
unfolding select_from find is_better_selection
select_from-AsGood [] a c b d h = ground arith
select_from-AsGood ((b', d') ∷ m) a c b d h = ground (
  arith,
  select_from-AsGood m a c b d,
  select_from-AsGood m b' d' b d,
  select_from-AsGood_start m a c,
  select_from-AsGood_start m b' d',
)

select_from-found :
    (m : Map ℕ ℕ) (a c : ℕ)
    → Distinct m
    → (((select_from m a c).0 ≡ a) × ((select_from m a c).1 ≡ c))
      ⊎ (find (select_from m a c).0 m ≡ some (select_from m a c).1)
unfolding select_from find
select_from-found [] a c s = inl (refl, refl)
select_from-found ((b, d) ∷ m) a c s =
    ground (arith, select_from-found m b d s.1, select_from-found m a c s.1)

pub positive-eq_some : (n d : ℕ) → positive n ≡ some d → (n ≡ d) × (1 ≤ n)
positive-eq_some zero d h = ground arith
positive-eq_some (suc n) d h = ground arith

pub positive_of_pos : (n : ℕ) → 1 ≤ n → positive n ≡ some n
positive_of_pos zero h = absurd (omega arith)
positive_of_pos (suc n) h = refl

module _ (m : Map ℕ ℕ) (f : ℕ → ℕ) (a c : ℕ) (h : (b : ℕ) → find b m ≡ positive (f b)) where
  winner_attained :
      (((a ≡ 0) × (c ≡ 0)) ⊎ (find a m ≡ some c))
      → ((b d : ℕ) → find b m ≡ some d → AsGood a c b d)
      → f a ≡ c
  winner_attained (inl (e, z)) good = elim (Bool-cases (f a == 0)) [
    | inl n ↦ ground arith
    | inr p ↦ ground (arith, h a, positive_of_pos (f a), good a (f a))
  ]
  winner_attained (inr e) good = ground (arith, h a, positive-eq_some (f a) c)

  winner-AsGood :
      f a ≡ c
      → ((b d : ℕ) → find b m ≡ some d → AsGood a c b d)
      → (((a ≡ 0) × (c ≡ 0)) ⊎ (find a m ≡ some c))
      → (b : ℕ) → AsGood a c b (f b)
  winner-AsGood e good found b =
      ground (arith, h b, h a, positive_of_pos (f b), good b (f b), positive-eq_some (f a) c)

-- The scan finds the plurality of the counts that the map holds.
pub select_from-IsWinner :
    (m : Map ℕ ℕ) (f : ℕ → ℕ)
    → Distinct m
    → ((b : ℕ) → find b m ≡ positive (f b))
    → IsWinner f (select_from m 0 0).0 (select_from m 0 0).1
select_from-IsWinner m f s h =
    let found = select_from-found m 0 0 s in
    let good = select_from-AsGood m 0 0 in
    let attained = winner_attained m f _ _ h found good in
    record {
      attained = attained;
      most = λ b. (winner-AsGood m f _ _ h attained good found b).0;
      least = λ b. (winner-AsGood m f _ _ h attained good found b).1;
    }
