-- ===== src/Routing/Record/Counts.antt =====
-- The counters of `asn_counts` against the observations that they count.
use asnprefix_map.Base.{
  ℕ, zero, suc, ◌+◌, ◌-◌, ◌%◌, ◌^◌, ◌<◌, ◌≡◌, refl, inl, inr, Bool, none, some, List, [], ◌∷◌,
  arith, ◌==◌, nat_eq, ltb, Bool-cases, Option-cases, length, get_elem?, set, tally, bit, tally-set,
  tally-pop_back, length-set, length-pop_back, get_elem?-lt, get_elem?-total, get_elem?-set,
}
use asnprefix_map.Base.Map.{
  find, get_or, Distinct, find-assign, find-erase, assign-Distinct, erase-Distinct,
}
use asnprefix_map.Routing.Record.{
  Observation, PrefixRecord, increment_asn_count, decrement_asn_count, find_observation,
  remove_packed,
}
use asnprefix_map.Routing.Record.Winner.{positive, positive_of_pos}

abbrev pub of_asn : ℕ → Observation → Bool
of_asn asn o = o.origin_asn == asn

abbrev pub of_peer : ℕ → Observation → Bool
of_peer peer_id o = o.peer_id == peer_id

-- How many peers see the origin.
abbrev pub origins : PrefixRecord → ℕ → ℕ
origins r asn = tally (of_asn asn) r.observations

-- The counters are those of `f`.
pub record Counts (r : PrefixRecord) (f : ℕ → ℕ) : Type 0 where
  pub keys : Distinct r.asn_counts
  pub values : (asn : ℕ) → find asn r.asn_counts ≡ positive (f asn)

get_or-positive : (n : ℕ) → get_or 0 (positive n) ≡ n
get_or-positive zero = refl
get_or-positive (suc n) = refl

positive_zero : (n : ℕ) → n ≡ 0 → positive n ≡ none
positive_zero n h = rw h

decrement_keys :
    (r : PrefixRecord) (asn : ℕ)
    → Distinct r.asn_counts
    → Distinct (decrement_asn_count r asn).0.asn_counts
unfolding decrement_asn_count
decrement_keys r asn d = elim (Option-cases (find asn r.asn_counts)) [
  | inl e ↦ rw (e, decrement_asn_count) d
  | inr (n, e) ↦
      rw (e, decrement_asn_count)
        (elim (Bool-cases (ltb 1 n)) [
          | inl t ↦ rw t (assign-Distinct asn (n - 1) r.asn_counts d)
          | inr t ↦ rw t (erase-Distinct asn r.asn_counts d)
        ])
]

-- One observation of `asn` fewer.
pub decrement-Counts :
    (r : PrefixRecord) (f g : ℕ → ℕ) (asn : ℕ)
    → Counts r f
    → ((b : ℕ) → g b + bit (asn == b) ≡ f b)
    → Counts (decrement_asn_count r asn).0 g
unfolding decrement_asn_count
decrement-Counts r f g asn v h = record {
  keys = decrement_keys r asn v.keys;
  values = λ b.
      let present = positive_of_pos (f asn) (ground (arith, h asn)) in
      ground (
        arith,
        h b,
        h asn,
        v.values asn,
        v.values b,
        present,
        find-assign asn b (f asn - 1) r.asn_counts,
        find-erase asn b r.asn_counts v.keys,
        positive_of_pos (g b),
        positive_zero (g b),
      );
}

-- One observation of `asn` more, and the new count is returned.
pub increment-Counts :
    (r : PrefixRecord) (f g : ℕ → ℕ) (asn : ℕ)
    → Counts r f
    → f asn + 1 < 2 ^ 32
    → ((b : ℕ) → g b ≡ f b + bit (asn == b))
    → Counts (increment_asn_count r asn).0 g × ((increment_asn_count r asn).1 ≡ g asn)
unfolding increment_asn_count
increment-Counts r f g asn v small h =
    (record { keys = assign-Distinct asn _ r.asn_counts v.keys; values = values }, rw old new)
  where
    old : get_or 0 (find asn r.asn_counts) ≡ f asn
    old = rw (v.values asn) (get_or-positive (f asn))

    new : (f asn + 1) % 2 ^ 32 ≡ g asn
    new = ground (arith, h asn)

    values : (b : ℕ) → find b (increment_asn_count r asn).0.asn_counts ≡ positive (g b)
    values b =
        rw (old, new, find-assign asn b (g asn) r.asn_counts)
          (ground (arith, h b, h asn, v.values b, positive_of_pos (g b)))

pub find_observation-some :
    (peer_id : ℕ) (os : List Observation) (index : ℕ) (o : Observation)
    → find_observation peer_id os ≡ some (index, o)
    → (get_elem? os index ≡ some o) × (o.peer_id ≡ peer_id)
unfolding find_observation
find_observation-some peer_id [] index o h = ground arith
find_observation-some peer_id (x ∷ os) zero o h = ground arith
find_observation-some peer_id (x ∷ os) (suc index) o h =
    ground (arith, find_observation-some peer_id os index o)

pub find_observation-none :
    (peer_id : ℕ) (os : List Observation)
    → find_observation peer_id os ≡ none
    → tally (of_peer peer_id) os ≡ 0
unfolding find_observation
find_observation-none peer_id [] h = refl
find_observation-none peer_id (x ∷ os) h = ground (arith, find_observation-none peer_id os)

module _ {ℓ} {A : Type ℓ} (xs : List A) (index : ℕ) (old : A)
    (h : get_elem? xs index ≡ some old) where
  last_total : (back : A) × (get_elem? xs (length xs - 1) ≡ some back)
  last_total = get_elem?-total xs (length xs - 1) (omega (arith, get_elem?-lt xs index old h))

  pub length-remove_packed : length (remove_packed xs index) + 1 ≡ length xs
  unfolding remove_packed
  length-remove_packed =
      let (back, e) = last_total in
      ground (
        arith,
        e,
        get_elem?-lt xs index old h,
        length-pop_back xs,
        length-pop_back (set xs index back),
        length-set xs index back,
      )

  -- Exactly the element at the index is gone.
  pub tally-remove_packed :
      (f : A → Bool) → tally f (remove_packed xs index) + bit (f old) ≡ tally f xs
  unfolding remove_packed
  tally-remove_packed f =
      let (back, e) = last_total in
      let last = length xs - 1 in
      let short = length-set xs index back in
      ground (
        arith,
        e,
        get_elem?-lt xs index old h,
        tally-pop_back f xs last back (omega (arith, get_elem?-lt xs index old h)) e,
        tally-set f xs index old back h,
        get_elem?-set xs index last back,
        tally-pop_back f (set xs index back) last back
            (omega (arith, get_elem?-lt xs index old h, short)),
      )
