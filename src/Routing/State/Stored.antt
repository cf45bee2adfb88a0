-- ===== src/Routing/State/Stored.antt =====
-- `stored_observations` lists each entry of a sound state once, in whatever order.
use asnprefix_map.Base.{
  ℕ, ◌≤◌, ◌≡◌, refl, sym, ◌∙◌, inl, inr, Bool, true, false, ◌&&◌, none, some, List, [], ◌∷◌, arith,
  Eq, ◌==◌, ==-iff, if◌then◌else◌, nat_eq, Bool-cases, map, tally, tally-append, pair_up,
}
use asnprefix_map.Base.Map.{Map, find, get_or, Distinct}
use asnprefix_map.Base.Sorting.{All, All-mono}
use asnprefix_map.Prefix.{BinaryPrefix, v4, v6, v4_eq, v6_eq, binary_eq}
use asnprefix_map.Routing.Record.{Observation, PrefixRecord, empty_record}
use asnprefix_map.Routing.Record.Counts.{of_peer}
use asnprefix_map.Routing.Record.Consistency.{IsTallied}
use asnprefix_map.Routing.Record.View.{
  peer_entry, seen, is_entry, peer_entry_absent, peer_entry_present, peer_entry_unique,
  tally-pair_up,
}
use asnprefix_map.Routing.Table.Refinement.{observed as table_observed}
use asnprefix_map.Routing.Table.Soundness.{record_of-IsConsistent}
use asnprefix_map.Routing.State.{
  RoutingState, StoredObservation, append_stored_observations, stored_observations,
}
use asnprefix_map.Routing.State.Families.{BothSound, record_at, observed}

-- An observation of the prefix that passes a test.
abbrev pub stored_as : BinaryPrefix → (Observation × ℕ → Bool) → StoredObservation → Bool
stored_as b g e = e.prefix == b && g (e.observation, e.timestamp)

module _ {K : Type 0} ⦃e : Eq K⦄ (wrap : K → BinaryPrefix) (b : BinaryPrefix)
    (g : Observation × ℕ → Bool) where
  tally_one :
      (j : K) (zs : List (Observation × ℕ))
      → tally
          (stored_as b g)
          (map (λ z. record { prefix = wrap j; observation = z.0; timestamp = z.1 }) zs)
        ≡ (if wrap j == b then tally g zs else 0)
  tally_one j [] = ground arith
  tally_one j (z ∷ zs) = ground (arith, tally_one j zs)

  -- No prefix of the map is the one asked for.
  tally_other :
      (m : Map K PrefixRecord)
      → ((j : K) → (wrap j == b) ≡ false)
      → tally (stored_as b g) (append_stored_observations wrap m) ≡ 0
  unfolding append_stored_observations
  tally_other [] h = refl
  tally_other ((j, r) ∷ m) h =
      let zs = pair_up r.observations r.timestamps in
      let here = tally_one j zs in
      let split =
        tally-append (stored_as b g)
          (map (λ z. record { prefix = wrap j; observation = z.0; timestamp = z.1 }) zs)
          (append_stored_observations wrap m) in
      ground (arith, here, split, h j, tally_other m h)

  tally_own :
      (k : K) (m : Map K PrefixRecord)
      → Distinct m
      → ((j : K) → (wrap j == b) ≡ (j == k))
      → tally (stored_as b g) (append_stored_observations wrap m)
        ≡ (let r = get_or empty_record (find k m) in tally g (pair_up r.observations r.timestamps))
  unfolding append_stored_observations find pair_up
  tally_own k [] d h = refl
  tally_own k ((j, r) ∷ m) (new, d) h =
      let zs = pair_up r.observations r.timestamps in
      let here = tally_one j zs in
      let split =
        tally-append (stored_as b g)
          (map (λ z. record { prefix = wrap j; observation = z.0; timestamp = z.1 }) zs)
          (append_stored_observations wrap m) in
      let rest = tally_own k m d h in
      elim (Bool-cases (j == k)) [
        | inl same ↦
            let gone : find k m ≡ none = ground (arith, new, same, ==-iff j k) in
            rw same (omega (arith, split, rw (h j ∙ same) at here, rw gone at rest))
        | inr other ↦ rw other (omega (arith, split, rw (h j ∙ other) at here, rest))
      ]

-- The observations of a prefix that are stored are those of its record.
stored_tally :
    (s : RoutingState) (k : BinaryPrefix) (g : Observation × ℕ → Bool)
    → BothSound s
    → tally (stored_as k g) (stored_observations s)
      ≡ tally g (pair_up (record_at s k).observations (record_at s k).timestamps)
unfolding stored_observations
stored_tally s (v4 x) g v =
    let split =
      tally-append (stored_as (v4 x) g) (append_stored_observations v4 s.table_v4.by_prefix)
        (append_stored_observations v6 s.table_v6.by_prefix) in
    let own = tally_own v4 (v4 x) g x s.table_v4.by_prefix v.sound_v4.keys (λ j. refl) in
    let other = tally_other v6 (v4 x) g s.table_v6.by_prefix (λ j. refl) in
    omega (arith, split, own, other)
stored_tally s (v6 x) g v =
    let split =
      tally-append (stored_as (v6 x) g) (append_stored_observations v4 s.table_v4.by_prefix)
        (append_stored_observations v6 s.table_v6.by_prefix) in
    let own = tally_own v6 (v6 x) g x s.table_v6.by_prefix v.sound_v6.keys (λ j. refl) in
    let other = tally_other v4 (v6 x) g s.table_v4.by_prefix (λ j. refl) in
    omega (arith, split, own, other)

record_at-IsTallied :
    (s : RoutingState) (k : BinaryPrefix) → BothSound s → IsTallied (record_at s k)
record_at-IsTallied s (v4 x) v = (record_of-IsConsistent s.table_v4 x v.sound_v4).tallied
record_at-IsTallied s (v6 x) v = (record_of-IsConsistent s.table_v6 x v.sound_v6).tallied

observed-record_at :
    (s : RoutingState) (k : BinaryPrefix) (q : ℕ)
    → observed s k q
      ≡ peer_entry q (pair_up (record_at s k).observations (record_at s k).timestamps)
unfolding observed table_observed seen
observed-record_at s (v4 x) q = refl
observed-record_at s (v6 x) q = refl

-- An observation of the prefix and the peer, with the origin and the timestamp in the second.
abbrev pub is_about : BinaryPrefix → ℕ → StoredObservation → Bool
is_about k q = stored_as k (λ z. of_peer q z.0)

abbrev pub is_stored : BinaryPrefix → ℕ → ℕ × ℕ → StoredObservation → Bool
is_stored k q v = stored_as k (is_entry q v)

-- For a prefix and a peer of a sound state at most one observation is stored, and none where there is
-- no entry.
pub stored_single :
    (s : RoutingState) (k : BinaryPrefix) (q : ℕ)
    → BothSound s
    → tally (is_about k q) (stored_observations s) ≤ 1
stored_single s k q v =
    let r = record_at s k in
    let t = record_at-IsTallied s k v in
    let pairs = tally-pair_up (of_peer q) r.observations r.timestamps t.paired in
    let all = stored_tally s k (λ z. of_peer q z.0) v in omega (arith, pairs, all, t.single q)

pub stored_none :
    (s : RoutingState) (k : BinaryPrefix) (q : ℕ)
    → BothSound s
    → observed s k q ≡ none
    → tally (is_about k q) (stored_observations s) ≡ 0
stored_none s k q v h =
    stored_tally s k (λ z. of_peer q z.0) v
    ∙ peer_entry_absent q _ (sym (observed-record_at s k q) ∙ h)

pub stored_some :
    (s : RoutingState) (k : BinaryPrefix) (q : ℕ) (w : ℕ × ℕ)
    → BothSound s
    → observed s k q ≡ some w
    → 1 ≤ tally (is_stored k q w) (stored_observations s)
stored_some s k q w v h =
    rw (stored_tally s k (is_entry q w) v)
      (peer_entry_present q w _ (sym (observed-record_at s k q) ∙ h))

-- Each element is counted by the test that it gives.
All-self {ℓ} :
    {A : Type ℓ} (f : A → A → Bool) (xs : List A)
    → ((x : A) → f x x ≡ true)
    → All (λ x. 1 ≤ tally (f x) xs) xs
All-self f [] h = tt
All-self f (x ∷ xs) h = (
  rw (h x) (omega arith),
  All-mono (λ y (g : 1 ≤ tally (f y) xs). omega (arith, g)) xs (All-self f xs h),
)

abbrev value_of : StoredObservation → ℕ × ℕ
value_of e = (e.observation.origin_asn, e.timestamp)

-- What is stored is an entry.
pub stored-observed :
    (s : RoutingState)
    → BothSound s
    → All
        (λ e.
          observed s e.prefix e.observation.peer_id ≡ some (e.observation.origin_asn, e.timestamp))
        (stored_observations s)
stored-observed s v =
    let found =
      All-self (λ e. is_stored e.prefix e.observation.peer_id (value_of e)) (stored_observations s)
        (λ e. ground (arith, ==-iff e.prefix e.prefix)) in
    All-mono
      (λ e h.
        let q = e.observation.peer_id in
        let counted = stored_tally s e.prefix (is_entry q (value_of e)) v in
        let all = stored_tally s e.prefix (λ z. of_peer q z.0) v in
        let one = stored_single s e.prefix q v in
        observed-record_at s e.prefix q
        ∙ peer_entry_unique q (value_of e) _ (omega (arith, all, one)) (omega (arith, h, counted)))
      (stored_observations s) found
