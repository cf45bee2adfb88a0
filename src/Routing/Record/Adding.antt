-- ===== src/Routing/Record/Adding.antt =====
-- A peer that is new to the prefix keeps the record consistent.
use asnprefix_map.Base.{
  ℕ, ◌+◌, ◌^◌, ◌<◌, ◌≡◌, refl, none, [], ◌∷◌, ◌++◌, arith, ◌==◌, nat_eq, length, tally, bit,
  tally-append, length-append, tally-le-length,
}
use asnprefix_map.Routing.Record.{
  Observation, PrefixRecord, increment_asn_count, push_observation, add_observation,
  find_observation,
}
use asnprefix_map.Routing.Record.Consistency.{IsTallied, IsConsistent, decide}
use asnprefix_map.Routing.Record.Votes.{gain-IsWinner, stay-IsWinner}
use asnprefix_map.Routing.Record.Winner.{IsWinner}
use asnprefix_map.Routing.Record.Counts.{
  of_asn, of_peer, origins, Counts, increment-Counts, find_observation-none,
}

module _ (r : PrefixRecord) (p asn t : ℕ) (v : IsConsistent r) where
  pushed-Counts :
      length r.observations + 1 < 2 ^ 32
      → let q = push_observation r p asn t in
        Counts q.0 (origins q.0) × (q.1 ≡ origins q.0 asn) × (q.1 ≡ origins r asn + 1)
  unfolding push_observation increment_asn_count
  pushed-Counts small =
      let o : Observation = record { peer_id = p; origin_asn = asn } in
      let counted = λ (b : ℕ). tally-append (of_asn b) r.observations (o ∷ []) in
      let bound = tally-le-length (of_asn asn) r.observations in
      let (c, n) =
        increment-Counts r (origins r) (λ b. tally (of_asn b) (r.observations ++ o ∷ [])) asn
          v.tallied.counts (omega arith) (λ b. omega (arith, counted b)) in
      (record { keys = c.keys; values = c.values }, n, ground (arith, n, counted asn))

  push-IsTallied :
      find_observation p r.observations ≡ none
      → length r.observations + 1 < 2 ^ 32
      → IsTallied (push_observation r p asn t).0
  unfolding push_observation increment_asn_count
  push-IsTallied new small =
      let o : Observation = record { peer_id = p; origin_asn = asn } in
      record {
        paired = omega (
          arith,
          v.tallied.paired,
          length-append r.observations (o ∷ []),
          length-append r.timestamps (t ∷ []),
        );
        single = λ q. ground (
          arith,
          v.tallied.single q,
          tally-append (of_peer q) r.observations (o ∷ []),
          find_observation-none p r.observations new,
        );
        counts = (pushed-Counts small).0;
      }

  push_gains :
      let q = push_observation r p asn t in
      ((b : ℕ) → origins q.0 b ≡ origins r b + bit (asn == b))
      × (q.0.selected_asn ≡ r.selected_asn)
      × (q.0.selected_count ≡ r.selected_count)
  unfolding push_observation increment_asn_count
  push_gains =
      let o : Observation = record { peer_id = p; origin_asn = asn } in
      (λ b. omega (arith, tally-append (of_asn b) r.observations (o ∷ [])), refl, refl)

  -- A peer that is new to the prefix.
  pub add-IsConsistent :
      find_observation p r.observations ≡ none
      → length r.observations + 1 < 2 ^ 32
      → IsConsistent (add_observation r p asn t)
  unfolding add_observation
  add-IsConsistent new small =
      let q = push_observation r p asn t in
      let (gains, same_asn, same_count) = push_gains in
      let w : IsWinner (origins r) q.0.selected_asn q.0.selected_count =
        rw (same_asn, same_count) v.winner in
      let tallied = push-IsTallied new small in
      let (_, count, more) = pushed-Counts small in
      decide q.0 asn q.1 _ tallied
        (λ better.
          gain-IsWinner (origins r) (origins q.0) _ _ asn w (λ b. omega (arith, gains b)) (gains _)
            q.1 count (omega arith) better)
        (λ worse.
          stay-IsWinner (origins r) (origins q.0) _ _ asn w (λ b. omega (arith, gains b)) (gains _)
            q.1 count (ground arith))
