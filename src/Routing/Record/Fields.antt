-- ===== src/Routing/Record/Fields.antt =====
-- What each operation does to the two vectors, and the fields that it leaves alone.
use asnprefix_map.Base.{ℕ, ◌≡◌, List, [], ◌∷◌, ◌++◌, arith, nat_eq, set}
use asnprefix_map.Routing.Record.{
  Observation, PrefixRecord, is_better_selection, decrement_asn_count, increment_asn_count,
  exchange_observation, replace_observation, push_observation, add_observation, remove_packed,
  drop_observation, recompute_selected_from_counts,
}

module _ (r : PrefixRecord) (asn : ℕ) where
  -- A decrement touches the counters only.
  pub decrement_keeps :
      let d = (decrement_asn_count r asn).0 in
      (d.observations ≡ r.observations)
      × (d.timestamps ≡ r.timestamps)
      × (d.selected_asn ≡ r.selected_asn)
      × (d.selected_count ≡ r.selected_count)
  unfolding decrement_asn_count
  decrement_keeps = ground arith

module _ (r : PrefixRecord) (index : ℕ) (o : Observation) (asn t : ℕ) where
  abbrev pub exchanged : List Observation
  exchanged = set r.observations index (record o { origin_asn = asn })

  pub exchange_keeps :
      let q = exchange_observation r index o asn t in
      (q.0.observations ≡ set r.observations index (record o { origin_asn = asn }))
      × (q.0.timestamps ≡ set r.timestamps index t)
      × (q.0.selected_asn ≡ r.selected_asn)
      × (q.0.selected_count ≡ r.selected_count)
  unfolding exchange_observation increment_asn_count
  exchange_keeps = let (os, ts, a, c) = decrement_keeps r o.origin_asn in (rw os, rw ts, a, c)

  pub replace_vectors :
      let q = replace_observation r index o asn t in
      (q.observations ≡ set r.observations index (record o { origin_asn = asn }))
      × (q.timestamps ≡ set r.timestamps index t)
  unfolding replace_observation recompute_selected_from_counts
  replace_vectors = ground (arith, exchange_keeps)

module _ (r : PrefixRecord) (p asn t : ℕ) where
  pub add_vectors :
      let q = add_observation r p asn t in
      (q.observations ≡ r.observations ++ (record { peer_id = p; origin_asn = asn }) ∷ [])
      × (q.timestamps ≡ r.timestamps ++ t ∷ [])
  unfolding add_observation push_observation increment_asn_count is_better_selection
  add_vectors = ground arith

module _ (r : PrefixRecord) (index : ℕ) (o : Observation) where
  pub drop_vectors :
      let q = drop_observation r index o in
      (q.observations ≡ remove_packed r.observations index)
      × (q.timestamps ≡ remove_packed r.timestamps index)
      × (q.selected_asn ≡ r.selected_asn)
  unfolding drop_observation
  drop_vectors = ground (arith, decrement_keeps r o.origin_asn)
