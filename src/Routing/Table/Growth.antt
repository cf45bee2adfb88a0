-- ===== src/Routing/Table/Growth.antt =====
-- An announce adds at most one observation to a record.
use asnprefix_map.Base.{
  ℕ, ◌+◌, ◌≤◌, ◌≡◌, inl, inr, [], ◌∷◌, arith, Eq, ◌==◌, ==-iff, nat_eq, Bool-cases, Option-cases,
  length, set, length-append, length-set,
}
use asnprefix_map.Base.Map.{assign, find-assign}
use asnprefix_map.Routing.Record.{
  PrefixRecord, find_observation, replace_observation, add_observation,
}
use asnprefix_map.Routing.Record.Fields.{replace_vectors, add_vectors}
use asnprefix_map.Routing.Table.{Table, store_synced, announce_impl}
use asnprefix_map.Routing.Table.Soundness.{record_of}

module _ {K : Type 0} ⦃e : Eq K⦄ (t : Table K) (prefix : K) (p asn timestamp : ℕ) where
  stored_size :
      (r : PrefixRecord) × ((announce_impl t prefix p asn timestamp).by_prefix
        ≡ assign prefix r t.by_prefix)
      × (length r.observations ≤ length (record_of t prefix).observations + 1)
  unfolding announce_impl store_synced
  stored_size =
      let r = record_of t prefix in
      elim (Option-cases (find_observation p r.observations)) [
        | inl new ↦ (
          add_observation r p asn timestamp,
          rw (new, announce_impl),
          rw ((add_vectors r p asn timestamp).0) (
              omega (
                arith,
                length-append r.observations ((record { peer_id = p; origin_asn = asn }) ∷ []),
              )),
        )
        | inr ((index, o), there) ↦ elim (Bool-cases (o.origin_asn == asn)) [
          | inl same ↦ (
            record r { timestamps = set r.timestamps index timestamp },
            rw (there, announce_impl) (rw same),
            omega arith,
          )
          | inr ne ↦ (
            replace_observation r index o asn timestamp,
            rw (there, announce_impl) (rw ne),
            rw ((replace_vectors r index o asn timestamp).0)
                (omega (arith, length-set r.observations index (record o { origin_asn = asn }))),
          )
        ]
      ]

  pub announce_impl-size :
      (k : K)
      → length (record_of (announce_impl t prefix p asn timestamp) k).observations
        ≤ length (record_of t k).observations + 1
  announce_impl-size k =
      let (r, stored, size) = stored_size in
      rw (stored, find-assign prefix k r t.by_prefix) (ground (arith, size, ==-iff prefix k))
