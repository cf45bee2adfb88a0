-- ===== src/Routing/Record/Dropping.antt =====
-- A peer that leaves the prefix keeps the record consistent.
use asnprefix_map.Base.{
  ℕ, ◌+◌, ◌≡◌, inl, inr, some, arith, ◌==◌, if◌then◌else◌, nat_eq, Bool-cases, get_elem?, tally,
  bit, get_elem?-total, get_elem?-lt,
}
use asnprefix_map.Routing.Record.{
  Observation, PrefixRecord, decrement_asn_count, remove_packed, drop_observation,
  recompute_selected_from_counts,
}
use asnprefix_map.Routing.Record.Consistency.{IsTallied, IsConsistent, recompute-IsConsistent}
use asnprefix_map.Routing.Record.Votes.{lose-IsWinner}
use asnprefix_map.Routing.Record.Fields.{decrement_keeps}
use asnprefix_map.Routing.Record.Counts.{
  of_asn, of_peer, origins, Counts, decrement-Counts, length-remove_packed, tally-remove_packed,
}

module _ (r : PrefixRecord) (index : ℕ) (o : Observation) (v : IsConsistent r)
    (h : get_elem? r.observations index ≡ some o) where
  pub drop_gains :
      (b : ℕ)
      → tally (of_asn b) (remove_packed r.observations index) + bit (o.origin_asn == b)
        ≡ origins r b
  drop_gains b = tally-remove_packed r.observations index o h (of_asn b)

  pub dropped-Counts :
      Counts
        (decrement_asn_count r o.origin_asn).0
        (λ b. tally (of_asn b) (remove_packed r.observations index))
  dropped-Counts = decrement-Counts r (origins r) _ o.origin_asn v.tallied.counts drop_gains

  drop-IsTallied : IsTallied (drop_observation r index o)
  unfolding drop_observation
  drop-IsTallied =
      let (os, ts, _, _) = decrement_keeps r o.origin_asn in
      let stamp =
        get_elem?-total r.timestamps index
          (omega (arith, v.tallied.paired, get_elem?-lt r.observations index o h)) in
      record {
        paired =
            rw (os, ts)
              (omega (
                arith,
                v.tallied.paired,
                length-remove_packed r.observations index o h,
                length-remove_packed r.timestamps index stamp.0 stamp.1,
              ));
        single = λ q. rw os (
            omega (
              arith,
              v.tallied.single q,
              tally-remove_packed r.observations index o h (of_peer q),
            ));
        counts = record {
          keys = dropped-Counts.keys;
          values = λ b. rw os (dropped-Counts.values b);
        };
      }

  -- A peer leaves the prefix: the record as `withdraw_impl` stores it.
  pub drop-IsConsistent :
      let d = drop_observation r index o in
      IsConsistent (if o.origin_asn == d.selected_asn then recompute_selected_from_counts d else d)
  unfolding drop_observation
  drop-IsConsistent =
      let d = drop_observation r index o in
      let (os, _, same_asn, same_count) = decrement_keeps r o.origin_asn in
      elim (Bool-cases (o.origin_asn == d.selected_asn)) [
        | inl e ↦ rw e (recompute-IsConsistent d drop-IsTallied)
        | inr e ↦ rw e (record {
          tallied = drop-IsTallied;
          winner =
              rw (os, same_asn, same_count)
                (lose-IsWinner (origins r) _ _ _ v.winner (λ b. omega (arith, drop_gains b))
                  (ground (arith, same_asn, e, drop_gains r.selected_asn)));
        })
      ]
