-- ===== src/Routing/Record/Replacing.antt =====
-- A peer that changes its origin keeps the record consistent.
use asnprefix_map.Base.{
  ℕ, ◌+◌, ◌^◌, ◌≤◌, ◌<◌, ◌≡◌, inl, inr, false, some, arith, ◌==◌, nat_eq, Bool-cases, length,
  get_elem?, tally, bit, tally-set, length-set, tally-le-length,
}
use asnprefix_map.Routing.Record.{
  Observation, PrefixRecord, is_better_selection, decrement_asn_count, increment_asn_count,
  exchange_observation, replace_observation, remove_packed,
}
use asnprefix_map.Routing.Record.Consistency.{
  IsTallied, IsConsistent, recompute-IsConsistent, decide,
}
use asnprefix_map.Routing.Record.Votes.{gain-IsWinner, stay-IsWinner}
use asnprefix_map.Routing.Record.Fields.{exchanged, exchange_keeps}
use asnprefix_map.Routing.Record.Dropping.{drop_gains, dropped-Counts}
use asnprefix_map.Routing.Record.Winner.{IsWinner}
use asnprefix_map.Routing.Record.Counts.{
  of_asn, of_peer, origins, Counts, increment-Counts, length-remove_packed,
}

module _ (r : PrefixRecord) (index : ℕ) (o : Observation) (v : IsConsistent r)
    (h : get_elem? r.observations index ≡ some o) (asn t : ℕ) (ne : (o.origin_asn == asn) ≡ false)
    (small : length r.observations < 2 ^ 32) where
  exchange_gains :
      (b : ℕ)
      → (tally (of_asn b) (exchanged r index o asn t) + bit (o.origin_asn == b)
          ≡ origins r b + bit (asn == b))
        × (tally (of_asn b) (exchanged r index o asn t)
            ≡ tally (of_asn b) (remove_packed r.observations index) + bit (asn == b))
  exchange_gains b =
      let t' = tally-set (of_asn b) r.observations index o (record o { origin_asn = asn }) h in
      (t', omega (arith, t', drop_gains r index o v h b))

  exchanged-Counts :
      let q = exchange_observation r index o asn t in
      Counts q.0 (λ b. tally (of_asn b) (exchanged r index o asn t))
      × (q.1 ≡ tally (of_asn asn) (exchanged r index o asn t))
  unfolding exchange_observation increment_asn_count
  exchanged-Counts =
      let bound = tally-le-length (of_asn asn) (remove_packed r.observations index) in
      let shorter = length-remove_packed r.observations index o h in
      let (c, n) =
        increment-Counts (decrement_asn_count r o.origin_asn).0 _
          (λ b. tally (of_asn b) (exchanged r index o asn t)) asn (dropped-Counts r index o v h)
          (omega arith) (λ b. (exchange_gains b).1) in
      (record { keys = c.keys; values = c.values }, n)

  exchange-IsTallied : IsTallied (exchange_observation r index o asn t).0
  exchange-IsTallied =
      let (os, ts, _, _) = exchange_keeps r index o asn t in
      record {
        paired =
            rw (os, ts)
              (omega (
                arith,
                v.tallied.paired,
                length-set r.timestamps index t,
                length-set r.observations index (record o { origin_asn = asn }),
              ));
        single = λ p. rw os (
            omega (
              arith,
              v.tallied.single p,
              tally-set (of_peer p) r.observations index o (record o { origin_asn = asn }) h,
            ));
        counts = record {
          keys = exchanged-Counts.0.keys;
          values = λ b. rw os (exchanged-Counts.0.values b);
        };
      }

  -- A peer changes its origin.
  pub replace-IsConsistent : IsConsistent (replace_observation r index o asn t)
  unfolding replace_observation
  replace-IsConsistent =
      let q = exchange_observation r index o asn t in
      let (os, _, same_asn, same_count) = exchange_keeps r index o asn t in
      let w : IsWinner (origins r) q.0.selected_asn q.0.selected_count =
        rw (same_asn, same_count) v.winner in
      let gains : (b : ℕ) → origins q.0 b ≤ origins r b + bit (asn == b) =
        λ b. rw os (omega (arith, (exchange_gains b).0)) in
      let count : q.1 ≡ origins q.0 asn = rw os exchanged-Counts.1 in
      elim (Bool-cases (o.origin_asn == r.selected_asn)) [
        | inl e ↦ rw e (recompute-IsConsistent q.0 exchange-IsTallied)
        | inr e ↦ rw e (
            let kept : origins q.0 q.0.selected_asn
                ≡ origins r q.0.selected_asn + bit (asn == q.0.selected_asn) =
              rw (os, same_asn) (ground (arith, e, (exchange_gains r.selected_asn).0)) in
            decide q.0 asn q.1 (is_better_selection asn q.1 q.0.selected_asn q.0.selected_count)
              exchange-IsTallied
              (λ better.
                gain-IsWinner (origins r) (origins q.0) _ _ asn w gains kept q.1 count
                  (rw (count, os) (ground (arith, (exchange_gains asn).1))) (ground arith))
              (λ worse.
                stay-IsWinner (origins r) (origins q.0) _ _ asn w gains kept q.1 count worse))
      ]
