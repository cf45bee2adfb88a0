-- ===== src/Routing/Record/Seen.antt =====
-- How the operations on a record change what it says of each peer.
use asnprefix_map.Base.{
  ℕ, ◌≡◌, sym, none, some, arith, ◌==◌, if◌then◌else◌, nat_eq, set, pair_up, get_elem?-lt,
  get_elem?-total, ◌∙◌, ap,
}
use asnprefix_map.Routing.Record.{
  Observation, PrefixRecord, replace_observation, add_observation, drop_observation,
  find_observation,
}
use asnprefix_map.Routing.Record.Consistency.{IsTallied}
use asnprefix_map.Routing.Record.Counts.{of_peer, find_observation-some}
use asnprefix_map.Routing.Record.Fields.{replace_vectors, add_vectors, drop_vectors}
use asnprefix_map.Routing.Record.View.{
  peer_entry, seen, peer_entry-append, peer_entry-set, peer_entry-remove_packed,
  pair_up-remove_packed, tally-pair_up, get_elem?-pair_up, set_self,
}

module _ (r : PrefixRecord) (v : IsTallied r) (p : ℕ) where
  pub seen-add :
      (asn t q : ℕ)
      → find_observation p r.observations ≡ none
      → seen (add_observation r p asn t) q ≡ (if p == q then some (asn, t) else seen r q)
  unfolding seen
  seen-add asn t q h =
      let (os, ts) = add_vectors r p asn t in
      rw (os, ts) (peer_entry-append p q asn t r.observations r.timestamps v.paired h)

  module _ (index : ℕ) (o : Observation)
      (h : find_observation p r.observations ≡ some (index, o)) where
    pub seen-replace :
        (asn t q : ℕ)
        → seen (replace_observation r index o asn t) q
          ≡ (if p == q then some (asn, t) else seen r q)
    unfolding seen
    seen-replace asn t q =
        let (os, ts) = replace_vectors r index o asn t in
        rw (os, ts) (peer_entry-set p q asn t r.observations r.timestamps index o v.paired h)

    -- Only the timestamp is new.
    pub seen-refresh :
        (t q : ℕ)
        → seen (record r { timestamps = set r.timestamps index t }) q
          ≡ (if p == q then some (o.origin_asn, t) else seen r q)
    unfolding seen
    seen-refresh t q =
        let there = find_observation-some p r.observations index o h in
        ap (λ os. peer_entry q (pair_up os (set r.timestamps index t)))
          (sym (set_self r.observations index o there.0))
        ∙ peer_entry-set p q o.origin_asn t r.observations r.timestamps index o v.paired h

    pub seen-drop :
        (q : ℕ) → seen (drop_observation r index o) q ≡ (if p == q then none else seen r q)
    unfolding seen
    seen-drop q =
        let (os, ts, _) = drop_vectors r index o in
        let (there, mine) = find_observation-some p r.observations index o h in
        let short = get_elem?-lt r.observations index o there in
        let (t, stamp) = get_elem?-total r.timestamps index (omega (arith, v.paired)) in
        rw (os, ts, pair_up-remove_packed r.observations r.timestamps index v.paired short)
          (peer_entry-remove_packed p q _ index o t
            (get_elem?-pair_up r.observations r.timestamps index o t there stamp) mine
            (λ s. rw (tally-pair_up (of_peer s) r.observations r.timestamps v.paired) (v.single s)))
