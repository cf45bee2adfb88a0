-- ===== src/Routing/Table/Refinement.antt =====
-- A table seen as a finite map: for a prefix and a peer, the origin and the timestamp last announced.
use asnprefix_map.Base.{
  ℕ, ◌≡◌, refl, inl, inr, Bool, true, false, ◌&&◌, Option, none, some, List, [], ◌∷◌, arith, Eq,
  ◌==◌, ==-iff, if◌then◌else◌, nat_eq, Bool-cases, Option-cases, set, is_empty, pair_up,
}
use asnprefix_map.Base.Map.{find, assign, erase, find-assign, find-erase}
use asnprefix_map.Routing.Record.{
  Observation, PrefixRecord, empty_record, find_observation, replace_observation, add_observation,
  drop_observation, recompute_selected_from_counts,
}
use asnprefix_map.Routing.Record.View.{peer_entry, seen}
use asnprefix_map.Routing.Record.Seen.{seen-add, seen-replace, seen-refresh, seen-drop}
use asnprefix_map.Routing.Table.{
  Table, store_synced, announce_impl, settle_withdrawal, withdraw_from, withdraw_impl,
}
use asnprefix_map.Routing.Table.Soundness.{IsSound, record_of, record_of-IsConsistent}

peer_entry-nobody :
    (os : List Observation) (ts : List ℕ) (p : ℕ)
    → is_empty os ≡ true
    → peer_entry p (pair_up os ts) ≡ none
unfolding peer_entry pair_up
peer_entry-nobody [] ts p h = refl
peer_entry-nobody (o ∷ os) ts p h = cc

peer_entry_stranger :
    (os : List Observation) (ts : List ℕ) (p : ℕ)
    → find_observation p os ≡ none
    → peer_entry p (pair_up os ts) ≡ none
unfolding peer_entry pair_up find_observation
peer_entry_stranger [] ts p h = refl
peer_entry_stranger (o ∷ os) [] p h = refl
peer_entry_stranger (o ∷ os) (t ∷ ts) p h = ground (arith, peer_entry_stranger os ts p)

seen-recompute :
    (b : Bool) (r : PrefixRecord) (p : ℕ)
    → seen (if b then recompute_selected_from_counts r else r) p ≡ seen r p
unfolding seen recompute_selected_from_counts
seen-recompute true r p = refl
seen-recompute false r p = refl

seen-nobody : (r : PrefixRecord) (p : ℕ) → is_empty r.observations ≡ true → seen r p ≡ none
unfolding seen
seen-nobody r p = peer_entry-nobody r.observations r.timestamps p

pub seen-empty_record : (p : ℕ) → seen empty_record p ≡ none
seen-empty_record p = seen-nobody empty_record p refl

module _ {K : Type 0} ⦃e : Eq K⦄ where
  -- The origin and the timestamp that the table holds for the prefix and the peer.
  unfoldable pub observed : Table K → K → ℕ → Option (ℕ × ℕ)
  observed t prefix p = seen (record_of t prefix) p

  observed-assign :
      (t u : Table K) (prefix k : K) (r : PrefixRecord) (q : ℕ)
      → u.by_prefix ≡ assign prefix r t.by_prefix
      → observed u k q ≡ (if prefix == k then seen r q else observed t k q)
  unfolding observed
  observed-assign t u prefix k r q h = rw (h, find-assign prefix k r t.by_prefix) (ground arith)

  observed-erase :
      (t u : Table K) (prefix k : K) (q : ℕ)
      → IsSound t
      → u.by_prefix ≡ erase prefix t.by_prefix
      → observed u k q ≡ (if prefix == k then none else observed t k q)
  unfolding observed
  observed-erase t u prefix k q v h =
      rw (h, find-erase prefix k t.by_prefix v.keys) (ground (arith, seen-empty_record q))

  module _ (t : Table K) (prefix : K) (p : ℕ) (v : IsSound t) where
    announce_stores :
        (asn timestamp : ℕ)
        → (r : PrefixRecord) × ((announce_impl t prefix p asn timestamp).by_prefix
            ≡ assign prefix r t.by_prefix)
          × ((q : ℕ) → seen r q ≡ (if p == q then some (asn, timestamp) else observed t prefix q))
    unfolding announce_impl store_synced observed
    announce_stores asn timestamp =
        let r = record_of t prefix in
        let c = (record_of-IsConsistent t prefix v).tallied in
        elim (Option-cases (find_observation p r.observations)) [
          | inl new ↦ (
            add_observation r p asn timestamp,
            rw (new, announce_impl),
            λ q. seen-add r c p asn timestamp q new,
          )
          | inr ((index, o), there) ↦ elim (Bool-cases (o.origin_asn == asn)) [
            | inl same ↦ (
              record r { timestamps = set r.timestamps index timestamp },
              rw (there, announce_impl) (rw same),
              λ q. ground (arith, seen-refresh r c p index o there timestamp q, same),
            )
            | inr ne ↦ (
              replace_observation r index o asn timestamp,
              rw (there, announce_impl) (rw ne),
              λ q. seen-replace r c p index o there asn timestamp q,
            )
          ]
        ]

    -- An announce sets the entry of its prefix and peer, and no other.
    pub observed-announce :
        (asn timestamp : ℕ) (k : K) (q : ℕ)
        → observed (announce_impl t prefix p asn timestamp) k q
          ≡ (if prefix == k && p == q then some (asn, timestamp) else observed t k q)
    observed-announce asn timestamp k q =
        let (r, stored, says) = announce_stores asn timestamp in
        let outcome =
          observed-assign t (announce_impl t prefix p asn timestamp) prefix k r q stored in
        elim (Bool-cases (prefix == k)) [
          | inl same ↦ ground (arith, outcome, says q, same, ==-iff prefix k)
          | inr other ↦ rw (outcome, other)
        ]

    withdraw_nothing :
        (k : K) (q : ℕ)
        → observed t prefix p ≡ none
        → observed t k q ≡ (if prefix == k && p == q then none else observed t k q)
    withdraw_nothing k q h = ground (arith, h, ==-iff prefix k)

    module _ (r : PrefixRecord) (index : ℕ) (o : Observation)
        (there : find prefix t.by_prefix ≡ some r)
        (here : find_observation p r.observations ≡ some (index, o)) where
      settled :
          (k : K) (q : ℕ)
          → observed (settle_withdrawal t prefix (drop_observation r index o) o) k q
            ≡ (if prefix == k && p == q then none else observed t k q)
      unfolding settle_withdrawal store_synced
      settled k q =
          let d = drop_observation r index o in
          let says = seen-drop r (v.live prefix r there).consistent.tallied p index o here q in
          let u = settle_withdrawal t prefix d o in
          let held : observed t prefix q ≡ seen r q = unfold observed in rw there in
          elim (Bool-cases (is_empty d.observations)) [
            | inl nobody ↦ ground (
              arith,
              observed-erase t u prefix k q v (rw (nobody, settle_withdrawal)),
              seen-nobody d q nobody,
              says,
              held,
              ==-iff prefix k,
            )
            | inr somebody ↦ ground (
              arith,
              observed-assign t u prefix k
                  (if o.origin_asn == d.selected_asn then recompute_selected_from_counts d else d) q
                  (rw (somebody, settle_withdrawal)),
              seen-recompute (o.origin_asn == d.selected_asn) d q,
              says,
              held,
              ==-iff prefix k,
            )
          ]

    -- A withdraw removes the entry of its prefix and peer, and no other.
    pub observed-withdraw :
        (k : K) (q : ℕ)
        → observed (withdraw_impl t prefix p) k q
          ≡ (if prefix == k && p == q then none else observed t k q)
    unfolding withdraw_impl withdraw_from
    observed-withdraw k q = elim (Option-cases (find prefix t.by_prefix)) [
      | inl gone ↦
          rw (gone, withdraw_impl)
            (withdraw_nothing k q (unfold observed in rw gone (seen-empty_record p)))
      | inr (r, there) ↦
          rw (there, withdraw_impl)
            (elim (Option-cases (find_observation p r.observations)) [
              | inl stranger ↦
                  rw (stranger, withdraw_from)
                    (withdraw_nothing k q (
                      unfold observed seen in
                      rw there (peer_entry_stranger r.observations r.timestamps p stranger)))
              | inr ((index, o), here) ↦ rw (here, withdraw_from) (settled r index o there here k q)
            ])
    ]
