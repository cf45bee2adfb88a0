-- ===== src/Routing/Table/Exports.antt =====
-- What the aggregated map of a sound table holds.
use asnprefix_map.Base.{
  ℕ, ◌≤◌, ◌≡◌, refl, sym, ◌∙◌, ap, ◌↔◌, inl, inr, none, some, List, [], ◌∷◌, arith, Eq, nat_eq,
  Option-cases, length, pair_up,
}
use asnprefix_map.Base.Map.{find, length_of_same_keys}
use asnprefix_map.Routing.Record.{Observation, PrefixRecord}
use asnprefix_map.Routing.Record.Winner.{IsWinner}
use asnprefix_map.Routing.Record.Counts.{origins}
use asnprefix_map.Routing.Record.View.{peer_entry, seen}
use asnprefix_map.Routing.Table.{Table, empty_table}
use asnprefix_map.Routing.Table.Soundness.{IsSound, selected_count-pos, record_of, selected}
use asnprefix_map.Routing.Table.Refinement.{observed, seen-empty_record}

none≢some : {A : Type 0} {a : A} → none ≡ some a → ⊥
none≢some h = cc

vectors-somebody :
    (os : List Observation) (ts : List ℕ)
    → 1 ≤ length os
    → length ts ≡ length os
    → ((q : ℕ) → peer_entry q (pair_up os ts) ≡ none)
    → ⊥
unfolding peer_entry pair_up
vectors-somebody [] ts h e none_seen = omega arith
vectors-somebody (o ∷ os) [] h e none_seen = omega arith
vectors-somebody (o ∷ os) (t ∷ ts) h e none_seen = ground (arith, none_seen o.peer_id)

seen-somebody :
    (r : PrefixRecord)
    → 1 ≤ length r.observations
    → length r.timestamps ≡ length r.observations
    → ((q : ℕ) → seen r q ≡ none)
    → ⊥
unfolding seen
seen-somebody r = vectors-somebody r.observations r.timestamps

module _ {K : Type 0} ⦃e : Eq K⦄ where
  pub empty_table-IsSound : IsSound (empty_table {K = K})
  unfolding find
  empty_table-IsSound = record {
    keys = tt;
    aggregated_keys = tt;
    live = λ k r h. absurd (none≢some h);
    exported = λ k. refl;
  }

  -- The exported origin of a prefix is the plurality of its observations.
  pub exported-IsWinner :
      (t : Table K) (k : K) (a : ℕ)
      → IsSound t
      → find k t.aggregated ≡ some a
      → IsWinner (origins (record_of t k)) a (origins (record_of t k) a)
        × (1 ≤ origins (record_of t k) a)
  exported-IsWinner t k a v h = elim (Option-cases (find k t.by_prefix)) [
    | inl gone ↦ absurd (none≢some (rw gone at (sym (v.exported k) ∙ h)))
    | inr (r, there) ↦
        let live = v.live k r there in
        let w = live.consistent.winner in
        let same : r.selected_asn ≡ a = ground (arith, v.exported k, h, there) in
        let pos = selected_count-pos r live in rw there (rw (← same) (rw w.attained (w, pos)))
  ]

  -- A prefix is exported unless nobody has an entry for it.
  pub exported_none :
      (t : Table K) (k : K)
      → IsSound t
      → (find k t.aggregated ≡ none) ↔ ((q : ℕ) → observed t k q ≡ none)
  unfolding observed
  exported_none t k v = elim (Option-cases (find k t.by_prefix)) [
    | inl gone ↦ (λ h q. rw gone (seen-empty_record q), λ h. v.exported k ∙ ap selected gone)
    | inr (r, there) ↦ (
      λ h. absurd (none≢some (sym h ∙ v.exported k ∙ ap selected there)),
      λ h.
          let live = v.live k r there in
          absurd
            (seen-somebody r live.peopled live.consistent.tallied.paired (λ q. rw there at (h q))),
    )
  ]

  pub exported_length : (t : Table K) → IsSound t → length t.aggregated ≡ length t.by_prefix
  exported_length t v =
      length_of_same_keys t.aggregated t.by_prefix v.aggregated_keys v.keys
        (λ k. ground (arith, v.exported k))
