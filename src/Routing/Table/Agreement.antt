-- ===== src/Routing/Table/Agreement.antt =====
-- What a sound table exports depends on its entries only.
use asnprefix_map.Base.{
  ℕ, ◌≡◌, sym, ◌∙◌, ap, inl, inr, none, some, arith, Eq, nat_eq, Option-cases, List, [], ◌∷◌,
  ==-iff, length, ◌≤◌, pair_up,
}
use asnprefix_map.Base.Map.{find}
use asnprefix_map.Routing.Record.{Observation}
use asnprefix_map.Routing.Record.View.{peer_entry, seen}
use asnprefix_map.Routing.Record.Counts.{origins}
use asnprefix_map.Routing.Record.Recount.{IsWinner-unique}
use asnprefix_map.Routing.Record.Order.{origins_agree, IsWinner-cong}
use asnprefix_map.Routing.Table.{Table}
use asnprefix_map.Routing.Table.Soundness.{IsSound, record_of, record_of-IsConsistent}
use asnprefix_map.Routing.Table.Refinement.{observed}
use asnprefix_map.Routing.Table.Exports.{exported-IsWinner, exported_none}

none≢some : {a : ℕ} → none ≡ some a → ⊥
none≢some h = cc

module _ {K : Type 0} ⦃e : Eq K⦄ (t u : Table K) (v : IsSound t) (w : IsSound u)
    (same : (k : K) (q : ℕ) → observed t k q ≡ observed u k q) where
  origins_same : (k : K) (asn : ℕ) → origins (record_of t k) asn ≡ origins (record_of u k) asn
  unfolding observed
  origins_same k =
      origins_agree (record_of t k) (record_of u k) (record_of-IsConsistent t k v)
        (record_of-IsConsistent u k w) (same k)

  winner_same :
      (k : K) (a b : ℕ) → find k t.aggregated ≡ some a → find k u.aggregated ≡ some b → a ≡ b
  winner_same k a b h g =
      let (first, _) = exported-IsWinner t k a v h in
      let (second, _) = exported-IsWinner u k b w g in
      (IsWinner-unique (origins (record_of u k)) a b _ _
        (IsWinner-cong (origins (record_of t k)) (origins (record_of u k)) a _ (origins_same k)
          first)
        second).0

  pub aggregated_agree : (k : K) → find k t.aggregated ≡ find k u.aggregated
  aggregated_agree k = elim (Option-cases (find k t.aggregated)) [
    | inl nobody ↦
        nobody
        ∙ sym ((exported_none u k w).1 (λ q. sym (same k q) ∙ (exported_none t k v).0 nobody q))
    | inr (a, h) ↦ elim (Option-cases (find k u.aggregated)) [
      | inl nobody ↦ absurd (
          none≢some
            (sym ((exported_none t k v).1 (λ q. same k q ∙ (exported_none u k w).0 nobody q)) ∙ h))
      | inr (b, g) ↦ h ∙ ap (λ n. some n) (winner_same k a b h g) ∙ sym g
    ]
  ]

-- The entry of the first observation.
first_entry :
    (os : List Observation) (ts : List ℕ)
    → 1 ≤ length os
    → length ts ≡ length os
    → (q : ℕ) × (w : ℕ × ℕ) × (peer_entry q (pair_up os ts) ≡ some w)
unfolding peer_entry pair_up
first_entry [] ts h e = absurd (omega arith)
first_entry (o ∷ os) [] h e = absurd (omega arith)
first_entry (o ∷ os) (t ∷ ts) h e =
    (o.peer_id, (o.origin_asn, t), ground (arith, ==-iff o.peer_id o.peer_id))

-- Some peer has an entry for an exported prefix.
module _ {K : Type 0} ⦃e : Eq K⦄ where
  pub exported-observed :
      (t : Table K) (k : K) (a : ℕ)
      → IsSound t
      → find k t.aggregated ≡ some a
      → (q : ℕ) × (w : ℕ × ℕ) × (observed t k q ≡ some w)
  unfolding observed seen
  exported-observed t k a v h = elim (Option-cases (find k t.by_prefix)) [
    | inl gone ↦ absurd (none≢some (rw gone at (sym (v.exported k) ∙ h)))
    | inr (r, there) ↦
        let live = v.live k r there in
        let (q, w, entry) =
          first_entry r.observations r.timestamps live.peopled live.consistent.tallied.paired in
        (q, w, rw there entry)
  ]
