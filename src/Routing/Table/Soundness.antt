-- ===== src/Routing/Table/Soundness.antt =====
-- The two maps of a prefix family stay in step, under every operation of a table.
use asnprefix_map.Base.{
  ℕ, ◌+◌, ◌^◌, ◌≤◌, ◌<◌, ◌≡◌, ◌∙◌, inl, inr, false, Option, none, some, List, [], ◌∷◌, arith, Eq,
  ◌==◌, ==-iff, if◌then◌else◌, nat_eq, Bool-cases, Option-cases, length, get_elem?, set, tally,
  length-append, length-set, is_empty, length_pos, get_elem?-lt,
}
use asnprefix_map.Base.Map.{
  find, assign, erase, get_or, Distinct, find-assign, find-erase, assign-Distinct, erase-Distinct,
  assign-all, erase-all,
}
use asnprefix_map.Routing.Record.{
  Observation, PrefixRecord, empty_record, find_observation, replace_observation, add_observation,
  recompute_selected_from_counts,
}
use asnprefix_map.Routing.Record.Counts.{of_asn, find_observation-some}
use asnprefix_map.Routing.Record.Consistency.{IsConsistent, empty_record-IsConsistent}
use asnprefix_map.Routing.Record.Fields.{replace_vectors, add_vectors}
use asnprefix_map.Routing.Record.Adding.{add-IsConsistent}
use asnprefix_map.Routing.Record.Dropping.{drop-IsConsistent}
use asnprefix_map.Routing.Record.Replacing.{replace-IsConsistent}
use asnprefix_map.Routing.Table.{
  Table, sync_aggregated, store_synced, announce_impl, settle_withdrawal, withdraw_from,
  withdraw_impl,
}

none≢some : {A : Type 0} {a : A} → none ≡ some a → ⊥
none≢some h = cc

-- A record that the maps may hold: it is consistent, and some peer has the prefix.
pub record IsLive (r : PrefixRecord) : Type 0 where
  pub consistent : IsConsistent r
  pub peopled : 1 ≤ length r.observations

abbrev pub selected : Option PrefixRecord → Option ℕ
selected none = none
selected (some r) = some r.selected_asn

module _ {K : Type 0} ⦃e : Eq K⦄ where
  pub record IsSound (t : Table K) : Type 0 where
    pub keys : Distinct t.by_prefix
    pub aggregated_keys : Distinct t.aggregated
    pub live : (prefix : K) (r : PrefixRecord) → find prefix t.by_prefix ≡ some r → IsLive r
    pub exported : (prefix : K) → find prefix t.aggregated ≡ selected (find prefix t.by_prefix)

-- A live record has a selected origin, which some peer announces.
pub selected_count-pos : (r : PrefixRecord) → IsLive r → 1 ≤ r.selected_count
selected_count-pos r v = first r.observations r.selected_count v.consistent.winner.most v.peopled
  where
    first :
        (os : List Observation) (c : ℕ)
        → ((b : ℕ) → tally (of_asn b) os ≤ c)
        → 1 ≤ length os
        → 1 ≤ c
    first [] c most h = absurd (omega arith)
    first (o ∷ os) c most h = ground (arith, most o.origin_asn)

vectors_after :
    (r : PrefixRecord) (removed : Observation)
    → (if removed.origin_asn == r.selected_asn
        then recompute_selected_from_counts r
        else r).observations
      ≡ r.observations
unfolding recompute_selected_from_counts
vectors_after r removed = ground arith

module _ {K : Type 0} ⦃e : Eq K⦄ where
  -- To store a live record and bring the aggregated map into step.
  pub store_synced-IsSound :
      (t : Table K) (prefix : K) (r : PrefixRecord)
      → IsSound t
      → IsLive r
      → IsSound (store_synced t prefix r)
  unfolding store_synced sync_aggregated
  store_synced-IsSound t prefix r v l =
      let kept : (r.selected_count == 0) ≡ false = ground (arith, selected_count-pos r l) in
      record {
        keys = assign-Distinct prefix r t.by_prefix v.keys;
        aggregated_keys =
            rw kept (assign-Distinct prefix r.selected_asn t.aggregated v.aggregated_keys);
        live = assign-all IsLive prefix t.by_prefix v.live r l;
        exported = λ k.
            rw
              (
                kept,
                find-assign prefix k r.selected_asn t.aggregated,
                find-assign prefix k r t.by_prefix,
              )
              (ground (arith, v.exported k));
      }

  -- To drop the prefix from both maps.
  pub erase-IsSound :
      (t : Table K) (prefix : K)
      → IsSound t
      → IsSound
          (record { by_prefix = erase prefix t.by_prefix; aggregated = erase prefix t.aggregated })
  erase-IsSound t prefix v = record {
    keys = erase-Distinct prefix t.by_prefix v.keys;
    aggregated_keys = erase-Distinct prefix t.aggregated v.aggregated_keys;
    live = erase-all IsLive prefix t.by_prefix v.live v.keys;
    exported = λ k.
        rw
          (
            find-erase prefix k t.aggregated v.aggregated_keys,
            find-erase prefix k t.by_prefix v.keys,
          )
          (ground (arith, v.exported k));
  }

  -- The record that `by_prefix[prefix]` gives.
  abbrev pub record_of : Table K → K → PrefixRecord
  record_of t prefix = get_or empty_record (find prefix t.by_prefix)

  pub record_of-IsConsistent :
      (t : Table K) (prefix : K) → IsSound t → IsConsistent (record_of t prefix)
  record_of-IsConsistent t prefix v = elim (Option-cases (find prefix t.by_prefix)) [
    | inl gone ↦ rw gone empty_record-IsConsistent
    | inr (r, there) ↦ rw there (v.live prefix r there).consistent
  ]

  -- One more observation of the prefix can be counted in 32 bits.
  abbrev pub HasRoom : Table K → K → Type 0
  HasRoom t prefix = length (record_of t prefix).observations + 1 < 2 ^ 32

  -- Where the record has an observation, it is in the map.
  pub find-record_of :
      (t : Table K) (prefix : K) (index : ℕ) (o : Observation)
      → get_elem? (record_of t prefix).observations index ≡ some o
      → find prefix t.by_prefix ≡ some (record_of t prefix)
  find-record_of t prefix index o h = elim (Option-cases (find prefix t.by_prefix)) [
    | inl gone ↦ absurd (none≢some (rw gone at h))
    | inr (r, there) ↦ rw there
  ]

  refresh-IsSound :
      (t : Table K) (prefix : K) (index timestamp : ℕ) (o : Observation)
      → IsSound t
      → get_elem? (record_of t prefix).observations index ≡ some o
      → let r = record_of t prefix in
        IsSound (record t {
          by_prefix =
              assign prefix
                (record r { timestamps = set r.timestamps index timestamp })
                t.by_prefix;
        })
  refresh-IsSound t prefix index timestamp o v h =
      let r = record_of t prefix in
      let there = find-record_of t prefix index o h in
      let c = record_of-IsConsistent t prefix v in
      record {
        keys = assign-Distinct prefix _ t.by_prefix v.keys;
        aggregated_keys = v.aggregated_keys;
        live = assign-all IsLive prefix t.by_prefix v.live _ (record {
          consistent = record {
            tallied = record {
              paired = length-set r.timestamps index timestamp ∙ c.tallied.paired;
              single = c.tallied.single;
              counts = record { keys = c.tallied.counts.keys; values = c.tallied.counts.values };
            };
            winner = c.winner;
          };
          peopled = (v.live prefix r there).peopled;
        });
        exported = λ k.
            rw
              (find-assign prefix k (record r { timestamps = set r.timestamps index timestamp })
                t.by_prefix)
              (ground (arith, v.exported k, v.exported prefix, there, ==-iff prefix k));
      }

  -- What an announce stores, on each branch.
  module _ (t : Table K) (prefix : K) (p asn timestamp : ℕ) (v : IsSound t)
      (room : HasRoom t prefix) where
    add-IsLive :
        find_observation p (record_of t prefix).observations ≡ none
        → IsLive (add_observation (record_of t prefix) p asn timestamp)
    add-IsLive new =
        let r = record_of t prefix in
        record {
          consistent =
              add-IsConsistent r p asn timestamp (record_of-IsConsistent t prefix v) new room;
          peopled = rw ((add_vectors r p asn timestamp).0) (
              omega (
                arith,
                length-append r.observations ((record { peer_id = p; origin_asn = asn }) ∷ []),
              ));
        }

    replace-IsLive :
        (index : ℕ) (o : Observation)
        → get_elem? (record_of t prefix).observations index ≡ some o
        → (o.origin_asn == asn) ≡ false
        → IsLive (replace_observation (record_of t prefix) index o asn timestamp)
    replace-IsLive index o h ne =
        let r = record_of t prefix in
        record {
          consistent =
              replace-IsConsistent r index o (record_of-IsConsistent t prefix v) h asn timestamp ne
                (omega arith);
          peopled = rw ((replace_vectors r index o asn timestamp).0) (
              omega (
                arith,
                get_elem?-lt r.observations index o h,
                length-set r.observations index (record o { origin_asn = asn }),
              ));
        }

    pub announce_impl-IsSound : IsSound (announce_impl t prefix p asn timestamp)
    unfolding announce_impl
    announce_impl-IsSound =
        let r = record_of t prefix in
        elim (Option-cases (find_observation p r.observations)) [
          | inl new ↦ rw (new, announce_impl) (store_synced-IsSound t prefix _ v (add-IsLive new))
          | inr ((index, o), there) ↦
              let (h, _) = find_observation-some p r.observations index o there in
              rw (there, announce_impl)
                (elim (Bool-cases (o.origin_asn == asn)) [
                  | inl same ↦ rw same (refresh-IsSound t prefix index timestamp o v h)
                  | inr ne ↦ rw ne (store_synced-IsSound t prefix _ v (replace-IsLive index o h ne))
                ])
        ]

  settle-IsSound :
      (t : Table K) (prefix : K) (r : PrefixRecord) (removed : Observation)
      → IsSound t
      → IsConsistent
          (if removed.origin_asn == r.selected_asn then recompute_selected_from_counts r else r)
      → IsSound (settle_withdrawal t prefix r removed)
  unfolding settle_withdrawal
  settle-IsSound t prefix r removed v c = elim (Bool-cases (is_empty r.observations)) [
    | inl nobody ↦ rw nobody (erase-IsSound t prefix v)
    | inr somebody ↦ rw somebody (
        store_synced-IsSound t prefix _ v (record {
          consistent = c;
          peopled = rw (vectors_after r removed) (length_pos r.observations somebody);
        }))
  ]

  withdraw_from-IsSound :
      (t : Table K) (prefix : K) (p : ℕ) (r : PrefixRecord)
      → IsSound t
      → IsConsistent r
      → IsSound (withdraw_from t prefix p r)
  unfolding withdraw_from
  withdraw_from-IsSound t prefix p r v c = elim (Option-cases (find_observation p r.observations)) [
    | inl stranger ↦ rw (withdraw_from, stranger) v
    | inr ((index, o), here) ↦
        let (h, _) = find_observation-some p r.observations index o here in
        rw (withdraw_from, here) (settle-IsSound t prefix _ o v (drop-IsConsistent r index o c h))
  ]

  pub withdraw_impl-IsSound :
      (t : Table K) (prefix : K) (peer_id : ℕ)
      → IsSound t
      → IsSound (withdraw_impl t prefix peer_id)
  unfolding withdraw_impl
  withdraw_impl-IsSound t prefix p v = elim (Option-cases (find prefix t.by_prefix)) [
    | inl gone ↦ rw (withdraw_impl, gone) v
    | inr (r, there) ↦
        rw (withdraw_impl, there)
          (withdraw_from-IsSound t prefix p r v (v.live prefix r there).consistent)
  ]
