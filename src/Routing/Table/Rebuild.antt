-- ===== src/Routing/Table/Rebuild.antt =====
-- The rebuilding of the aggregated map from the records of a sound table.
use asnprefix_map.Base.{
  ◌≡◌, refl, sym, ◌∙◌, false, some, [], ◌∷◌, arith, Eq, ◌==◌, ==-iff, if◌then◌else◌, nat_eq, ap,
}
use asnprefix_map.Base.Map.{
  Map, find, assign, Distinct, is_present, find-assign, assign-Distinct, assign_self,
}
use asnprefix_map.Routing.Record.{PrefixRecord}
use asnprefix_map.Routing.Record.Recount.{recompute-eq_self}
use asnprefix_map.Routing.Table.{
  Table, sync_aggregated, store_synced, recompute_prefix_origin, recompute_all, rebuild_aggregated,
}
use asnprefix_map.Routing.Table.Soundness.{IsSound, IsLive, selected, selected_count-pos}

module _ {K : Type 0} ⦃e : Eq K⦄ where
  -- The records are live, and the aggregated map may lack some of them.
  record IsPartial (by_prefix : Map K PrefixRecord) (t : Table K) : Type 0 where
    same : t.by_prefix ≡ by_prefix
    aggregated_keys : Distinct t.aggregated

  module _ (by_prefix : Map K PrefixRecord)
      (live : (k : K) (r : PrefixRecord) → find k by_prefix ≡ some r → IsLive r) where
    -- One call brings one prefix into step.
    recompute_one :
        (t : Table K) (prefix : K) (r : PrefixRecord)
        → IsPartial by_prefix t
        → find prefix by_prefix ≡ some r
        → IsPartial by_prefix (recompute_prefix_origin t prefix)
          × ((k : K)
              → find k (recompute_prefix_origin t prefix).aggregated
                ≡ (if prefix == k then some r.selected_asn else find k t.aggregated))
    unfolding recompute_prefix_origin store_synced sync_aggregated
    recompute_one t prefix r v there =
        let l = live prefix r there in
        let kept : (r.selected_count == 0) ≡ false = ground (arith, selected_count-pos r l) in
        let found : find prefix t.by_prefix ≡ some r = ap (find prefix) v.same ∙ there in
        let again = recompute-eq_self r l.consistent in
        rw (recompute_prefix_origin, found, again, kept)
          (
            record {
              same = ap (assign prefix r) v.same ∙ assign_self prefix r by_prefix there;
              aggregated_keys =
                  assign-Distinct prefix r.selected_asn t.aggregated v.aggregated_keys;
            },
            λ k. find-assign prefix k r.selected_asn t.aggregated,
          )

    recompute_rest :
        (m : Map K PrefixRecord) (t : Table K)
        → IsPartial by_prefix t
        → Distinct m
        → ((k : K) (r : PrefixRecord) → find k m ≡ some r → find k by_prefix ≡ some r)
        → IsPartial by_prefix (recompute_all m t)
          × ((k : K)
              → find k (recompute_all m t).aggregated
                ≡ (if is_present (find k m) then selected (find k m) else find k t.aggregated))
    unfolding recompute_all find
    recompute_rest [] t v d within = (v, λ k. refl)
    recompute_rest ((prefix, r) ∷ m) t v (new, d) within =
        let there = within prefix r (ground (arith, ==-iff prefix prefix)) in
        let (w, says) = recompute_one t prefix r v there in
        let (last, last_says) =
          recompute_rest m (recompute_prefix_origin t prefix) w d
            (λ k s h. within k s (ground (arith, h, new, ==-iff prefix k))) in
        (last, λ k. ground (arith, last_says k, says k, new, ==-iff prefix k))

  -- The records and the exported origins of a sound table stay as they are.
  pub rebuild_table_lem :
      (t : Table K)
      → IsSound t
      → let u = rebuild_aggregated t in
        IsSound u
        × (u.by_prefix ≡ t.by_prefix)
        × ((k : K) → find k u.aggregated ≡ find k t.aggregated)
  unfolding rebuild_aggregated find
  rebuild_table_lem t v =
      let cleared : Table K = record t { aggregated = [] } in
      let (w, says) =
        recompute_rest t.by_prefix v.live t.by_prefix cleared
          (record { same = refl; aggregated_keys = tt }) v.keys (λ k r h. h) in
      let same : (k : K) → find k (rebuild_aggregated t).aggregated ≡ find k t.aggregated =
        λ k. ground (arith, says k, v.exported k) in
      (
        record {
          keys = rw w.same v.keys;
          aggregated_keys = w.aggregated_keys;
          live = λ k r h. v.live k r (sym (ap (find k) w.same) ∙ h);
          exported = λ k. same k ∙ v.exported k ∙ ap (λ m. selected (find k m)) (sym w.same);
        },
        w.same,
        same,
      )
