-- ===== src/Routing/Table.antt =====
-- src/routing_state.cpp: the templates over one prefix family, `sync_aggregated`, `announce_impl`,
-- `withdraw_impl`, and the rebuilding of the aggregated map. The pair of maps of a family is a
-- `Table`.
pub mod Soundness
pub mod Refinement
pub mod Exports
pub mod Rebuild
pub mod Growth
pub mod Agreement
use asnprefix_map.Base.{
  ℕ, ◌+◌, ◌-◌, Bool, true, false, Option, none, some, List, [], ◌∷◌, ◌++◌, Eq, ◌==◌, if◌then◌else◌,
  nat_eq, set, is_empty, is_empty,
}
use asnprefix_map.Base.Map.{Map, find, assign, erase, get_or}
use asnprefix_map.Routing.Record.{
  Observation, PrefixRecord, empty_record, find_observation, replace_observation, add_observation,
  drop_observation, recompute_selected_from_counts,
}

pub record Table (K : Type 0) : Type 0 where
  pub by_prefix : Map K PrefixRecord
  pub aggregated : Map K ℕ

module _ {K : Type 0} where
  abbrev pub empty_table : Table K
  empty_table = record { by_prefix = []; aggregated = [] }

module _ {K : Type 0} ⦃e : Eq K⦄ where
  unfoldable pub sync_aggregated : Map K ℕ → K → PrefixRecord → Map K ℕ
  sync_aggregated aggregated prefix r =
      if r.selected_count == 0
      then erase prefix aggregated
      else assign prefix r.selected_asn aggregated

  -- The record of the prefix is changed in place, and then the two maps are brought into step.
  unfoldable pub store_synced : Table K → K → PrefixRecord → Table K
  store_synced t prefix r = record {
    by_prefix = assign prefix r t.by_prefix;
    aggregated = sync_aggregated t.aggregated prefix r;
  }

  unfoldable pub announce_impl : Table K → K → ℕ → ℕ → ℕ → Table K
  announce_impl t prefix peer_id origin_asn timestamp =
      let r = get_or empty_record (find prefix t.by_prefix) in
      elim (find_observation peer_id r.observations) [
        | none ↦ store_synced t prefix (add_observation r peer_id origin_asn timestamp)
        | some (index, observation) ↦
            if observation.origin_asn == origin_asn
            then record t {
              by_prefix =
                  assign prefix (record r { timestamps = set r.timestamps index timestamp })
                    t.by_prefix;
            }
            else store_synced t prefix
                (replace_observation r index observation origin_asn timestamp)
      ]

  -- `withdraw_impl` after the two calls of `pop_back`.
  unfoldable pub settle_withdrawal : Table K → K → PrefixRecord → Observation → Table K
  settle_withdrawal t prefix r removed =
      if is_empty r.observations
      then record { by_prefix = erase prefix t.by_prefix; aggregated = erase prefix t.aggregated }
      else store_synced t prefix
          (if removed.origin_asn == r.selected_asn then recompute_selected_from_counts r else r)

  -- The loop of `withdraw_impl` over the record that it has found.
  unfoldable pub withdraw_from : Table K → K → ℕ → PrefixRecord → Table K
  withdraw_from t prefix peer_id r = elim (find_observation peer_id r.observations) [
    | none ↦ t
    | some (index, removed) ↦ settle_withdrawal t prefix (drop_observation r index removed) removed
  ]

  unfoldable pub withdraw_impl : Table K → K → ℕ → Table K
  withdraw_impl t prefix peer_id = elim (find prefix t.by_prefix) [
    | none ↦ t
    | some r ↦ withdraw_from t prefix peer_id r
  ]

  -- `recompute_prefix_origin`; `at` finds the prefix, which the caller takes from the same map.
  unfoldable pub recompute_prefix_origin : Table K → K → Table K
  recompute_prefix_origin t prefix = elim (find prefix t.by_prefix) [
    | none ↦ t
    | some r ↦ store_synced t prefix (recompute_selected_from_counts r)
  ]

  -- The loop of `rebuild_aggregated` over the entries of `by_prefix` that are left.
  unfoldable pub recompute_all : Map K PrefixRecord → Table K → Table K
  recompute_all [] t = t
  recompute_all ((prefix, r) ∷ m) t = recompute_all m (recompute_prefix_origin t prefix)

  unfoldable pub rebuild_aggregated : Table K → Table K
  unfolding recompute_all
  rebuild_aggregated t = recompute_all t.by_prefix (record t { aggregated = [] })
