-- ===== src/Routing/State.antt =====
-- src/routing_state.h and src/routing_state.cpp: the class `RoutingState`, one table for each family.
pub mod Families
pub mod History
pub mod Stored
pub mod Restoring
pub mod Agreement
mod Tests
use asnprefix_map.Base.{ℕ, ◌+◌, Option, none, some, List, [], ◌∷◌, ◌++◌, map, length, pair_up}
use asnprefix_map.Base.Map.{Map}
use asnprefix_map.Prefix.{PrefixV4, PrefixV6, BinaryPrefix, v4, v6, v4_eq, v6_eq}
use asnprefix_map.Routing.Record.{Observation, PrefixRecord}
use asnprefix_map.Routing.Table.{
  Table, empty_table, announce_impl, withdraw_impl, rebuild_aggregated as rebuild_table,
}

-- `by_prefix_v4_` and `aggregated_v4_` are the two maps of `table_v4`, and so for IPv6.
pub record RoutingState : Type 0 where
  pub table_v4 : Table PrefixV4
  pub table_v6 : Table PrefixV6

pub record StoredObservation : Type 0 where
  pub prefix : BinaryPrefix
  pub observation : Observation
  pub timestamp : ℕ

-- The state of a new object, and of one after `clear`.
abbrev pub clear : RoutingState
clear = record { table_v4 = empty_table; table_v6 = empty_table }

-- The two overloads.
unfoldable pub announce : RoutingState → ℕ → BinaryPrefix → ℕ → ℕ → RoutingState
announce s peer_id (v4 prefix) origin_asn timestamp = record s {
  table_v4 = announce_impl s.table_v4 prefix peer_id origin_asn timestamp;
}
announce s peer_id (v6 prefix) origin_asn timestamp = record s {
  table_v6 = announce_impl s.table_v6 prefix peer_id origin_asn timestamp;
}

unfoldable pub withdraw : RoutingState → ℕ → BinaryPrefix → RoutingState
withdraw s peer_id (v4 prefix) = record s { table_v4 = withdraw_impl s.table_v4 prefix peer_id }
withdraw s peer_id (v6 prefix) = record s { table_v6 = withdraw_impl s.table_v6 prefix peer_id }

unfoldable pub restore_observation : RoutingState → ℕ → BinaryPrefix → ℕ → ℕ → RoutingState
restore_observation s peer_id (v4 prefix) origin_asn timestamp = record s {
  table_v4 = announce_impl s.table_v4 prefix peer_id origin_asn timestamp;
}
restore_observation s peer_id (v6 prefix) origin_asn timestamp = record s {
  table_v6 = announce_impl s.table_v6 prefix peer_id origin_asn timestamp;
}

unfoldable pub rebuild_aggregated : RoutingState → RoutingState
rebuild_aggregated s = record {
  table_v4 = rebuild_table s.table_v4;
  table_v6 = rebuild_table s.table_v6;
}

unfoldable pub append_stored_observations :
    {K : Type 0} → (K → BinaryPrefix) → Map K PrefixRecord → List StoredObservation
append_stored_observations wrap [] = []
append_stored_observations wrap ((prefix, r) ∷ m) =
    map (λ z. record { prefix = wrap prefix; observation = z.0; timestamp = z.1 })
      (pair_up r.observations r.timestamps)
    ++ append_stored_observations wrap m

unfoldable pub stored_observations : RoutingState → List StoredObservation
stored_observations s =
    append_stored_observations v4 s.table_v4.by_prefix
    ++ append_stored_observations v6 s.table_v6.by_prefix

unfoldable pub active_prefixes_v4_count : RoutingState → ℕ
active_prefixes_v4_count s = length s.table_v4.aggregated

unfoldable pub active_prefixes_v6_count : RoutingState → ℕ
active_prefixes_v6_count s = length s.table_v6.aggregated

unfoldable pub active_prefixes_total_count : RoutingState → ℕ
active_prefixes_total_count s = length s.table_v4.aggregated + length s.table_v6.aggregated
