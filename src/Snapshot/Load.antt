-- ===== src/Snapshot/Load.antt =====
-- src/snapshot/snapshot_io.cpp: `load_snapshot`, from the contents of the file. An exception is the
-- last part of what it gives, beside the registry and the state as the exception leaves them.
use asnprefix_map.Base.{
  ℕ, ◌+◌, ◌%◌, ◌^◌, Bool, true, false, ◌&&◌, not, Option, none, some, List, [], ◌∷◌, ◌++◌, ◌==◌,
  nat_eq, bytes_eq, if◌then◌else◌, length, is_empty, Bytes, Error, Result, ok, err, ◌>>=◌,
  file_not_opened, expected_snapshot_header, data_before_section, peer_line_fields,
  observation_line_fields, unknown_section_name, repeated_peer_id, missing_snapshot_header,
  observation_unknown_peer_id,
}
use asnprefix_map.Base.Map.{Map, find, assign, is_present}
use asnprefix_map.Base.Text.{codes, lines}
use asnprefix_map.Base.Decimal.{stoul}
use asnprefix_map.Base.Sorting.{sort_by}
use asnprefix_map.Prefix.Inet.{Inet}
use asnprefix_map.Prefix.Cidr.{parse_family, parse_as}
use asnprefix_map.Peer.{PeerInfo, PeerRegistry, insert_with_id, contains, clear as clear_registry}
use asnprefix_map.Routing.State.{
  RoutingState, restore_observation, rebuild_aggregated, clear as clear_state,
}
use asnprefix_map.Snapshot.{
  SnapshotObservation, SnapshotStats, Section, no_section, peer_section, observation_section,
  split_tab_fields, trim, observation_lt,
}

-- The local variables of the loop over the lines.
pub record Reading : Type 0 where
  pub peers : Map ℕ PeerInfo
  pub observations : List SnapshotObservation
  pub section : Section
  pub saw_any_content : Bool
  pub saw_header : Bool

abbrev pub start_reading : Reading
start_reading = record {
  peers = [];
  observations = [];
  section = no_section;
  saw_any_content = false;
  saw_header = false;
}

-- `static_cast<uint32_t>(std::stoul(text))`
unfoldable pub read_uint32 : Bytes → Result ℕ
read_uint32 text = stoul text >>= λ n. ok (n % 2 ^ 32)

unfoldable pub read_peer : ℕ → List Bytes → Reading → Result Reading
read_peer line_number (id_text ∷ host ∷ peer_ip ∷ asn_text ∷ []) z =
    read_uint32 id_text >>= λ peer_id.
    if is_present (find peer_id z.peers)
    then err (repeated_peer_id line_number id_text)
    else (read_uint32 asn_text >>= λ peer_asn.
        let peer : PeerInfo = record { host = host; peer_ip = peer_ip; peer_asn = peer_asn } in
        ok (record z { peers = assign peer_id peer z.peers }))
read_peer line_number _ z = err (peer_line_fields line_number)

-- `std::stoull` reads what `std::stoul` does.
unfoldable pub read_observation : ℕ → List Bytes → Reading → Result Reading
read_observation line_number (f ∷ prefix_text ∷ id_text ∷ asn_text ∷ time_text ∷ []) z = do
  family ← parse_family f
  peer_id ← read_uint32 id_text
  origin_asn ← read_uint32 asn_text
  timestamp ← stoul time_text
  ok (record z {
    observations =
        z.observations
        ++ (record {
          family = family;
          prefix_text = prefix_text;
          peer_id = peer_id;
          origin_asn = origin_asn;
          timestamp = timestamp;
        })
          ∷ [];
  })
read_observation line_number _ z = err (observation_line_fields line_number)

-- A line of data, by the section that it stands in.
unfoldable pub read_data : ℕ → Bytes → Reading → Result Reading
read_data line_number line z = elim z.section [
  | no_section ↦ err (data_before_section line_number)
  | peer_section ↦ read_peer line_number (split_tab_fields line) z
  | observation_section ↦ read_observation line_number (split_tab_fields line) z
]

abbrev pub ends_with : ℕ → Bytes → Bool
ends_with b [] = false
ends_with b (c ∷ []) = c == b
ends_with b (c ∷ d ∷ cs) = ends_with b (d ∷ cs)

-- `front` and `back` are brackets.
unfoldable pub is_bracketed : Bytes → Bool
is_bracketed [] = false
is_bracketed (c ∷ cs) = c == b'[' && ends_with b']' (c ∷ cs)

-- A line that is not blank, behind the header.
unfoldable pub read_content : ℕ → Bytes → Reading → Result Reading
read_content line_number line z =
    let trimmed = trim line in
    if trimmed == codes "[peers]"
    then ok (record z { section = peer_section })
    else if trimmed == codes "[observations]"
    then ok (record z { section = observation_section })
    else if is_bracketed trimmed
    then err (unknown_section_name line_number trimmed)
    else read_data line_number line z

unfoldable pub read_snapshot_line : ℕ → Bytes → Reading → Result Reading
read_snapshot_line line_number line z =
    let trimmed = trim line in
    if is_empty trimmed
    then ok z
    else if not z.saw_header
    then (if trimmed == codes "# ASNPrefixMap snapshot v1"
        then ok (record z { saw_any_content = true; saw_header = true })
        else err (expected_snapshot_header line_number))
    else read_content line_number line (record z { saw_any_content = true })

-- The loop over the lines; the number of the line is a `size_t`.
unfoldable pub read_snapshot : ℕ → List Bytes → Reading → Result Reading
read_snapshot line_number [] z = ok z
read_snapshot line_number (line ∷ rest) z =
    let number = (line_number + 1) % 2 ^ 64 in
    read_snapshot_line number line z >>= read_snapshot number rest

-- The loop over the peers, with the exception that ends it early.
unfoldable pub insert_peers : Map ℕ PeerInfo → PeerRegistry → PeerRegistry × Option Error
insert_peers [] registry = (registry, none)
insert_peers ((peer_id, peer) ∷ peers) registry = elim (insert_with_id registry peer_id peer) [
  | err e ↦ (registry, some e)
  | ok entered ↦ insert_peers peers entered
]

-- One round of the loop over the observations.
unfoldable pub restore_one :
    Inet → PeerRegistry → SnapshotObservation → RoutingState → Result RoutingState
restore_one i registry o state =
    if not (contains registry o.peer_id)
    then err (observation_unknown_peer_id o.peer_id)
    else (parse_as i o.family o.prefix_text >>= λ prefix.
        ok (restore_observation state o.peer_id prefix o.origin_asn o.timestamp))

unfoldable pub restore_all :
    Inet → PeerRegistry → List SnapshotObservation → RoutingState → RoutingState × Option Error
restore_all i registry [] state = (state, none)
restore_all i registry (o ∷ observations) state = elim (restore_one i registry o state) [
  | err e ↦ (state, some e)
  | ok restored ↦ restore_all i registry observations restored
]

-- What the load leaves behind.
pub record Loaded : Type 0 where
  pub registry : PeerRegistry
  pub state : RoutingState
  pub outcome : Result SnapshotStats

-- After both objects have been cleared.
unfoldable pub restore_observations :
    Inet → Map ℕ PeerInfo → List SnapshotObservation → PeerRegistry → Loaded
restore_observations i peers observations registry =
    let (state, failure) = restore_all i registry observations clear_state in
    elim failure [
      | some e ↦ record { registry = registry; state = state; outcome = err e }
      | none ↦ record {
        registry = registry;
        state = rebuild_aggregated state;
        outcome = ok (record { peers = length peers; observations = length observations });
      }
    ]

unfoldable pub fill : Inet → Map ℕ PeerInfo → List SnapshotObservation → Loaded
fill i peers observations =
    let (registry, failure) = insert_peers peers clear_registry in
    elim failure [
      | some e ↦ record { registry = registry; state = clear_state; outcome = err e }
      | none ↦ restore_observations i peers observations registry
    ]

-- From the tests behind the loop over the lines on.
unfoldable pub finish_load : Inet → Reading → PeerRegistry → RoutingState → Loaded
finish_load i z registry state =
    if not z.saw_any_content
    then record {
      registry = clear_registry;
      state = clear_state;
      outcome = ok (record { peers = 0; observations = 0 });
    }
    else if not z.saw_header
    then record { registry = registry; state = state; outcome = err missing_snapshot_header }
    else fill i z.peers (sort_by observation_lt z.observations)

-- `none` is a file that cannot be opened.
unfoldable pub load_snapshot : Inet → Bytes → Option Bytes → PeerRegistry → RoutingState → Loaded
load_snapshot i path none registry state = record {
  registry = registry;
  state = state;
  outcome = err (file_not_opened path);
}
load_snapshot i path (some contents) registry state =
    elim (read_snapshot 0 (lines contents) start_reading) [
      | err e ↦ record { registry = registry; state = state; outcome = err e }
      | ok z ↦ finish_load i z registry state
    ]
