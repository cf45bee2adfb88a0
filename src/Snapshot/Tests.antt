-- ===== src/Snapshot/Tests.antt =====
-- A snapshot saved and loaded, and the theorems about snapshots at concrete files.
use asnprefix_map.Base.{
  ℕ, ◌+◌, ◌%◌, ◌++◌, ◌==◌, bytes_eq, false, is_empty, err, expected_snapshot_header,
  peer_line_fields, ◌^◌, ◌≡◌, refl, true, some, List, [], ◌∷◌, arith, nat_eq, Bytes, ok, subst,
  pair_up, map,
}
use asnprefix_map.Base.Map.{find, assign}
use asnprefix_map.Base.Sorting.{All, sort_by, insert_by}
use asnprefix_map.Base.Text.{codes, lines, cut_at, c_str}
use asnprefix_map.Base.Decimal.{
  stoul, skip_spaces, read_signed, read_number, read_digits, to_string, print_digits,
}
use asnprefix_map.Prefix.{BinaryPrefix, v4, family_of}
use asnprefix_map.Prefix.Mask.{apply_mask_v4}
use asnprefix_map.Prefix.Cidr.{
  split_cidr, read_address_v4, parse_prefix_v4, parse_as, prefix_to_string, family_to_string,
  parse_family,
}
use asnprefix_map.Prefix.Tests.{marked, marked-IsInet, ten-IsCanonical}
use asnprefix_map.Peer.{
  PeerInfo, PeerRegistry, get_or_add, insert_with_id, contains, get, clear as clear_registry,
}
use asnprefix_map.Peer.Mirror.{IsMirror, get_or_add-IsMirror, clear-IsMirror}
use asnprefix_map.Routing.Record.{
  is_better_selection, increment_asn_count, find_observation, push_observation, add_observation,
}
use asnprefix_map.Routing.Table.{sync_aggregated, store_synced, announce_impl}
use asnprefix_map.Routing.State.{
  RoutingState, StoredObservation, clear, announce, append_stored_observations, stored_observations,
}
use asnprefix_map.Routing.State.Families.{
  BothSound, observed, exported, Call, announces, step, run, run-BothSound, clear-BothSound,
}
use asnprefix_map.Snapshot.{
  SnapshotStats, save_snapshot, split_tab_fields, trim, trim_front, trim_back, peer_line,
  observation_line, unlines, snapshot_lines,
}
use asnprefix_map.Snapshot.Load.{
  read_uint32, read_peer, read_observation, read_data, is_bracketed, read_content,
  read_snapshot_line, read_snapshot, insert_peers, restore_one, restore_all, restore_observations,
  fill, finish_load, load_snapshot,
}
use asnprefix_map.Snapshot.Fields.{IsField}
use asnprefix_map.Snapshot.Printed.{PrintsFields, IsSavable, described}
use asnprefix_map.Snapshot.Peers.{HasPeers}
use asnprefix_map.Snapshot.Loading.{
  load_snapshot-BothSound, load_snapshot-blank, load_snapshot-no_header,
}
use asnprefix_map.Snapshot.RoundTrip.{load_snapshot-save_snapshot}

abbrev peer : PeerInfo
peer = record { host = codes "rrc00"; peer_ip = codes "192.0.2.1"; peer_asn = 64500 }

abbrev ten : BinaryPrefix
ten = v4 (record { network = 0x0a000000; length = 8 })

abbrev registry : PeerRegistry
registry = (get_or_add clear_registry peer).0

registry-IsMirror : IsMirror registry
registry-IsMirror = get_or_add-IsMirror clear_registry peer clear-IsMirror (omega arith)

abbrev calls : List Call
calls = announces 1 ten 200 5 ∷ []

abbrev state : RoutingState
state = run clear calls

state-BothSound : BothSound state
unfolding find
state-BothSound = run-BothSound clear calls clear-BothSound (omega arith, tt)

moved-IsField : (xs : Bytes) → IsField (map (λ x. x + 256) xs)
moved-IsField [] = record { no_tab = refl; no_newline = refl }
moved-IsField (x ∷ xs) =
    let rest = moved-IsField xs in
    record { no_tab = ground (arith, rest.no_tab); no_newline = ground (arith, rest.no_newline) }

some_same : {xs ys : Bytes} → some xs ≡ some ys → xs ≡ ys
some_same h = cc

marked-PrintsFields : PrintsFields marked
marked-PrintsFields = record {
  field_v4 = λ n text h.
      subst IsField (some_same h) (record { no_tab = ground arith; no_newline = ground arith });
  field_v6 = λ bytes text h. subst IsField (some_same h) (
      let rest = moved-IsField bytes in
      record { no_tab = rest.no_tab; no_newline = rest.no_newline });
}

abbrev entry : StoredObservation
entry = record {
  prefix = ten;
  observation = record { peer_id = 1; origin_asn = 200 };
  timestamp = 5;
}

state_entries : stored_observations state ≡ entry ∷ []
unfolding run step announce announce_impl store_synced sync_aggregated find assign find_observation
    add_observation push_observation increment_asn_count is_better_selection stored_observations
    append_stored_observations pair_up
state_entries = refl

named : find 1 registry.by_id ≡ some peer
unfolding get_or_add find assign
named = refl

peers_held : HasPeers registry (stored_observations state)
peers_held = rw state_entries (
  (
    peer,
    (
      named,
      record {
        host = record { no_tab = refl; no_newline = refl };
        peer_ip = record { no_tab = refl; no_newline = refl };
        id_fits = omega arith;
        asn_fits = omega arith;
      },
    ),
  ),
  tt,
)

savable : All IsSavable (stored_observations state)
savable = rw state_entries (
  record {
    canonical = ten-IsCanonical;
    id_fits = omega arith;
    asn_fits = omega arith;
    time_fits = omega arith;
  },
  tt,
)

load_snapshot-save_snapshot_example :
    (stats : SnapshotStats) × (text : Bytes) × (save_snapshot marked [] true registry state
      ≡ ok (stats, text))
    × ((from : Bytes) (r0 : PeerRegistry) (s0 : RoutingState)
        → let l = load_snapshot marked from (some text) r0 s0 in
          (l.outcome ≡ ok stats)
          × IsMirror l.registry
          × BothSound l.state
          × ((k : BinaryPrefix) (q : ℕ) → observed l.state k q ≡ observed state k q)
          × ((k : BinaryPrefix) → exported l.state k ≡ exported state k)
          × All
              (λ e. get l.registry e.observation.peer_id ≡ get registry e.observation.peer_id)
              (stored_observations state)
          × ((id : ℕ) (p : PeerInfo) → get l.registry id ≡ ok p → get registry id ≡ ok p))
load_snapshot-save_snapshot_example =
    load_snapshot-save_snapshot marked marked-IsInet marked-PrintsFields registry state
      state-BothSound registry-IsMirror peers_held savable (rw state_entries (omega arith)) []

-- The snapshot of that state, as it is written.
abbrev file : Bytes
file = unlines (snapshot_lines ((1, peer) ∷ []) (described marked entry ∷ []))

loaded :
    (load_snapshot marked [] (some file) clear_registry clear).outcome
    ≡ ok (record { peers = 1; observations = 1 })
unfolding load_snapshot finish_load fill restore_observations restore_all restore_one insert_peers
    read_snapshot read_snapshot_line read_content read_data read_peer read_observation read_uint32
    is_bracketed trim trim_front trim_back split_tab_fields unlines snapshot_lines peer_line
    observation_line lines stoul skip_spaces read_signed read_number read_digits to_string
    print_digits family_to_string parse_family family_of prefix_to_string parse_as parse_prefix_v4
    split_cidr read_address_v4 cut_at c_str apply_mask_v4 sort_by insert_by insert_with_id contains
    find assign
loaded = refl

load_snapshot-BothSound_example :
    let l = load_snapshot marked [] (some file) clear_registry clear in
    BothSound l.state
    × ((k : BinaryPrefix) (q : ℕ) (w : ℕ × ℕ)
        → observed l.state k q ≡ some w
        → contains l.registry q ≡ true)
load_snapshot-BothSound_example =
    load_snapshot-BothSound marked [] file clear_registry clear
      (record { peers = 1; observations = 1 }) loaded (omega arith)

blank_lines : All (λ line. is_empty (trim line) ≡ true) (lines (10 ∷ 32 ∷ 9 ∷ 13 ∷ 10 ∷ []))
unfolding lines trim trim_front trim_back
blank_lines = (refl, (refl, tt))

load_snapshot-blank_example :
    load_snapshot marked [] (some (10 ∷ 32 ∷ 9 ∷ 13 ∷ 10 ∷ [])) registry state ≡ record {
      registry = clear_registry;
      state = clear;
      outcome = ok (record { peers = 0; observations = 0 });
    }
load_snapshot-blank_example =
    load_snapshot-blank marked [] (10 ∷ 32 ∷ 9 ∷ 13 ∷ 10 ∷ []) registry state blank_lines

-- The third line of this file, behind two blank ones, is no header.
abbrev headless : Bytes
headless = 10 ∷ 32 ∷ 10 ∷ codes "[peers]"

lines-headless : lines headless ≡ ([] ∷ (32 ∷ []) ∷ []) ++ codes "[peers]" ∷ []
unfolding lines
lines-headless = refl

two_blanks : All (λ line. is_empty (trim line) ≡ true) ([] ∷ (32 ∷ []) ∷ [])
unfolding trim trim_front trim_back
two_blanks = (refl, (refl, tt))

not_blank : is_empty (trim (codes "[peers]")) ≡ false
unfolding trim trim_front trim_back
not_blank = refl

not_header : (trim (codes "[peers]") == codes "# ASNPrefixMap snapshot v1") ≡ false
unfolding trim trim_front trim_back
not_header = refl

load_snapshot-no_header_example : load_snapshot marked [] (some headless) registry state ≡ record {
  registry = registry;
  state = state;
  outcome = err (expected_snapshot_header (3 % 2 ^ 64));
}
load_snapshot-no_header_example =
    load_snapshot-no_header marked [] headless (codes "[peers]") ([] ∷ (32 ∷ []) ∷ []) [] registry
      state lines-headless two_blanks not_blank not_header

-- A host with a tab is written as it is, and its line is refused.
tabbed_host :
    (load_snapshot marked []
      (some (unlines (snapshot_lines ((1, record peer { host = b'a' ∷ 9 ∷ b'b' ∷ [] }) ∷ []) [])))
      clear_registry
      clear).outcome
    ≡ err (peer_line_fields 4)
unfolding load_snapshot read_snapshot read_snapshot_line read_content read_data read_peer
    is_bracketed trim trim_front trim_back split_tab_fields unlines snapshot_lines peer_line lines
    to_string print_digits
tabbed_host = refl
