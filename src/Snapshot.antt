-- ===== src/Snapshot.antt =====
-- src/snapshot/snapshot_io.h and src/snapshot/snapshot_io.cpp: the lines of a snapshot, and
-- `save_snapshot`, whose file is the text that it writes.
pub mod Load
pub mod Fields
pub mod Lines
pub mod Sections
pub mod Peers
pub mod Printed
pub mod RoundTrip
pub mod Loading
pub mod Saving
mod Tests
use asnprefix_map.Base.{
  ℕ, ◌+◌, ◌<◌, Bool, true, false, ◌||◌, not, Option, none, some, List, [], ◌∷◌, ◌++◌, ltb, ◌==◌,
  nat_eq, bytes_eq, if◌then◌else◌, length, is_empty, Bytes, Result, ok, err, ◌>>=◌, map,
  file_not_opened, unprintable_prefix, state_unknown_peer_id,
}
use asnprefix_map.Base.Text.{codes, bytes_lt}
use asnprefix_map.Base.Decimal.{to_string}
use asnprefix_map.Base.Sorting.{sort_by}
use asnprefix_map.Prefix.{PrefixFamily, family_v4, family_v6, family_of}
use asnprefix_map.Prefix.Inet.{Inet}
use asnprefix_map.Prefix.Cidr.{family_to_string, prefix_to_string}
use asnprefix_map.Peer.{PeerInfo, PeerRegistry, contains, get}
use asnprefix_map.Routing.State.{RoutingState, StoredObservation, stored_observations}

pub record SnapshotObservation : Type 0 where
  pub family : PrefixFamily
  pub prefix_text : Bytes
  pub peer_id : ℕ
  pub origin_asn : ℕ
  pub timestamp : ℕ

pub record SnapshotStats : Type 0 where
  pub peers : ℕ
  pub observations : ℕ

pub data Section : Type 0 where
  no_section peer_section observation_section : Section

-- The fields between the tabs of a line; there is one more than there are tabs.
unfoldable pub split_tab_fields : Bytes → List Bytes
split_tab_fields [] = [] ∷ []
split_tab_fields (c ∷ cs) =
    let rest = split_tab_fields cs in
    if c == 9
    then [] ∷ rest
    else elim rest [ [] ↦ (c ∷ []) ∷ [] | field ∷ fields ↦ (c ∷ field) ∷ fields ]

-- The blanks that `trim` takes away.
abbrev pub is_blank : ℕ → Bool
is_blank c = c == 32 || (c == 9 || (c == 13 || c == 10))

unfoldable pub trim_front : Bytes → Bytes
trim_front [] = []
trim_front (c ∷ cs) = let rest = trim_front cs in if is_blank c then rest else c ∷ cs

unfoldable pub trim_back : Bytes → Bytes
trim_back [] = []
trim_back (c ∷ cs) =
    let rest = trim_back cs in
    if is_blank c then (if is_empty rest then [] else c ∷ rest) else c ∷ rest

unfoldable pub trim : Bytes → Bytes
trim value = trim_back (trim_front value)

abbrev pub family_lt : PrefixFamily → PrefixFamily → Bool
family_lt family_v4 family_v6 = true
family_lt _ _ = false

abbrev pub family_beq : PrefixFamily → PrefixFamily → Bool
family_beq family_v4 family_v4 = true
family_beq family_v6 family_v6 = true
family_beq _ _ = false

-- The comparator of both sorts.
unfoldable pub observation_lt : SnapshotObservation → SnapshotObservation → Bool
observation_lt left right =
    if not (family_beq left.family right.family)
    then family_lt left.family right.family
    else if not (left.prefix_text == right.prefix_text)
    then bytes_lt left.prefix_text right.prefix_text
    else if not (left.peer_id == right.peer_id)
    then ltb left.peer_id right.peer_id
    else if not (left.origin_asn == right.origin_asn)
    then ltb left.origin_asn right.origin_asn
    else ltb left.timestamp right.timestamp

-- `insert` of a `std::set`, whose elements are in order.
unfoldable pub insert_id : ℕ → List ℕ → List ℕ
insert_id n [] = n ∷ []
insert_id n (m ∷ ms) =
    let rest = insert_id n ms in if n == m then m ∷ ms else if ltb n m then n ∷ m ∷ ms else m ∷ rest

unfoldable pub used_peer_ids : List StoredObservation → List ℕ
used_peer_ids [] = []
used_peer_ids (entry ∷ stored) = insert_id entry.observation.peer_id (used_peer_ids stored)

unfoldable pub name_peers : PeerRegistry → List ℕ → Result (List (ℕ × PeerInfo))
name_peers registry [] = ok []
name_peers registry (peer_id ∷ ids) =
    if not (contains registry peer_id)
    then err (state_unknown_peer_id peer_id)
    else (get registry peer_id >>= λ peer.
        name_peers registry ids >>= λ peers. ok ((peer_id, peer) ∷ peers))

-- `to_string` of the prefix throws where the address is not printed.
unfoldable pub describe : Inet → StoredObservation → Result SnapshotObservation
describe i entry = elim (prefix_to_string i entry.prefix) [
  | none ↦ err unprintable_prefix
  | some prefix_text ↦ ok (record {
    family = family_of entry.prefix;
    prefix_text = prefix_text;
    peer_id = entry.observation.peer_id;
    origin_asn = entry.observation.origin_asn;
    timestamp = entry.timestamp;
  })
]

unfoldable pub describe_all : Inet → List StoredObservation → Result (List SnapshotObservation)
describe_all i [] = ok []
describe_all i (entry ∷ stored) = describe i entry >>= λ observation.
    describe_all i stored >>= λ observations. ok (observation ∷ observations)

unfoldable pub peer_line : ℕ × PeerInfo → Bytes
peer_line (peer_id, peer) =
    to_string peer_id ++ (9 ∷ (peer.host ++ (9 ∷ (peer.peer_ip ++ (9 ∷ to_string peer.peer_asn)))))

unfoldable pub observation_line : SnapshotObservation → Bytes
observation_line o =
    family_to_string o.family
    ++ (9
        ∷ (o.prefix_text
            ++ (9
                ∷ (to_string o.peer_id
                    ++ (9 ∷ (to_string o.origin_asn ++ (9 ∷ to_string o.timestamp)))))))

-- Each line with the newline that ends it.
unfoldable pub unlines : List Bytes → Bytes
unlines [] = []
unlines (line ∷ rest) = line ++ 10 ∷ unlines rest

unfoldable pub snapshot_lines : List (ℕ × PeerInfo) → List SnapshotObservation → List Bytes
snapshot_lines peers observations =
    codes "# ASNPrefixMap snapshot v1"
    ∷ []
    ∷ codes "[peers]"
    ∷ (map peer_line peers ++ [] ∷ codes "[observations]" ∷ map observation_line observations)

-- The statistics, and the text of the file; `opens` says whether the file can be opened, which is
-- after all that may throw.
unfoldable pub save_snapshot :
    Inet → Bytes → Bool → PeerRegistry → RoutingState → Result (SnapshotStats × Bytes)
save_snapshot i path opens registry state =
    let stored = stored_observations state in
    name_peers registry (used_peer_ids stored) >>= λ peers. describe_all i stored >>= λ described.
    let observations = sort_by observation_lt described in
    if not opens
    then err (file_not_opened path)
    else ok (
      record { peers = length peers; observations = length observations },
      unlines (snapshot_lines peers observations),
    )
