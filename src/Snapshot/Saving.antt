-- ===== src/Snapshot/Saving.antt =====
-- src/snapshot/snapshot_io.cpp: `save_snapshot` throws only where a peer is unknown, a prefix cannot
-- be printed, or the file cannot be opened.
use asnprefix_map.Base.{
  ℕ, ◌≡◌, refl, inl, inr, true, false, some, List, [], ◌∷◌, arith, nat_eq, Option-cases, Bytes,
  Error, ok, err, >>=-err, file_not_opened, length,
}
use asnprefix_map.Base.Map.{find}
use asnprefix_map.Base.Sorting.{All, All-mono, sort_by}
use asnprefix_map.Prefix.{BinaryPrefix}
use asnprefix_map.Prefix.Inet.{Inet}
use asnprefix_map.Prefix.Cidr.{prefix_to_string}
use asnprefix_map.Peer.{PeerInfo, PeerRegistry, contains, get}
use asnprefix_map.Routing.State.{RoutingState, StoredObservation, stored_observations}
use asnprefix_map.Routing.State.Families.{BothSound, observed}
use asnprefix_map.Routing.State.Stored.{stored-observed}
use asnprefix_map.Snapshot.{
  SnapshotObservation, SnapshotStats, observation_lt, used_peer_ids, name_peers, describe,
  describe_all, unlines, snapshot_lines, save_snapshot,
}
use asnprefix_map.Snapshot.Printed.{described}
use asnprefix_map.Snapshot.Peers.{used_peer_ids-All}

name_peers-ok :
    (r : PeerRegistry) (ids : List ℕ)
    → All (λ id. contains r id ≡ true) ids
    → (ps : List (ℕ × PeerInfo)) × (name_peers r ids ≡ ok ps)
unfolding name_peers contains get
name_peers-ok r [] h = ([], refl)
name_peers-ok r (id ∷ ids) (here, hs) = elim (Option-cases (find id r.by_id)) [
  | inl gone ↦ absurd (ground (arith, here, gone))
  | inr (p, there) ↦
      let (ps, rest) = name_peers-ok r ids hs in ((id, p) ∷ ps, rw (get, there, rest))
]

describe-ok :
    (i : Inet) (e : StoredObservation) (text : Bytes)
    → prefix_to_string i e.prefix ≡ some text
    → describe i e ≡ ok (described i e)
unfolding describe
describe-ok i e text printed = rw (describe, printed)

describe_all-ok :
    (i : Inet) (es : List StoredObservation)
    → All (λ e. (text : Bytes) × (prefix_to_string i e.prefix ≡ some text)) es
    → (os : List SnapshotObservation) × (describe_all i es ≡ ok os)
unfolding describe_all
describe_all-ok i [] h = ([], refl)
describe_all-ok i (e ∷ es) ((text, printed), hs) =
    let (os, rest) = describe_all-ok i es hs in
    (described i e ∷ os, rw (describe-ok i e text printed, rest))

-- From a sound state whose entries are of peers that the registry has and of prefixes that have a
-- text, the save gives a text.
pub save_snapshot-ok :
    (i : Inet) (path : Bytes) (r : PeerRegistry) (s : RoutingState)
    → BothSound s
    → ((k : BinaryPrefix) (q : ℕ) (w : ℕ × ℕ) → observed s k q ≡ some w → contains r q ≡ true)
    → ((k : BinaryPrefix) (q : ℕ) (w : ℕ × ℕ)
        → observed s k q ≡ some w
        → (text : Bytes) × (prefix_to_string i k ≡ some text))
    → (saved : SnapshotStats × Bytes) × (save_snapshot i path true r s ≡ ok saved)
unfolding save_snapshot
save_snapshot-ok i path r s v known printed =
    let entries = stored-observed s v in
    let all = stored_observations s in
    let (ps, named) = name_peers-ok r (used_peer_ids all) (
      used_peer_ids-All (λ id. contains r id ≡ true) all
        (All-mono (λ e h. known e.prefix e.observation.peer_id _ h) all entries)) in
    let (os, described) =
      describe_all-ok i all
        (All-mono (λ e h. printed e.prefix e.observation.peer_id _ h) all entries) in
    let sorted = sort_by observation_lt os in
    (
      (
        record { peers = length ps; observations = length sorted },
        unlines (snapshot_lines ps sorted),
      ),
      rw (named, described),
    )

-- Where the file cannot be opened, the save throws.
pub save_snapshot-err :
    (i : Inet) (path : Bytes) (r : PeerRegistry) (s : RoutingState)
    → (e : Error) × (save_snapshot i path false r s ≡ err e)
unfolding save_snapshot
save_snapshot-err i path r s =
    >>=-err (name_peers r (used_peer_ids (stored_observations s))) _ (λ peers.
      >>=-err (describe_all i (stored_observations s)) _
        (λ described. (file_not_opened path, refl)))
