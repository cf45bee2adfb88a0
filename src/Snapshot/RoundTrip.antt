-- ===== src/Snapshot/RoundTrip.antt =====
-- A snapshot that is saved and loaded again.
use asnprefix_map.Base.{
  ℕ, inl, inr, Option-cases, unknown_peer_id, Result, ◌^◌, ◌<◌, ◌≡◌, refl, sym, ◌∙◌, ap, Bool, true,
  Option, none, some, List, [], ◌∷◌, arith, Error, err, ==-iff, nat_eq, map, length, Bytes, ok,
}
use asnprefix_map.Base.Map.{Map, find, is_present, Distinct}
use asnprefix_map.Base.Sorting.{
  All, All-mono, sort_by, sort_by-All, sort_by-map, tally-sort_by, length-sort_by,
}
use asnprefix_map.Prefix.{BinaryPrefix}
use asnprefix_map.Prefix.Inet.{Inet, IsInet}
use asnprefix_map.Peer.{PeerInfo, PeerRegistry, contains, get, clear as clear_registry}
use asnprefix_map.Peer.Mirror.{IsMirror}
use asnprefix_map.Routing.State.{
  RoutingState, StoredObservation, stored_observations, clear as clear_state, rebuild_aggregated,
}
use asnprefix_map.Routing.State.Families.{BothSound, observed, exported, run}
use asnprefix_map.Routing.State.Agreement.{exported_agree}
use asnprefix_map.Routing.State.Restoring.{call, SameTallies, run-stored, rebuild_aggregated_lem}
use asnprefix_map.Snapshot.{
  SnapshotObservation, SnapshotStats, observation_lt, unlines, snapshot_lines, save_snapshot,
}
use asnprefix_map.Snapshot.Load.{
  insert_peers, restore_all, restore_observations, fill, finish_load, Loaded, load_snapshot,
}
use asnprefix_map.Snapshot.Lines.{IsPeerLine, IsObservationLine}
use asnprefix_map.Snapshot.Sections.{read_snapshot-unlines}
use asnprefix_map.Snapshot.Peers.{IsNamed, HasPeers, name_peers_lem, insert_peers_lem}
use asnprefix_map.Snapshot.Printed.{
  PrintsFields, IsSavable, described, describe_all-map, described-IsObservationLine,
  restore_all-described,
}

named-find :
    (r : PeerRegistry) (ps : Map ℕ PeerInfo) (k : ℕ) (p : PeerInfo)
    → All (IsNamed r) ps
    → find k ps ≡ some p
    → find k r.by_id ≡ some p
unfolding find
named-find r [] k p all h = cc
named-find r ((id, q) ∷ ps) k p ((named, _), all) h =
    ground (arith, named, h, named-find r ps k p all, ==-iff id k)

-- A load in which nothing throws.
fill_as :
    (i : Inet) (ps : Map ℕ PeerInfo) (os : List SnapshotObservation) (last : PeerRegistry)
    (state : RoutingState)
    → insert_peers ps clear_registry ≡ (last, none)
    → restore_all i last os clear_state ≡ (state, none)
    → fill i ps os ≡ record {
      registry = last;
      state = rebuild_aggregated state;
      outcome = ok (record { peers = length ps; observations = length os });
    }
unfolding fill restore_observations
fill_as i ps os last state entered restored =
    ap (λ z. fill_from i ps os z) entered ∙ ap (λ z. restored_from ps os last z) restored
  where
    restored_from :
        Map ℕ PeerInfo
        → List SnapshotObservation
        → PeerRegistry
        → RoutingState × Option Error
        → Loaded
    restored_from ps os registry z = elim z.1 [
      | some e ↦ record { registry = registry; state = z.0; outcome = err e }
      | none ↦ record {
        registry = registry;
        state = rebuild_aggregated z.0;
        outcome = ok (record { peers = length ps; observations = length os });
      }
    ]

    fill_from :
        Inet → Map ℕ PeerInfo → List SnapshotObservation → PeerRegistry × Option Error → Loaded
    fill_from i ps os z = elim z.1 [
      | some e ↦ record { registry = z.0; state = clear_state; outcome = err e }
      | none ↦ restore_observations i ps os z.0
    ]

-- `get`, from what the map has.
abbrev found : ℕ → Option PeerInfo → Result PeerInfo
found id none = err (unknown_peer_id id)
found id (some p) = ok p

module _ (i : Inet) (laws : IsInet i) (fields : PrintsFields i) where
  -- The order in which the observations are written.
  abbrev lt : StoredObservation → StoredObservation → Bool
  lt a b = observation_lt (described i a) (described i b)

  -- The text of a snapshot is loaded as what its lines hold, in the order of the comparator.
  load_text :
      (ps : Map ℕ PeerInfo) (es : List StoredObservation) (from : Bytes) (r0 : PeerRegistry)
      (s0 : RoutingState)
      → All IsPeerLine ps
      → Distinct ps
      → All IsObservationLine (map (described i) es)
      → load_snapshot i from (some (unlines (snapshot_lines ps (map (described i) es)))) r0 s0
        ≡ fill i ps (map (described i) (sort_by lt es))
  unfolding load_snapshot finish_load
  load_text ps es from r0 s0 v d w = rw (
    load_snapshot,
    read_snapshot-unlines ps (map (described i) es) v d w,
    finish_load,
    sort_by-map (described i) observation_lt es,
  )

  lines-All :
      (es : List StoredObservation)
      → All IsSavable es
      → All IsObservationLine (map (described i) es)
  lines-All [] v = tt
  lines-All (e ∷ es) (v, vs) = (described-IsObservationLine i laws fields e v, lines-All es vs)

  module _ (r : PeerRegistry) (s : RoutingState) (sound : BothSound s) (mirror : IsMirror r)
      (has : HasPeers r (stored_observations s)) (fits : All IsSavable (stored_observations s))
      (few : length (stored_observations s) < 2 ^ 32) where
    same_peer :
        (ps : Map ℕ PeerInfo) (id : ℕ)
        → All (IsNamed r) ps
        → is_present (find id ps) ≡ true
        → find id ps ≡ find id r.by_id
    same_peer ps id known h = elim (Option-cases (find id ps)) [
      | inl gone ↦ absurd (ground (arith, h, gone))
      | inr (p, there) ↦ there ∙ sym (named-find r ps id p known there)
    ]

    same_name :
        (ps : Map ℕ PeerInfo) (id : ℕ) (p : PeerInfo)
        → All (IsNamed r) ps
        → found id (find id ps) ≡ ok p
        → found id (find id r.by_id) ≡ ok p
    same_name ps id p known h =
        let there : is_present (find id ps) ≡ true = ground (arith, h) in
        ap (found id) (sym (same_peer ps id known there)) ∙ h

    -- What the peers and the observations of a snapshot, in any order, fill.
    fill_lem :
        (ps : Map ℕ PeerInfo) (es : List StoredObservation)
        → Distinct ps
        → All (IsNamed r) ps
        → All (λ e. is_present (find e.observation.peer_id ps) ≡ true) es
        → All IsSavable es
        → SameTallies es (stored_observations s)
        → length es < 2 ^ 32
        → let l = fill i ps (map (described i) es) in
          (l.outcome
            ≡ ok (record { peers = length ps; observations = length (map (described i) es) }))
          × IsMirror l.registry
          × BothSound l.state
          × ((k : BinaryPrefix) (q : ℕ) → observed l.state k q ≡ observed s k q)
          × ((id : ℕ) → find id l.registry.by_id ≡ find id ps)
    unfolding contains
    fill_lem ps es d all present v same small =
        let (last, entered, whole, says) = insert_peers_lem r mirror ps d all in
        let known : All (λ e. contains last e.observation.peer_id ≡ true) es =
          All-mono (λ e h. ap is_present (says e.observation.peer_id) ∙ h) es present in
        let restored = restore_all-described i laws fields last es clear_state v known in
        let (alive, entries) = run-stored s es sound same small in
        let (rebuilt, kept, _) = rebuild_aggregated_lem (run clear_state (map call es)) alive in
        rw (fill_as i ps (map (described i) es) last _ entered restored)
          (refl, whole, rebuilt, λ k q. kept k q ∙ entries k q, says)

    -- With an `inet_pton` and an `inet_ntop` that keep the laws of `IsInet` and print neither tabs nor
    -- newlines, from a sound state and a registry whose two maps are inverse and whose next id and those
    -- above it are free, with fewer than 2^32 observations, each of a prefix in normal form, with an
    -- origin of 32 bits and a timestamp of 64, and of a peer that the registry knows under an id with a
    -- successor in 32 bits, with an ASN of 32 bits and neither tabs nor newlines in its texts:
    -- `save_snapshot` gives a text, and `load_snapshot` of the text, whatever was there before, reports
    -- what the save did, leaves a sound state with the entries and the exported origins of the one saved
    -- and a registry whose two maps are inverse, which has the peers in use under their ids and no
    -- others.
    pub load_snapshot-save_snapshot :
        (path : Bytes)
        → (stats : SnapshotStats) × (text : Bytes) × (save_snapshot i path true r s
            ≡ ok (stats, text))
          × ((from : Bytes) (r0 : PeerRegistry) (s0 : RoutingState)
              → let l = load_snapshot i from (some text) r0 s0 in
                (l.outcome ≡ ok stats)
                × IsMirror l.registry
                × BothSound l.state
                × ((k : BinaryPrefix) (q : ℕ) → observed l.state k q ≡ observed s k q)
                × ((k : BinaryPrefix) → exported l.state k ≡ exported s k)
                × All
                    (λ e. get l.registry e.observation.peer_id ≡ get r e.observation.peer_id)
                    (stored_observations s)
                × ((id : ℕ) (p : PeerInfo) → get l.registry id ≡ ok p → get r id ≡ ok p))
    unfolding save_snapshot get
    load_snapshot-save_snapshot path =
        let all = stored_observations s in
        let once = sort_by lt all in
        let twice = sort_by lt once in
        let (ps, named, d, known, present) = name_peers_lem r all has in
        let os = map (described i) once in
        let savable = sort_by-All lt IsSavable all fits in
        let size = length-sort_by lt all in
        let (outcome, whole, alive, entries, names) =
          fill_lem ps twice d known (sort_by-All lt _ once (sort_by-All lt _ all present))
            (sort_by-All lt IsSavable once savable)
            (λ f. tally-sort_by lt f once ∙ tally-sort_by lt f all)
            (omega (arith, length-sort_by lt once, size, few)) in
        let counted : length (map (described i) twice) ≡ length os =
          ap length (sym (sort_by-map (described i) observation_lt once))
          ∙ length-sort_by observation_lt os in
        (
          record { peers = length ps; observations = length os },
          unlines (snapshot_lines ps os),
          rw (
            named,
            describe_all-map i laws fields all fits,
            sort_by-map (described i) observation_lt all,
          ),
          λ from r0 s0.
              rw
                (load_text ps once from r0 s0 (All-mono (λ e h. h.1) ps known) d
                  (lines-All once savable))
                (
                  rw counted at outcome,
                  whole,
                  alive,
                  entries,
                  (exported_agree _ s alive sound entries).0,
                  All-mono
                      (λ e h.
                        ap (found e.observation.peer_id) (
                          names e.observation.peer_id ∙ same_peer ps e.observation.peer_id known h))
                      all present,
                  λ id p h. same_name ps id p known (ap (found id) (sym (names id)) ∙ h),
                ),
        )
