-- ===== src/Snapshot/Loading.antt =====
-- src/snapshot/snapshot_io.cpp: what holds of a load of any file, blank, headless or accepted.
use asnprefix_map.Base.{
  ℕ, suc, ◌⊎◌, ◌+◌, ◌%◌, ◌^◌, ◌<◌, ◌≡◌, refl, sym, ◌∙◌, ap, subst, inl, inr, true, false, ◌&&◌,
  Option, none, some, List, [], ◌∷◌, ◌++◌, arith, ◌==◌, nat_eq, bytes_eq, Bool-cases, Option-cases,
  map, length, is_empty, Bytes, Error, Result, ok, err, >>=-eq-ok, expected_snapshot_header,
}
use mathlib.Core.List.{append-nil}
use asnprefix_map.Base.Map.{Map}
use asnprefix_map.Base.Text.{codes, lines}
use asnprefix_map.Base.Sorting.{All, sort_by}
use asnprefix_map.Prefix.{BinaryPrefix, v4, v6, binary_eq}
use asnprefix_map.Prefix.Inet.{Inet}
use asnprefix_map.Prefix.Cidr.{parse_as}
use asnprefix_map.Peer.{PeerInfo, PeerRegistry, contains, clear as clear_registry}
use asnprefix_map.Routing.State.{
  RoutingState, StoredObservation, restore_observation, announce, clear as clear_state,
}
use asnprefix_map.Routing.State.Families.{
  BothSound, observed, announces, step, run, last_said, observed_after, observed-clear,
  clear-BothSound, run-BothSound,
}
use asnprefix_map.Routing.State.Restoring.{call, rebuild_aggregated_lem, clear-Fits}
use asnprefix_map.Snapshot.{SnapshotObservation, SnapshotStats, trim, observation_lt}
use asnprefix_map.Snapshot.Load.{
  Reading, start_reading, read_snapshot_line, read_snapshot, insert_peers, restore_one, restore_all,
  restore_observations, fill, finish_load, Loaded, load_snapshot,
}

abbrev IsBlank : Bytes → Type 0
IsBlank line = is_empty (trim line) ≡ true

-- Blank lines are passed over.
read_snapshot-blanks :
    (blanks rest : List Bytes) (n : ℕ) (z : Reading)
    → n < 2 ^ 64
    → All IsBlank blanks
    → read_snapshot n (blanks ++ rest) z ≡ read_snapshot ((n + length blanks) % 2 ^ 64) rest z
unfolding read_snapshot read_snapshot_line
read_snapshot-blanks [] rest n z small h = ap (λ m. read_snapshot m rest z) (ground arith)
read_snapshot-blanks (line ∷ blanks) rest n z small (h, hs) = rw h (
    read_snapshot-blanks blanks rest ((n + 1) % 2 ^ 64) z (omega arith) hs
    ∙ ap (λ m. read_snapshot m rest z) (omega arith))

-- A file of blank lines clears the registry and the state, and counts nothing.
pub load_snapshot-blank :
    (i : Inet) (path contents : Bytes) (r : PeerRegistry) (s : RoutingState)
    → All IsBlank (lines contents)
    → load_snapshot i path (some contents) r s ≡ record {
      registry = clear_registry;
      state = clear_state;
      outcome = ok (record { peers = 0; observations = 0 });
    }
unfolding load_snapshot finish_load read_snapshot
load_snapshot-blank i path contents r s h =
    let read =
      rw append-nil at (read_snapshot-blanks (lines contents) [] 0 start_reading (omega arith) h) in
    rw (load_snapshot, read)

-- A file whose first line that is not blank is no header is refused, with the number of that line,
-- and the registry and the state stay as they were.
pub load_snapshot-no_header :
    (i : Inet) (path contents line : Bytes) (blanks rest : List Bytes) (r : PeerRegistry)
    (s : RoutingState)
    → lines contents ≡ blanks ++ line ∷ rest
    → All IsBlank blanks
    → is_empty (trim line) ≡ false
    → (trim line == codes "# ASNPrefixMap snapshot v1") ≡ false
    → load_snapshot i path (some contents) r s ≡ record {
      registry = r;
      state = s;
      outcome = err (expected_snapshot_header ((length blanks + 1) % 2 ^ 64));
    }
unfolding load_snapshot read_snapshot read_snapshot_line
load_snapshot-no_header i path contents line blanks rest r s e h full other =
    let start = read_snapshot-blanks blanks (line ∷ rest) 0 start_reading (omega arith) h in
    let number : ((0 + length blanks) % 2 ^ 64 + 1) % 2 ^ 64 ≡ (length blanks + 1) % 2 ^ 64 =
      omega arith in
    rw (load_snapshot, e, start, full, other, number)

ok_same {ℓ} : {A : Type ℓ} {a b : A} → ok a ≡ ok b → a ≡ b
ok_same h = cc

failed : {e : Error} → some e ≡ none → ⊥
failed h = cc

thrown≢ok {ℓ} : {A : Type ℓ} {e : Error} {a : A} → err e ≡ ok a → ⊥
thrown≢ok h = cc

Result-cases {ℓ} :
    {A : Type ℓ} (x : Result A) → ((e : Error) × (x ≡ err e)) ⊎ ((a : A) × (x ≡ ok a))
Result-cases (err e) = inl (e, refl)
Result-cases (ok a) = inr (a, refl)

restore_observation-step :
    (s : RoutingState) (peer_id asn time : ℕ) (b : BinaryPrefix)
    → restore_observation s peer_id b asn time ≡ step s (announces peer_id b asn time)
unfolding restore_observation step announce
restore_observation-step s peer_id asn time (v4 x) = refl
restore_observation-step s peer_id asn time (v6 x) = refl

-- A round that throws nothing announces the prefix for a peer that the registry knows.
restore_one-ok :
    (i : Inet) (r : PeerRegistry) (o : SnapshotObservation) (s t : RoutingState)
    → restore_one i r o s ≡ ok t
    → (e : StoredObservation) × (contains r e.observation.peer_id ≡ true) × (t ≡ step s (call e))
unfolding restore_one
restore_one-ok i r o s t h = elim (Bool-cases (contains r o.peer_id)) [
  | inr unknown ↦ absurd (thrown≢ok (rw unknown at h))
  | inl known ↦
      let (b, _, done) =
        >>=-eq-ok (parse_as i o.family o.prefix_text)
          (λ b. ok (restore_observation s o.peer_id b o.origin_asn o.timestamp)) (rw known at h) in
      (
        record {
          prefix = b;
          observation = record { peer_id = o.peer_id; origin_asn = o.origin_asn };
          timestamp = o.timestamp;
        },
        known,
        sym (ok_same done) ∙ restore_observation-step s o.peer_id o.origin_asn o.timestamp b,
      )
]

restore_all-run :
    (i : Inet) (r : PeerRegistry) (os : List SnapshotObservation) (s t : RoutingState)
    → restore_all i r os s ≡ (t, none)
    → (es : List StoredObservation) × (t ≡ run s (map call es))
      × All (λ e. contains r e.observation.peer_id ≡ true) es
      × (length es ≡ length os)
unfolding restore_all run
restore_all-run i r [] s t h = ([], sym (ap (λ z. z.0) h), tt, refl)
restore_all-run i r (o ∷ os) s t h = elim (Result-cases (restore_one i r o s)) [
  | inl (x, thrown) ↦ absurd (failed (ap (λ z. z.1) (rw (restore_all, thrown) at h)))
  | inr (u, restored) ↦
      let (e, known, stepped) = restore_one-ok i r o s u restored in
      let (es, ran, all, size) = restore_all-run i r os u t (rw (restore_all, restored) at h) in
      (e ∷ es, ran ∙ ap (λ z. run z (map call es)) stepped, (known, all), ap suc size)
]

-- What is said of a peer was said by a call of that peer.
last_said-All :
    (P : ℕ → Type 0) (es : List StoredObservation) (k : BinaryPrefix) (q : ℕ)
    (before : Option (ℕ × ℕ)) (w : ℕ × ℕ)
    → All (λ e. P e.observation.peer_id) es
    → (before ≡ some w → P q)
    → last_said (map call es) k q before ≡ some w
    → P q
unfolding last_said
last_said-All P [] k q before w all first h = first h
last_said-All P (e ∷ es) k q before w (p, all) first h =
    elim (Bool-cases (e.prefix == k && e.observation.peer_id == q)) [
      | inl mine ↦ let same : e.observation.peer_id ≡ q = ground (arith, mine) in subst P same p
      | inr other ↦ last_said-All P es k q before w all first (rw (last_said, other) at h)
    ]

-- Where the load succeeds, its state is sound, and its registry has the peers of the entries.
abbrev IsGood : Loaded → Type 0
IsGood l =
    (stats : SnapshotStats)
    → l.outcome ≡ ok stats
    → stats.observations < 2 ^ 32
    → BothSound l.state
      × ((k : BinaryPrefix) (q : ℕ) (w : ℕ × ℕ)
          → observed l.state k q ≡ some w
          → contains l.registry q ≡ true)

none≢some : {w : ℕ × ℕ} → none ≡ some w → ⊥
none≢some h = cc

clear-IsGood :
    (registry : PeerRegistry) (x : Result SnapshotStats)
    → IsGood (record { registry = registry; state = clear_state; outcome = x })
clear-IsGood registry x stats h small =
    (clear-BothSound, λ k q w e. absurd (none≢some (sym (observed-clear k q) ∙ e)))

restore_observations-IsGood :
    (i : Inet) (ps : Map ℕ PeerInfo) (os : List SnapshotObservation) (registry : PeerRegistry)
    → IsGood (restore_observations i ps os registry)
unfolding restore_observations
restore_observations-IsGood i ps os registry stats h small =
    let z = restore_all i registry os clear_state in
    elim (Option-cases z.1) [
      | inr (e, thrown) ↦ absurd (thrown≢ok (rw (restore_observations, thrown) at h))
      | inl fine ↦
          let (es, ran, all, size) =
            restore_all-run i registry os clear_state z.0 (λ j. (z.0, fine j)) in
          let counted = ok_same (rw (restore_observations, fine) at h) in
          let few : length os < 2 ^ 32 = rw (← counted) at small in
          let fits = clear-Fits es (omega (arith, size, few)) in
          let alive = run-BothSound clear_state (map call es) clear-BothSound fits in
          let (rebuilt, kept, _) = rebuild_aggregated_lem (run clear_state (map call es)) alive in
          rw (restore_observations, fine, ran)
            (
              rebuilt,
              λ k q w e.
                  last_said-All (λ p. contains registry p ≡ true) es k q none w all
                    (λ x. absurd (none≢some x))
                    (ap (last_said (map call es) k q) (sym (observed-clear k q))
                      ∙ sym (observed_after clear_state (map call es) k q clear-BothSound fits)
                      ∙ sym (kept k q)
                      ∙ e),
            )
    ]

fill-IsGood :
    (i : Inet) (ps : Map ℕ PeerInfo) (os : List SnapshotObservation) → IsGood (fill i ps os)
unfolding fill
fill-IsGood i ps os = elim (Option-cases (insert_peers ps clear_registry).1) [
  | inr (e, thrown) ↦ rw (fill, thrown) (clear-IsGood _ _)
  | inl fine ↦ rw (fill, fine) (restore_observations-IsGood i ps os _)
]

-- After a load that succeeds and reports fewer than 2^32 observations, the state is sound, and the
-- registry has the peer of each of its entries.
pub load_snapshot-BothSound :
    (i : Inet) (path contents : Bytes) (r : PeerRegistry) (s : RoutingState) (stats : SnapshotStats)
    → let l = load_snapshot i path (some contents) r s in
      l.outcome ≡ ok stats
      → stats.observations < 2 ^ 32
      → BothSound l.state
        × ((k : BinaryPrefix) (q : ℕ) (w : ℕ × ℕ)
            → observed l.state k q ≡ some w
            → contains l.registry q ≡ true)
unfolding load_snapshot finish_load
load_snapshot-BothSound i path contents r s stats h small =
    elim (Result-cases (read_snapshot 0 (lines contents) start_reading)) [
      | inl (e, refused) ↦ absurd (thrown≢ok (rw (load_snapshot, refused) at h))
      | inr (z, read) ↦ elim (Bool-cases z.saw_any_content) [
        | inr blank ↦
            rw (load_snapshot, read, finish_load, blank)
              (clear-IsGood clear_registry (ok (record { peers = 0; observations = 0 })) stats
                (rw (load_snapshot, read, finish_load, blank) at h) small)
        | inl content ↦ elim (Bool-cases z.saw_header) [
          | inr headless ↦
              absurd (thrown≢ok (rw (load_snapshot, read, finish_load, content, headless) at h))
          | inl header ↦
              rw (load_snapshot, read, finish_load, content, header)
                (fill-IsGood i z.peers (sort_by observation_lt z.observations) stats
                  (rw (load_snapshot, read, finish_load, content, header) at h) small)
        ]
      ]
    ]
