-- ===== src/Snapshot/Peers.antt =====
-- The peers of a snapshot: which of them `save_snapshot` writes, and that `load_snapshot` enters them
-- under the ids that they had.
use asnprefix_map.Base.{
  ℕ, suc, ◌<◌, ◌≤◌, ◌≡◌, refl, sym, inl, inr, true, Option, none, some, List, [], ◌∷◌, arith, ◌==◌,
  ==-iff, nat_eq, ltb, leb, ◌∙◌, subst, Bool-cases, Option-cases, ok, if◌then◌else◌,
}
use asnprefix_map.Base.Map.{Map, find, assign, Distinct, is_present, find-assign}
use asnprefix_map.Base.Sorting.{All, All-mono}
use asnprefix_map.Peer.{
  PeerInfo, peer_eq, PeerRegistry, insert_with_id, contains, get, clear, next32,
}
use asnprefix_map.Peer.Mirror.{IsMirror, insert_with_id-IsMirror, clear-IsMirror}
use asnprefix_map.Routing.State.{StoredObservation}
use asnprefix_map.Snapshot.{insert_id, used_peer_ids, name_peers}
use asnprefix_map.Snapshot.Load.{insert_peers}
use asnprefix_map.Snapshot.Lines.{IsPeerLine}

-- In ascending order, from a bound on.
abbrev Above : ℕ → List ℕ → Type 0
Above b [] = Unit
Above b (m ∷ ms) = (b ≤ m) × Above (suc m) ms

insert_id-Above : (b n : ℕ) (ms : List ℕ) → b ≤ n → Above b ms → Above b (insert_id n ms)
unfolding insert_id
insert_id-Above b n [] h a = (h, tt)
insert_id-Above b n (m ∷ ms) h (g, a) =
    let later = insert_id-Above (suc m) n ms in ground (arith, later)

used_peer_ids-Above : (stored : List StoredObservation) → Above 0 (used_peer_ids stored)
unfolding used_peer_ids
used_peer_ids-Above [] = tt
used_peer_ids-Above (entry ∷ stored) =
    insert_id-Above 0 entry.observation.peer_id (used_peer_ids stored) (omega arith)
      (used_peer_ids-Above stored)

module _ {ℓ} (P : ℕ → Type ℓ) where
  insert_id-All : (n : ℕ) (ms : List ℕ) → P n → All P ms → All P (insert_id n ms)
  unfolding insert_id
  insert_id-All n [] p ps = (p, tt)
  insert_id-All n (m ∷ ms) p (q, qs) = elim (Bool-cases (n == m)) [
    | inl same ↦ rw same (q, qs)
    | inr other ↦ elim (Bool-cases (ltb n m)) [
      | inl less ↦ rw (other, less) (p, (q, qs))
      | inr more ↦ rw (other, more) (q, insert_id-All n ms p qs)
    ]
  ]

  insert_id-All_only : (n : ℕ) (ms : List ℕ) → All P (insert_id n ms) → P n × All P ms
  unfolding insert_id
  insert_id-All_only n [] (p, ps) = (p, tt)
  insert_id-All_only n (m ∷ ms) h = elim (Bool-cases (n == m)) [
    | inl same ↦ let both = rw same at h in (subst P (sym ((==-iff n m).0 same)) both.0, both)
    | inr other ↦ elim (Bool-cases (ltb n m)) [
      | inl less ↦ rw (other, less) at h
      | inr more ↦
          let (q, rest) = rw (other, more) at h in
          let (p, qs) = insert_id-All_only n ms rest in (p, (q, qs))
    ]
  ]

  -- What holds of the peers of the observations holds of the ids in use, and conversely.
  pub used_peer_ids-All :
      (stored : List StoredObservation)
      → All (λ e. P e.observation.peer_id) stored
      → All P (used_peer_ids stored)
  unfolding used_peer_ids
  used_peer_ids-All [] ps = tt
  used_peer_ids-All (e ∷ stored) (p, ps) =
      insert_id-All e.observation.peer_id (used_peer_ids stored) p (used_peer_ids-All stored ps)

  pub used_peer_ids-All_only :
      (stored : List StoredObservation)
      → All P (used_peer_ids stored)
      → All (λ e. P e.observation.peer_id) stored
  unfolding used_peer_ids
  used_peer_ids-All_only [] ps = tt
  used_peer_ids-All_only (e ∷ stored) ps =
      let (p, rest) = insert_id-All_only e.observation.peer_id (used_peer_ids stored) ps in
      (p, used_peer_ids-All_only stored rest)

-- The registry has the peer under the id.
abbrev pub IsNamed : PeerRegistry → ℕ × PeerInfo → Type 0
IsNamed r entry = (find entry.0 r.by_id ≡ some entry.1) × IsPeerLine entry

-- The registry has a peer under the id, which a line can hold.
abbrev pub IsKnown : PeerRegistry → ℕ → Type 0
IsKnown r id = (peer : PeerInfo) × IsNamed r (id, peer)

name_peers-Above :
    (r : PeerRegistry) (b : ℕ) (ids : List ℕ)
    → Above b ids
    → All (IsKnown r) ids
    → (ps : Map ℕ PeerInfo) × (name_peers r ids ≡ ok ps)
      × Distinct ps
      × All (IsNamed r) ps
      × ((k : ℕ) → k < b → find k ps ≡ none)
      × All (λ id. is_present (find id ps) ≡ true) ids
unfolding name_peers find contains get
name_peers-Above r b [] a h = ([], refl, tt, tt, λ k l. refl, tt)
name_peers-Above r b (id ∷ ids) (g, a) ((p, known), h) =
    let (ps, named, distinct, all, below, there) = name_peers-Above r (suc id) ids a h in
    (
      (id, p) ∷ ps,
      rw (get, known.0, named),
      (below id (omega arith), distinct),
      (known, all),
      λ k l. ground (arith, below k),
      (ground arith, All-mono (λ j h. ground (arith, h)) ids there),
    )

-- The registry has a peer, which a line can hold, under the id of each observation.
abbrev pub HasPeers : PeerRegistry → List StoredObservation → Type 0
HasPeers r stored = All (λ e. IsKnown r e.observation.peer_id) stored

-- The peers that are saved: distinct ids, each with its peer, and one for each observation.
pub name_peers_lem :
    (r : PeerRegistry) (stored : List StoredObservation)
    → HasPeers r stored
    → (ps : Map ℕ PeerInfo) × (name_peers r (used_peer_ids stored) ≡ ok ps)
      × Distinct ps
      × All (IsNamed r) ps
      × All (λ e. is_present (find e.observation.peer_id ps) ≡ true) stored
name_peers_lem r stored h =
    let ids = used_peer_ids stored in
    let (ps, named, distinct, all, _, there) =
      name_peers-Above r 0 ids (used_peer_ids-Above stored)
        (used_peer_ids-All (IsKnown r) stored h) in
    (
      ps,
      named,
      distinct,
      all,
      used_peer_ids-All_only (λ id. is_present (find id ps) ≡ true) stored there,
    )

abbrev or_else {ℓ} : {A : Type ℓ} → Option A → Option A → Option A
or_else none b = b
or_else (some a) b = some a

or_else-none {ℓ} : {A : Type ℓ} (o : Option A) → or_else o none ≡ o
or_else-none none = refl
or_else-none (some a) = refl

-- Every pair of the registry `q` stands in `r`.
abbrev Within : PeerRegistry → PeerRegistry → Type 0
Within q r = (k : ℕ) (p : PeerInfo) → find k q.by_id ≡ some p → find k r.by_id ≡ some p

module _ (r : PeerRegistry) (v : IsMirror r) where
  -- A pair of `r` whose id is free in a part of `r` can be entered there.
  enters :
      (q : PeerRegistry) (id : ℕ) (p : PeerInfo)
      → IsMirror q
      → Within q r
      → IsNamed r (id, p)
      → find id q.by_id ≡ none
      → (next : PeerRegistry) × (insert_with_id q id p ≡ ok next)
        × ((k : ℕ) → find k next.by_id ≡ (if id == k then some p else find k q.by_id))
  unfolding insert_with_id
  enters q id p w sub (named, line) free =
      let stranger : find p q.by_info ≡ none = elim (Option-cases (find p q.by_info)) [
        | inl none_known ↦ none_known
        | inr (j, held) ↦
            let there = w.named p j held in
            let twice = v.numbered p j (sub j p there) in
            let once = v.numbered p id named in absurd (ground (arith, there, twice, once, free))
      ] in
      (
        record {
          by_info = assign p id q.by_info;
          by_id = assign id p q.by_id;
          next_peer_id = if leb q.next_peer_id id then next32 id else q.next_peer_id;
        },
        rw (free, stranger),
        λ k. find-assign id k p q.by_id,
      )

  insert_peers_from :
      (ps : Map ℕ PeerInfo) (q : PeerRegistry)
      → IsMirror q
      → Within q r
      → Distinct ps
      → All (IsNamed r) ps
      → ((k : ℕ) → is_present (find k ps) ≡ true → find k q.by_id ≡ none)
      → (last : PeerRegistry) × (insert_peers ps q ≡ (last, none))
        × IsMirror last
        × ((k : ℕ) → find k last.by_id ≡ or_else (find k ps) (find k q.by_id))
  unfolding insert_peers find
  insert_peers_from [] q w sub d all apart = (q, refl, w, λ k. refl)
  insert_peers_from ((id, p) ∷ ps) q w sub (new, d) ((named, line), all) apart =
      let free : find id q.by_id ≡ none = apart id (ground arith) in
      let (next, entered, says) = enters q id p w sub (named, line) free in
      let still : (k : ℕ) → is_present (find k ps) ≡ true → find k next.by_id ≡ none =
        λ k there. ground (arith, says k, apart k, there, new, ==-iff id k) in
      let within : Within next r =
        λ k s h. ground (arith, says k, sub k s, h, named, ==-iff id k) in
      let (last, run, mirror, last_says) =
        insert_peers_from ps next (insert_with_id-IsMirror q next id p w line.id_fits entered)
          within d all still in
      (
        last,
        rw (insert_peers, entered) run,
        mirror,
        λ k. ground (arith, last_says k, says k, new, ==-iff id k),
      )

  -- The peers of a registry, entered in a cleared one.
  pub insert_peers_lem :
      (ps : Map ℕ PeerInfo)
      → Distinct ps
      → All (IsNamed r) ps
      → (last : PeerRegistry) × (insert_peers ps clear ≡ (last, none))
        × IsMirror last
        × ((k : ℕ) → find k last.by_id ≡ find k ps)
  unfolding find
  insert_peers_lem ps d all =
      let (last, run, mirror, says) =
        insert_peers_from ps clear clear-IsMirror (λ k p h. cc) d all (λ k h. refl) in
      (last, run, mirror, λ k. says k ∙ or_else-none (find k ps))
