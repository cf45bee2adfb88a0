-- ===== src/Snapshot/Sections.antt =====
-- The text of a saved snapshot, read to its end.
use asnprefix_map.Base.{
  ℕ, ◌+◌, ◌%◌, ◌^◌, ◌≡◌, refl, true, none, List, [], ◌∷◌, ◌++◌, arith, ==-iff, nat_eq, ap, ◌∙◌,
  Bytes, ok, map,
}
use mathlib.Core.List.{append-nil, append_assoc}
use asnprefix_map.Base.Map.{Map, find, assign, Distinct, is_present, find-assign, assign_new}
use asnprefix_map.Base.Sorting.{All}
use asnprefix_map.Base.Text.{free_of, codes, lines, lines-append}
use asnprefix_map.Peer.{PeerInfo}
use asnprefix_map.Snapshot.{
  SnapshotObservation, peer_section, observation_section, trim, trim_front, trim_back, peer_line,
  observation_line, unlines, snapshot_lines,
}
use asnprefix_map.Snapshot.Load.{start_reading, read_content, read_snapshot_line, read_snapshot}
use asnprefix_map.Snapshot.Fields.{peer_line-no_newline, observation_line-no_newline}
use asnprefix_map.Snapshot.Lines.{
  IsPeerLine, IsObservationLine, amid, read_peer_line, read_observation_line,
}

lines-unlines : (ls : List Bytes) → All (λ l. free_of 10 l ≡ true) ls → lines (unlines ls) ≡ ls
unfolding unlines lines
lines-unlines [] h = refl
lines-unlines (line ∷ rest) (h, hs) =
    lines-append line (unlines rest) h ∙ ap (◌∷◌ line) (lines-unlines rest hs)

read_peer_lines :
    (n : ℕ) (ps done : Map ℕ PeerInfo) (rest : List Bytes)
    → All IsPeerLine ps
    → Distinct ps
    → ((k : ℕ) → is_present (find k ps) ≡ true → find k done ≡ none)
    → (m : ℕ) × (read_snapshot n (map peer_line ps ++ rest) (amid peer_section done [])
        ≡ read_snapshot m rest (amid peer_section (done ++ ps) []))
unfolding read_snapshot find
read_peer_lines n [] done rest v d apart = (n, rw append-nil)
read_peer_lines n ((id, p) ∷ ps) done rest (v, vs) (new, d) apart =
    let number = (n + 1) % 2 ^ 64 in
    let free : find id done ≡ none = apart id (ground arith) in
    let still : (k : ℕ) → is_present (find k ps) ≡ true → find k (assign id p done) ≡ none =
      λ k there. ground (arith, find-assign id k p done, apart k, there, new, ==-iff id k) in
    let (m, e) = read_peer_lines number ps (assign id p done) rest vs d still in
    (
      m,
      rw (read_peer_line number id p done [] v free) (
          e
          ∙ ap (λ z. read_snapshot m rest (amid peer_section z []))
              (ap (λ z. z ++ ps) (assign_new id p done free)
                ∙ append_assoc done ((id, p) ∷ []) ps)),
    )

read_observation_lines :
    (n : ℕ) (os done : List SnapshotObservation) (ps : Map ℕ PeerInfo)
    → All IsObservationLine os
    → read_snapshot n (map observation_line os) (amid observation_section ps done)
      ≡ ok (amid observation_section ps (done ++ os))
unfolding read_snapshot
read_observation_lines n [] done ps v = rw append-nil
read_observation_lines n (o ∷ os) done ps (v, vs) =
    let number = (n + 1) % 2 ^ 64 in
    rw (read_observation_line number o ps done v) (
      read_observation_lines number os (done ++ o ∷ []) ps vs
      ∙ ap (λ z. ok (amid observation_section ps z)) (append_assoc done (o ∷ []) os))

read_header :
    (rest : List Bytes)
    → read_snapshot 0
        (codes "# ASNPrefixMap snapshot v1" ∷ [] ∷ codes "[peers]" ∷ rest)
        start_reading
      ≡ read_snapshot 3 rest (amid peer_section [] [])
unfolding read_snapshot read_snapshot_line read_content trim trim_front trim_back
read_header rest = refl

read_second_header :
    (n : ℕ) (rest : List Bytes) (ps : Map ℕ PeerInfo)
    → let next = λ (m : ℕ). (m + 1) % 2 ^ 64 in
      read_snapshot n ([] ∷ codes "[observations]" ∷ rest) (amid peer_section ps [])
      ≡ read_snapshot (next (next n)) rest (amid observation_section ps [])
unfolding read_snapshot read_snapshot_line read_content trim trim_front trim_back
read_second_header n rest ps = refl

pub peer_lines-IsText :
    (ps : Map ℕ PeerInfo) (rest : List Bytes)
    → All IsPeerLine ps
    → All (λ l. free_of 10 l ≡ true) rest
    → All (λ l. free_of 10 l ≡ true) (map peer_line ps ++ rest)
peer_lines-IsText [] rest v w = w
peer_lines-IsText ((id, p) ∷ ps) rest (v, vs) w =
    (peer_line-no_newline id p v.host v.peer_ip, peer_lines-IsText ps rest vs w)

observation_lines-IsText :
    (os : List SnapshotObservation)
    → All IsObservationLine os
    → All (λ l. free_of 10 l ≡ true) (map observation_line os)
observation_lines-IsText [] v = tt
observation_lines-IsText (o ∷ os) (v, vs) =
    (observation_line-no_newline o v.text, observation_lines-IsText os vs)

-- The text that is saved for some peers and observations is read as those.
pub read_snapshot-unlines :
    (ps : Map ℕ PeerInfo) (os : List SnapshotObservation)
    → All IsPeerLine ps
    → Distinct ps
    → All IsObservationLine os
    → read_snapshot 0 (lines (unlines (snapshot_lines ps os))) start_reading
      ≡ ok (amid observation_section ps os)
unfolding snapshot_lines
read_snapshot-unlines ps os v d w =
    let tail = [] ∷ codes "[observations]" ∷ map observation_line os in
    let texts = peer_lines-IsText ps tail v (refl, (refl, observation_lines-IsText os w)) in
    let (m, after_peers) = read_peer_lines 3 ps [] tail v d (λ k there. unfold find in refl) in
    rw (lines-unlines (snapshot_lines ps os) (refl, (refl, (refl, texts)))) (
      read_header (map peer_line ps ++ tail)
      ∙ after_peers
      ∙ read_second_header m (map observation_line os) ps
      ∙ read_observation_lines _ os [] ps w)
