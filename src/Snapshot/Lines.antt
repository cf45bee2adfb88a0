-- ===== src/Snapshot/Lines.antt =====
-- The lines of a saved snapshot, read one after the other.
use asnprefix_map.Base.{
  ℕ, ◌^◌, ◌<◌, ◌+◌, ◌≡◌, refl, Bool, ◌||◌, true, false, none, List, [], ◌∷◌, ◌++◌, arith, ◌==◌,
  nat_eq, bytes_eq, Bytes, ok,
}
use asnprefix_map.Base.Map.{Map, find, assign}
use asnprefix_map.Base.Decimal.{to_string, to_string-starts, starts_with_digit, is_digit}
use asnprefix_map.Prefix.{PrefixFamily, family_v4, family_v6}
use asnprefix_map.Prefix.Cidr.{family_to_string, parse_family}
use asnprefix_map.Peer.{PeerInfo}
use asnprefix_map.Snapshot.{
  SnapshotObservation, Section, peer_section, observation_section, is_blank, trim, trim_front,
  trim_back, peer_line, observation_line,
}
use asnprefix_map.Snapshot.Load.{
  Reading, read_peer, read_observation, read_data, is_bracketed, read_content, read_snapshot_line,
}
use asnprefix_map.Snapshot.Fields.{
  IsField, stoul-printed, read_uint32-to_string, split_tab_fields-peer_line,
  split_tab_fields-observation_line,
}

-- A peer that a line can hold, under an id that has a successor in 32 bits.
pub record IsPeerLine (entry : ℕ × PeerInfo) : Type 0 where
  pub host : IsField entry.1.host
  pub peer_ip : IsField entry.1.peer_ip
  pub id_fits : entry.0 + 1 < 2 ^ 32
  pub asn_fits : entry.1.peer_asn < 2 ^ 32

pub record IsObservationLine (o : SnapshotObservation) : Type 0 where
  pub text : IsField o.prefix_text
  pub id_fits : o.peer_id < 2 ^ 32
  pub asn_fits : o.origin_asn < 2 ^ 32
  pub time_fits : o.timestamp < 2 ^ 64

-- The locals in the middle of a section.
abbrev pub amid : Section → Map ℕ PeerInfo → List SnapshotObservation → Reading
amid at peers observations = record {
  peers = peers;
  observations = observations;
  section = at;
  saw_any_content = true;
  saw_header = true;
}

trim_plain : (c : ℕ) (cs : Bytes) → is_blank c ≡ false → trim (c ∷ cs) ≡ c ∷ trim_back cs
unfolding trim trim_front trim_back
trim_plain c cs plain = rw (plain, plain)

-- A line that begins with neither a blank nor a bracket is data.
read_data_line :
    (n c : ℕ) (cs : Bytes) (at : Section) (peers : Map ℕ PeerInfo) (os : List SnapshotObservation)
    → is_blank c ≡ false
    → (c == b'[') ≡ false
    → read_snapshot_line n (c ∷ cs) (amid at peers os) ≡ read_data n (c ∷ cs) (amid at peers os)
unfolding read_snapshot_line read_content is_bracketed
read_data_line n c cs at peers os plain data_mark = rw (trim_plain c cs plain, data_mark)

-- A line that begins with a digit or with a `v` is data.
abbrev starts_data : Bytes → Bool
starts_data [] = false
starts_data (c ∷ cs) = is_digit c || c == b'v'

read_data_text :
    (n : ℕ) (line : Bytes) (at : Section) (peers : Map ℕ PeerInfo) (os : List SnapshotObservation)
    → starts_data line ≡ true
    → read_snapshot_line n line (amid at peers os) ≡ read_data n line (amid at peers os)
read_data_text n [] at peers os h = cc
read_data_text n (c ∷ cs) at peers os h =
    read_data_line n c cs at peers os (ground arith) (ground arith)

starts_data-append : (xs ys : Bytes) → starts_with_digit xs ≡ true → starts_data (xs ++ ys) ≡ true
starts_data-append [] ys h = cc
starts_data-append (c ∷ cs) ys h = ground arith

pub read_peer_line :
    (n : ℕ) (id : ℕ) (p : PeerInfo) (peers : Map ℕ PeerInfo) (os : List SnapshotObservation)
    → IsPeerLine (id, p)
    → find id peers ≡ none
    → read_snapshot_line n (peer_line (id, p)) (amid peer_section peers os)
      ≡ ok (amid peer_section (assign id p peers) os)
unfolding read_data read_peer
read_peer_line n id p peers os v new =
    let held =
      read_data_text n (peer_line (id, p)) peer_section peers os
        (unfold peer_line in starts_data-append (to_string id) _ (to_string-starts id)) in
    rw (
      held,
      split_tab_fields-peer_line id p v.host v.peer_ip,
      read_uint32-to_string id (omega (arith, v.id_fits)),
      new,
      read_uint32-to_string p.peer_asn v.asn_fits,
    )

parse_family-family_to_string :
    (family : PrefixFamily) → parse_family (family_to_string family) ≡ ok family
unfolding parse_family family_to_string
parse_family-family_to_string family_v4 = refl
parse_family-family_to_string family_v6 = refl

family-starts :
    (family : PrefixFamily) (rest : Bytes) → starts_data (family_to_string family ++ rest) ≡ true
unfolding family_to_string
family-starts family_v4 rest = refl
family-starts family_v6 rest = refl

observation_line-starts : (o : SnapshotObservation) → starts_data (observation_line o) ≡ true
unfolding observation_line
observation_line-starts o = family-starts o.family _

pub read_observation_line :
    (n : ℕ) (o : SnapshotObservation) (peers : Map ℕ PeerInfo) (os : List SnapshotObservation)
    → IsObservationLine o
    → read_snapshot_line n (observation_line o) (amid observation_section peers os)
      ≡ ok (amid observation_section peers (os ++ o ∷ []))
unfolding read_data read_observation
read_observation_line n o peers os v = rw (
  read_data_text n (observation_line o) observation_section peers os (observation_line-starts o),
  split_tab_fields-observation_line o v.text,
  parse_family-family_to_string o.family,
  read_uint32-to_string o.peer_id v.id_fits,
  read_uint32-to_string o.origin_asn v.asn_fits,
  stoul-printed o.timestamp v.time_fits,
)
