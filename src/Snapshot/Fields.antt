-- ===== src/Snapshot/Fields.antt =====
-- The fields of a line that `save_snapshot` has written, read back.
use asnprefix_map.Base.{ℕ, ◌^◌, ◌<◌, ◌≡◌, refl, true, List, [], ◌∷◌, ◌++◌, arith, nat_eq, Bytes, ok}
use mathlib.Core.List.{append-nil}
use asnprefix_map.Base.Text.{free_of, free_of-append}
use asnprefix_map.Base.Decimal.{to_string, stoul, stoul-to_string, to_string-free}
use asnprefix_map.Prefix.{PrefixFamily, family_v4, family_v6}
use asnprefix_map.Prefix.Cidr.{family_to_string}
use asnprefix_map.Peer.{PeerInfo}
use asnprefix_map.Snapshot.{SnapshotObservation, split_tab_fields, peer_line, observation_line}
use asnprefix_map.Snapshot.Load.{read_uint32}

split_tab_fields-append :
    (field rest : Bytes) {fields : List Bytes}
    → free_of 9 field ≡ true
    → split_tab_fields rest ≡ fields
    → split_tab_fields (field ++ 9 ∷ rest) ≡ field ∷ fields
unfolding split_tab_fields
split_tab_fields-append [] rest h e = rw e
split_tab_fields-append (c ∷ cs) rest h e =
    let ih = split_tab_fields-append cs rest (ground arith) e in ground (arith, ih)

split_tab_fields_last :
    (field : Bytes) → free_of 9 field ≡ true → split_tab_fields field ≡ field ∷ []
unfolding split_tab_fields
split_tab_fields_last [] h = refl
split_tab_fields_last (c ∷ cs) h = ground (arith, split_tab_fields_last cs)

pub stoul-printed : (n : ℕ) → n < 2 ^ 64 → stoul (to_string n) ≡ ok n
stoul-printed n small = rw append-nil at (stoul-to_string n [] small refl)

pub read_uint32-to_string : (n : ℕ) → n < 2 ^ 32 → read_uint32 (to_string n) ≡ ok n
unfolding read_uint32
read_uint32-to_string n small = rw (stoul-printed n (omega arith)) (ground arith)

-- A text that one field of a line can hold.
pub record IsField (text : Bytes) : Type 0 where
  pub no_tab : free_of 9 text ≡ true
  pub no_newline : free_of 10 text ≡ true

pub to_string-IsField : (n : ℕ) → IsField (to_string n)
to_string-IsField n = record {
  no_tab = to_string-free 9 n refl;
  no_newline = to_string-free 10 n refl;
}

pub family_to_string-IsField : (family : PrefixFamily) → IsField (family_to_string family)
unfolding family_to_string
family_to_string-IsField family_v4 = record { no_tab = refl; no_newline = refl }
family_to_string-IsField family_v6 = record { no_tab = refl; no_newline = refl }

-- Joined by a tab to what follows, a field stays without newlines.
joined :
    (field rest : Bytes)
    → IsField field
    → free_of 10 rest ≡ true
    → free_of 10 (field ++ 9 ∷ rest) ≡ true
joined field rest f h = free_of-append 10 field (9 ∷ rest) f.no_newline (ground (arith, h))

module _ (peer_id : ℕ) (p : PeerInfo) (host : IsField p.host) (peer_ip : IsField p.peer_ip) where
  pub peer_line-no_newline : free_of 10 (peer_line (peer_id, p)) ≡ true
  unfolding peer_line
  peer_line-no_newline =
      joined _ _ (to_string-IsField peer_id)
        (joined _ _ host (joined _ _ peer_ip ((to_string-IsField p.peer_asn).no_newline)))

  pub split_tab_fields-peer_line :
      split_tab_fields (peer_line (peer_id, p))
      ≡ to_string peer_id ∷ p.host ∷ p.peer_ip ∷ to_string p.peer_asn ∷ []
  unfolding peer_line
  split_tab_fields-peer_line = split_tab_fields-append _ _ ((to_string-IsField peer_id).no_tab) (
      split_tab_fields-append _ _ host.no_tab (
        split_tab_fields-append _ _ peer_ip.no_tab
          (split_tab_fields_last _ ((to_string-IsField p.peer_asn).no_tab))))

module _ (o : SnapshotObservation) (text : IsField o.prefix_text) where
  pub observation_line-no_newline : free_of 10 (observation_line o) ≡ true
  unfolding observation_line
  observation_line-no_newline = joined _ _ (family_to_string-IsField o.family) (
      joined _ _ text (
        joined _ _ (to_string-IsField o.peer_id) (
          joined _ _ (to_string-IsField o.origin_asn)
            ((to_string-IsField o.timestamp).no_newline))))

  pub split_tab_fields-observation_line :
      split_tab_fields (observation_line o)
      ≡ family_to_string o.family
        ∷ o.prefix_text
        ∷ to_string o.peer_id
        ∷ to_string o.origin_asn
        ∷ to_string o.timestamp
        ∷ []
  unfolding observation_line
  split_tab_fields-observation_line =
      split_tab_fields-append _ _ ((family_to_string-IsField o.family).no_tab) (
        split_tab_fields-append _ _ text.no_tab (
          split_tab_fields-append _ _ ((to_string-IsField o.peer_id).no_tab) (
            split_tab_fields-append _ _ ((to_string-IsField o.origin_asn).no_tab)
              (split_tab_fields_last _ ((to_string-IsField o.timestamp).no_tab)))))
