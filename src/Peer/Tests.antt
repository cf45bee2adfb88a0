-- ===== src/Peer/Tests.antt =====
-- Runs of the registry, and its theorems at concrete registries.
use asnprefix_map.Base.{
  ℕ, ◌-◌, ◌^◌, ◌<◌, ◌≤◌, ◌≡◌, refl, ◌⊎◌, true, false, none, some, [], ◌∷◌, arith, if◌then◌else◌,
  ◌==◌, nat_eq, ok, err, duplicate_peer_id, duplicate_peer_identity,
}
use asnprefix_map.Base.Map.{find, assign, is_present}
use asnprefix_map.Base.Decimal.{to_string, print_digits}
use asnprefix_map.Peer.{
  PeerInfo, peer_eq, PeerRegistry, clear, get_or_add, insert_with_id, contains, get, make_key,
  parse_key, all_peers, sort_by_id, insert_by_id,
}
use asnprefix_map.Peer.Mirror.{
  IsMirror, clear-IsMirror, get_or_add-IsMirror, insert_with_id-IsMirror, get_or_add_lem,
  insert_with_id_lem, get_or_add_overwrites,
}
use asnprefix_map.Peer.Key.{parse_key-make_key}

abbrev rrc00 : PeerInfo
rrc00 = record { host = b'r' ∷ b'0' ∷ []; peer_ip = b':' ∷ b':' ∷ b'1' ∷ []; peer_asn = 64512 }

abbrev rrc01 : PeerInfo
rrc01 = record { host = b'r' ∷ b'1' ∷ []; peer_ip = b':' ∷ b':' ∷ b'2' ∷ []; peer_asn = 64513 }

abbrev rrc02 : PeerInfo
rrc02 = record { host = b'r' ∷ b'2' ∷ []; peer_ip = b':' ∷ b':' ∷ b'3' ∷ []; peer_asn = 64514 }

abbrev one_peer : PeerRegistry
one_peer = record { by_info = (rrc00, 0) ∷ []; by_id = (0, rrc00) ∷ []; next_peer_id = 1 }

abbrev full : PeerRegistry
full = record {
  by_info = (rrc00, 0) ∷ (rrc01, 4294967295) ∷ [];
  by_id = (0, rrc00) ∷ (4294967295, rrc01) ∷ [];
  next_peer_id = 0;
}

key_text :
    make_key rrc00
    ≡ b'r' ∷ b'0' ∷ b'|' ∷ b':' ∷ b':' ∷ b'1' ∷ b'|' ∷ b'6' ∷ b'4' ∷ b'5' ∷ b'1' ∷ b'2' ∷ []
unfolding make_key to_string print_digits
key_text = refl

sorted :
    all_peers (record full { by_id = (7, rrc01) ∷ (3, rrc00) ∷ [] }) ≡ (3, rrc00) ∷ (7, rrc01) ∷ []
unfolding all_peers sort_by_id insert_by_id
sorted = refl

get_or_add-IsMirror_example : IsMirror (get_or_add clear rrc00).0
get_or_add-IsMirror_example = get_or_add-IsMirror clear rrc00 clear-IsMirror (omega arith)

get_or_add_lem_example :
    let (q, id) = get_or_add clear rrc00 in
    (get q id ≡ ok rrc00)
    × (get_or_add q rrc00 ≡ (q, id))
    × ((j : ℕ) (p : PeerInfo) → get clear j ≡ ok p → get q j ≡ ok p)
get_or_add_lem_example = get_or_add_lem clear rrc00 clear-IsMirror

full_insert : insert_with_id one_peer (2 ^ 32 - 1) rrc01 ≡ ok full
unfolding insert_with_id find assign
full_insert = refl

insert_with_id-IsMirror_example :
    IsMirror (record clear { by_info = (rrc00, 5) ∷ []; by_id = (5, rrc00) ∷ []; next_peer_id = 6 })
unfolding insert_with_id find assign
insert_with_id-IsMirror_example =
    insert_with_id-IsMirror clear
      (record { by_info = (rrc00, 5) ∷ []; by_id = (5, rrc00) ∷ []; next_peer_id = 6 }) 5 rrc00
      clear-IsMirror (omega arith) refl

insert_with_id_lem_example :
    ((contains full 0 ≡ true) × (insert_with_id full 0 rrc02 ≡ err (duplicate_peer_id 0)))
    ⊎ ((contains full 0 ≡ false)
        × (is_present (find rrc02 full.by_info) ≡ true)
        × (insert_with_id full 0 rrc02 ≡ err (duplicate_peer_identity (make_key rrc02))))
    ⊎ ((contains full 0 ≡ false)
        × (find rrc02 full.by_info ≡ none)
        × (q : PeerRegistry) × (insert_with_id full 0 rrc02 ≡ ok q)
        × (0 < q.next_peer_id)
        × (full.next_peer_id ≤ q.next_peer_id)
        × ((j : ℕ) → get q j ≡ (if 0 == j then ok rrc02 else get full j))
        × ((p : PeerInfo)
            → find p q.by_info ≡ (if rrc02 == p then some 0 else find p full.by_info)))
insert_with_id_lem_example = insert_with_id_lem full 0 rrc02 (omega arith)

get_or_add_overwrites_example :
    ((get_or_add full rrc02).1 ≡ 0) × (get (get_or_add full rrc02).0 0 ≡ ok rrc02)
unfolding find get
get_or_add_overwrites_example =
    get_or_add_overwrites one_peer full rrc01 rrc00 rrc02 (omega arith) full_insert refl refl

parse_key-make_key_example : parse_key (make_key rrc00) ≡ ok rrc00
parse_key-make_key_example = parse_key-make_key rrc00 refl refl (omega arith)
