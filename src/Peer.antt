-- ===== src/Peer.antt =====
-- src/peer/peer_registry.h and src/peer/peer_registry.cpp.
pub mod Mirror
pub mod Key
mod Tests
use asnprefix_map.Base.{
  ℕ, zero, suc, ◌+◌, ◌%◌, ◌^◌, ◌≡◌, refl, ◌↔◌, Bool, true, false, ◌&&◌, not, Option, none, some,
  List, [], ◌∷◌, ◌++◌, arith, Eq, ◌==◌, ==-iff, if◌then◌else◌, nat_eq, nat_beq, bytes_beq,
  bytes_beq_iff, leb, Bytes, Result, ok, err, duplicate_peer_id, duplicate_peer_identity,
  unknown_peer_id, malformed_peer_key, ◌>>=◌,
}
use asnprefix_map.Base.Map.{Map, find, assign, is_present}
use asnprefix_map.Base.Text.{cut_at}
use asnprefix_map.Base.Decimal.{to_string, stoul}

pub record PeerInfo : Type 0 where
  pub host : Bytes
  pub peer_ip : Bytes
  pub peer_asn : ℕ

abbrev pub peer_beq : PeerInfo → PeerInfo → Bool
peer_beq a b =
    bytes_beq a.host b.host && (bytes_beq a.peer_ip b.peer_ip && nat_beq a.peer_asn b.peer_asn)

pub peer_beq_iff : (a b : PeerInfo) → (peer_beq a b ≡ true) ↔ (a ≡ b)
peer_beq_iff a b = ground (arith, bytes_beq_iff a.host b.host, bytes_beq_iff a.peer_ip b.peer_ip)

instance abbrev pub peer_eq : Eq PeerInfo
peer_eq = record { beq = peer_beq; beq_iff = peer_beq_iff }

pub record PeerRegistry : Type 0 where
  pub by_info : Map PeerInfo ℕ
  pub by_id : Map ℕ PeerInfo
  pub next_peer_id : ℕ

-- A new registry, and one after `clear`.
abbrev pub clear : PeerRegistry
clear = record { by_info = []; by_id = []; next_peer_id = 1 }

-- `+ 1` on a `uint32_t`.
abbrev pub next32 : ℕ → ℕ
next32 n = (n + 1) % 2 ^ 32

unfoldable pub get_or_add : PeerRegistry → PeerInfo → PeerRegistry × ℕ
get_or_add r peer = elim (find peer r.by_info) [
  | some peer_id ↦ (r, peer_id)
  | none ↦ (
    record {
      by_info = assign peer r.next_peer_id r.by_info;
      by_id = assign r.next_peer_id peer r.by_id;
      next_peer_id = next32 r.next_peer_id;
    },
    r.next_peer_id,
  )
]

unfoldable pub make_key : PeerInfo → Bytes
make_key p = p.host ++ (b'|' ∷ (p.peer_ip ++ (b'|' ∷ to_string p.peer_asn)))

unfoldable pub insert_with_id : PeerRegistry → ℕ → PeerInfo → Result PeerRegistry
insert_with_id r peer_id peer =
    if is_present (find peer_id r.by_id)
    then err (duplicate_peer_id peer_id)
    else if is_present (find peer r.by_info)
    then err (duplicate_peer_identity (make_key peer))
    else ok (record {
      by_info = assign peer peer_id r.by_info;
      by_id = assign peer_id peer r.by_id;
      next_peer_id = if leb r.next_peer_id peer_id then next32 peer_id else r.next_peer_id;
    })

unfoldable pub contains : PeerRegistry → ℕ → Bool
contains r peer_id = is_present (find peer_id r.by_id)

unfoldable pub get : PeerRegistry → ℕ → Result PeerInfo
get r peer_id = elim (find peer_id r.by_id) [
  | none ↦ err (unknown_peer_id peer_id)
  | some peer ↦ ok peer
]

-- `std::sort` by id, whose order is total on the distinct keys of a map.
unfoldable pub insert_by_id : ℕ × PeerInfo → List (ℕ × PeerInfo) → List (ℕ × PeerInfo)
insert_by_id e [] = e ∷ []
insert_by_id e (f ∷ fs) = if leb e.0 f.0 then e ∷ f ∷ fs else f ∷ insert_by_id e fs

unfoldable pub sort_by_id : Map ℕ PeerInfo → List (ℕ × PeerInfo)
sort_by_id [] = []
sort_by_id (e ∷ es) = insert_by_id e (sort_by_id es)

unfoldable pub all_peers : PeerRegistry → List (ℕ × PeerInfo)
all_peers r = sort_by_id r.by_id

-- `first_sep` and `second_sep` cut the key in three.
unfoldable pub parse_key : Bytes → Result PeerInfo
parse_key key = elim (cut_at b'|' key) [
  | none ↦ err (malformed_peer_key key)
  | some (host, tail) ↦ elim (cut_at b'|' tail) [
    | none ↦ err (malformed_peer_key key)
    | some (peer_ip, asn_text) ↦ do
      n ← stoul asn_text
      ok (record { host = host; peer_ip = peer_ip; peer_asn = n % 2 ^ 32 })
  ]
]
