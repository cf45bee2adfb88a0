-- ===== src/Peer/Key.antt =====
-- `make_key` and `parse_key`.
use asnprefix_map.Base.{◌^◌, ◌<◌, ◌≡◌, refl, true, [], ◌∷◌, ◌++◌, arith, nat_eq, ok}
use mathlib.Core.List.{append-nil}
use asnprefix_map.Base.Text.{free_of, cut_at-append}
use asnprefix_map.Base.Decimal.{to_string, stoul, stoul-to_string}
use asnprefix_map.Peer.{PeerInfo, make_key, parse_key}

-- A peer whose host and address have no bar, and whose ASN has 32 bits, is read back from its key.
pub parse_key-make_key :
    (p : PeerInfo)
    → free_of b'|' p.host ≡ true
    → free_of b'|' p.peer_ip ≡ true
    → p.peer_asn < 2 ^ 32
    → parse_key (make_key p) ≡ ok p
unfolding parse_key make_key
parse_key-make_key p h k small =
    let tail = p.peer_ip ++ (b'|' ∷ to_string p.peer_asn) in
    let number : stoul (to_string p.peer_asn) ≡ ok p.peer_asn =
      rw append-nil at (stoul-to_string p.peer_asn [] (omega arith) refl) in
    ground (
      arith,
      cut_at-append b'|' p.host tail h,
      cut_at-append b'|' p.peer_ip (to_string p.peer_asn) k,
      number,
    )
