-- ===== src/Ingest/Settled.antt =====
-- src/main.cpp: the registry and the routing state stay in step over the message loop.
use asnprefix_map.Base.{
  ℕ, ◌+◌, ◌^◌, ◌<◌, ◌≤◌, ◌≡◌, sym, ◌∙◌, subst, inl, inr, true, none, some, arith, ◌==◌, ==-iff,
  nat_eq, Bool-cases, Option-cases, length,
}
use asnprefix_map.Base.Map.{find, get_or, find-assign}
use asnprefix_map.Prefix.{BinaryPrefix, v4, v6, binary_eq}
use asnprefix_map.Prefix.RoundTrip.{IsCanonical}
use asnprefix_map.Peer.{
  PeerInfo, PeerRegistry, peer_eq, contains, get_or_add, clear as clear_registry,
}
use asnprefix_map.Peer.Mirror.{IsMirror, get_or_add-IsMirror, clear-IsMirror}
use asnprefix_map.Routing.State.{
  RoutingState, announce as announce_prefix, withdraw as withdraw_prefix, clear as clear_state,
}
use asnprefix_map.Routing.State.Families.{
  BothSound, says as said, record_at, observed, announces, withdraws, step, Room, step-BothSound,
  observed-step, clear-BothSound, observed-clear,
}
use asnprefix_map.Routing.State.Agreement.{record_at-le_bound}

-- The maps of the registry are inverse, the routing state is sound, and each of its entries is of a
-- peer that the registry has and of a prefix in normal form.
pub record IsSettled (r : PeerRegistry) (s : RoutingState) : Type 0 where
  pub mirror : IsMirror r
  pub sound : BothSound s
  pub known : (k : BinaryPrefix) (q : ℕ) (w : ℕ × ℕ) → observed s k q ≡ some w → contains r q ≡ true
  pub canonical : (k : BinaryPrefix) (q : ℕ) (w : ℕ × ℕ) → observed s k q ≡ some w → IsCanonical k

none≢some : {w : ℕ × ℕ} → none ≡ some w → ⊥
none≢some h = cc

pub clear-IsSettled : IsSettled clear_registry clear_state
clear-IsSettled = record {
  mirror = clear-IsMirror;
  sound = clear-BothSound;
  known = λ k q w h. absurd (none≢some (sym (observed-clear k q) ∙ h));
  canonical = λ k q w h. absurd (none≢some (sym (observed-clear k q) ∙ h));
}

-- With ids of 32 bits, every record has room.
IsSettled-Room :
    (r : PeerRegistry) (s : RoutingState) (k : BinaryPrefix)
    → IsSettled r s
    → r.next_peer_id + 1 < 2 ^ 32
    → Room s k
unfolding contains
IsSettled-Room r s k v small =
    let below : (p : ℕ) → r.next_peer_id ≤ p → observed s k p ≡ none = λ p h.
      elim (Option-cases (observed s k p)) [
        | inl nobody ↦ nobody
        | inr (w, somebody) ↦ absurd (ground (arith, v.known k p w somebody, v.mirror.fresh p h))
      ] in
    let size = record_at-le_bound s k r.next_peer_id v.sound below in by_family s k (omega arith)
  where
    by_family :
        (s : RoutingState) (k : BinaryPrefix)
        → length (record_at s k).observations + 1 < 2 ^ 32
        → Room s k
    by_family s (v4 x) h = h
    by_family s (v6 x) h = h

pub announce-IsSettled :
    (r : PeerRegistry) (s : RoutingState) (p : ℕ) (b : BinaryPrefix) (asn time : ℕ)
    → IsSettled r s
    → r.next_peer_id + 1 < 2 ^ 32
    → contains r p ≡ true
    → IsCanonical b
    → IsSettled r (announce_prefix s p b asn time)
unfolding step
announce-IsSettled r s p b asn time v small here c =
    let call = announces p b asn time in
    let says : (k : BinaryPrefix) (q : ℕ)
        → observed (step s call) k q ≡ get_or (observed s k q) (said call k q) =
      λ k q. observed-step s call k q v.sound in
    record {
      mirror = v.mirror;
      sound = step-BothSound s call v.sound (IsSettled-Room r s b v small);
      known = λ k q w h. ground (arith, says k q, h, v.known k q w, here, ==-iff p q);
      canonical = λ k q w h. elim (Bool-cases (b == k)) [
        | inl same ↦ subst IsCanonical ((==-iff b k).0 same) c
        | inr other ↦
            let kept : observed (step s call) k q ≡ observed s k q = says k q ∙ (rw other) in
            v.canonical k q w (sym kept ∙ h)
      ];
    }

pub withdraw-IsSettled :
    (r : PeerRegistry) (s : RoutingState) (p : ℕ) (b : BinaryPrefix)
    → IsSettled r s
    → IsSettled r (withdraw_prefix s p b)
unfolding step
withdraw-IsSettled r s p b v =
    let call = withdraws p b in
    let says : (k : BinaryPrefix) (q : ℕ)
        → observed (step s call) k q ≡ get_or (observed s k q) (said call k q) =
      λ k q. observed-step s call k q v.sound in
    record {
      mirror = v.mirror;
      sound = step-BothSound s call v.sound tt;
      known = λ k q w h. ground (arith, says k q, h, v.known k q w);
      canonical = λ k q w h. v.canonical k q w (ground (arith, says k q, h));
    }

-- What a lookup in the registry leaves and gives.
pub get_or_add-IsSettled :
    (r : PeerRegistry) (s : RoutingState) (peer : PeerInfo)
    → IsSettled r s
    → r.next_peer_id + 1 < 2 ^ 32
    → let (q, id) = get_or_add r peer in
      IsSettled q s × (contains q id ≡ true) × (q.next_peer_id ≤ r.next_peer_id + 1)
unfolding get_or_add contains
get_or_add-IsSettled r s peer v small = elim (Option-cases (find peer r.by_info)) [
  | inr (id, old) ↦
      rw (old, get_or_add) (v, ground (arith, v.mirror.named peer id old), omega arith)
  | inl new ↦
      let id = r.next_peer_id in
      let mirror = get_or_add-IsMirror r peer v.mirror small in
      rw (new, get_or_add)
        (
          record {
            mirror = rw (new, get_or_add) at mirror;
            sound = v.sound;
            known = λ k q w h. ground (arith, find-assign id q peer r.by_id, v.known k q w h);
            canonical = v.canonical;
          },
          ground (arith, find-assign id id peer r.by_id),
          ground arith,
        )
]
