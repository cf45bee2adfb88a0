-- ===== src/Peer/Mirror.antt =====
-- The two maps of a registry are inverse to each other, and the ids that are to come are free.
use asnprefix_map.Base.{
  ℕ, ◌+◌, ◌-◌, ◌%◌, ◌^◌, ◌≤◌, ◌<◌, ◌≡◌, refl, sym, ◌∙◌, subst, ◌⊎◌, inl, inr, true, false, none,
  some, arith, ◌==◌, ==-iff, if◌then◌else◌, nat_eq, Bool-cases, Option-cases, leb, Error, ok, err,
  duplicate_peer_id, duplicate_peer_identity,
}
use asnprefix_map.Base.Map.{find, assign, is_present, Distinct, find-assign, assign-Distinct}
use asnprefix_map.Peer.{
  PeerInfo, peer_eq, PeerRegistry, clear, get_or_add, insert_with_id, contains, get, make_key,
}

pub record IsMirror (r : PeerRegistry) : Type 0 where
  pub info_keys : Distinct r.by_info
  pub id_keys : Distinct r.by_id
  pub named :
      (peer : PeerInfo) (id : ℕ) → find peer r.by_info ≡ some id → find id r.by_id ≡ some peer
  pub numbered :
      (peer : PeerInfo) (id : ℕ) → find id r.by_id ≡ some peer → find peer r.by_info ≡ some id
  pub fresh : (id : ℕ) → r.next_peer_id ≤ id → find id r.by_id ≡ none
  pub positive : 1 ≤ r.next_peer_id

pub clear-IsMirror : IsMirror clear
unfolding find
clear-IsMirror = record {
  info_keys = tt;
  id_keys = tt;
  named = λ p i h. cc;
  numbered = λ p i h. cc;
  fresh = λ i h. refl;
  positive = omega arith;
}

refused : {q : PeerRegistry} {e : Error} → err e ≡ ok q → ⊥
refused h = cc

ok-injective : {p q : PeerRegistry} → ok p ≡ ok q → p ≡ q
ok-injective h = cc

-- A pair that is new to both maps, under a next id above it.
enter-IsMirror :
    (r : PeerRegistry) (id next : ℕ) (peer : PeerInfo)
    → IsMirror r
    → find id r.by_id ≡ none
    → find peer r.by_info ≡ none
    → id < next
    → r.next_peer_id ≤ next
    → IsMirror (record {
      by_info = assign peer id r.by_info;
      by_id = assign id peer r.by_id;
      next_peer_id = next;
    })
enter-IsMirror r id next peer v free new above more = record {
  info_keys = assign-Distinct peer id r.by_info v.info_keys;
  id_keys = assign-Distinct id peer r.by_id v.id_keys;
  named = λ p i h. ground (
    arith,
    sym (find-assign peer p id r.by_info) ∙ h,
    find-assign id i peer r.by_id,
    ==-iff peer p,
    v.named p i,
    free,
  );
  numbered = λ p i h. ground (
    arith,
    sym (find-assign id i peer r.by_id) ∙ h,
    find-assign peer p id r.by_info,
    ==-iff peer p,
    v.numbered p i,
    new,
  );
  fresh = λ i h. rw (find-assign id i peer r.by_id) (ground (arith, v.fresh i));
  positive = omega arith;
}

-- From a registry whose two maps are inverse, whose next id and those above it are free, and whose
-- next id has a successor in 32 bits, `get_or_add` gives one whose two maps are inverse and whose
-- next id and those above it are free.
pub get_or_add-IsMirror :
    (r : PeerRegistry) (peer : PeerInfo)
    → IsMirror r
    → r.next_peer_id + 1 < 2 ^ 32
    → IsMirror (get_or_add r peer).0
unfolding get_or_add
get_or_add-IsMirror r peer v small = elim (Option-cases (find peer r.by_info)) [
  | inl new ↦
      rw (new, get_or_add)
        (enter-IsMirror r r.next_peer_id _ peer v (v.fresh r.next_peer_id (omega arith)) new
          (omega arith) (omega arith))
  | inr (id, old) ↦ rw (old, get_or_add) v
]

-- From a registry whose two maps are inverse and whose next id and those above it are free, an
-- `insert_with_id` that succeeds, of an id that has a successor in 32 bits, gives such a registry.
pub insert_with_id-IsMirror :
    (r q : PeerRegistry) (id : ℕ) (peer : PeerInfo)
    → IsMirror r
    → id + 1 < 2 ^ 32
    → insert_with_id r id peer ≡ ok q
    → IsMirror q
unfolding insert_with_id
insert_with_id-IsMirror r q id peer v small h = elim (Option-cases (find id r.by_id)) [
  | inr (p, taken) ↦ absurd (refused (rw taken at h))
  | inl free ↦ elim (Option-cases (find peer r.by_info)) [
    | inr (i, known) ↦ absurd (refused (rw (free, known) at h))
    | inl new ↦
        subst IsMirror (ok-injective (rw (free, new) at h))
          (enter-IsMirror r id _ peer v free new (ground arith) (ground arith))
  ]
]

-- In a registry whose two maps are inverse and whose next id is free, the id that `get_or_add`
-- returns names the peer, asking again changes nothing and returns the same id, and the ids given
-- before keep their peers.
pub get_or_add_lem :
    (r : PeerRegistry) (peer : PeerInfo)
    → IsMirror r
    → let (q, id) = get_or_add r peer in
      (get q id ≡ ok peer)
      × (get_or_add q peer ≡ (q, id))
      × ((j : ℕ) (p : PeerInfo) → get r j ≡ ok p → get q j ≡ ok p)
unfolding get_or_add get
get_or_add_lem r peer v = elim (Option-cases (find peer r.by_info)) [
  | inl new ↦
      let id = r.next_peer_id in
      let held : find peer (assign peer id r.by_info) ≡ some id =
        ground (arith, find-assign peer peer id r.by_info, ==-iff peer peer) in
      (
        rw (new, get_or_add) (ground (arith, find-assign id id peer r.by_id)),
        rw (new, get_or_add) (rw held (rw (new, get_or_add))),
        λ j p h.
            rw (new, get_or_add)
              (ground (arith, find-assign id j peer r.by_id, v.fresh id (omega arith), h)),
      )
  | inr (id, old) ↦ (
    rw (old, get_or_add) (rw (v.named peer id old, get)),
    rw (old, get_or_add) (rw old (rw (old, get_or_add))),
    λ j p h. rw (old, get_or_add) h,
  )
]

-- For an id that has a successor in 32 bits, one of three holds: the id is taken, and
-- `insert_with_id` refuses it; the id is free and the peer known, and it refuses the peer; or the id
-- is free and the peer new, and it enters the pair in both maps, changes no other entry of either,
-- and the next id is above the id and not below the next id before.
pub insert_with_id_lem :
    (r : PeerRegistry) (id : ℕ) (peer : PeerInfo)
    → id + 1 < 2 ^ 32
    → ((contains r id ≡ true) × (insert_with_id r id peer ≡ err (duplicate_peer_id id)))
      ⊎ ((contains r id ≡ false)
          × (is_present (find peer r.by_info) ≡ true)
          × (insert_with_id r id peer ≡ err (duplicate_peer_identity (make_key peer))))
      ⊎ ((contains r id ≡ false)
          × (find peer r.by_info ≡ none)
          × (q : PeerRegistry) × (insert_with_id r id peer ≡ ok q)
          × (id < q.next_peer_id)
          × (r.next_peer_id ≤ q.next_peer_id)
          × ((j : ℕ) → get q j ≡ (if id == j then ok peer else get r j))
          × ((p : PeerInfo) → find p q.by_info ≡ (if peer == p then some id else find p r.by_info)))
unfolding insert_with_id contains get
insert_with_id_lem r id peer small = elim (Bool-cases (is_present (find id r.by_id))) [
  | inl taken ↦ inl (taken, rw taken)
  | inr free ↦ elim (Option-cases (find peer r.by_info)) [
    | inr (i, known) ↦ inr (inl (free, rw known, rw (free, known)))
    | inl new ↦ inr (
        inr (
          free,
          new,
          record {
            by_info = assign peer id r.by_info;
            by_id = assign id peer r.by_id;
            next_peer_id = if leb r.next_peer_id id then (id + 1) % 2 ^ 32 else r.next_peer_id;
          },
          rw (free, new),
          ground arith,
          ground arith,
          λ j. ground (arith, find-assign id j peer r.by_id),
          λ p. find-assign peer p id r.by_info,
        ))
  ]
]

-- After an insert of the largest id that succeeds, where id 0 names a peer, the next peer that is
-- new to the registry is given id 0 too, and id 0 then names the new peer.
pub get_or_add_overwrites :
    (r q : PeerRegistry) (last old new : PeerInfo)
    → r.next_peer_id < 2 ^ 32
    → insert_with_id r (2 ^ 32 - 1) last ≡ ok q
    → find new q.by_info ≡ none
    → get q 0 ≡ ok old
    → ((get_or_add q new).1 ≡ 0) × (get (get_or_add q new).0 0 ≡ ok new)
unfolding get_or_add get insert_with_id
get_or_add_overwrites r q last old new small h e held =
    let wrapped : q.next_peer_id ≡ 0 = ground (arith, h) in
    (
      rw (e, get_or_add) wrapped,
      rw (e, get_or_add) (rw wrapped (ground (arith, find-assign 0 0 new q.by_id))),
    )
