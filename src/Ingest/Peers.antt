-- ===== src/Ingest/Peers.antt =====
-- src/main.cpp: the callback looks a peer up once for each message.
use asnprefix_map.Base.{
  ℕ, ◌+◌, ◌≡◌, refl, ◌∙◌, ap, sym, true, false, List, [], ◌∷◌, arith, inl, inr, Option-cases, Bytes,
  Result, ok, err, ◌>>=◌, nat_eq,
}
use asnprefix_map.Base.Map.{find, find-assign}
use asnprefix_map.Prefix.Inet.{Inet}
use asnprefix_map.Peer.{PeerInfo, PeerRegistry, get_or_add, peer_eq, peer_beq_iff}
use asnprefix_map.Parser.{JsonLibrary, EventType, announce, withdraw, BgpEvent}
use asnprefix_map.Parser.Message.{message_events, FromPeer, message_events-FromPeer}
use asnprefix_map.Parser.Events.{deliver, parse_ris_live_message_lem}
use asnprefix_map.Stats.{Floats}
use asnprefix_map.Ingest.{
  Ingest, Capture, apply_event, resolve_peer, on_event, receive_message, count_events,
  ingest_message,
}

-- To ask for a peer again changes nothing.
get_or_add-again :
    (r : PeerRegistry) (p : PeerInfo)
    → get_or_add (get_or_add r p).0 p ≡ ((get_or_add r p).0, (get_or_add r p).1)
unfolding get_or_add
get_or_add-again r p = elim (Option-cases (find p r.by_info)) [
  | inl new ↦
      let known = find-assign p p r.next_peer_id r.by_info in
      ground (arith, new, known, peer_beq_iff p p)
  | inr (id, old) ↦ ground (arith, old)
]

module _ (fl : Floats) (i : Inet) where
  -- The callback without the cache: the registry is asked for the peer of each event.
  unfoldable pub on_event_uncached : Ingest fl → BgpEvent → Result (Ingest fl)
  on_event_uncached g e =
      let added = get_or_add g.peer_registry e.peer in
      apply_event fl i e.type added.1 e.prefix e.asn e.timestamp
        (record g { peer_registry = added.0 })

  apply_event-peer_registry :
      (type : EventType) (id : ℕ) (text : Bytes) (asn timestamp : ℕ) (g g' : Ingest fl)
      → apply_event fl i type id text asn timestamp g ≡ ok g'
      → g'.peer_registry ≡ g.peer_registry
  unfolding apply_event
  apply_event-peer_registry announce id text asn timestamp g g' h = ground arith
  apply_event-peer_registry withdraw id text asn timestamp g g' h = ground arith

  abbrev out : Capture fl × ℕ → Result (Ingest fl × ℕ)
  out z = ok (z.0.ingest, z.1)

  -- The events behind one that is applied.
  after_apply :
      (es : List BgpEvent) (n : ℕ) (c : Capture fl) (r : Result (Ingest fl))
      → ((g' : Ingest fl)
          → r ≡ ok g'
          → (deliver (on_event fl i) es (record c { ingest = g' }, n + 1) >>= out)
            ≡ deliver on_event_uncached es (g', n + 1))
      → (((r >>= λ g'. ok (record c { ingest = g' })) >>= λ c'.
            deliver (on_event fl i) es (c', n + 1))
          >>= out)
        ≡ (r >>= λ g'. deliver on_event_uncached es (g', n + 1))
  after_apply es n c (err x) h = refl
  after_apply es n c (ok g') h = h g' refl

  -- The callback, when the peer is resolved.
  cached_step :
      (c : Capture fl) (e : BgpEvent)
      → c.peer_resolved ≡ true
      → on_event fl i c e ≡ (
          apply_event fl i e.type c.cached_peer_id e.prefix e.asn e.timestamp c.ingest >>= λ g'.
          ok (record c { ingest = g' }))
  unfolding on_event resolve_peer
  cached_step c e r =
      let same : resolve_peer fl c e ≡ c = ground (arith, r) in
      ap
        (λ (d : Capture fl).
          apply_event fl i e.type d.cached_peer_id e.prefix e.asn e.timestamp d.ingest >>= λ g'.
          ok (record d { ingest = g' }))
        same

  -- The callback without the cache, when the registry knows the peer.
  plain_step :
      (g : Ingest fl) (e : BgpEvent) (id : ℕ)
      → get_or_add g.peer_registry e.peer ≡ (g.peer_registry, id)
      → on_event_uncached g e ≡ apply_event fl i e.type id e.prefix e.asn e.timestamp g
  unfolding on_event_uncached
  plain_step g e id h =
      ap
        (λ z.
          apply_event fl i e.type z.1 e.prefix e.asn e.timestamp (record g { peer_registry = z.0 }))
        h

  -- The cache holds the id of the peer.
  resolved_lem :
      (p : PeerInfo) (es : List BgpEvent) (n : ℕ) (c : Capture fl)
      → FromPeer p es
      → c.peer_resolved ≡ true
      → get_or_add c.ingest.peer_registry p ≡ (c.ingest.peer_registry, c.cached_peer_id)
      → (deliver (on_event fl i) es (c, n) >>= out) ≡ deliver on_event_uncached es (c.ingest, n)
  unfolding deliver
  resolved_lem p [] n c f r h = refl
  resolved_lem p (e ∷ es) n c f r h =
      let same : get_or_add c.ingest.peer_registry e.peer
          ≡ (c.ingest.peer_registry, c.cached_peer_id) =
        ap (get_or_add c.ingest.peer_registry) f.0 ∙ h in
      let plain = apply_event fl i e.type c.cached_peer_id e.prefix e.asn e.timestamp c.ingest in
      let next = after_apply es n c plain (λ g' eq.
        let kept =
          apply_event-peer_registry e.type c.cached_peer_id e.prefix e.asn e.timestamp c.ingest g'
            eq in
        resolved_lem p es (n + 1) (record c { ingest = g' }) f.1 r
          (ap (λ q. get_or_add q p) kept ∙ h ∙ ap (λ q. (q, c.cached_peer_id)) (sym kept))) in
      ap (λ r'. (r' >>= λ c'. deliver (on_event fl i) es (c', n + 1)) >>= out) (cached_step c e r)
      ∙ next
      ∙ ap (λ r'. r' >>= λ g'. deliver on_event_uncached es (g', n + 1))
          (sym (plain_step c.ingest e c.cached_peer_id same))

  -- From a capture whose peer is not resolved.
  fresh_lem :
      (p : PeerInfo) (es : List BgpEvent) (n : ℕ) (g : Ingest fl) (id : ℕ)
      → FromPeer p es
      → (deliver
            (on_event fl i)
            es
            (record { ingest = g; peer_resolved = false; cached_peer_id = id }, n)
          >>= out)
        ≡ deliver on_event_uncached es (g, n)
  unfolding deliver on_event on_event_uncached resolve_peer
  fresh_lem p [] n g id f = refl
  fresh_lem p (e ∷ es) n g id f =
      let added = get_or_add g.peer_registry e.peer in
      let known : Ingest fl = record g { peer_registry = added.0 } in
      let c : Capture fl = record {
        ingest = known;
        peer_resolved = true;
        cached_peer_id = added.1;
      } in
      after_apply es n c (apply_event fl i e.type added.1 e.prefix e.asn e.timestamp known)
        (λ g' eq.
          let kept =
            apply_event-peer_registry e.type added.1 e.prefix e.asn e.timestamp known g' eq in
          let asked : get_or_add added.0 p ≡ (added.0, added.1) =
            ap (get_or_add added.0) (sym f.0) ∙ get_or_add-again g.peer_registry e.peer in
          resolved_lem p es (n + 1) (record c { ingest = g' }) f.1 refl
            (ap (λ q. get_or_add q p) kept ∙ asked ∙ ap (λ q. (q, added.1)) (sym kept)))

  >>=-ok :
      (m : Result (Capture fl × ℕ)) (f : Ingest fl × ℕ → Result (Ingest fl))
      → (m >>= λ z. f (z.0.ingest, z.1)) ≡ ((m >>= out) >>= f)
  >>=-ok (err x) f = refl
  >>=-ok (ok z) f = refl

  -- All events of a message, from a capture whose peer is not resolved.
  all_events :
      (r : Result (List BgpEvent)) (start : Capture fl) (g : Ingest fl)
      → ((es : List BgpEvent)
          → r ≡ ok es
          → (deliver (on_event fl i) es (start, 0) >>= out) ≡ deliver on_event_uncached es (g, 0))
      → ((r >>= λ es. deliver (on_event fl i) es (start, 0)) >>= out)
        ≡ (r >>= λ es. deliver on_event_uncached es (g, 0))
  all_events (err x) start g h = refl
  all_events (ok es) start g h = h es refl

  -- For any message: with the id of the peer cached, the message has the effect that it has when the
  -- registry is asked for the peer of each of its events, and fails with the same exception.
  pub ingest_message_uncached :
      (j : JsonLibrary) (message : Bytes) (g : Ingest fl)
      → ingest_message fl i j message g ≡ (
          (message_events j message >>= λ es.
          deliver on_event_uncached es (receive_message fl g, 0))
          >>= λ z. ok (count_events fl z.1 z.0))
  unfolding ingest_message
  ingest_message_uncached j message g =
      let start : Capture fl = record {
        ingest = receive_message fl g;
        peer_resolved = false;
        cached_peer_id = 0;
      } in
      ap (λ m. m >>= λ z. ok (count_events fl z.1 z.0.ingest))
        (parse_ris_live_message_lem (on_event fl i) j message start)
      ∙ >>=-ok (message_events j message >>= λ es. deliver (on_event fl i) es (start, 0))
          (λ z. ok (count_events fl z.1 z.0))
      ∙ ap (λ m. m >>= λ z. ok (count_events fl z.1 z.0))
          (all_events (message_events j message) start (receive_message fl g) (λ es read.
            let (p, same) = message_events-FromPeer j message es read in
            fresh_lem p es 0 (receive_message fl g) 0 same))
