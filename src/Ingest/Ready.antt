-- ===== src/Ingest/Ready.antt =====
-- src/main.cpp: the registry and the routing state stay in step over the messages of the loop.
use asnprefix_map.Base.{
  ℕ, ◌+◌, ◌^◌, ◌<◌, ◌≤◌, ◌≡◌, refl, sym, ◌∙◌, ap, subst, inl, inr, true, false, ◌&&◌, List, [], ◌∷◌,
  arith, ◌==◌, nat_eq, leb, Bool-cases, Option-cases, length, Bytes, ok, ◌>>=◌, >>=-eq-ok,
}
use asnprefix_map.Prefix.{binary_eq}
use asnprefix_map.Prefix.Inet.{Inet, IsInet}
use asnprefix_map.Prefix.Cidr.{parse_prefix}
use asnprefix_map.Prefix.RoundTrip.{parse_prefix-IsCanonical}
use asnprefix_map.Peer.{peer_eq, contains}
use asnprefix_map.Parser.{JsonLibrary, EventType, announce, withdraw, BgpEvent}
use asnprefix_map.Parser.Message.{message_events}
use asnprefix_map.Parser.Events.{deliver, parse_ris_live_message_lem}
use asnprefix_map.Stats.{Floats}
use asnprefix_map.Ingest.{
  LoopSettings, Turn, Ingest, Capture, turn_message, apply_event, resolve_peer, on_event,
  receive_message, count_events, sample_if_due, reached_limit, ingest_message, ingest_loop,
}
use asnprefix_map.Ingest.Settled.{
  IsSettled, announce-IsSettled, withdraw-IsSettled, get_or_add-IsSettled,
}

module _ (fl : Floats) (i : Inet) (laws : IsInet i) where
  -- From `n` ids on: one more is given out with the lookup of the message's peer.
  record IsReady (n : ℕ) (c : Capture fl) : Type 0 where
    settled : IsSettled c.ingest.peer_registry c.ingest.state
    before : c.peer_resolved ≡ false → c.ingest.peer_registry.next_peer_id ≤ n
    bound : c.ingest.peer_registry.next_peer_id ≤ n + 1
    cached : c.peer_resolved ≡ true → contains c.ingest.peer_registry c.cached_peer_id ≡ true

  resolve_peer-IsReady :
      (n : ℕ) (c : Capture fl) (e : BgpEvent)
      → n + 2 < 2 ^ 32
      → IsReady n c
      → IsReady n (resolve_peer fl c e) × ((resolve_peer fl c e).peer_resolved ≡ true)
  unfolding resolve_peer
  resolve_peer-IsReady n c e small v = elim (Bool-cases c.peer_resolved) [
    | inl done ↦
        let same : resolve_peer fl c e ≡ c = ground (arith, done) in
        (subst (IsReady n) (sym same) v, ap (λ (d : Capture fl). d.peer_resolved) same ∙ done)
    | inr fresh ↦
        let (settled, here, more) =
          get_or_add-IsSettled c.ingest.peer_registry c.ingest.state e.peer v.settled
            (omega (arith, v.before fresh)) in
        rw (resolve_peer, fresh)
          (
            record {
              settled = settled;
              before = λ h. absurd (cc);
              bound = omega (arith, more, v.before fresh);
              cached = λ h. here;
            },
            refl,
          )
  ]

  ok_same : {g h : Ingest fl} → ok g ≡ ok h → g ≡ h
  ok_same h = cc

  apply_event-IsSettled :
      (type : EventType) (id : ℕ) (text : Bytes) (asn time : ℕ) (g g' : Ingest fl)
      → IsSettled g.peer_registry g.state
      → g.peer_registry.next_peer_id + 1 < 2 ^ 32
      → contains g.peer_registry id ≡ true
      → apply_event fl i type id text asn time g ≡ ok g'
      → (g'.peer_registry ≡ g.peer_registry) × IsSettled g.peer_registry g'.state
  unfolding apply_event
  apply_event-IsSettled announce id text asn time g g' v small here h =
      let (b, parsed, done) = >>=-eq-ok (parse_prefix i text) _ h in
      let c = parse_prefix-IsCanonical i laws text b parsed in
      let same = ok_same done in
      (
        sym (ap (λ (z : Ingest fl). z.peer_registry) same),
        subst (λ (z : Ingest fl). IsSettled g.peer_registry z.state) same
            (announce-IsSettled g.peer_registry g.state id b asn time v small here c),
      )
  apply_event-IsSettled withdraw id text asn time g g' v small here h =
      let (b, parsed, done) = >>=-eq-ok (parse_prefix i text) _ h in
      let same = ok_same done in
      (
        sym (ap (λ (z : Ingest fl). z.peer_registry) same),
        subst (λ (z : Ingest fl). IsSettled g.peer_registry z.state) same
            (withdraw-IsSettled g.peer_registry g.state id b v),
      )

  capture_same : {c d : Capture fl} → ok c ≡ ok d → c ≡ d
  capture_same h = cc

  on_event-IsReady :
      (n : ℕ) (c c' : Capture fl) (e : BgpEvent)
      → n + 2 < 2 ^ 32
      → IsReady n c
      → on_event fl i c e ≡ ok c'
      → IsReady n c'
  unfolding on_event
  on_event-IsReady n c c' e small v h =
      let d = resolve_peer fl c e in
      let (w, resolved) = resolve_peer-IsReady n c e small v in
      let (g, applied, done) =
        >>=-eq-ok (apply_event fl i e.type d.cached_peer_id e.prefix e.asn e.timestamp d.ingest)
          (λ g. ok (record d { ingest = g })) h in
      let (kept, settled) =
        apply_event-IsSettled e.type d.cached_peer_id e.prefix e.asn e.timestamp d.ingest g
          w.settled (omega (arith, w.bound)) (w.cached resolved) applied in
      let before : IsReady n (record d { ingest = g }) = record {
        settled = rw kept settled;
        before = λ f. rw kept (w.before f);
        bound = rw kept w.bound;
        cached = λ t. rw kept (w.cached t);
      } in
      subst (IsReady n) (capture_same done) before

  pair_same : {y z : Capture fl × ℕ} → ok y ≡ ok z → y ≡ z
  pair_same h = cc

  deliver-IsReady :
      (n : ℕ) (es : List BgpEvent) (c : Capture fl) (m : ℕ) (z : Capture fl × ℕ)
      → n + 2 < 2 ^ 32
      → IsReady n c
      → deliver (on_event fl i) es (c, m) ≡ ok z
      → IsReady n z.0
  unfolding deliver
  deliver-IsReady n [] c m z small v h = subst (IsReady n) (ap (λ y. y.0) (pair_same h)) v
  deliver-IsReady n (e ∷ es) c m z small v h =
      let (c', here, rest) =
        >>=-eq-ok (on_event fl i c e) (λ c'. deliver (on_event fl i) es (c', m + 1)) h in
      deliver-IsReady n es c' (m + 1) z small (on_event-IsReady n c c' e small v here) rest

  -- The registry and the state are in step, with no more ids than `n`.
  abbrev Within : ℕ → Ingest fl → Type 0
  Within n g = IsSettled g.peer_registry g.state × (g.peer_registry.next_peer_id ≤ n)

  count_events-Within :
      (n emitted : ℕ) (g : Ingest fl) → Within n g → Within n (count_events fl emitted g)
  unfolding count_events
  count_events-Within n emitted g v = elim (Bool-cases (emitted == 0)) [
    | inl nothing ↦ rw (count_events, nothing) v
    | inr some_events ↦ rw (count_events, some_events) v
  ]

  sample_if_due-Within :
      (n : ℕ) (cfg : LoopSettings) (turn : Turn) (g : Ingest fl)
      → Within n g
      → Within n (sample_if_due fl cfg turn.clocks g)
  unfolding sample_if_due
  sample_if_due-Within n cfg turn g v =
      elim (Bool-cases
        (cfg.stats_output_enabled && leb g.next_stats_sample_at turn.clocks.checked_at)) [
          | inl due ↦ rw (sample_if_due, due) v
          | inr early ↦ rw (sample_if_due, early) v
        ]

  ingest_message-Within :
      (j : JsonLibrary) (n : ℕ) (message : Bytes) (g g' : Ingest fl)
      → n + 2 < 2 ^ 32
      → Within n g
      → ingest_message fl i j message g ≡ ok g'
      → Within (n + 1) g'
  unfolding ingest_message receive_message
  ingest_message-Within j n message g g' small (v, ids) h =
      let c : Capture fl = record {
        ingest = receive_message fl g;
        peer_resolved = false;
        cached_peer_id = 0;
      } in
      let delivered =
        sym (
          ap (λ r. r >>= λ z. ok (count_events fl z.1 z.0.ingest))
            (parse_ris_live_message_lem (on_event fl i) j message c))
        ∙ h in
      let (z, all, done) =
        >>=-eq-ok (message_events j message >>= λ es. deliver (on_event fl i) es (c, 0))
          (λ z. ok (count_events fl z.1 z.0.ingest)) delivered in
      let (es, read, ran) =
        >>=-eq-ok (message_events j message) (λ es. deliver (on_event fl i) es (c, 0)) all in
      let start : IsReady n c = record {
        settled = v;
        before = λ f. ids;
        bound = omega (arith, ids);
        cached = λ t. absurd (cc);
      } in
      let w = deliver-IsReady n es c 0 z small start ran in
      subst (Within (n + 1)) (ok_same done)
        (count_events-Within (n + 1) z.1 z.0.ingest (w.settled, w.bound))

  loop_over : (g g' : Ingest fl) (n m : ℕ) → n ≤ m → Within n g → ok g ≡ ok g' → Within m g'
  loop_over g g' n m more (v, ids) h = subst (Within m) (ok_same h) (v, omega (arith, ids, more))

  loop_turns :
      (j : JsonLibrary) (cfg : LoopSettings) (turns : List Turn) (n : ℕ) (g g' : Ingest fl)
      → n + length turns + 1 < 2 ^ 32
      → Within n g
      → ingest_loop fl i j cfg turns g ≡ ok g'
      → Within (n + length turns) g'
  unfolding ingest_loop
  loop_turns j cfg [] n g g' small v h = loop_over g g' n _ (omega arith) v h
  loop_turns j cfg (turn ∷ turns) n g g' small v h = elim (Option-cases (turn_message turn)) [
    | inl over ↦ loop_over g g' n _ (omega arith) v (rw (ingest_loop, over) at h)
    | inr (message, got) ↦
        let (done, ran, rest) =
          >>=-eq-ok (ingest_message fl i j message g) _ (rw (ingest_loop, got) at h) in
        let w =
          sample_if_due-Within (n + 1) cfg turn done
            (ingest_message-Within j n message g done (omega arith) v ran) in
        let next = sample_if_due fl cfg turn.clocks done in
        elim (Bool-cases (reached_limit fl cfg next)) [
          | inl full ↦ loop_over next g' (n + 1) _ (omega arith) w (rw full at rest)
          | inr more ↦
              let (settled, ids) =
                loop_turns j cfg turns (n + 1) next g' (omega arith) w (rw more at rest) in
              (settled, omega (arith, ids))
        ]
  ]

  -- With an `inet_pton` and an `inet_ntop` that keep the laws of `IsInet`: a loop that does not throw,
  -- over fewer turns than there are ids of 32 bits left, keeps the two maps of the registry inverse and
  -- the routing state sound, and each entry of the state is of a peer that the registry has and of a
  -- prefix in normal form. It gives out at most one id for each turn.
  pub ingest_loop-IsSettled :
      (j : JsonLibrary) (cfg : LoopSettings) (turns : List Turn) (g g' : Ingest fl)
      → IsSettled g.peer_registry g.state
      → g.peer_registry.next_peer_id + length turns + 1 < 2 ^ 32
      → ingest_loop fl i j cfg turns g ≡ ok g'
      → IsSettled g'.peer_registry g'.state
        × (g'.peer_registry.next_peer_id ≤ g.peer_registry.next_peer_id + length turns)
  ingest_loop-IsSettled j cfg turns g g' v small h =
      loop_turns j cfg turns g.peer_registry.next_peer_id g g' small (v, omega arith) h
