-- ===== src/Ingest/Counters.antt =====
-- src/main.cpp: the counters of the message loop.
use asnprefix_map.Base.{
  ℕ, ◌+◌, ◌%◌, ◌^◌, ◌≡◌, refl, ◌∙◌, sym, ◌&&◌, List, [], ◌∷◌, arith, inl, inr, Bool-cases,
  Option-cases, Bytes, ok, ◌>>=◌, >>=-eq-ok, subst, leb, ◌==◌, nat_eq,
}
use asnprefix_map.Prefix.{BinaryPrefix, v4, v6}
use asnprefix_map.Prefix.Inet.{Inet}
use asnprefix_map.Prefix.Cidr.{parse_prefix}
use asnprefix_map.Peer.{get_or_add}
use asnprefix_map.Parser.{JsonLibrary, EventType, announce, withdraw, BgpEvent}
use asnprefix_map.Parser.Message.{message_events}
use asnprefix_map.Parser.Events.{deliver}
use asnprefix_map.Stats.{
  Floats, GrowthStatsTracker, on_message_received, on_parsed_events, on_announce, on_withdraw,
  see_prefix, see_asn, set_active_prefix_counts, sample_now, update_plateau, push_rate,
  detect_plateau,
}
use asnprefix_map.Ingest.{
  Ingest, LoopSettings, Clocks, Turn, turn_message, apply_event, receive_message, count_events,
  ingest_message, sample_if_due, reached_limit, ingest_loop,
}
use asnprefix_map.Ingest.Peers.{on_event_uncached, ingest_message_uncached}

ok-injective {ℓ} : {A : Type ℓ} {a b : A} → ok a ≡ ok b → a ≡ b
ok-injective h = cc

module _ (fl : Floats) where
  -- The tracker counts what the loop counts, and every event that is counted has been applied, but
  -- for `pending` ones, as an announce or a withdraw.
  pub record IsCounted (g : Ingest fl) (pending : ℕ) : Type 0 where
    pub raw : g.growth_stats.raw_messages_received ≡ g.stats.raw_messages_received
    pub parsed : g.growth_stats.parsed_events_total ≡ g.stats.parsed_events_total
    pub announces : g.growth_stats.announces_applied ≡ g.stats.announces_applied
    pub withdraws : g.growth_stats.withdraws_applied ≡ g.stats.withdraws_applied
    pub applied :
        (g.stats.announces_applied + g.stats.withdraws_applied) % 2 ^ 64
        ≡ (g.stats.parsed_events_total + pending) % 2 ^ 64

  -- What the visitor and the sets do not touch.
  record SameCounts (t u : GrowthStatsTracker fl) : Type 0 where
    raw : u.raw_messages_received ≡ t.raw_messages_received
    parsed : u.parsed_events_total ≡ t.parsed_events_total
    announces : u.announces_applied ≡ t.announces_applied
    withdraws : u.withdraws_applied ≡ t.withdraws_applied

  see_prefix-SameCounts :
      (prefix : BinaryPrefix) (t : GrowthStatsTracker fl) → SameCounts t (see_prefix fl prefix t)
  unfolding see_prefix
  see_prefix-SameCounts (v4 p) t = ground arith
  see_prefix-SameCounts (v6 p) t = ground arith

  event-IsCounted :
      (i : Inet) (type : EventType) (id : ℕ) (text : Bytes) (asn timestamp : ℕ) (g g' : Ingest fl)
      (pending : ℕ)
      → IsCounted g pending
      → apply_event fl i type id text asn timestamp g ≡ ok g'
      → IsCounted g' (pending + 1)
  unfolding apply_event on_announce on_withdraw see_asn
  event-IsCounted i announce id text asn timestamp g g' pending v h =
      let (prefix, parsed, e) = >>=-eq-ok (parse_prefix i text) _ h in
      let seen = see_prefix-SameCounts prefix (see_asn fl asn g.growth_stats) in
      subst (λ x. IsCounted x (pending + 1)) (ok-injective e)
        (record {
          raw = omega (arith, seen.raw, v.raw);
          parsed = omega (arith, seen.parsed, v.parsed);
          announces = omega (arith, seen.announces, v.announces);
          withdraws = omega (arith, seen.withdraws, v.withdraws);
          applied = omega (arith, v.applied);
        })
  event-IsCounted i withdraw id text asn timestamp g g' pending v h =
      let (prefix, parsed, e) = >>=-eq-ok (parse_prefix i text) _ h in
      let seen = see_prefix-SameCounts prefix g.growth_stats in
      subst (λ x. IsCounted x (pending + 1)) (ok-injective e)
        (record {
          raw = omega (arith, seen.raw, v.raw);
          parsed = omega (arith, seen.parsed, v.parsed);
          announces = omega (arith, seen.announces, v.announces);
          withdraws = omega (arith, seen.withdraws, v.withdraws);
          applied = omega (arith, v.applied);
        })

  -- The events that are delivered are applied, and pending until they are counted.
  deliver-IsCounted :
      (i : Inet) (es : List BgpEvent) (n : ℕ) (g g' : Ingest fl) (n' : ℕ)
      → IsCounted g n
      → deliver (on_event_uncached fl i) es (g, n) ≡ ok (g', n')
      → IsCounted g' n'
  unfolding deliver on_event_uncached
  deliver-IsCounted i [] n g g' n' v h =
      let e = ok-injective h in subst (λ z. IsCounted z.0 z.1) e v
  deliver-IsCounted i (e ∷ es) n g g' n' v h =
      let added = get_or_add g.peer_registry e.peer in
      let known : Ingest fl = record g { peer_registry = added.0 } in
      let known-IsCounted : IsCounted known n = ground (arith, v) in
      let (g1, applied, rest) = >>=-eq-ok (on_event_uncached fl i g e) _ h in
      deliver-IsCounted i es (n + 1) g1 g' n'
        (event-IsCounted i e.type added.1 e.prefix e.asn e.timestamp known g1 n known-IsCounted
          applied)
        rest

  receive-IsCounted : (g : Ingest fl) → IsCounted g 0 → IsCounted (receive_message fl g) 0
  unfolding receive_message on_message_received
  receive-IsCounted g v = record {
    raw = omega (arith, v.raw);
    parsed = v.parsed;
    announces = v.announces;
    withdraws = v.withdraws;
    applied = v.applied;
  }

  count-IsCounted : (n : ℕ) (g : Ingest fl) → IsCounted g n → IsCounted (count_events fl n g) 0
  unfolding count_events on_parsed_events set_active_prefix_counts
  count-IsCounted n g v = elim (Bool-cases (n == 0)) [
    | inl e ↦
        rw (e, count_events)
          (record {
            raw = v.raw;
            parsed = omega (arith, v.parsed);
            announces = v.announces;
            withdraws = v.withdraws;
            applied = omega (arith, v.applied);
          })
    | inr e ↦
        rw (e, count_events)
          (record {
            raw = v.raw;
            parsed = omega (arith, v.parsed);
            announces = v.announces;
            withdraws = v.withdraws;
            applied = omega (arith, v.applied);
          })
  ]

  -- A message that does not throw keeps the counters in step: the tracker counts what the loop
  -- counts, and modulo 2^64 the events parsed are the announces and the withdraws applied.
  pub message-IsCounted :
      (i : Inet) (j : JsonLibrary) (message : Bytes) (g g' : Ingest fl)
      → IsCounted g 0
      → ingest_message fl i j message g ≡ ok g'
      → IsCounted g' 0
  message-IsCounted i j message g g' v h =
      let (z, delivered, e) =
        >>=-eq-ok
          (message_events j message >>= λ es.
            deliver (on_event_uncached fl i) es (receive_message fl g, 0))
          (λ z. ok (count_events fl z.1 z.0))
          (sym (ingest_message_uncached fl i j message g) ∙ h) in
      let (es, read, ran) =
        >>=-eq-ok (message_events j message)
          (λ es. deliver (on_event_uncached fl i) es (receive_message fl g, 0)) delivered in
      let counted =
        deliver-IsCounted i es 0 (receive_message fl g) z.0 z.1 (receive-IsCounted g v) ran in
      subst (λ x. IsCounted x 0) (ok-injective e) (count-IsCounted z.1 z.0 counted)

  plateau-SameCounts :
      (now now_ms : ℕ) (t : GrowthStatsTracker fl) → SameCounts t (sample_now fl now now_ms t).0
  unfolding sample_now update_plateau push_rate detect_plateau
  plateau-SameCounts now now_ms t = ground arith

  sample-IsCounted :
      (cfg : LoopSettings) (clocks : Clocks) (g : Ingest fl)
      → IsCounted g 0
      → IsCounted (sample_if_due fl cfg clocks g) 0
        × ((sample_if_due fl cfg clocks g).stats ≡ g.stats)
  unfolding sample_if_due
  sample-IsCounted cfg clocks g v =
      let same = plateau-SameCounts clocks.sampled_at clocks.wall_ms g.growth_stats in
      elim (Bool-cases (cfg.stats_output_enabled && leb g.next_stats_sample_at clocks.checked_at)) [
        | inl e ↦
            rw (e, sample_if_due)
              (
                record {
                  raw = omega (arith, same.raw, v.raw);
                  parsed = omega (arith, same.parsed, v.parsed);
                  announces = omega (arith, same.announces, v.announces);
                  withdraws = omega (arith, same.withdraws, v.withdraws);
                  applied = v.applied;
                },
                refl,
              )
        | inr e ↦ rw (e, sample_if_due) (v, refl)
      ]

  -- A loop that does not throw keeps the counters in step, over any turns: the tracker counts what
  -- the loop counts, and modulo 2^64 the events parsed are the announces and the withdraws applied.
  pub ingest_loop-IsCounted :
      (i : Inet) (j : JsonLibrary) (cfg : LoopSettings) (turns : List Turn) (g g' : Ingest fl)
      → IsCounted g 0
      → ingest_loop fl i j cfg turns g ≡ ok g'
      → IsCounted g' 0
  unfolding ingest_loop
  ingest_loop-IsCounted i j cfg [] g g' v h = subst (λ x. IsCounted x 0) (ok-injective h) v
  ingest_loop-IsCounted i j cfg (turn ∷ turns) g g' v h = elim (Option-cases (turn_message turn)) [
    | inl over ↦ subst (λ x. IsCounted x 0) (ok-injective (rw (over, ingest_loop) at h)) v
    | inr (message, e) ↦
        let (done, ran, rest) =
          >>=-eq-ok (ingest_message fl i j message g) _ (rw (e, ingest_loop) at h) in
        let w =
          (sample-IsCounted cfg turn.clocks done (message-IsCounted i j message g done v ran)).0 in
        elim (Bool-cases (reached_limit fl cfg (sample_if_due fl cfg turn.clocks done))) [
          | inl full ↦ subst (λ x. IsCounted x 0) (ok-injective (rw full at rest)) w
          | inr more ↦
              ingest_loop-IsCounted i j cfg turns (sample_if_due fl cfg turn.clocks done) g' w
                (rw more at rest)
        ]
  ]
