-- ===== src/Ingest.antt =====
-- src/main.cpp: the message loop of `main`. The JSON library, the address routines, floating point,
-- the clocks and the message source are parameters. The messages of a plateau, on `cerr`, are not
-- modelled. An exception of the loop ends `main` (Program).
pub mod Peers
pub mod Counters
pub mod Settled
pub mod Ready
pub mod Tests
use asnprefix_map.Base.{
  ℕ, zero, suc, ◌+◌, ◌%◌, ◌^◌, Bool, true, false, not, ◌&&◌, ◌||◌, Option, none, some, List, [],
  ◌∷◌, ◌++◌, Bytes, Result, ok, err, ◌>>=◌, ◌==◌, nat_eq, if◌then◌else◌, leb,
}
use asnprefix_map.Prefix.Inet.{Inet}
use asnprefix_map.Prefix.Cidr.{parse_prefix}
use asnprefix_map.Peer.{PeerRegistry, get_or_add}
use asnprefix_map.Routing.State.{
  RoutingState, announce as announce_prefix, withdraw as withdraw_prefix, active_prefixes_v4_count,
  active_prefixes_v6_count,
}
use asnprefix_map.Parser.{
  JsonLibrary, EventType, announce, withdraw, BgpEvent, parse_ris_live_message,
}
use asnprefix_map.Stats.{
  Floats, GrowthSample, GrowthStatsTracker, add64, on_message_received, on_parsed_events,
  on_announce, on_withdraw, set_active_prefix_counts, sample_now,
}

pub record IngestionStats : Type 0 where
  pub raw_messages_received : ℕ
  pub parsed_events_total : ℕ
  pub announces_applied : ℕ
  pub withdraws_applied : ℕ
  pub ignored_messages : ℕ

abbrev pub no_stats : IngestionStats
no_stats = record {
  raw_messages_received = 0;
  parsed_events_total = 0;
  announces_applied = 0;
  withdraws_applied = 0;
  ignored_messages = 0;
}

-- What the loop takes from the configuration.
pub record LoopSettings : Type 0 where
  pub stats_output_enabled : Bool
  pub stats_interval_ms : ℕ
  pub max_messages : ℕ

-- The clocks of one turn of the loop, in milliseconds.
pub record Clocks : Type 0 where
  pub checked_at : ℕ
  pub sampled_at : ℕ
  pub wall_ms : ℕ
  pub rearmed_at : ℕ

-- One turn: whether a stop is requested, what `next_message` gives, whether a signal has come by then.
pub record Turn : Type 0 where
  pub stop_requested : Bool
  pub message : Option Bytes
  pub signalled : Bool
  pub clocks : Clocks

-- The message of a turn that gets as far: the loop's test and the test behind the read.
unfoldable pub turn_message : Turn → Option Bytes
turn_message turn = if turn.stop_requested then none else elim turn.message [
  | none ↦ none
  | some message ↦ if turn.signalled then none else some message
]

module _ (fl : Floats) where
  -- The variables of `main`. The samples are what `write_sample` is given, in order.
  pub record Ingest : Type 0 where
    pub peer_registry : PeerRegistry
    pub state : RoutingState
    pub stats : IngestionStats
    pub growth_stats : GrowthStatsTracker fl
    pub next_stats_sample_at : ℕ
    pub written : List (GrowthSample fl)

  -- The variables that the callback captures: `peer_resolved` and `cached_peer_id` are new for each
  -- message.
  pub record Capture : Type 0 where
    pub ingest : Ingest
    pub peer_resolved : Bool
    pub cached_peer_id : ℕ

  -- The lookup that is made for the first event of a message only.
  unfoldable pub resolve_peer : Capture → BgpEvent → Capture
  resolve_peer c e =
      if c.peer_resolved
      then c
      else (let added = get_or_add c.ingest.peer_registry e.peer in
          record {
            ingest = record c.ingest { peer_registry = added.0 };
            peer_resolved = true;
            cached_peer_id = added.1;
          })

  -- The counters before the parser is called.
  unfoldable pub receive_message : Ingest → Ingest
  receive_message g = record g {
    stats = record g.stats { raw_messages_received = add64 g.stats.raw_messages_received 1 };
    growth_stats = on_message_received fl g.growth_stats;
  }

  -- The counters behind the call.
  unfoldable pub count_events : ℕ → Ingest → Ingest
  count_events emitted_events g =
      let counted : Ingest = record g {
        stats = record g.stats {
          parsed_events_total = add64 g.stats.parsed_events_total emitted_events;
        };
        growth_stats = on_parsed_events fl emitted_events g.growth_stats;
      } in
      if emitted_events == 0
      then record counted {
        stats = record counted.stats { ignored_messages = add64 counted.stats.ignored_messages 1 };
      }
      else record counted {
        growth_stats =
            set_active_prefix_counts fl (active_prefixes_v4_count counted.state)
              (active_prefixes_v6_count counted.state) counted.growth_stats;
      }

  -- The sample that is due, if one is. An instant has no largest value here; in the source it is a
  -- signed count, which an interval of hundreds of years overflows.
  unfoldable pub sample_if_due : LoopSettings → Clocks → Ingest → Ingest
  sample_if_due cfg clocks g =
      if cfg.stats_output_enabled && leb g.next_stats_sample_at clocks.checked_at
      then (let sampled = sample_now fl clocks.sampled_at clocks.wall_ms g.growth_stats in
          record g {
            growth_stats = sampled.0;
            written = g.written ++ sampled.1 ∷ [];
            next_stats_sample_at = clocks.rearmed_at + cfg.stats_interval_ms;
          })
      else g

  -- The limit on the messages, at the end of a turn.
  unfoldable pub reached_limit : LoopSettings → Ingest → Bool
  reached_limit cfg g =
      not (cfg.max_messages == 0) && leb cfg.max_messages g.stats.raw_messages_received

  module _ (i : Inet) where
    unfoldable pub apply_event : EventType → ℕ → Bytes → ℕ → ℕ → Ingest → Result Ingest
    apply_event announce peer_id prefix_text origin_asn timestamp g = do
      prefix ← parse_prefix i prefix_text
      ok (record g {
        state = announce_prefix g.state peer_id prefix origin_asn timestamp;
        stats = record g.stats { announces_applied = add64 g.stats.announces_applied 1 };
        growth_stats = on_announce fl origin_asn prefix g.growth_stats;
      })
    apply_event withdraw peer_id prefix_text origin_asn timestamp g = do
      prefix ← parse_prefix i prefix_text
      ok (record g {
        state = withdraw_prefix g.state peer_id prefix;
        stats = record g.stats { withdraws_applied = add64 g.stats.withdraws_applied 1 };
        growth_stats = on_withdraw fl prefix g.growth_stats;
      })

    -- The callback.
    unfoldable pub on_event : Capture → BgpEvent → Result Capture
    on_event c e =
        let resolved = resolve_peer c e in
        apply_event e.type resolved.cached_peer_id e.prefix e.asn e.timestamp resolved.ingest
        >>= λ g. ok (record resolved { ingest = g })

    unfoldable pub ingest_message : JsonLibrary → Bytes → Ingest → Result Ingest
    ingest_message j message g =
        parse_ris_live_message j on_event message
          (record { ingest = receive_message g; peer_resolved = false; cached_peer_id = 0 })
        >>= λ z. ok (count_events z.1 z.0.ingest)

    -- The loop; the turns that a source gives may go on for ever, and the list is a part of them.
    unfoldable pub ingest_loop : JsonLibrary → LoopSettings → List Turn → Ingest → Result Ingest
    ingest_loop j cfg [] g = ok g
    ingest_loop j cfg (turn ∷ turns) g = elim (turn_message turn) [
      | none ↦ ok g
      | some message ↦ ingest_message j message g >>= λ done.
          elim (reached_limit cfg (sample_if_due cfg turn.clocks done)) [
            | true ↦ ok (sample_if_due cfg turn.clocks done)
            | false ↦ ingest_loop j cfg turns (sample_if_due cfg turn.clocks done)
          ]
    ]
