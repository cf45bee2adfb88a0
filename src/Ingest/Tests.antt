-- ===== src/Ingest/Tests.antt =====
-- One turn with a message of one withdrawal.
use asnprefix_map.Base.{
  Bytes, arith, ◌+◌, ◌≤◌, nat_eq, length, Option, ◌≡◌, refl, false, none, some, List, [], ◌∷◌,
  Result, ok, err, ◌>>=◌, ◌==◌, bytes_eq, if◌then◌else◌,
}
use asnprefix_map.Base.Text.{codes, cut_at, has_byte, c_str}
use asnprefix_map.Base.Decimal.{stoul, skip_spaces, read_signed, read_number, read_digits}
use asnprefix_map.Prefix.Inet.{Inet}
use asnprefix_map.Prefix.Cidr.{
  parse_prefix, infer_family_from_text, address_part, parse_as, parse_prefix_v4, split_cidr,
  read_address_v4,
}
use asnprefix_map.Peer
use asnprefix_map.Routing.State
use asnprefix_map.Parser.{
  JsonLibrary, parse_ris_live_message, parse_ris_live_message_impl, update_of, has_string_value,
  update_in, emit_update, append_announce_events, try_get_origin_asn, append_withdraw_events,
  emit_prefixes, build_peer_info, get_timestamp_or_zero, get_string_ref_or_empty,
  get_uint32_or_zero,
}
use asnprefix_map.Parser.Tests.{document, Node, text_of, eight}
use asnprefix_map.Parser.Message.{message_events}
use asnprefix_map.Parser.Events.{deliver}
use asnprefix_map.Stats.{new_tracker}
use asnprefix_map.Stats.Tests.{whole, settings}
use asnprefix_map.Ingest.{
  Ingest, no_stats, LoopSettings, Turn, receive_message, count_events, ingest_message, ingest_loop,
  turn_message, on_event, apply_event, resolve_peer, reached_limit, sample_if_due,
}
use asnprefix_map.Ingest.Peers.{on_event_uncached, ingest_message_uncached}
use asnprefix_map.Peer.{PeerInfo, clear as clear_registry}
use asnprefix_map.Prefix.Mask.{apply_mask_v4}
use asnprefix_map.Prefix.Tests.{marked, marked-IsInet, eight as marked_eight}
use asnprefix_map.Ingest.Settled.{IsSettled, clear-IsSettled}
use asnprefix_map.Ingest.Ready.{ingest_loop-IsSettled}
use asnprefix_map.Ingest.Counters.{IsCounted, ingest_loop-IsCounted}

abbrev one_address : Inet
one_address = record {
  pton_v4 = λ text. if text == codes "8.0.0.0" then some 134217728 else none;
  ntop_v4 = λ n. some (codes "8.0.0.0");
  pton_v6 = λ text. none;
  ntop_v6 = λ bytes. none;
}

abbrev pub start : Ingest whole
start = record {
  peer_registry = Peer.clear;
  state = State.clear;
  stats = no_stats;
  growth_stats = new_tracker whole settings 0;
  next_stats_sample_at = 0;
  written = [];
}

abbrev pub quiet : LoopSettings
quiet = record { stats_output_enabled = false; stats_interval_ms = 1000; max_messages = 0 }

abbrev turns : List Turn
turns =
    (record {
      stop_requested = false;
      message = some (codes "{}");
      signalled = false;
      clocks = record { checked_at = 1; sampled_at = 1; wall_ms = 1; rearmed_at = 1 };
    })
    ∷ []

ingest_message_uncached_example : ingest_message whole one_address document (codes "{}") start ≡ (
    (message_events document (codes "{}") >>= λ es.
    deliver (on_event_uncached whole one_address) es (receive_message whole start, 0))
    >>= λ z. ok (count_events whole z.1 z.0))
ingest_message_uncached_example =
    ingest_message_uncached whole one_address document (codes "{}") start

abbrev result_of : Result (Ingest whole) → Ingest whole
result_of (ok g) = g
result_of (err e) = start

abbrev after : Ingest whole
after = result_of (ingest_loop whole one_address document quiet turns start)

start-IsCounted : IsCounted whole start 0
unfolding new_tracker
start-IsCounted = record {
  raw = refl;
  parsed = refl;
  announces = refl;
  withdraws = refl;
  applied = refl;
}

runs : ingest_loop whole one_address document quiet turns start ≡ ok after
unfolding ingest_loop turn_message ingest_message on_event apply_event resolve_peer reached_limit
    sample_if_due parse_ris_live_message parse_ris_live_message_impl update_of has_string_value
    update_in emit_update append_announce_events try_get_origin_asn append_withdraw_events
    emit_prefixes build_peer_info get_timestamp_or_zero get_string_ref_or_empty get_uint32_or_zero
    parse_prefix infer_family_from_text address_part parse_as parse_prefix_v4 split_cidr
    read_address_v4 cut_at has_byte c_str stoul skip_spaces read_signed read_number read_digits
    apply_mask_v4
runs = refl

ingest_loop-IsCounted_example : IsCounted whole after 0
ingest_loop-IsCounted_example =
    ingest_loop-IsCounted whole one_address document quiet turns start after start-IsCounted runs

-- The same turn over `marked`, whose texts of prefixes are its own.
abbrev marked_text : Node → Option Bytes
marked_text eight = some marked_eight
marked_text n = text_of n

abbrev pub marked_document : JsonLibrary
marked_document = record document { string = marked_text }

abbrev pub settled : Ingest whole
settled = result_of (ingest_loop whole marked marked_document quiet turns start)

settled_runs : ingest_loop whole marked marked_document quiet turns start ≡ ok settled
unfolding ingest_loop turn_message ingest_message on_event apply_event resolve_peer reached_limit
    sample_if_due parse_ris_live_message parse_ris_live_message_impl update_of has_string_value
    update_in emit_update append_announce_events try_get_origin_asn append_withdraw_events
    emit_prefixes build_peer_info get_timestamp_or_zero get_string_ref_or_empty get_uint32_or_zero
    parse_prefix infer_family_from_text address_part parse_as parse_prefix_v4 split_cidr
    read_address_v4 cut_at has_byte c_str stoul skip_spaces read_signed read_number read_digits
    apply_mask_v4
settled_runs = refl

ingest_loop-IsSettled_example :
    IsSettled settled.peer_registry settled.state
    × (settled.peer_registry.next_peer_id ≤ start.peer_registry.next_peer_id + length turns)
ingest_loop-IsSettled_example =
    ingest_loop-IsSettled whole marked marked-IsInet marked_document quiet turns start settled
      clear-IsSettled (omega arith) settled_runs
