-- ===== src/Program/Tests.antt =====
-- A configuration that replays a file of one message, with and without a place for the snapshot.
use asnprefix_map.Base.{
  ◌+◌, ◌^◌, ◌<◌, ◌≡◌, refl, true, false, none, some, List, [], ◌∷◌, ◌++◌, arith, length, nat_eq,
  Bytes, Result, ok, err, bytes_eq,
}
use asnprefix_map.Base.Text.{codes, cut_at, has_byte, c_str, lines}
use asnprefix_map.Base.Decimal.{stoul, skip_spaces, read_signed, read_number, read_digits}
use asnprefix_map.Prefix.Mask.{apply_mask_v4}
use asnprefix_map.Prefix.Tests.{marked, marked-IsInet}
use asnprefix_map.Prefix.Cidr.{
  parse_prefix, infer_family_from_text, address_part, parse_as, parse_prefix_v4, split_cidr,
  read_address_v4,
}
use asnprefix_map.Peer.{clear as clear_registry}
use asnprefix_map.Routing.State.{clear as clear_state}
use asnprefix_map.Parser.{
  parse_ris_live_message, parse_ris_live_message_impl, update_of, has_string_value, update_in,
  emit_update, append_announce_events, try_get_origin_asn, append_withdraw_events, emit_prefixes,
  build_peer_info, get_timestamp_or_zero, get_string_ref_or_empty, get_uint32_or_zero,
}
use asnprefix_map.FileSource.{FileJsonlSource, open_source, next_message, next_line, filled}
use asnprefix_map.Config.{
  Config, default_config, set_key, read_line, read_lines, load_config, trim, trim_back,
}
use asnprefix_map.Stats.Tests.{whole, fixed}
use asnprefix_map.Ingest.{
  Ingest, ingest_message, ingest_loop, turn_message, on_event, apply_event, resolve_peer,
  reached_limit, sample_if_due,
}
use asnprefix_map.Ingest.Settled.{clear-IsSettled}
use asnprefix_map.Ingest.Tests.{start, quiet, marked_document}
use asnprefix_map.Program.{
  Tick, file_source, Printing, World, Outcome, doubles, loop_settings, create_source, source_turns,
  file_turns, load_initial, open_stats, start_ingest, run_main, main,
}
use asnprefix_map.Program.Finish.{IsSaved, main_lem}
use asnprefix_map.Program.Replay.{ingest_all, ingest_loop-file_turns}

abbrev tick : Tick
tick = record {
  stop_requested = false;
  signalled = false;
  clocks = record { checked_at = 1; sampled_at = 1; wall_ms = 1; rearmed_at = 1 };
}

-- A message, an empty line and a text that is no message.
abbrev file : Bytes
file = codes "{}" ++ (10 ∷ (10 ∷ codes "[]"))

abbrev opened : FileJsonlSource
opened = record { input = lines file }

abbrev ticks : List Tick
ticks = tick ∷ tick ∷ tick ∷ tick ∷ []

ingest_loop-file_turns_example :
    ingest_loop whole marked marked_document quiet (file_turns ticks opened) start
    ≡ ingest_all whole marked marked_document (filled (lines file)) start
unfolding open_source lines
ingest_loop-file_turns_example =
    ingest_loop-file_turns whole marked marked_document quiet refl refl (codes "in") file opened
      ticks start refl ((refl, refl), ((refl, refl), ((refl, refl), ((refl, refl), tt))))
      (omega arith)

abbrev printing : Printing whole
printing = record {
  stod = λ text. ok 0;
  five = 5;
  six_hundred = 600;
  shown = λ x. [];
  fixed = fixed;
}

abbrev world : World whole
world = record {
  config_file = some (codes "input_file=in");
  snapshot_exists = false;
  snapshot_file = none;
  stats_path = codes "stats.csv";
  stats_opens = false;
  input_file = some (codes "{}");
  snapshot_opens = true;
  started_at = 0;
  armed_at = 0;
  ticks = ticks;
  network_turns = [];
  final_sampled_at = 2;
  final_wall_ms = 2;
  ended_at = 3;
}

abbrev config : Config (doubles whole printing)
config = record (default_config (doubles whole printing)) { input_file = codes "in" }

configured : load_config (doubles whole printing) (codes "config.ini") world.config_file ≡ ok config
unfolding load_config read_lines read_line set_key trim trim_back skip_spaces cut_at lines
configured = refl

abbrev replayed : FileJsonlSource
replayed = record { input = codes "{}" ∷ [] }

abbrev initial : Ingest whole
initial = start_ingest whole printing config world clear_registry clear_state

abbrev ended : Result (Ingest whole) → Ingest whole
ended (ok g) = g
ended (err e) = initial

abbrev last : Ingest whole
last = ended (
    ingest_loop whole marked marked_document (loop_settings whole printing config)
      (source_turns whole printing world (file_source replayed)) initial)

loaded : load_initial whole printing marked config world ≡ ok (clear_registry, clear_state)
unfolding load_initial default_config
loaded = refl

unsampled : open_stats whole printing config world ≡ ok none
unfolding open_stats default_config
unsampled = refl

created : create_source whole printing config world.input_file ≡ ok (file_source replayed)
unfolding create_source default_config open_source lines
created = refl

few_turns :
    clear_registry.next_peer_id
      + length (source_turns whole printing world (file_source replayed))
      + 1
    < 2 ^ 32
unfolding source_turns file_turns
few_turns = omega arith

looped :
    ingest_loop whole marked marked_document
      (loop_settings whole printing config)
      (source_turns whole printing world (file_source replayed))
      initial
    ≡ ok last
unfolding ingest_loop turn_message ingest_message on_event apply_event resolve_peer reached_limit
    sample_if_due parse_ris_live_message parse_ris_live_message_impl update_of has_string_value
    update_in emit_update append_announce_events try_get_origin_asn append_withdraw_events
    emit_prefixes build_peer_info get_timestamp_or_zero get_string_ref_or_empty get_uint32_or_zero
    parse_prefix infer_family_from_text address_part parse_as parse_prefix_v4 split_cidr
    read_address_v4 cut_at has_byte c_str stoul skip_spaces read_signed read_number read_digits
    apply_mask_v4 source_turns file_turns next_message next_line default_config start_ingest
looped = refl

main_lem_example :
    (world.snapshot_opens ≡ true
      → (main whole printing marked marked_document world ≡ 0)
        × ((o : Outcome whole) × (run_main whole printing marked marked_document world ≡ ok o)
            × IsSaved whole printing marked config o))
    × (world.snapshot_opens ≡ false → main whole printing marked marked_document world ≡ 1)
main_lem_example =
    main_lem whole printing marked marked-IsInet marked_document world config clear_registry
      clear_state none (file_source replayed) last configured loaded clear-IsSettled unsampled
      created few_turns looped
