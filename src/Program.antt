-- ===== src/Program.antt =====
-- src/main.cpp: `main` around its message loop, from the configuration to the saved snapshot and the
-- exported tables, with what it prints to `cout`. Files, clocks and what the source gives are
-- arguments; `cerr`, the signal handler and the thread that waits for a key are not modelled.
pub mod Finish
pub mod Replay
mod Tests
use asnprefix_map.Base.{
  ℕ, ◌+◌, Bool, true, false, not, ◌&&◌, Option, none, some, List, [], ◌∷◌, ◌++◌, ◌==◌, bytes_eq,
  is_empty, Bytes, Result, ok, err, ◌>>=◌, if◌then◌else◌, unsupported_source, unprintable_prefix,
}
use asnprefix_map.Base.Text.{codes}
use asnprefix_map.Base.Decimal.{to_string}
use asnprefix_map.Prefix.Inet.{Inet}
use asnprefix_map.Peer.{PeerRegistry, clear as clear_registry}
use asnprefix_map.Routing.State.{RoutingState, clear as clear_state}
use asnprefix_map.Routing.Export.{export_tables}
use asnprefix_map.Parser.{JsonLibrary}
use asnprefix_map.Snapshot.{SnapshotStats, save_snapshot}
use asnprefix_map.Snapshot.Load.{load_snapshot}
use asnprefix_map.Source.{Source, new_source}
use asnprefix_map.FileSource.{FileJsonlSource, open_source, next_message}
use asnprefix_map.Config.{Doubles, Config, load_config}
use asnprefix_map.Stats.{
  Floats, PlateauSettings, PlateauStatus, new_tracker, seed_from_state, sample_now, runtime_sec,
  plateau_status, format_duration_hms,
}
use asnprefix_map.Stats.Csv.{open_writer, write_samples}
use asnprefix_map.Ingest.{IngestionStats, no_stats, LoopSettings, Clocks, Turn, Ingest, ingest_loop}

-- What a run is told of the outside while it handles one message.
pub record Tick : Type 0 where
  pub stop_requested : Bool
  pub signalled : Bool
  pub clocks : Clocks

pub data BgpSource : Type 0 where
  file_source : FileJsonlSource → BgpSource
  network_source : Source → BgpSource

-- The turns of the loop over a file.
unfoldable pub file_turns : List Tick → FileJsonlSource → List Turn
file_turns [] s = []
file_turns (tick ∷ ticks) s =
    let (next, message) = next_message s in
    (record {
      stop_requested = tick.stop_requested;
      message = message;
      signalled = tick.signalled;
      clocks = tick.clocks;
    })
    ∷ file_turns ticks next

-- A line of `print_stats`.
unfoldable pub stats_line : Bytes → ℕ → Bytes
stats_line name n = name ++ codes "=" ++ to_string n ++ 10 ∷ []

unfoldable pub print_stats : IngestionStats → Bytes
print_stats stats =
    stats_line (codes "raw_messages_received") stats.raw_messages_received
    ++ stats_line (codes "parsed_events_total") stats.parsed_events_total
    ++ stats_line (codes "announces_applied") stats.announces_applied
    ++ stats_line (codes "withdraws_applied") stats.withdraws_applied
    ++ stats_line (codes "ignored_messages") stats.ignored_messages

module _ (fl : Floats) where
  -- `double`, where the program reads and prints it.
  pub record Printing : Type 0 where
    pub stod : Bytes → Result fl.Double
    pub five : fl.Double
    pub six_hundred : fl.Double
    pub shown : fl.Double → Bytes
    pub fixed : ℕ → fl.Double → Bytes

  -- Files and clocks, as a run meets them. `network_turns` are the turns over a network source.
  pub record World : Type 0 where
    pub config_file : Option Bytes
    pub snapshot_exists : Bool
    pub snapshot_file : Option Bytes
    pub stats_path : Bytes
    pub stats_opens : Bool
    pub input_file : Option Bytes
    pub snapshot_opens : Bool
    pub started_at : ℕ
    pub armed_at : ℕ
    pub ticks : List Tick
    pub network_turns : List Turn
    pub final_sampled_at : ℕ
    pub final_wall_ms : ℕ
    pub ended_at : ℕ

  -- What a run that ends well leaves behind.
  pub record Outcome : Type 0 where
    pub ingest : Ingest fl
    pub csv : Option Bytes
    pub snapshot : SnapshotStats × Bytes
    pub tables : Bytes × Bytes
    pub console : Bytes

  module _ (printing : Printing) where
    abbrev pub doubles : Doubles
    doubles = record {
      Double = fl.Double;
      stod = printing.stod;
      five = printing.five;
      six_hundred = printing.six_hundred;
    }

    abbrev pub plateau_settings : Config doubles → PlateauSettings fl
    plateau_settings cfg = record {
      enabled = cfg.plateau_detection_enabled;
      window_samples = cfg.plateau_window_samples;
      prefix_rate_threshold = cfg.plateau_prefix_rate_threshold;
      min_runtime_sec = cfg.plateau_min_runtime_sec;
    }

    abbrev pub loop_settings : Config doubles → LoopSettings
    loop_settings cfg = record {
      stats_output_enabled = cfg.stats_output_enabled;
      stats_interval_ms = cfg.stats_interval_ms;
      max_messages = cfg.max_messages;
    }

    unfoldable pub create_source : Config doubles → Option Bytes → Result BgpSource
    create_source cfg input =
        if cfg.source == codes "file_jsonl"
        then (open_source cfg.input_file input >>= λ s. ok (file_source s))
        else if cfg.source == codes "ris_live_ws"
        then ok (
            network_source (
              new_source cfg.reconnect_enabled cfg.reconnect_initial_delay_ms
                cfg.reconnect_max_delay_ms cfg.reconnect_max_attempts))
        else err (unsupported_source cfg.source)

    unfoldable pub source_turns : World → BgpSource → List Turn
    source_turns w (file_source s) = file_turns w.ticks s
    source_turns w (network_source s) = w.network_turns

    -- The registry and the state before the loop: those of a snapshot, if there is one to read.
    unfoldable pub load_initial :
        Inet → Config doubles → World → Result (PeerRegistry × RoutingState)
    load_initial i cfg w =
        if not (is_empty cfg.snapshot_input) && w.snapshot_exists
        then (let l =
              load_snapshot i cfg.snapshot_input w.snapshot_file clear_registry clear_state in
            l.outcome >>= λ snapshot_stats. ok (l.registry, l.state))
        else ok (clear_registry, clear_state)

    -- The file of the samples, where they are written.
    unfoldable pub open_stats : Config doubles → World → Result (Option Bytes)
    open_stats cfg w =
        if cfg.stats_output_enabled
        then (open_writer w.stats_path w.stats_opens >>= λ output. ok (some output))
        else ok none

    -- The variables of `main` before the loop; a `time_point` begins at 0.
    unfoldable pub start_ingest : Config doubles → World → PeerRegistry → RoutingState → Ingest fl
    start_ingest cfg w registry state = record {
      peer_registry = registry;
      state = state;
      stats = no_stats;
      growth_stats = seed_from_state fl state (new_tracker fl (plateau_settings cfg) w.started_at);
      next_stats_sample_at =
          if cfg.stats_output_enabled then w.armed_at + cfg.stats_interval_ms else 0;
      written = [];
    }

    -- The sample behind the loop.
    unfoldable pub final_sample : Config doubles → World → Ingest fl → Ingest fl
    final_sample cfg w g =
        if cfg.stats_output_enabled
        then (let sampled = sample_now fl w.final_sampled_at w.final_wall_ms g.growth_stats in
            record g { growth_stats = sampled.0; written = g.written ++ sampled.1 ∷ [] })
        else g

    unfoldable pub plateau_lines : PlateauStatus fl → Bytes
    plateau_lines plateau =
        if plateau.detected
        then codes "plateau_detected=true"
          ++ (10 ∷ codes "plateau_uptime_sec=")
          ++ printing.shown plateau.plateau_uptime_sec
          ++ (10 ∷ codes "plateau_uptime_hms=")
          ++ format_duration_hms fl plateau.plateau_uptime_sec
          ++ 10 ∷ []
        else codes "plateau_detected=false" ++ 10 ∷ []

    -- What stands on the console before the snapshot is saved.
    unfoldable pub summary : World → Ingest fl → Bytes
    summary w g =
        let runtime = runtime_sec fl w.ended_at g.growth_stats in
        print_stats g.stats
        ++ codes "runtime_sec="
        ++ printing.shown runtime
        ++ (10 ∷ codes "runtime_hms=")
        ++ format_duration_hms fl runtime
        ++ 10 ∷ []
        ++ plateau_lines (plateau_status fl g.growth_stats)

    -- The text of the samples' file, with all that is written to it.
    unfoldable pub csv_text : Option Bytes → Ingest fl → Option Bytes
    csv_text none g = none
    csv_text (some output) g = some (write_samples fl printing.fixed g.written output)

    -- `main` behind the loop.
    unfoldable pub finish :
        Inet → Config doubles → World → Option Bytes → Ingest fl → Result Outcome
    finish i cfg w csv ended =
        let g = final_sample cfg w ended in
        save_snapshot i cfg.snapshot_output w.snapshot_opens g.peer_registry g.state >>= λ saved.
        elim (export_tables i g.state) [
          | none ↦ err unprintable_prefix
          | some tables ↦ ok (record {
            ingest = g;
            csv = csv_text csv g;
            snapshot = saved;
            tables = tables;
            console = summary w g ++ codes "Done" ++ 10 ∷ [];
          })
        ]

    -- The `try` block.
    unfoldable pub run_main : Inet → JsonLibrary → World → Result Outcome
    run_main i j w = load_config doubles (codes "config.ini") w.config_file >>= λ cfg.
        load_initial i cfg w >>= λ loaded. open_stats cfg w >>= λ csv.
        create_source cfg w.input_file >>= λ source.
        ingest_loop fl i j (loop_settings cfg) (source_turns w source)
          (start_ingest cfg w loaded.0 loaded.1)
        >>= finish i cfg w csv

    -- The exit code.
    unfoldable pub main : Inet → JsonLibrary → World → ℕ
    main i j w = elim (run_main i j w) [ err e ↦ 1 | ok outcome ↦ 0 ]
