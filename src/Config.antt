-- ===== src/Config.antt =====
-- src/config.h and src/config.cpp: `load_config`. `double` and `std::stod` are parameters, and so are
-- the contents of the file.
pub mod Keys
pub mod Setting
pub mod Lines
mod Tests
use asnprefix_map.Base.{
  ℕ, Bool, true, false, ◌&&◌, ◌||◌, Option, none, some, List, [], ◌∷◌, Bytes, Result, ok, err,
  ◌>>=◌, file_not_opened, invalid_boolean, is_empty, ◌==◌, nat_eq, bytes_eq, if◌then◌else◌,
}
use asnprefix_map.Base.Text.{cut_at, lines, codes}
use asnprefix_map.Base.Decimal.{is_space, skip_spaces, stoul}

-- `double`, `std::stod`, and the literals of the defaults.
pub record Doubles : Type 1 where
  pub Double : Type 0
  pub stod : Bytes → Result Double
  pub five : Double
  pub six_hundred : Double

-- The loop that drops blanks from the back.
unfoldable pub trim_back : Bytes → Bytes
trim_back [] = []
trim_back (c ∷ cs) = let rest = trim_back cs in if is_empty rest && is_space c then [] else c ∷ rest

unfoldable pub trim : Bytes → Bytes
trim value = trim_back (skip_spaces value)

unfoldable pub parse_bool : Bytes → Result Bool
parse_bool value =
    if value == codes "true"
    then ok true
    else if value == codes "false"
    then ok false
    else err (invalid_boolean value)

module _ (d : Doubles) where
  open d use {Double, stod, five, six_hundred}

  pub record Config : Type 0 where
    pub source : Bytes
    pub input_file : Bytes
    pub prefix_output : Bytes
    pub asn_output : Bytes
    pub ris_live_host : Bytes
    pub ris_live_port : Bytes
    pub ris_live_target : Bytes
    pub max_messages : ℕ
    pub snapshot_input : Bytes
    pub snapshot_output : Bytes
    pub stats_output_enabled : Bool
    pub stats_interval_ms : ℕ
    pub stop_on_keypress : Bool
    pub reconnect_enabled : Bool
    pub reconnect_initial_delay_ms : ℕ
    pub reconnect_max_delay_ms : ℕ
    pub reconnect_max_attempts : ℕ
    pub plateau_detection_enabled : Bool
    pub plateau_window_samples : ℕ
    pub plateau_prefix_rate_threshold : Double
    pub plateau_min_runtime_sec : Double

  -- The defaults.
  unfoldable pub default_config : Config
  default_config = record {
    source = codes "file_jsonl";
    input_file = [];
    prefix_output = [];
    asn_output = [];
    ris_live_host = codes "ris-live.ripe.net";
    ris_live_port = codes "443";
    ris_live_target = codes "/v1/ws/";
    max_messages = 0;
    snapshot_input = [];
    snapshot_output = codes "snapshot.txt";
    stats_output_enabled = false;
    stats_interval_ms = 1000;
    stop_on_keypress = false;
    reconnect_enabled = true;
    reconnect_initial_delay_ms = 1000;
    reconnect_max_delay_ms = 30000;
    reconnect_max_attempts = 0;
    plateau_detection_enabled = true;
    plateau_window_samples = 300;
    plateau_prefix_rate_threshold = five;
    plateau_min_runtime_sec = six_hundred;
  }

  -- The keys, in the order of the source's tests; an unknown key changes nothing. `std::stoull` reads
  -- what `std::stoul` does.
  unfoldable pub set_key : Bytes → Bytes → Config → Result Config
  set_key key value cfg =
      if key == codes "source"
      then ok (record cfg { source = value })
      else if key == codes "input_file"
      then ok (record cfg { input_file = value })
      else if key == codes "prefix_output"
      then ok (record cfg { prefix_output = value })
      else if key == codes "asn_output"
      then ok (record cfg { asn_output = value })
      else if key == codes "ris_live_host"
      then ok (record cfg { ris_live_host = value })
      else if key == codes "ris_live_port"
      then ok (record cfg { ris_live_port = value })
      else if key == codes "ris_live_target"
      then ok (record cfg { ris_live_target = value })
      else if key == codes "max_messages"
      then (stoul value >>= λ x. ok (record cfg { max_messages = x }))
      else if key == codes "snapshot_input"
      then ok (record cfg { snapshot_input = value })
      else if key == codes "snapshot_output"
      then ok (record cfg { snapshot_output = value })
      else if key == codes "stats_output_enabled"
      then (parse_bool value >>= λ x. ok (record cfg { stats_output_enabled = x }))
      else if key == codes "stats_interval_ms"
      then (stoul value >>= λ x. ok (record cfg { stats_interval_ms = x }))
      else if key == codes "stop_on_keypress"
      then (parse_bool value >>= λ x. ok (record cfg { stop_on_keypress = x }))
      else if key == codes "reconnect_enabled"
      then (parse_bool value >>= λ x. ok (record cfg { reconnect_enabled = x }))
      else if key == codes "reconnect_initial_delay_ms"
      then (stoul value >>= λ x. ok (record cfg { reconnect_initial_delay_ms = x }))
      else if key == codes "reconnect_max_delay_ms"
      then (stoul value >>= λ x. ok (record cfg { reconnect_max_delay_ms = x }))
      else if key == codes "reconnect_max_attempts"
      then (stoul value >>= λ x. ok (record cfg { reconnect_max_attempts = x }))
      else if key == codes "plateau_detection_enabled"
      then (parse_bool value >>= λ x. ok (record cfg { plateau_detection_enabled = x }))
      else if key == codes "plateau_window_samples"
      then (stoul value >>= λ x. ok (record cfg { plateau_window_samples = x }))
      else if key == codes "plateau_prefix_rate_threshold"
      then (stod value >>= λ x. ok (record cfg { plateau_prefix_rate_threshold = x }))
      else if key == codes "plateau_min_runtime_sec"
      then (stod value >>= λ x. ok (record cfg { plateau_min_runtime_sec = x }))
      else ok cfg

  -- One line.
  unfoldable pub read_line : Bytes → Config → Result Config
  read_line line cfg = elim (trim line) [
    | [] ↦ ok cfg
    | c ∷ cs ↦ if c == b'#' then ok cfg else elim (cut_at b'=' (c ∷ cs)) [
      | none ↦ ok cfg
      | some (before, behind) ↦ set_key (trim before) (trim behind) cfg
    ]
  ]

  -- The loop over the lines.
  unfoldable pub read_lines : List Bytes → Config → Result Config
  read_lines [] cfg = ok cfg
  read_lines (line ∷ rest) cfg = read_line line cfg >>= read_lines rest

  unfoldable pub load_config : Bytes → Option Bytes → Result Config
  load_config path none = err (file_not_opened path)
  load_config path (some contents) = read_lines (lines contents) default_config
