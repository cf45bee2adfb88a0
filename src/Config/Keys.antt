-- ===== src/Config/Keys.antt =====
-- src/config.cpp: the keys of the configuration as a table: their names, the kinds of their values and
-- the fields that they set.
use asnprefix_map.Base.{
  ℕ, zero, suc, ◌≡◌, ◌≢◌, refl, sym, ◌∙◌, ap, ◌⊎◌, inl, inr, Bool, true, false, Bool-cases, some,
  List, [], ◌∷◌, Bytes, bytes_beq, get_elem?, set, Result, ok, err, invalid_boolean, ◌>>=◌, ◌==◌,
  ==-iff, bytes_eq, if◌then◌else◌,
}
use asnprefix_map.Base.Text.{codes}
use asnprefix_map.Base.Decimal.{stoul}
use asnprefix_map.Config.{Doubles, Config}

pub data Key : Type 0 where
  set_source set_input_file set_prefix_output set_asn_output set_ris_live_host : Key
  set_ris_live_port set_ris_live_target set_max_messages set_snapshot_input : Key
  set_snapshot_output set_stats_output_enabled set_stats_interval_ms set_stop_on_keypress : Key
  set_reconnect_enabled set_reconnect_initial_delay_ms set_reconnect_max_delay_ms : Key
  set_reconnect_max_attempts set_plateau_detection_enabled set_plateau_window_samples : Key
  set_plateau_prefix_rate_threshold set_plateau_min_runtime_sec : Key

-- The name of a key in a line of the file.
unfoldable pub name : Key → Bytes
name set_source = codes "source"
name set_input_file = codes "input_file"
name set_prefix_output = codes "prefix_output"
name set_asn_output = codes "asn_output"
name set_ris_live_host = codes "ris_live_host"
name set_ris_live_port = codes "ris_live_port"
name set_ris_live_target = codes "ris_live_target"
name set_max_messages = codes "max_messages"
name set_snapshot_input = codes "snapshot_input"
name set_snapshot_output = codes "snapshot_output"
name set_stats_output_enabled = codes "stats_output_enabled"
name set_stats_interval_ms = codes "stats_interval_ms"
name set_stop_on_keypress = codes "stop_on_keypress"
name set_reconnect_enabled = codes "reconnect_enabled"
name set_reconnect_initial_delay_ms = codes "reconnect_initial_delay_ms"
name set_reconnect_max_delay_ms = codes "reconnect_max_delay_ms"
name set_reconnect_max_attempts = codes "reconnect_max_attempts"
name set_plateau_detection_enabled = codes "plateau_detection_enabled"
name set_plateau_window_samples = codes "plateau_window_samples"
name set_plateau_prefix_rate_threshold = codes "plateau_prefix_rate_threshold"
name set_plateau_min_runtime_sec = codes "plateau_min_runtime_sec"

-- How the text of a value is read.
pub data Kind : Type 0 where
  text number flag real : Kind

unfoldable pub kind : Key → Kind
kind set_source = text
kind set_input_file = text
kind set_prefix_output = text
kind set_asn_output = text
kind set_ris_live_host = text
kind set_ris_live_port = text
kind set_ris_live_target = text
kind set_max_messages = number
kind set_snapshot_input = text
kind set_snapshot_output = text
kind set_stats_output_enabled = flag
kind set_stats_interval_ms = number
kind set_stop_on_keypress = flag
kind set_reconnect_enabled = flag
kind set_reconnect_initial_delay_ms = number
kind set_reconnect_max_delay_ms = number
kind set_reconnect_max_attempts = number
kind set_plateau_detection_enabled = flag
kind set_plateau_window_samples = number
kind set_plateau_prefix_rate_threshold = real
kind set_plateau_min_runtime_sec = real

-- The place of the field that a key sets, among the fields.
unfoldable pub place : Key → ℕ
place set_source = 0
place set_input_file = 1
place set_prefix_output = 2
place set_asn_output = 3
place set_ris_live_host = 4
place set_ris_live_port = 5
place set_ris_live_target = 6
place set_max_messages = 7
place set_snapshot_input = 8
place set_snapshot_output = 9
place set_stats_output_enabled = 10
place set_stats_interval_ms = 11
place set_stop_on_keypress = 12
place set_reconnect_enabled = 13
place set_reconnect_initial_delay_ms = 14
place set_reconnect_max_delay_ms = 15
place set_reconnect_max_attempts = 16
place set_plateau_detection_enabled = 17
place set_plateau_window_samples = 18
place set_plateau_prefix_rate_threshold = 19
place set_plateau_min_runtime_sec = 20

all_keys : List Key
all_keys =
    set_source ∷ set_input_file ∷ set_prefix_output ∷ set_asn_output ∷ set_ris_live_host
    ∷ set_ris_live_port ∷ set_ris_live_target ∷ set_max_messages ∷ set_snapshot_input
    ∷ set_snapshot_output ∷ set_stats_output_enabled ∷ set_stats_interval_ms ∷ set_stop_on_keypress
    ∷ set_reconnect_enabled ∷ set_reconnect_initial_delay_ms ∷ set_reconnect_max_delay_ms
    ∷ set_reconnect_max_attempts ∷ set_plateau_detection_enabled ∷ set_plateau_window_samples
    ∷ set_plateau_prefix_rate_threshold ∷ set_plateau_min_runtime_sec ∷ []

all_keys-place : (k : Key) → get_elem? all_keys (place k) ≡ some k
unfolding all_keys place
all_keys-place set_source = refl
all_keys-place set_input_file = refl
all_keys-place set_prefix_output = refl
all_keys-place set_asn_output = refl
all_keys-place set_ris_live_host = refl
all_keys-place set_ris_live_port = refl
all_keys-place set_ris_live_target = refl
all_keys-place set_max_messages = refl
all_keys-place set_snapshot_input = refl
all_keys-place set_snapshot_output = refl
all_keys-place set_stats_output_enabled = refl
all_keys-place set_stats_interval_ms = refl
all_keys-place set_stop_on_keypress = refl
all_keys-place set_reconnect_enabled = refl
all_keys-place set_reconnect_initial_delay_ms = refl
all_keys-place set_reconnect_max_delay_ms = refl
all_keys-place set_reconnect_max_attempts = refl
all_keys-place set_plateau_detection_enabled = refl
all_keys-place set_plateau_window_samples = refl
all_keys-place set_plateau_prefix_rate_threshold = refl
all_keys-place set_plateau_min_runtime_sec = refl

-- A text is the name of a key, or of none.
search_keys :
    (key : Bytes) (ks : List Key)
    → ((k : Key) × (key ≡ name k)) ⊎ ((i : ℕ) (k : Key) → get_elem? ks i ≡ some k → key ≢ name k)
search_keys key [] = inr (λ i k h. cc)
search_keys key (k ∷ ks) = elim (Bool-cases (key == name k)) [
  | inl same ↦ inl (k, (==-iff key (name k)).0 same)
  | inr other ↦ elim (search_keys key ks) [
    | inl found ↦ inl found
    | inr later ↦ inr (not_here k ks (λ e. differ ((==-iff key (name k)).1 e) other) later)
  ]
]
  where
    differ : {b : Bool} → b ≡ true → b ≡ false → ⊥
    differ p q = cc

    not_here :
        (k : Key) (ks : List Key)
        → key ≢ name k
        → ((i : ℕ) (j : Key) → get_elem? ks i ≡ some j → key ≢ name j)
        → (i : ℕ) (j : Key) → get_elem? (k ∷ ks) i ≡ some j
        → key ≢ name j
    not_here k ks here later zero j h e = let same : k ≡ j = cc in here (e ∙ ap name (sym same))
    not_here k ks here later (suc i) j h e = later i j h e

pub find_key : (key : Bytes) → ((k : Key) × (key ≡ name k)) ⊎ ((k : Key) → key ≢ name k)
find_key key = elim (search_keys key all_keys) [
  | inl found ↦ inl found
  | inr nowhere ↦ inr (λ k. nowhere (place k) k (all_keys-place k))
]

module _ (d : Doubles) where
  pub data Value : Type 0 where
    as_text : Bytes → Value
    as_number : ℕ → Value
    as_flag : Bool → Value
    as_real : d.Double → Value

  unfoldable pub fields : Config d → List Value
  fields cfg =
      as_text cfg.source
      ∷ as_text cfg.input_file
      ∷ as_text cfg.prefix_output
      ∷ as_text cfg.asn_output
      ∷ as_text cfg.ris_live_host
      ∷ as_text cfg.ris_live_port
      ∷ as_text cfg.ris_live_target
      ∷ as_number cfg.max_messages
      ∷ as_text cfg.snapshot_input
      ∷ as_text cfg.snapshot_output
      ∷ as_flag cfg.stats_output_enabled
      ∷ as_number cfg.stats_interval_ms
      ∷ as_flag cfg.stop_on_keypress
      ∷ as_flag cfg.reconnect_enabled
      ∷ as_number cfg.reconnect_initial_delay_ms
      ∷ as_number cfg.reconnect_max_delay_ms
      ∷ as_number cfg.reconnect_max_attempts
      ∷ as_flag cfg.plateau_detection_enabled
      ∷ as_number cfg.plateau_window_samples
      ∷ as_real cfg.plateau_prefix_rate_threshold
      ∷ as_real cfg.plateau_min_runtime_sec
      ∷ []

  -- A value as its kind is read; the exceptions are those of the readers.
  unfoldable pub read_value : Kind → Bytes → Result Value
  read_value text value = ok (as_text value)
  read_value number value = stoul value >>= λ x. ok (as_number x)
  read_value flag value =
      if bytes_beq value (codes "true")
      then ok (as_flag true)
      else if bytes_beq value (codes "false")
      then ok (as_flag false)
      else err (invalid_boolean value)
  read_value real value = d.stod value >>= λ x. ok (as_real x)

  -- A result stands for the setting of a key: the fields are those of `cfg` with the value in the
  -- key's place.
  abbrev pub Sets : Key → Bytes → Config d → Result (Config d) → Type 0
  Sets k value cfg r =
      (r >>= λ c. ok (fields c))
      ≡ (read_value (kind k) value >>= λ v. ok (set (fields cfg) (place k) v))
