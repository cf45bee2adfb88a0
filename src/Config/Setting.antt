-- ===== src/Config/Setting.antt =====
-- src/config.cpp: the chain of tests in `set_key` against the table of the keys.
use asnprefix_map.Base.{
  ℕ, ◌≡◌, ◌≢◌, refl, sym, ◌∙◌, ap, subst, ◌⊎◌, inl, inr, Bool, false, Bool-cases, List, Bytes,
  bytes_beq, set, Result, ok, err, ◌>>=◌, ◌==◌, ==-iff, bytes_eq,
}
use asnprefix_map.Base.Text.{codes}
use asnprefix_map.Base.Decimal.{stoul}
use asnprefix_map.Config.{Doubles, Config, parse_bool, set_key}
use asnprefix_map.Config.Keys.{
  Key, set_source, set_input_file, set_prefix_output, set_asn_output, set_ris_live_host,
  set_ris_live_port, set_ris_live_target, set_max_messages, set_snapshot_input, set_snapshot_output,
  set_stats_output_enabled, set_stats_interval_ms, set_stop_on_keypress, set_reconnect_enabled,
  set_reconnect_initial_delay_ms, set_reconnect_max_delay_ms, set_reconnect_max_attempts,
  set_plateau_detection_enabled, set_plateau_window_samples, set_plateau_prefix_rate_threshold,
  set_plateau_min_runtime_sec, name, flag, kind, place, find_key, Value, as_number, as_flag,
  as_real, fields, read_value, Sets,
}

module _ (d : Doubles) where
  -- The setting of a value that is read.
  read_and_set :
      {A : Type 0} (r : Result A) (f : A → Config d) (g : A → Value d) (values : A → List (Value d))
      → ((x : A) → fields d (f x) ≡ values x)
      → ((r >>= λ x. ok (f x)) >>= λ c. ok (fields d c)) ≡ (r >>= λ x. ok (values x))
  read_and_set (err e) f g values h = refl
  read_and_set (ok x) f g values h = ap ok (h x)

  regroup :
      {A : Type 0} (r : Result A) (g : A → Value d) (next : Value d → List (Value d))
      → (r >>= λ x. ok (next (g x))) ≡ ((r >>= λ x. ok (g x)) >>= λ v. ok (next v))
  regroup (err e) g next = refl
  regroup (ok x) g next = refl

  module _ (value : Bytes) (cfg : Config d) where
    sets :
        {A : Type 0} (r : Result A) (f : A → Config d) (g : A → Value d) (i : ℕ)
        → ((x : A) → fields d (f x) ≡ set (fields d cfg) i (g x))
        → ((r >>= λ x. ok (f x)) >>= λ c. ok (fields d c))
          ≡ ((r >>= λ x. ok (g x)) >>= λ v. ok (set (fields d cfg) i v))
    sets r f g i h =
        read_and_set r f g (λ x. set (fields d cfg) i (g x)) h ∙ regroup r g (set (fields d cfg) i)

    parse_bool_lem : (parse_bool value >>= λ x. ok (as_flag x)) ≡ read_value d flag value
    unfolding parse_bool read_value
    parse_bool_lem = elim (Bool-cases (bytes_beq value (codes "true"))) [
      | inl t ↦ rw t refl
      | inr f ↦ elim (Bool-cases (bytes_beq value (codes "false"))) [
        | inl t ↦ rw (f, t) refl
        | inr g ↦ rw (f, g) refl
      ]
    ]

    sets_flag :
        (f : Bool → Config d) (i : ℕ)
        → ((x : Bool) → fields d (f x) ≡ set (fields d cfg) i (as_flag x))
        → ((parse_bool value >>= λ x. ok (f x)) >>= λ c. ok (fields d c))
          ≡ (read_value d flag value >>= λ v. ok (set (fields d cfg) i v))
    sets_flag f i h =
        sets (parse_bool value) f as_flag i h
        ∙ ap (λ r. r >>= λ v. ok (set (fields d cfg) i v)) parse_bool_lem

    set_key-name : (k : Key) → Sets d k value cfg (set_key d (name k) value cfg)
    unfolding name kind place fields read_value set_key
    set_key-name set_source = refl
    set_key-name set_input_file = refl
    set_key-name set_prefix_output = refl
    set_key-name set_asn_output = refl
    set_key-name set_ris_live_host = refl
    set_key-name set_ris_live_port = refl
    set_key-name set_ris_live_target = refl
    set_key-name set_max_messages =
        sets (stoul value) (λ x. record cfg { max_messages = x }) as_number 7 (λ x. refl)
    set_key-name set_snapshot_input = refl
    set_key-name set_snapshot_output = refl
    set_key-name set_stats_output_enabled =
        sets_flag (λ x. record cfg { stats_output_enabled = x }) 10 (λ x. refl)
    set_key-name set_stats_interval_ms =
        sets (stoul value) (λ x. record cfg { stats_interval_ms = x }) as_number 11 (λ x. refl)
    set_key-name set_stop_on_keypress =
        sets_flag (λ x. record cfg { stop_on_keypress = x }) 12 (λ x. refl)
    set_key-name set_reconnect_enabled =
        sets_flag (λ x. record cfg { reconnect_enabled = x }) 13 (λ x. refl)
    set_key-name set_reconnect_initial_delay_ms =
        sets (stoul value) (λ x. record cfg { reconnect_initial_delay_ms = x }) as_number 14
          (λ x. refl)
    set_key-name set_reconnect_max_delay_ms =
        sets (stoul value) (λ x. record cfg { reconnect_max_delay_ms = x }) as_number 15 (λ x. refl)
    set_key-name set_reconnect_max_attempts =
        sets (stoul value) (λ x. record cfg { reconnect_max_attempts = x }) as_number 16 (λ x. refl)
    set_key-name set_plateau_detection_enabled =
        sets_flag (λ x. record cfg { plateau_detection_enabled = x }) 17 (λ x. refl)
    set_key-name set_plateau_window_samples =
        sets (stoul value) (λ x. record cfg { plateau_window_samples = x }) as_number 18 (λ x. refl)
    set_key-name set_plateau_prefix_rate_threshold =
        sets (d.stod value) (λ x. record cfg { plateau_prefix_rate_threshold = x }) as_real 19
          (λ x. refl)
    set_key-name set_plateau_min_runtime_sec =
        sets (d.stod value) (λ x. record cfg { plateau_min_runtime_sec = x }) as_real 20 (λ x. refl)

    set_key-unknown : (key : Bytes) → ((k : Key) → key ≢ name k) → set_key d key value cfg ≡ ok cfg
    unfolding set_key name
    set_key-unknown key other =
        let test = λ (k : Key). unequal key (name k) (other k) in
        rw
          (
            test set_source,
            test set_input_file,
            test set_prefix_output,
            test set_asn_output,
            test set_ris_live_host,
            test set_ris_live_port,
            test set_ris_live_target,
            test set_max_messages,
            test set_snapshot_input,
            test set_snapshot_output,
            test set_stats_output_enabled,
            test set_stats_interval_ms,
            test set_stop_on_keypress,
            test set_reconnect_enabled,
            test set_reconnect_initial_delay_ms,
            test set_reconnect_max_delay_ms,
            test set_reconnect_max_attempts,
            test set_plateau_detection_enabled,
            test set_plateau_window_samples,
            test set_plateau_prefix_rate_threshold,
            test set_plateau_min_runtime_sec,
          )
          refl
      where
        unequal : (a b : Bytes) → a ≢ b → (a == b) ≡ false
        unequal a b h = elim (Bool-cases (a == b)) [
          | inl e ↦ absurd (h ((==-iff a b).0 e))
          | inr e ↦ e
        ]

    -- Either the text names a key of the table, and its field is set, or it names none, and nothing is.
    pub set_key_lem :
        (key : Bytes)
        → ((k : Key) × (key ≡ name k) × Sets d k value cfg (set_key d key value cfg))
          ⊎ (((k : Key) → key ≢ name k) × (set_key d key value cfg ≡ ok cfg))
    set_key_lem key = elim (find_key key) [
      | inl (k, same) ↦ inl (
        k,
        same,
        subst (λ t. Sets d k value cfg (set_key d t value cfg)) (sym same) (set_key-name k),
      )
      | inr other ↦ inr (other, set_key-unknown key other)
    ]
