-- ===== src/Stats.antt =====
-- src/stats/growth_stats.h and src/stats/growth_stats.cpp: `GrowthStatsTracker`. Floating point and
-- the distance of two time points are parameters; the clocks' readings are arguments of the calls
-- that read them. `StatsCsvWriter` is in Stats/Csv.
pub mod History
pub mod Seen
pub mod Growth
pub mod Window
pub mod Csv
pub mod Tests
use asnprefix_map.Base.{
  ℕ, zero, suc, ◌+◌, ◌-◌, ◌*◌, ◌/◌, ◌%◌, ◌^◌, Bool, true, false, not, ◌&&◌, ◌||◌, Option, none,
  some, List, [], ◌∷◌, ◌++◌, Eq, ◌==◌, nat_eq, if◌then◌else◌, length, ltb, Bytes,
}
use asnprefix_map.Base.Decimal.{to_string}
use asnprefix_map.Prefix.{PrefixV4, PrefixV6, BinaryPrefix, v4, v6, v4_eq, v6_eq}
use asnprefix_map.Routing.State.{
  RoutingState, StoredObservation, stored_observations, active_prefixes_v4_count,
  active_prefixes_v6_count,
}

-- `double`, its operations, and the seconds between two readings of `steady_clock`.
pub record Floats : Type 1 where
  pub Double : Type 0
  pub zero_point : Double
  pub add : Double → Double → Double
  pub sub : Double → Double → Double
  pub div : Double → Double → Double
  pub of_size : ℕ → Double
  pub lt : Double → Double → Bool
  pub le : Double → Double → Bool
  pub seconds : ℕ → ℕ → Double
  -- `static_cast<long long>(std::floor(x))` of a number that is not negative.
  pub floor : Double → ℕ

-- `std::unordered_set`: `insert`.
module _ {ℓ} {A : Type ℓ} ⦃e : Eq A⦄ where
  unfoldable pub member : A → List A → Bool
  member a [] = false
  member a (x ∷ xs) = x == a || member a xs

  unfoldable pub insert : A → List A → List A
  insert a xs = if member a xs then xs else a ∷ xs

-- `+ 1` and `+ n` on a `std::size_t`, and `a - b`.
abbrev pub add64 : ℕ → ℕ → ℕ
add64 a b = (a + b) % 2 ^ 64

abbrev pub sub64 : ℕ → ℕ → ℕ
sub64 a b = (a + 2 ^ 64 - b) % 2 ^ 64

module _ (fl : Floats) where
  open fl use {Double, zero_point, add, sub, div, of_size, lt, le, seconds, floor}

  pub record GrowthSample : Type 0 where
    pub timestamp_ms : ℕ
    pub uptime_sec : Double
    pub total_unique_asns_ever_seen : ℕ
    pub total_unique_prefixes_ever_seen : ℕ
    pub total_active_prefixes_v4 : ℕ
    pub total_active_prefixes_v6 : ℕ
    pub total_active_prefixes : ℕ
    pub new_asns_in_interval : ℕ
    pub new_prefixes_in_interval : ℕ
    pub new_asns_per_sec : Double
    pub new_prefixes_per_sec : Double
    pub raw_messages_received : ℕ
    pub parsed_events_total : ℕ
    pub announces_applied : ℕ
    pub withdraws_applied : ℕ

  pub record PlateauSettings : Type 0 where
    pub enabled : Bool
    pub window_samples : ℕ
    pub prefix_rate_threshold : Double
    pub min_runtime_sec : Double

  pub record PlateauStatus : Type 0 where
    pub detected : Bool
    pub detected_on_this_sample : Bool
    pub plateau_uptime_sec : Double

  pub record GrowthStatsTracker : Type 0 where
    pub plateau_settings : PlateauSettings
    pub ever_seen_asns : List ℕ
    pub ever_seen_prefixes_v4 : List PrefixV4
    pub ever_seen_prefixes_v6 : List PrefixV6
    pub raw_messages_received : ℕ
    pub parsed_events_total : ℕ
    pub announces_applied : ℕ
    pub withdraws_applied : ℕ
    pub active_prefixes_v4 : ℕ
    pub active_prefixes_v6 : ℕ
    pub last_sample_asn_count : ℕ
    pub last_sample_prefix_count : ℕ
    pub started_at : ℕ
    pub last_sample_at : ℕ
    pub recent_prefix_rates : List Double
    pub recent_prefix_rate_sum : Double
    pub plateau_detected : Bool
    pub plateau_uptime_sec : Double
    pub plateau_detected_on_last_sample : Bool

  -- The constructor, at `now`.
  unfoldable pub new_tracker : PlateauSettings → ℕ → GrowthStatsTracker
  new_tracker settings now = record {
    plateau_settings = settings;
    ever_seen_asns = [];
    ever_seen_prefixes_v4 = [];
    ever_seen_prefixes_v6 = [];
    raw_messages_received = 0;
    parsed_events_total = 0;
    announces_applied = 0;
    withdraws_applied = 0;
    active_prefixes_v4 = 0;
    active_prefixes_v6 = 0;
    last_sample_asn_count = 0;
    last_sample_prefix_count = 0;
    started_at = now;
    last_sample_at = now;
    recent_prefix_rates = [];
    recent_prefix_rate_sum = zero_point;
    plateau_detected = false;
    plateau_uptime_sec = zero_point;
    plateau_detected_on_last_sample = false;
  }

  -- The two `insert` calls of the visitor.
  unfoldable pub see_prefix : BinaryPrefix → GrowthStatsTracker → GrowthStatsTracker
  see_prefix (v4 prefix) t = record t {
    ever_seen_prefixes_v4 = insert prefix t.ever_seen_prefixes_v4;
  }
  see_prefix (v6 prefix) t = record t {
    ever_seen_prefixes_v6 = insert prefix t.ever_seen_prefixes_v6;
  }

  unfoldable pub see_asn : ℕ → GrowthStatsTracker → GrowthStatsTracker
  see_asn asn t = record t { ever_seen_asns = insert asn t.ever_seen_asns }

  -- The loop of `seed_from_state`.
  unfoldable pub seed_all : List StoredObservation → GrowthStatsTracker → GrowthStatsTracker
  seed_all [] t = t
  seed_all (stored ∷ rest) t =
      seed_all rest (see_prefix stored.prefix (see_asn stored.observation.origin_asn t))

  unfoldable pub total_prefixes : GrowthStatsTracker → ℕ
  total_prefixes t = add64 (length t.ever_seen_prefixes_v4) (length t.ever_seen_prefixes_v6)

  unfoldable pub seed_from_state : RoutingState → GrowthStatsTracker → GrowthStatsTracker
  seed_from_state state t =
      let seeded = seed_all (stored_observations state) t in
      record seeded {
        active_prefixes_v4 = active_prefixes_v4_count state;
        active_prefixes_v6 = active_prefixes_v6_count state;
        last_sample_asn_count = length seeded.ever_seen_asns;
        last_sample_prefix_count = total_prefixes seeded;
      }

  unfoldable pub on_message_received : GrowthStatsTracker → GrowthStatsTracker
  on_message_received t = record t { raw_messages_received = add64 t.raw_messages_received 1 }

  unfoldable pub on_parsed_events : ℕ → GrowthStatsTracker → GrowthStatsTracker
  on_parsed_events n t = record t { parsed_events_total = add64 t.parsed_events_total n }

  -- The two overloads.
  unfoldable pub on_announce : ℕ → BinaryPrefix → GrowthStatsTracker → GrowthStatsTracker
  on_announce asn prefix t =
      let seen = see_prefix prefix (see_asn asn t) in
      record seen { announces_applied = add64 seen.announces_applied 1 }

  unfoldable pub on_withdraw : BinaryPrefix → GrowthStatsTracker → GrowthStatsTracker
  on_withdraw prefix t =
      let seen = see_prefix prefix t in
      record seen { withdraws_applied = add64 seen.withdraws_applied 1 }

  unfoldable pub set_active_prefix_counts : ℕ → ℕ → GrowthStatsTracker → GrowthStatsTracker
  set_active_prefix_counts active_v4 active_v6 t = record t {
    active_prefixes_v4 = active_v4;
    active_prefixes_v6 = active_v6;
  }

  -- A count over an interval, as a rate.
  unfoldable pub rate : ℕ → Double → Double
  rate n interval_sec =
      if lt zero_point interval_sec then div (of_size n) interval_sec else zero_point

  -- The sample, before the plateau is looked at.
  unfoldable pub take_sample : ℕ → ℕ → GrowthStatsTracker → GrowthSample
  take_sample now now_ms t =
      let interval_sec = seconds t.last_sample_at now in
      let new_asns = sub64 (length t.ever_seen_asns) t.last_sample_asn_count in
      let new_prefixes = sub64 (total_prefixes t) t.last_sample_prefix_count in
      record {
        timestamp_ms = now_ms;
        uptime_sec = seconds t.started_at now;
        total_unique_asns_ever_seen = length t.ever_seen_asns;
        total_unique_prefixes_ever_seen = total_prefixes t;
        total_active_prefixes_v4 = t.active_prefixes_v4;
        total_active_prefixes_v6 = t.active_prefixes_v6;
        total_active_prefixes = add64 t.active_prefixes_v4 t.active_prefixes_v6;
        new_asns_in_interval = new_asns;
        new_prefixes_in_interval = new_prefixes;
        new_asns_per_sec = rate new_asns interval_sec;
        new_prefixes_per_sec = rate new_prefixes interval_sec;
        raw_messages_received = t.raw_messages_received;
        parsed_events_total = t.parsed_events_total;
        announces_applied = t.announces_applied;
        withdraws_applied = t.withdraws_applied;
      }

  -- The loop that drops the oldest rates, front first, while more than `window` are left.
  unfoldable pub drop_old_rates : ℕ → List Double → Double → List Double × Double
  drop_old_rates window [] sum = ([], sum)
  drop_old_rates window (oldest ∷ rates) sum =
      let dropped = drop_old_rates window rates (sub sum oldest) in
      if ltb window (length (oldest ∷ rates)) then dropped else (oldest ∷ rates, sum)

  unfoldable pub push_rate : Double → GrowthStatsTracker → GrowthStatsTracker
  push_rate new_rate t =
      let kept =
        drop_old_rates t.plateau_settings.window_samples (t.recent_prefix_rates ++ new_rate ∷ [])
          (add t.recent_prefix_rate_sum new_rate) in
      record t { recent_prefix_rates = kept.0; recent_prefix_rate_sum = kept.1 }

  -- The test behind the loop, and what it sets.
  unfoldable pub detect_plateau : Double → GrowthStatsTracker → GrowthStatsTracker
  detect_plateau uptime_sec t =
      let count = length t.recent_prefix_rates in
      let average_rate = div t.recent_prefix_rate_sum (of_size count) in
      if not t.plateau_detected
        && (count == t.plateau_settings.window_samples
            && (le t.plateau_settings.min_runtime_sec uptime_sec
                && lt average_rate t.plateau_settings.prefix_rate_threshold))
      then record t {
        plateau_detected = true;
        plateau_uptime_sec = uptime_sec;
        plateau_detected_on_last_sample = true;
      }
      else t

  unfoldable pub update_plateau : GrowthSample → GrowthStatsTracker → GrowthStatsTracker
  update_plateau sample t =
      let cleared = record t { plateau_detected_on_last_sample = false } in
      if t.plateau_settings.enabled && ltb 0 t.plateau_settings.window_samples
      then detect_plateau sample.uptime_sec (push_rate sample.new_prefixes_per_sec cleared)
      else cleared

  unfoldable pub sample_now : ℕ → ℕ → GrowthStatsTracker → GrowthStatsTracker × GrowthSample
  sample_now now now_ms t =
      let sample = take_sample now now_ms t in
      (
        record (update_plateau sample t) {
          last_sample_asn_count = sample.total_unique_asns_ever_seen;
          last_sample_prefix_count = sample.total_unique_prefixes_ever_seen;
          last_sample_at = now;
        },
        sample,
      )

  unfoldable pub plateau_status : GrowthStatsTracker → PlateauStatus
  plateau_status t = record {
    detected = t.plateau_detected;
    detected_on_this_sample = t.plateau_detected_on_last_sample;
    plateau_uptime_sec = t.plateau_uptime_sec;
  }

  unfoldable pub runtime_sec : ℕ → GrowthStatsTracker → Double
  runtime_sec now t = seconds t.started_at now

  -- `setw(2)` with `setfill('0')`.
  unfoldable pub two_digits : ℕ → Bytes
  two_digits n = if ltb n 10 then b'0' ∷ to_string n else to_string n

  unfoldable pub format_duration_hms : Double → Bytes
  format_duration_hms total_seconds =
      let seconds' = floor total_seconds in
      let hours = seconds' / 3600 in
      let minutes = (seconds' % 3600) / 60 in
      let secs = seconds' % 60 in
      two_digits hours ++ (b':' ∷ (two_digits minutes ++ (b':' ∷ two_digits secs)))
