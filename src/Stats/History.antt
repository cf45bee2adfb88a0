-- ===== src/Stats/History.antt =====
-- src/stats/growth_stats.cpp: any sequence of calls on a `GrowthStatsTracker`, with the samples that
-- it takes.
use asnprefix_map.Base.{ℕ, Bool, List, [], ◌∷◌, ◌++◌}
use asnprefix_map.Prefix.{BinaryPrefix}
use asnprefix_map.Stats.{
  Floats, GrowthSample, GrowthStatsTracker, on_message_received, on_parsed_events, on_announce,
  on_withdraw, set_active_prefix_counts, sample_now, plateau_status,
}

pub data TrackerCall : Type 0 where
  receives : TrackerCall
  parses : ℕ → TrackerCall
  announces : ℕ → BinaryPrefix → TrackerCall
  withdraws : BinaryPrefix → TrackerCall
  activates : ℕ → ℕ → TrackerCall
  samples : ℕ → ℕ → TrackerCall

module _ (fl : Floats) where
  unfoldable pub step : TrackerCall → GrowthStatsTracker fl → GrowthStatsTracker fl
  step receives t = on_message_received fl t
  step (parses n) t = on_parsed_events fl n t
  step (announces asn prefix) t = on_announce fl asn prefix t
  step (withdraws prefix) t = on_withdraw fl prefix t
  step (activates active_v4 active_v6) t = set_active_prefix_counts fl active_v4 active_v6 t
  step (samples now now_ms) t = (sample_now fl now now_ms t).0

  unfoldable pub run : List TrackerCall → GrowthStatsTracker fl → GrowthStatsTracker fl
  run [] t = t
  run (c ∷ cs) t = run cs (step c t)

  -- The sample that a call takes, with `detected_on_this_sample` behind it.
  unfoldable pub sampled : TrackerCall → GrowthStatsTracker fl → List (GrowthSample fl × Bool)
  sampled (samples now now_ms) t =
      let (t', sample) = sample_now fl now now_ms t in
      (sample, (plateau_status fl t').detected_on_this_sample) ∷ []
  sampled receives t = []
  sampled (parses n) t = []
  sampled (announces asn prefix) t = []
  sampled (withdraws prefix) t = []
  sampled (activates active_v4 active_v6) t = []

  unfoldable pub trace : List TrackerCall → GrowthStatsTracker fl → List (GrowthSample fl × Bool)
  trace [] t = []
  trace (c ∷ cs) t = sampled c t ++ trace cs (step c t)
