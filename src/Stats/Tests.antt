-- ===== src/Stats/Tests.antt =====
-- Whole numbers for `double`: two samples a second apart, with an announce before the first.
use asnprefix_map.Base.{
  ℕ, ◌+◌, ◌-◌, ◌/◌, ◌≤◌, ◌≡◌, refl, true, false, ◌||◌, List, [], ◌∷◌, ◌++◌, arith, bit, ltb, leb,
}
use asnprefix_map.Prefix.{BinaryPrefix, v4, v4_eq, binary_eq}
use asnprefix_map.Stats.{
  Floats, PlateauSettings, GrowthStatsTracker, member, insert, new_tracker, total_prefixes,
  on_announce, see_asn, see_prefix, take_sample, update_plateau, push_rate, drop_old_rates,
  detect_plateau, rate, sample_now,
}
use asnprefix_map.Base.{map, refl, Bytes, nat_eq}
use asnprefix_map.Base.Text.{codes, lines, split_on}
use asnprefix_map.Base.Decimal.{to_string, to_string-free}
use asnprefix_map.Stats.{GrowthSample}
use asnprefix_map.Stats.Csv.{
  csv_header, open_writer, column_names, sample_fields, write_samples, write_samples_lem,
}
use asnprefix_map.Stats.History.{TrackerCall, announces, samples, step, run, trace}
use asnprefix_map.Stats.Window.{reports, rates, last_of, plateau_reported_once, window_lem}
use asnprefix_map.Stats.Seen.{has_seen, names_prefix, run-has_seen}
use asnprefix_map.Stats.Growth.{IsTracked, Fits64, new_asns, new_prefixes, new_counts_lem}

abbrev pub whole : Floats
whole = record {
  Double = ℕ;
  zero_point = 0;
  add = λ a b. a + b;
  sub = λ a b. a - b;
  div = λ a b. a / b;
  of_size = λ n. n;
  lt = ltb;
  le = leb;
  seconds = λ a b. (b - a) / 1000;
  floor = λ n. n;
}

abbrev pub eight : BinaryPrefix
eight = v4 (record { network = 134217728; length = 8 })

abbrev pub settings : PlateauSettings whole
settings = record {
  enabled = true;
  window_samples = 1;
  prefix_rate_threshold = 5;
  min_runtime_sec = 1;
}

abbrev calls : List TrackerCall
calls = announces 100 eight ∷ samples 1000 1 ∷ samples 2000 2 ∷ []

abbrev start : GrowthStatsTracker whole
start = new_tracker whole settings 0

plateau_reported_once_example :
    (reports whole (trace whole calls start) ≤ 1)
    × (start.plateau_detected ≡ true → reports whole (trace whole calls start) ≡ 0)
    × (start.plateau_detected ≡ false
        → reports whole (trace whole calls start) ≡ bit (run whole calls start).plateau_detected)
plateau_reported_once_example = plateau_reported_once whole calls start

window_lem_example :
    (run whole calls start).recent_prefix_rates
    ≡ last_of 1 (start.recent_prefix_rates ++ rates whole (trace whole calls start))
unfolding new_tracker
window_lem_example = window_lem whole calls start refl (omega arith)

run-has_seen_example :
    has_seen whole (run whole calls start) eight
    ≡ (has_seen whole start eight || names_prefix whole calls eight)
run-has_seen_example = run-has_seen whole calls eight start

start-IsTracked : IsTracked whole start
unfolding new_tracker
start-IsTracked = record { asns = omega arith; prefixes = omega arith }

calls-Fits64 : Fits64 whole (run whole calls start)
unfolding new_tracker run step on_announce see_asn see_prefix insert member sample_now
    update_plateau push_rate drop_old_rates detect_plateau take_sample total_prefixes rate
calls-Fits64 = record { asns = omega arith; prefixes = omega arith }

new_counts_lem_example :
    ((run whole calls start).last_sample_asn_count
      ≡ start.last_sample_asn_count + new_asns whole (trace whole calls start))
    × ((run whole calls start).last_sample_prefix_count
        ≡ start.last_sample_prefix_count + new_prefixes whole (trace whole calls start))
    × IsTracked whole (run whole calls start)
new_counts_lem_example = new_counts_lem whole calls start start-IsTracked calls-Fits64

-- A file with one sample.
abbrev pub fixed : ℕ → ℕ → Bytes
fixed digits x = to_string x

abbrev output : Bytes
output = csv_header ++ 10 ∷ []

abbrev written : List (GrowthSample whole)
written = (sample_now whole 1000 1 start).1 ∷ []

write_samples_lem_example :
    map (split_on 44) (lines (write_samples whole fixed written output))
    ≡ column_names whole fixed ∷ map (sample_fields whole fixed) written
unfolding open_writer
write_samples_lem_example =
    write_samples_lem whole fixed (λ digits x. to_string-free 44 x refl)
      (λ digits x. to_string-free 10 x refl) (codes "stats.csv") output written refl
