-- ===== src/Stats/Growth.antt =====
-- src/stats/growth_stats.cpp: the counts of what is new in an interval, over a sequence of calls.
use asnprefix_map.Base.{
  ℕ, ◌+◌, ◌^◌, ◌<◌, ◌≤◌, ◌≡◌, ap, Bool, List, [], ◌∷◌, ◌++◌, arith, length, nat_eq,
}
use asnprefix_map.Prefix.{BinaryPrefix, PrefixV4, PrefixV6, v4, v6, v4_eq, v6_eq, binary_eq}
use asnprefix_map.Stats.{
  Floats, GrowthSample, GrowthStatsTracker, total_prefixes, on_message_received, on_parsed_events,
  see_prefix, see_asn, on_announce, on_withdraw, set_active_prefix_counts, take_sample, sample_now,
}
use asnprefix_map.Stats.History.{
  TrackerCall, receives, parses, announces, withdraws, activates, samples, step, sampled, run,
  trace,
}
use asnprefix_map.Stats.Seen.{length-insert, update_keeps}

module _ (fl : Floats) where
  -- The counts of the last sample are not above the sets' sizes.
  pub record IsTracked (t : GrowthStatsTracker fl) : Type 0 where
    pub asns : t.last_sample_asn_count ≤ length t.ever_seen_asns
    pub prefixes :
        t.last_sample_prefix_count ≤ length t.ever_seen_prefixes_v4 + length t.ever_seen_prefixes_v6

  -- The sets' sizes fit in a `std::size_t`.
  pub record Fits64 (t : GrowthStatsTracker fl) : Type 0 where
    pub asns : length t.ever_seen_asns < 2 ^ 64
    pub prefixes : length t.ever_seen_prefixes_v4 + length t.ever_seen_prefixes_v6 < 2 ^ 64

  -- How a call changes the sets and the counts of the last sample.
  record Grows (t u : GrowthStatsTracker fl) (asns prefixes : ℕ) : Type 0 where
    asns_le : length t.ever_seen_asns ≤ length u.ever_seen_asns
    v4_le : length t.ever_seen_prefixes_v4 ≤ length u.ever_seen_prefixes_v4
    v6_le : length t.ever_seen_prefixes_v6 ≤ length u.ever_seen_prefixes_v6
    new_asns : u.last_sample_asn_count ≡ t.last_sample_asn_count + asns
    new_prefixes : u.last_sample_prefix_count ≡ t.last_sample_prefix_count + prefixes
    tracked : IsTracked u

  abbrev pub new_asns : List (GrowthSample fl × Bool) → ℕ
  new_asns [] = 0
  new_asns ((s, d) ∷ ss) = s.new_asns_in_interval + new_asns ss

  abbrev pub new_prefixes : List (GrowthSample fl × Bool) → ℕ
  new_prefixes [] = 0
  new_prefixes ((s, d) ∷ ss) = s.new_prefixes_in_interval + new_prefixes ss

  see_prefix-Grows :
      (prefix : BinaryPrefix) (t : GrowthStatsTracker fl)
      → IsTracked t
      → Grows t (see_prefix fl prefix t) 0 0
  unfolding see_prefix
  see_prefix-Grows (v4 p) t h = ground (arith, length-insert p t.ever_seen_prefixes_v4)
  see_prefix-Grows (v6 p) t h = ground (arith, length-insert p t.ever_seen_prefixes_v6)

  see_asn-IsTracked :
      (asn : ℕ) (t : GrowthStatsTracker fl) → IsTracked t → IsTracked (see_asn fl asn t)
  unfolding see_asn
  see_asn-IsTracked asn t h = ground (arith, length-insert asn t.ever_seen_asns)

  sample-Grows :
      (now now_ms : ℕ) (t : GrowthStatsTracker fl)
      → IsTracked t
      → Fits64 t
      → Grows t
          (sample_now fl now now_ms t).0
          (sample_now fl now now_ms t).1.new_asns_in_interval
          (sample_now fl now now_ms t).1.new_prefixes_in_interval
  unfolding sample_now take_sample total_prefixes
  sample-Grows now now_ms t h f =
      let kept = update_keeps fl (take_sample fl now now_ms t) t in
      let asns = ap (λ (xs : List ℕ). length xs) kept.0 in
      let v4s = ap (λ (xs : List PrefixV4). length xs) kept.1 in
      let v6s = ap (λ (xs : List PrefixV6). length xs) kept.2 in
      record {
        asns_le = omega (arith, asns);
        v4_le = omega (arith, v4s);
        v6_le = omega (arith, v6s);
        new_asns = omega (arith, f.asns, h.asns);
        new_prefixes = omega (arith, f.prefixes, h.prefixes);
        tracked = record {
          asns = omega (arith, asns);
          prefixes = omega (arith, v4s, v6s, f.prefixes);
        };
      }

  step-Grows :
      (c : TrackerCall) (t : GrowthStatsTracker fl)
      → IsTracked t
      → Fits64 t
      → Grows t (step fl c t) (new_asns (sampled fl c t)) (new_prefixes (sampled fl c t))
  unfolding step sampled on_message_received on_parsed_events on_announce on_withdraw see_asn
      set_active_prefix_counts
  step-Grows receives t h f = ground arith
  step-Grows (parses n) t h f = ground arith
  step-Grows (announces asn p) t h f = ground (
    arith,
    length-insert asn t.ever_seen_asns,
    see_prefix-Grows p (see_asn fl asn t) (see_asn-IsTracked asn t h),
  )
  step-Grows (withdraws p) t h f = ground (arith, see_prefix-Grows p t h)
  step-Grows (activates a b) t h f = ground arith
  step-Grows (samples now now_ms) t h f = let g = sample-Grows now now_ms t h f in ground (arith, g)

  record Larger (t u : GrowthStatsTracker fl) : Type 0 where
    asns : length t.ever_seen_asns ≤ length u.ever_seen_asns
    v4s : length t.ever_seen_prefixes_v4 ≤ length u.ever_seen_prefixes_v4
    v6s : length t.ever_seen_prefixes_v6 ≤ length u.ever_seen_prefixes_v6

  see_prefix-Larger :
      (prefix : BinaryPrefix) (t : GrowthStatsTracker fl) → Larger t (see_prefix fl prefix t)
  unfolding see_prefix
  see_prefix-Larger (v4 p) t = ground (arith, length-insert p t.ever_seen_prefixes_v4)
  see_prefix-Larger (v6 p) t = ground (arith, length-insert p t.ever_seen_prefixes_v6)

  step-Larger : (c : TrackerCall) (t : GrowthStatsTracker fl) → Larger t (step fl c t)
  unfolding step on_message_received on_parsed_events on_announce on_withdraw see_asn
      set_active_prefix_counts sample_now
  step-Larger receives t = ground arith
  step-Larger (parses n) t = ground arith
  step-Larger (announces asn p) t =
      ground (arith, length-insert asn t.ever_seen_asns, see_prefix-Larger p (see_asn fl asn t))
  step-Larger (withdraws p) t = ground (arith, see_prefix-Larger p t)
  step-Larger (activates a b) t = ground arith
  step-Larger (samples now now_ms) t =
      let kept = update_keeps fl (take_sample fl now now_ms t) t in
      record {
        asns = omega (arith, ap (λ (xs : List ℕ). length xs) kept.0);
        v4s = omega (arith, ap (λ (xs : List PrefixV4). length xs) kept.1);
        v6s = omega (arith, ap (λ (xs : List PrefixV6). length xs) kept.2);
      }

  run-Larger : (cs : List TrackerCall) (t : GrowthStatsTracker fl) → Larger t (run fl cs t)
  unfolding run
  run-Larger [] t = ground arith
  run-Larger (c ∷ cs) t = ground (arith, step-Larger c t, run-Larger cs (step fl c t))

  new_asns-append :
      (xs ys : List (GrowthSample fl × Bool)) → new_asns (xs ++ ys) ≡ new_asns xs + new_asns ys
  new_asns-append [] ys = omega arith
  new_asns-append ((s, d) ∷ xs) ys = omega (arith, new_asns-append xs ys)

  new_prefixes-append :
      (xs ys : List (GrowthSample fl × Bool))
      → new_prefixes (xs ++ ys) ≡ new_prefixes xs + new_prefixes ys
  new_prefixes-append [] ys = omega arith
  new_prefixes-append ((s, d) ∷ xs) ys = omega (arith, new_prefixes-append xs ys)

  -- From a tracker whose last counts are not above its sets' sizes, where the sets' sizes at the end
  -- fit in 64 bits: over any sequence of calls, the new ASNs and the new prefixes of the samples add
  -- up to the growth of the counts at the last sample, with no wrap-around of a difference on the way,
  -- and the last counts are again not above the sizes.
  pub new_counts_lem :
      (cs : List TrackerCall) (t : GrowthStatsTracker fl)
      → IsTracked t
      → Fits64 (run fl cs t)
      → ((run fl cs t).last_sample_asn_count ≡ t.last_sample_asn_count + new_asns (trace fl cs t))
        × ((run fl cs t).last_sample_prefix_count
            ≡ t.last_sample_prefix_count + new_prefixes (trace fl cs t))
        × IsTracked (run fl cs t)
  unfolding run trace
  new_counts_lem [] t h f = (omega arith, omega arith, h)
  new_counts_lem (c ∷ cs) t h f =
      let u = step fl c t in
      let l = run-Larger cs u in
      let l' = step-Larger c t in
      let small : Fits64 t = record {
        asns = omega (arith, f.asns, l.asns, l'.asns);
        prefixes = omega (arith, f.prefixes, l.v4s, l'.v4s, l.v6s, l'.v6s);
      } in
      let g = step-Grows c t h small in
      let (asns, prefixes, last) = new_counts_lem cs u g.tracked f in
      (
        omega (arith, asns, g.new_asns, new_asns-append (sampled fl c t) (trace fl cs u)),
        omega
            (arith, prefixes, g.new_prefixes, new_prefixes-append (sampled fl c t) (trace fl cs u)),
        last,
      )
