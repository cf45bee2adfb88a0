-- ===== src/Stats/Window.antt =====
-- src/stats/growth_stats.cpp: the window of rates, and how often a plateau is reported.
use mathlib.Core.List.{append-nil, append_assoc, map-append}
use native.Mathlib.Nat.{zero-add, suc-add}
use asnprefix_map.Base.{
  ℕ, zero, suc, ◌+◌, ◌-◌, ◌≤◌, ◌≡◌, refl, ◌∙◌, ap, sym, Bool, true, false, ◌&&◌, not, List, [], ◌∷◌,
  ◌++◌, arith, length, length-append, tally, tally-append, bit, ltb, map, dec_lt,
}
use asnprefix_map.Prefix.{v4, v6}
use asnprefix_map.Stats.{
  Floats, GrowthSample, GrowthStatsTracker, on_message_received, on_parsed_events, see_prefix,
  see_asn, on_announce, on_withdraw, set_active_prefix_counts, drop_old_rates, push_rate,
  detect_plateau, update_plateau, take_sample, sample_now, plateau_status,
}
use asnprefix_map.Stats.History.{
  TrackerCall, receives, parses, announces, withdraws, activates, samples, step, sampled, run,
  trace,
}

-- The last `n` elements.
abbrev pub drop {ℓ} : {A : Type ℓ} → ℕ → List A → List A
drop zero xs = xs
drop (suc n) [] = []
drop (suc n) (x ∷ xs) = drop n xs

abbrev pub last_of {ℓ} : {A : Type ℓ} → ℕ → List A → List A
last_of n xs = drop (length xs - n) xs

module _ {ℓ} {A : Type ℓ} where
  drop-nil : (n : ℕ) → drop {A = A} n [] ≡ []
  drop-nil zero = refl
  drop-nil (suc n) = refl

  drop-append :
      (a k : ℕ) (xs ys : List A)
      → a ≤ length xs
      → drop k (drop a xs ++ ys) ≡ drop (a + k) (xs ++ ys)
  drop-append zero k xs ys h = rw zero-add
  drop-append (suc a) k [] ys h = absurd (omega arith)
  drop-append (suc a) k (x ∷ xs) ys h = rw suc-add (drop-append a k xs ys (omega arith))

  length-drop : (a : ℕ) (xs : List A) → length (drop a xs) ≡ length xs - a
  length-drop zero xs = omega arith
  length-drop (suc a) [] = omega arith
  length-drop (suc a) (x ∷ xs) = omega (arith, length-drop a xs)

  last_of-append : (n : ℕ) (xs ys : List A) → last_of n (last_of n xs ++ ys) ≡ last_of n (xs ++ ys)
  last_of-append n xs ys =
      let a = length xs - n in
      let k = length (drop a xs ++ ys) - n in
      let same : a + k ≡ length (xs ++ ys) - n =
        omega (arith, length-append xs ys, length-append (drop a xs) ys, length-drop a xs) in
      drop-append a k xs ys (omega arith) ∙ ap (λ m. drop m (xs ++ ys)) same

  last_of_short : (n : ℕ) (xs : List A) → length xs ≤ n → last_of n xs ≡ xs
  last_of_short n xs h = let e : length xs - n ≡ 0 = omega arith in rw e

module _ (fl : Floats) where
  -- How many samples report a plateau for the first time.
  abbrev pub reports : List (GrowthSample fl × Bool) → ℕ
  reports = tally (λ s. s.1)

  pending : GrowthStatsTracker fl → ℕ
  pending t = bit (not t.plateau_detected)

  reports-step :
      (c : TrackerCall) (t : GrowthStatsTracker fl)
      → reports (sampled fl c t) + pending (step fl c t) ≡ pending t
  unfolding step sampled pending sample_now plateau_status on_message_received on_parsed_events
      on_announce on_withdraw see_prefix see_asn set_active_prefix_counts update_plateau push_rate
      detect_plateau
  reports-step receives t = omega arith
  reports-step (parses n) t = omega arith
  reports-step (announces asn (v4 prefix)) t = omega arith
  reports-step (announces asn (v6 prefix)) t = omega arith
  reports-step (withdraws (v4 prefix)) t = omega arith
  reports-step (withdraws (v6 prefix)) t = omega arith
  reports-step (activates a b) t = omega arith
  reports-step (samples now now_ms) t = ground arith

  reports-trace :
      (cs : List TrackerCall) (t : GrowthStatsTracker fl)
      → reports (trace fl cs t) + pending (run fl cs t) ≡ pending t
  unfolding trace run
  reports-trace [] t = omega arith
  reports-trace (c ∷ cs) t = omega (
    arith,
    reports-step c t,
    reports-trace cs (step fl c t),
    tally-append (λ (s : GrowthSample fl × Bool). s.1) (sampled fl c t) (trace fl cs (step fl c t)),
  )

  -- In any sequence of calls, the samples report a plateau at most once: not again once one is
  -- detected, and exactly once where the calls come to detect one.
  pub plateau_reported_once :
      (cs : List TrackerCall) (t : GrowthStatsTracker fl)
      → (reports (trace fl cs t) ≤ 1)
        × (t.plateau_detected ≡ true → reports (trace fl cs t) ≡ 0)
        × (t.plateau_detected ≡ false
            → reports (trace fl cs t) ≡ bit (run fl cs t).plateau_detected)
  unfolding pending
  plateau_reported_once cs t = let e = reports-trace cs t in ground (arith, e)

  abbrev pub rates : List (GrowthSample fl × Bool) → List fl.Double
  rates = map (λ s. s.0.new_prefixes_per_sec)

  drop_old_rates_lem :
      (window : ℕ) (xs : List fl.Double) (sum : fl.Double)
      → (drop_old_rates fl window xs sum).0 ≡ last_of window xs
  unfolding drop_old_rates
  drop_old_rates_lem window [] sum = sym (drop-nil (0 - window))
  drop_old_rates_lem window (x ∷ xs) sum = elim (dec_lt window (length (x ∷ xs))) [
    | yes more ↦
        let k : suc (length xs) - window ≡ suc (length xs - window) = omega arith in
        rw k (ground (arith, drop_old_rates_lem window xs (fl.sub sum x)))
    | no few ↦ let k : suc (length xs) - window ≡ 0 = omega arith in rw k (ground arith)
  ]

  -- What a call does to the window and leaves of the settings.
  record Slides (t t' : GrowthStatsTracker fl) (new : List fl.Double) : Type 0 where
    window :
        t'.recent_prefix_rates
        ≡ last_of t.plateau_settings.window_samples (t.recent_prefix_rates ++ new)
    settings : t'.plateau_settings ≡ t.plateau_settings

  Slides-still :
      (t t' : GrowthStatsTracker fl)
      → length t.recent_prefix_rates ≤ t.plateau_settings.window_samples
      → t'.recent_prefix_rates ≡ t.recent_prefix_rates
      → t'.plateau_settings ≡ t.plateau_settings
      → Slides t t' []
  Slides-still t t' h e s = record {
    window =
        e
        ∙ sym (
            ap (last_of t.plateau_settings.window_samples) (append-nil t.recent_prefix_rates)
            ∙ last_of_short _ t.recent_prefix_rates h);
    settings = s;
  }

  detect-Slides :
      (uptime : fl.Double) (t : GrowthStatsTracker fl)
      → ((detect_plateau fl uptime t).recent_prefix_rates ≡ t.recent_prefix_rates)
        × ((detect_plateau fl uptime t).plateau_settings ≡ t.plateau_settings)
  unfolding detect_plateau
  detect-Slides uptime t = ground arith

  update-Slides :
      (sample : GrowthSample fl) (t : GrowthStatsTracker fl)
      → (t.plateau_settings.enabled && ltb 0 t.plateau_settings.window_samples) ≡ true
      → Slides t (update_plateau fl sample t) (sample.new_prefixes_per_sec ∷ [])
  unfolding update_plateau push_rate
  update-Slides sample t on =
      let cleared = record t { plateau_detected_on_last_sample = false } in
      let pushed = push_rate fl sample.new_prefixes_per_sec cleared in
      let detected = detect-Slides sample.uptime_sec pushed in
      let kept =
        drop_old_rates_lem t.plateau_settings.window_samples
          (t.recent_prefix_rates ++ sample.new_prefixes_per_sec ∷ [])
          (fl.add t.recent_prefix_rate_sum sample.new_prefixes_per_sec) in
      rw (on, update_plateau) (record { window = detected.0 ∙ kept; settings = detected.1 })

  sample-Slides :
      (now now_ms : ℕ) (t : GrowthStatsTracker fl)
      → (t.plateau_settings.enabled && ltb 0 t.plateau_settings.window_samples) ≡ true
      → Slides t
          (sample_now fl now now_ms t).0
          ((sample_now fl now now_ms t).1.new_prefixes_per_sec ∷ [])
  unfolding sample_now
  sample-Slides now now_ms t on =
      let u = update-Slides (take_sample fl now now_ms t) t on in
      record { window = u.window; settings = u.settings }

  step-Slides :
      (c : TrackerCall) (t : GrowthStatsTracker fl)
      → (t.plateau_settings.enabled && ltb 0 t.plateau_settings.window_samples) ≡ true
      → length t.recent_prefix_rates ≤ t.plateau_settings.window_samples
      → Slides t (step fl c t) (rates (sampled fl c t))
  unfolding step sampled on_message_received on_parsed_events on_announce on_withdraw see_prefix
      see_asn set_active_prefix_counts
  step-Slides receives t on h = Slides-still _ _ h refl refl
  step-Slides (parses n) t on h = Slides-still _ _ h refl refl
  step-Slides (announces asn (v4 prefix)) t on h = Slides-still _ _ h refl refl
  step-Slides (announces asn (v6 prefix)) t on h = Slides-still _ _ h refl refl
  step-Slides (withdraws (v4 prefix)) t on h = Slides-still _ _ h refl refl
  step-Slides (withdraws (v6 prefix)) t on h = Slides-still _ _ h refl refl
  step-Slides (activates a b) t on h = Slides-still _ _ h refl refl
  step-Slides (samples now now_ms) t on h = sample-Slides now now_ms t on

  length-last_of : (n : ℕ) (xs : List fl.Double) → length (last_of n xs) ≤ n
  length-last_of n xs = omega (arith, length-drop (length xs - n) xs)

  -- Where detection is on and the window is not empty: after any sequence of calls, the window holds
  -- the last rates, as many as it has room for, of those that it held and those of the samples since.
  pub window_lem :
      (cs : List TrackerCall) (t : GrowthStatsTracker fl)
      → (t.plateau_settings.enabled && ltb 0 t.plateau_settings.window_samples) ≡ true
      → length t.recent_prefix_rates ≤ t.plateau_settings.window_samples
      → (run fl cs t).recent_prefix_rates
        ≡ last_of t.plateau_settings.window_samples (t.recent_prefix_rates ++ rates (trace fl cs t))
  unfolding run trace
  window_lem [] t on h = (Slides-still t t h refl refl).window
  window_lem (c ∷ cs) t on h =
      let u = step fl c t in
      let n = t.plateau_settings.window_samples in
      let slid = step-Slides c t on h in
      let e : u.plateau_settings.window_samples ≡ n = ap (λ p. p.window_samples) slid.settings in
      let short : length u.recent_prefix_rates ≤ u.plateau_settings.window_samples = omega (
        arith,
        e,
        ap length slid.window,
        length-last_of n (t.recent_prefix_rates ++ rates (sampled fl c t)),
      ) in
      let rest =
        window_lem cs u (ap (λ p. p.enabled && ltb 0 p.window_samples) slid.settings ∙ on) short in
      rest
      ∙ ap (λ m. last_of m (u.recent_prefix_rates ++ rates (trace fl cs u))) e
      ∙ ap (λ xs. last_of n (xs ++ rates (trace fl cs u))) slid.window
      ∙ last_of-append n (t.recent_prefix_rates ++ rates (sampled fl c t)) (rates (trace fl cs u))
      ∙ ap (last_of n) (rw (append_assoc, map-append))
