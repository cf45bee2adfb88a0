-- ===== src/Stats/Seen.antt =====
-- src/stats/growth_stats.cpp: what a tracker has seen, and the counts of what is new in an interval.
use mathlib.Core.Bool.{or_assoc}
use asnprefix_map.Base.{
  ℕ, ◌≤◌, ◌≡◌, refl, ◌∙◌, ap, sym, Bool, true, false, ◌||◌, List, [], ◌∷◌, arith, length, Eq, ◌==◌,
  ==-iff, nat_eq, inl, inr, Bool-cases, subst,
}
use asnprefix_map.Prefix.{BinaryPrefix, v4, v6, v4_eq, v6_eq, binary_eq}
use asnprefix_map.Stats.{
  Floats, GrowthSample, GrowthStatsTracker, member, insert, on_message_received, on_parsed_events,
  see_prefix, see_asn, on_announce, on_withdraw, set_active_prefix_counts, push_rate,
  detect_plateau, update_plateau, take_sample, sample_now,
}
use asnprefix_map.Stats.History.{
  TrackerCall, receives, parses, announces, withdraws, activates, samples, step, run,
}

module _ {ℓ} {A : Type ℓ} ⦃e : Eq A⦄ where
  -- No element stands twice.
  abbrev pub Nodup : List A → Type 0
  Nodup [] = Unit
  Nodup (x ∷ xs) = (member x xs ≡ false) × Nodup xs

  pub member-insert : (a b : A) (xs : List A) → member a (insert b xs) ≡ (member a xs || b == a)
  unfolding member insert
  member-insert a b xs = elim (Bool-cases (member b xs)) [
    | inl old ↦ rw old (elim (Bool-cases (b == a)) [
      | inl same ↦
          let there : member a xs ≡ true =
            subst (λ c. member c xs ≡ true) ((==-iff b a).0 same) old in
          rw there
      | inr other ↦ ground (arith, other)
    ])
    | inr new ↦ rw new (ground arith)
  ]

  pub insert-Nodup : (a : A) (xs : List A) → Nodup xs → Nodup (insert a xs)
  unfolding insert
  insert-Nodup a xs h = ground arith

  pub length-insert : (a : A) (xs : List A) → length xs ≤ length (insert a xs)
  unfolding insert
  length-insert a xs = ground arith

module _ (fl : Floats) where
  abbrev pub has_seen : GrowthStatsTracker fl → BinaryPrefix → Bool
  has_seen t (v4 prefix) = member prefix t.ever_seen_prefixes_v4
  has_seen t (v6 prefix) = member prefix t.ever_seen_prefixes_v6

  -- The calls that bring a prefix, and an origin, to the tracker.
  pub names_prefix : List TrackerCall → BinaryPrefix → Bool
  names_prefix [] k = false
  names_prefix (announces asn prefix ∷ cs) k = prefix == k || names_prefix cs k
  names_prefix (withdraws prefix ∷ cs) k = prefix == k || names_prefix cs k
  names_prefix (_ ∷ cs) k = names_prefix cs k

  pub names_asn : List TrackerCall → ℕ → Bool
  names_asn [] k = false
  names_asn (announces asn prefix ∷ cs) k = asn == k || names_asn cs k
  names_asn (_ ∷ cs) k = names_asn cs k

  -- What a call leaves of the sets: every one but the sets of its arguments.
  pub update_keeps :
      (sample : GrowthSample fl) (t : GrowthStatsTracker fl)
      → ((update_plateau fl sample t).ever_seen_asns ≡ t.ever_seen_asns)
        × ((update_plateau fl sample t).ever_seen_prefixes_v4 ≡ t.ever_seen_prefixes_v4)
        × ((update_plateau fl sample t).ever_seen_prefixes_v6 ≡ t.ever_seen_prefixes_v6)
  unfolding update_plateau push_rate detect_plateau
  update_keeps sample t = ground arith

  one_prefix : TrackerCall → BinaryPrefix → Bool
  one_prefix (announces asn prefix) k = prefix == k
  one_prefix (withdraws prefix) k = prefix == k
  one_prefix _ k = false

  see_prefix-has_seen :
      (prefix k : BinaryPrefix) (t : GrowthStatsTracker fl)
      → has_seen (see_prefix fl prefix t) k ≡ (has_seen t k || prefix == k)
  unfolding see_prefix
  see_prefix-has_seen (v4 p) (v4 k) t = member-insert k p t.ever_seen_prefixes_v4
  see_prefix-has_seen (v4 p) (v6 k) t = ground arith
  see_prefix-has_seen (v6 p) (v4 k) t = ground arith
  see_prefix-has_seen (v6 p) (v6 k) t = member-insert k p t.ever_seen_prefixes_v6

  same_seen :
      (t u : GrowthStatsTracker fl) (k : BinaryPrefix)
      → t.ever_seen_prefixes_v4 ≡ u.ever_seen_prefixes_v4
      → t.ever_seen_prefixes_v6 ≡ u.ever_seen_prefixes_v6
      → has_seen t k ≡ has_seen u k
  same_seen t u (v4 k) e f = ap (member k) e
  same_seen t u (v6 k) e f = ap (member k) f

  or_false : (b : Bool) → (b || false) ≡ b
  or_false b = ground arith

  step-has_seen :
      (c : TrackerCall) (k : BinaryPrefix) (t : GrowthStatsTracker fl)
      → has_seen (step fl c t) k ≡ (has_seen t k || one_prefix c k)
  unfolding step one_prefix on_message_received on_parsed_events on_announce on_withdraw see_asn
      set_active_prefix_counts sample_now
  step-has_seen receives k t =
      same_seen (step fl receives t) t k refl refl ∙ sym (or_false (has_seen t k))
  step-has_seen (parses n) k t =
      same_seen (step fl (parses n) t) t k refl refl ∙ sym (or_false (has_seen t k))
  step-has_seen (announces asn p) k t =
      same_seen (step fl (announces asn p) t) (see_prefix fl p (see_asn fl asn t)) k refl refl
      ∙ see_prefix-has_seen p k (see_asn fl asn t)
      ∙ ap (λ b. b || p == k) (same_seen (see_asn fl asn t) t k refl refl)
  step-has_seen (withdraws p) k t =
      same_seen (step fl (withdraws p) t) (see_prefix fl p t) k refl refl
      ∙ see_prefix-has_seen p k t
  step-has_seen (activates a b) k t =
      same_seen (step fl (activates a b) t) t k refl refl ∙ sym (or_false (has_seen t k))
  step-has_seen (samples now now_ms) k t =
      let kept = update_keeps (take_sample fl now now_ms t) t in
      same_seen (step fl (samples now now_ms) t) t k kept.1 kept.2 ∙ sym (or_false (has_seen t k))

  names_one :
      (c : TrackerCall) (cs : List TrackerCall) (k : BinaryPrefix)
      → names_prefix (c ∷ cs) k ≡ (one_prefix c k || names_prefix cs k)
  unfolding names_prefix one_prefix
  names_one receives cs k = refl
  names_one (parses n) cs k = refl
  names_one (announces asn p) cs k = refl
  names_one (withdraws p) cs k = refl
  names_one (activates a b) cs k = refl
  names_one (samples now now_ms) cs k = refl

  -- After any calls, a prefix has been seen exactly when it had been seen before them, or an announce
  -- or a withdraw among them names it.
  pub run-has_seen :
      (cs : List TrackerCall) (k : BinaryPrefix) (t : GrowthStatsTracker fl)
      → has_seen (run fl cs t) k ≡ (has_seen t k || names_prefix cs k)
  unfolding run names_prefix
  run-has_seen [] k t = sym (or_false (has_seen t k))
  run-has_seen (c ∷ cs) k t =
      run-has_seen cs k (step fl c t)
      ∙ ap (λ b. b || names_prefix cs k) (step-has_seen c k t)
      ∙ or_assoc (has_seen t k) (one_prefix c k) (names_prefix cs k)
      ∙ ap (λ b. has_seen t k || b) (sym (names_one c cs k))
