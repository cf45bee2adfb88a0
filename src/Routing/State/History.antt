-- ===== src/Routing/State/History.antt =====
-- `RoutingState` after any sequence of announces and withdraws of a cleared state.
use asnprefix_map.Base.{
  ℕ, ◌+◌, ◌≤◌, ◌≡◌, ◌∙◌, sym, ap, ◌↔◌, none, some, List, arith, length, nat_eq,
}
use asnprefix_map.Base.Map.{Map, find, Distinct}
use asnprefix_map.Prefix.{BinaryPrefix, v4, v6, v4_eq, v6_eq}
use asnprefix_map.Routing.Record.{PrefixRecord, select_from, recompute_selected_from_counts}
use asnprefix_map.Routing.Record.Winner.{IsWinner, select_from-IsWinner}
use asnprefix_map.Routing.Record.Counts.{origins}
use asnprefix_map.Routing.Record.Consistency.{IsConsistent}
use asnprefix_map.Routing.Record.Recount.{IsWinner-unique, recompute-eq_self}
use asnprefix_map.Routing.Table.Soundness.{record_of-IsConsistent}
use asnprefix_map.Routing.Table.Exports.{exported-IsWinner, exported_length}
use asnprefix_map.Routing.State.{clear, active_prefixes_total_count}
use asnprefix_map.Routing.State.Agreement.{exported_agree}
use asnprefix_map.Routing.State.Families.{
  BothSound, record_at, observed, exported, Call, run, last_said, Fits, run-BothSound,
  clear-BothSound, observed_after, observed-clear, exported-eq_none_iff,
}

-- Two orders of the same ASN counters give the same selection: the loop of
-- `recompute_selected_from_counts` does not depend on the order of the `unordered_map`.
pub select_from-any_order :
    (m n : Map ℕ ℕ) (r : PrefixRecord)
    → IsConsistent r
    → Distinct m
    → Distinct n
    → ((a : ℕ) → find a m ≡ find a r.asn_counts)
    → ((a : ℕ) → find a n ≡ find a r.asn_counts)
    → ((select_from m 0 0).0 ≡ (select_from n 0 0).0)
      × ((select_from m 0 0).1 ≡ (select_from n 0 0).1)
select_from-any_order m n r v dm dn hm hn =
    let counts = v.tallied.counts.values in
    IsWinner-unique (origins r) _ _ _ _
      (select_from-IsWinner m (origins r) dm (λ a. hm a ∙ counts a))
      (select_from-IsWinner n (origins r) dn (λ a. hn a ∙ counts a))

module _ (cs : List Call) (fits : Fits clear cs) where
  after : BothSound (run clear cs)
  after = run-BothSound clear cs clear-BothSound fits

  record_at-IsConsistent : (k : BinaryPrefix) → IsConsistent (record_at (run clear cs) k)
  record_at-IsConsistent (v4 x) = record_of-IsConsistent (run clear cs).table_v4 x after.sound_v4
  record_at-IsConsistent (v6 x) = record_of-IsConsistent (run clear cs).table_v6 x after.sound_v6

  -- After any announces and withdraws of a cleared state, where an announce finds fewer than
  -- 2^32 - 1 observations in the record of its prefix, the entry of a prefix and a peer is the
  -- origin and timestamp of the last announce of the two, and there is none if a withdraw came last
  -- or no call named the two.
  pub observed-run :
      (k : BinaryPrefix) (q : ℕ) → observed (run clear cs) k q ≡ last_said cs k q none
  observed-run k q =
      observed_after clear cs k q clear-BothSound fits ∙ ap (last_said cs k q) (observed-clear k q)

  -- After any announces and withdraws of a cleared state, where an announce finds fewer than
  -- 2^32 - 1 observations in the record of its prefix, the exported origin of a prefix is the
  -- plurality of the observations that its record holds, the smallest ASN among equals, and some peer
  -- announces it.
  pub exported-run-IsWinner :
      (k : BinaryPrefix) (a : ℕ)
      → exported (run clear cs) k ≡ some a
      → let f = origins (record_at (run clear cs) k) in IsWinner f a (f a) × (1 ≤ f a)
  unfolding exported
  exported-run-IsWinner (v4 x) a = exported-IsWinner (run clear cs).table_v4 x a after.sound_v4
  exported-run-IsWinner (v6 x) a = exported-IsWinner (run clear cs).table_v6 x a after.sound_v6

  -- After any announces and withdraws of a cleared state, where an announce finds fewer than
  -- 2^32 - 1 observations in the record of its prefix, a prefix has no exported origin exactly
  -- when for every peer the last call about the two was a withdraw, or there was none.
  pub exported-run-eq_none_iff :
      (k : BinaryPrefix)
      → (exported (run clear cs) k ≡ none) ↔ ((q : ℕ) → last_said cs k q none ≡ none)
  exported-run-eq_none_iff k =
      let e = exported-eq_none_iff (run clear cs) k after in
      (λ h q. sym (observed-run k q) ∙ e.0 h q, λ h. e.1 (λ q. observed-run k q ∙ h q))

  -- After any announces and withdraws of a cleared state, where an announce finds fewer than
  -- 2^32 - 1 observations in the record of its prefix, the count of active prefixes is the
  -- number of prefixes that have a record.
  pub active_prefixes-run :
      active_prefixes_total_count (run clear cs)
      ≡ length (run clear cs).table_v4.by_prefix + length (run clear cs).table_v6.by_prefix
  unfolding active_prefixes_total_count
  active_prefixes-run = omega (
    arith,
    exported_length (run clear cs).table_v4 after.sound_v4,
    exported_length (run clear cs).table_v6 after.sound_v6,
  )

  -- After any announces and withdraws of a cleared state, where an announce finds fewer than
  -- 2^32 - 1 observations in the record of its prefix, a full recomputation from the ASN
  -- counters leaves the record of every prefix as the incremental selection has it.
  pub recompute-run :
      (k : BinaryPrefix)
      → recompute_selected_from_counts (record_at (run clear cs) k) ≡ record_at (run clear cs) k
  recompute-run k = recompute-eq_self _ (record_at-IsConsistent k)

-- Two sequences of announces and withdraws of a cleared state, of any lengths and in any orders, where
-- an announce finds fewer than 2^32 - 1 observations in the record of its prefix: where for each
-- prefix and each peer the last call about the two said the same, or none was made in either, the two
-- runs export the same origin for each prefix. The calls before the last ones, and the order among the
-- last ones, make no difference.
pub exported-run_agree :
    (cs ds : List Call)
    → Fits clear cs
    → Fits clear ds
    → ((k : BinaryPrefix) (q : ℕ) → last_said cs k q none ≡ last_said ds k q none)
    → (k : BinaryPrefix) → exported (run clear cs) k ≡ exported (run clear ds) k
exported-run_agree cs ds f g same =
    (exported_agree (run clear cs) (run clear ds) (run-BothSound clear cs clear-BothSound f)
      (run-BothSound clear ds clear-BothSound g)
      (λ k q. observed-run cs f k q ∙ same k q ∙ sym (observed-run ds g k q))).0
