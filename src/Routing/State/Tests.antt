-- ===== src/Routing/State/Tests.antt =====
-- Runs of the routing state, and its theorems at concrete calls.
use asnprefix_map.Base.{
  ◌^◌, ◌<◌, map, pair_up, ℕ, ◌+◌, ◌≤◌, ◌≡◌, refl, ◌↔◌, none, some, List, [], ◌∷◌, arith, nat_eq,
  length,
}
use asnprefix_map.Base.Map.{find, assign, erase}
use asnprefix_map.Prefix.{BinaryPrefix, v4, v4_eq, v6_eq}
use asnprefix_map.Routing.Record.{
  is_better_selection, increment_asn_count, decrement_asn_count, select_from,
  recompute_selected_from_counts, find_observation, exchange_observation, replace_observation,
  push_observation, add_observation, remove_packed, drop_observation,
}
use asnprefix_map.Routing.Record.Winner.{IsWinner}
use asnprefix_map.Routing.Record.Counts.{origins}
use asnprefix_map.Routing.Table.{
  sync_aggregated, store_synced, announce_impl, settle_withdrawal, withdraw_from, withdraw_impl,
}
use asnprefix_map.Routing.State.{
  RoutingState, clear, announce, withdraw, active_prefixes_total_count, rebuild_aggregated,
  stored_observations, append_stored_observations,
}
use asnprefix_map.Routing.State.Families.{
  BothSound, run-BothSound, clear-BothSound, record_at, observed, exported, Call, announces,
  withdraws, step, run, last_said, Fits,
}
use asnprefix_map.Routing.State.Restoring.{call, run-stored, rebuild_aggregated_lem}
use asnprefix_map.Routing.State.History.{
  observed-run, exported-run-IsWinner, exported-run-eq_none_iff, active_prefixes-run, recompute-run,
  exported-run_agree,
}

-- 10.0.0.0/8
abbrev ten : BinaryPrefix
ten = v4 (record { network = 0x0a000000; length = 8 })

-- Peers 1 and 2 announce from AS 200 and AS 100, peer 3 from AS 200; peer 1 leaves, and peer 3 moves.
abbrev calls : List Call
calls =
    announces 1 ten 200 5
    ∷ announces 2 ten 100 6
    ∷ announces 3 ten 200 7
    ∷ withdraws 1 ten
    ∷ announces 3 ten 300 8
    ∷ []

exported_calls : exported (run clear calls) ten ≡ some 100
unfolding run step announce withdraw announce_impl withdraw_impl withdraw_from settle_withdrawal
    store_synced sync_aggregated find assign erase find_observation add_observation push_observation
    replace_observation exchange_observation drop_observation remove_packed increment_asn_count
    decrement_asn_count is_better_selection recompute_selected_from_counts select_from exported
exported_calls = refl

calls-Fits : Fits clear calls
unfolding step announce withdraw announce_impl withdraw_impl withdraw_from settle_withdrawal
    store_synced sync_aggregated find assign erase find_observation add_observation push_observation
    replace_observation exchange_observation drop_observation remove_packed increment_asn_count
    decrement_asn_count is_better_selection recompute_selected_from_counts select_from
calls-Fits = omega arith

observed-run_example : observed (run clear calls) ten 3 ≡ last_said calls ten 3 none
observed-run_example = observed-run calls calls-Fits ten 3

exported-run-IsWinner_example :
    let f = origins (record_at (run clear calls) ten) in IsWinner f 100 (f 100) × (1 ≤ f 100)
exported-run-IsWinner_example = exported-run-IsWinner calls calls-Fits ten 100 exported_calls

exported-run-eq_none_iff_example :
    (exported (run clear calls) ten ≡ none) ↔ ((q : ℕ) → last_said calls ten q none ≡ none)
exported-run-eq_none_iff_example = exported-run-eq_none_iff calls calls-Fits ten

active_prefixes-run_example :
    active_prefixes_total_count (run clear calls)
    ≡ length (run clear calls).table_v4.by_prefix + length (run clear calls).table_v6.by_prefix
active_prefixes-run_example = active_prefixes-run calls calls-Fits

recompute-run_example :
    recompute_selected_from_counts (record_at (run clear calls) ten)
    ≡ record_at (run clear calls) ten
recompute-run_example = recompute-run calls calls-Fits ten

after-BothSound : BothSound (run clear calls)
after-BothSound = run-BothSound clear calls clear-BothSound calls-Fits

rebuild_aggregated_lem_example :
    let s = run clear calls in
    BothSound (rebuild_aggregated s)
    × ((k : BinaryPrefix) (q : ℕ) → observed (rebuild_aggregated s) k q ≡ observed s k q)
    × ((k : BinaryPrefix) → exported (rebuild_aggregated s) k ≡ exported s k)
rebuild_aggregated_lem_example = rebuild_aggregated_lem (run clear calls) after-BothSound

-- The last calls about the peers 2 and 3, in the other order, and none about peer 1.
abbrev last_calls : List Call
last_calls = announces 3 ten 300 8 ∷ announces 2 ten 100 6 ∷ []

last_calls-Fits : Fits clear last_calls
unfolding step announce announce_impl store_synced sync_aggregated find assign find_observation
    add_observation push_observation replace_observation exchange_observation increment_asn_count
    decrement_asn_count is_better_selection recompute_selected_from_counts select_from
last_calls-Fits = omega arith

same_last : (k : BinaryPrefix) (q : ℕ) → last_said calls k q none ≡ last_said last_calls k q none
unfolding last_said
same_last k q = ground arith

exported-run_agree_example : exported (run clear calls) ten ≡ exported (run clear last_calls) ten
exported-run_agree_example =
    exported-run_agree calls last_calls calls-Fits last_calls-Fits same_last ten

-- One observation, announced anew.
abbrev one : RoutingState
one = run clear (announces 1 ten 200 5 ∷ [])

one-BothSound : BothSound one
unfolding find
one-BothSound = run-BothSound clear _ clear-BothSound (omega arith, tt)

one_few : length (stored_observations one) < 2 ^ 32
unfolding run step announce announce_impl store_synced sync_aggregated find assign find_observation
    add_observation push_observation increment_asn_count is_better_selection stored_observations
    append_stored_observations pair_up
one_few = omega arith

run-stored_example :
    let t = run clear (map call (stored_observations one)) in
    BothSound t × ((k : BinaryPrefix) (q : ℕ) → observed t k q ≡ observed one k q)
run-stored_example = run-stored one (stored_observations one) one-BothSound (λ f. refl) one_few
