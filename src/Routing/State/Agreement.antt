-- ===== src/Routing/State/Agreement.antt =====
-- What a sound state exports depends on its entries only, and its records are as large as the peers
-- allow.
use asnprefix_map.Base.{ℕ, ◌≤◌, ◌≡◌, none, some, arith, nat_eq, length}
use asnprefix_map.Base.Map.{length_of_same_keys}
use asnprefix_map.Prefix.{BinaryPrefix, v4, v6, v4_eq, v6_eq}
use asnprefix_map.Routing.Record.Order.{size-le_bound}
use asnprefix_map.Routing.Table.Agreement.{aggregated_agree, exported-observed as table_entry}
use asnprefix_map.Routing.Table.Refinement.{observed as table_observed}
use asnprefix_map.Routing.Table.Soundness.{record_of-IsConsistent}
use asnprefix_map.Routing.State.{RoutingState, active_prefixes_total_count}
use asnprefix_map.Routing.State.Families.{BothSound, record_at, observed, exported}

-- Two sound states with the same entries export the same origin for each prefix, and have as many
-- active prefixes.
pub exported_agree :
    (s u : RoutingState)
    → BothSound s
    → BothSound u
    → ((k : BinaryPrefix) (q : ℕ) → observed s k q ≡ observed u k q)
    → ((k : BinaryPrefix) → exported s k ≡ exported u k)
      × (active_prefixes_total_count s ≡ active_prefixes_total_count u)
unfolding observed exported active_prefixes_total_count
exported_agree s u v w same =
    let first =
      aggregated_agree s.table_v4 u.table_v4 v.sound_v4 w.sound_v4 (λ k q. same (v4 k) q) in
    let second =
      aggregated_agree s.table_v6 u.table_v6 v.sound_v6 w.sound_v6 (λ k q. same (v6 k) q) in
    let many_v4 =
      length_of_same_keys s.table_v4.aggregated u.table_v4.aggregated v.sound_v4.aggregated_keys
        w.sound_v4.aggregated_keys (λ k. ground (arith, first k)) in
    let many_v6 =
      length_of_same_keys s.table_v6.aggregated u.table_v6.aggregated v.sound_v6.aggregated_keys
        w.sound_v6.aggregated_keys (λ k. ground (arith, second k)) in
    (
      λ k. elim k as (λ b. exported s b ≡ exported u b) [ v4 x ↦ first x | v6 x ↦ second x ],
      omega (arith, many_v4, many_v6),
    )

-- A record of peers below a bound has no more observations than the bound.
pub record_at-le_bound :
    (s : RoutingState) (k : BinaryPrefix) (n : ℕ)
    → BothSound s
    → ((p : ℕ) → n ≤ p → observed s k p ≡ none)
    → length (record_at s k).observations ≤ n
unfolding observed table_observed
record_at-le_bound s (v4 x) n v below =
    size-le_bound (record_at s (v4 x)) n (record_of-IsConsistent s.table_v4 x v.sound_v4) below
record_at-le_bound s (v6 x) n v below =
    size-le_bound (record_at s (v6 x)) n (record_of-IsConsistent s.table_v6 x v.sound_v6) below

-- Some peer has an entry for an exported prefix.
pub exported-observed :
    (s : RoutingState) (k : BinaryPrefix) (a : ℕ)
    → BothSound s
    → exported s k ≡ some a
    → (q : ℕ) × (w : ℕ × ℕ) × (observed s k q ≡ some w)
unfolding exported observed
exported-observed s (v4 x) a v h = table_entry s.table_v4 x a v.sound_v4 h
exported-observed s (v6 x) a v h = table_entry s.table_v6 x a v.sound_v6 h
