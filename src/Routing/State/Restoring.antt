-- ===== src/Routing/State/Restoring.antt =====
-- A cleared state that is given the observations of another one, in any order, holds its entries.
use asnprefix_map.Base.{
  ℕ, ◌+◌, ◌^◌, ◌<◌, ◌≤◌, ◌≡◌, refl, sym, ◌∙◌, ap, inl, inr, Bool, false, ◌&&◌, Option, some, List,
  [], ◌∷◌, arith, ◌==◌, nat_eq, map, tally, length, Bool-cases, Option-cases,
}
use asnprefix_map.Base.Map.{find, get_or}
use asnprefix_map.Prefix.{BinaryPrefix, v4, v6, v4_eq, v6_eq, binary_eq}
use asnprefix_map.Routing.Record.{empty_record}
use asnprefix_map.Routing.Record.View.{seen}
use asnprefix_map.Routing.Table.Growth.{announce_impl-size}
use asnprefix_map.Routing.Table.Rebuild.{rebuild_table_lem}
use asnprefix_map.Routing.Table.Refinement.{observed as table_observed}
use asnprefix_map.Routing.State.{
  RoutingState, StoredObservation, clear, announce, stored_observations, rebuild_aggregated,
}
use asnprefix_map.Routing.State.Families.{
  BothSound, record_at, observed, exported, Call, announces, step, run, last_said, Fits, Room,
  run-BothSound, clear-BothSound, observed_after, observed-clear,
}
use asnprefix_map.Routing.State.Stored.{
  is_about, is_stored, stored_single, stored_none, stored_some,
}

-- The announce that a stored observation stands for.
abbrev pub call : StoredObservation → Call
call e = announces e.observation.peer_id e.prefix e.observation.origin_asn e.timestamp

said_nothing :
    (es : List StoredObservation) (k : BinaryPrefix) (q : ℕ) (before : Option (ℕ × ℕ))
    → tally (is_about k q) es ≡ 0
    → last_said (map call es) k q before ≡ before
unfolding last_said
said_nothing [] k q before h = refl
said_nothing (e ∷ es) k q before h =
    let other : (e.prefix == k && e.observation.peer_id == q) ≡ false = ground (arith, h) in
    rw (last_said, other) (said_nothing es k q before (omega (arith, h)))

tally-is_stored-le :
    (k : BinaryPrefix) (q : ℕ) (w : ℕ × ℕ) (es : List StoredObservation)
    → tally (is_stored k q w) es ≤ tally (is_about k q) es
tally-is_stored-le k q w [] = omega arith
tally-is_stored-le k q (a, u) (e ∷ es) = ground (arith, tally-is_stored-le k q (a, u) es)

said_once :
    (es : List StoredObservation) (k : BinaryPrefix) (q : ℕ) (w : ℕ × ℕ) (before : Option (ℕ × ℕ))
    → tally (is_about k q) es ≤ 1
    → 1 ≤ tally (is_stored k q w) es
    → last_said (map call es) k q before ≡ some w
unfolding last_said
said_once [] k q w before h g = absurd (omega arith)
said_once (e ∷ es) k q (a, u) before h g =
    let less = tally-is_stored-le k q (a, u) es in
    elim (Bool-cases (e.prefix == k && e.observation.peer_id == q)) [
      | inl mine ↦
          let rest : tally (is_about k q) es ≡ 0 = ground (arith, h, mine) in
          let told = said_nothing es k q (some (e.observation.origin_asn, e.timestamp)) rest in
          rw (last_said, mine) (told ∙ ground (arith, g, mine, less, rest))
      | inr other ↦
          let rest =
            said_once es k q (a, u) before (ground (arith, h, other)) (ground (arith, g, other)) in
          rw (last_said, other) rest
    ]

step-size :
    (s : RoutingState) (e : StoredObservation) (k : BinaryPrefix)
    → length (record_at (step s (call e)) k).observations ≤ length (record_at s k).observations + 1
unfolding step announce
step-size s e k = by_family e.prefix k
  where
    by_family :
        (b k : BinaryPrefix)
        → length
            (record_at
              (step s (announces e.observation.peer_id b e.observation.origin_asn e.timestamp))
              k).observations
          ≤ length (record_at s k).observations + 1
    by_family (v4 x) (v4 y) = announce_impl-size s.table_v4 x _ _ _ y
    by_family (v4 x) (v6 y) = omega arith
    by_family (v6 x) (v4 y) = omega arith
    by_family (v6 x) (v6 y) = announce_impl-size s.table_v6 x _ _ _ y

room :
    (s : RoutingState) (b : BinaryPrefix)
    → length (record_at s b).observations + 1 < 2 ^ 32
    → Room s b
room s (v4 x) h = h
room s (v6 x) h = h

-- So many observations fit in any order.
calls-Fits :
    (es : List StoredObservation) (s : RoutingState)
    → ((k : BinaryPrefix) → length (record_at s k).observations + length es < 2 ^ 32)
    → Fits s (map call es)
calls-Fits [] s h = tt
calls-Fits (e ∷ es) s h = (
  room s e.prefix (omega (arith, h e.prefix)),
  calls-Fits es (step s (call e)) (λ k. omega (arith, h k, step-size s e k)),
)

-- The list has the elements of the other one.
abbrev pub SameTallies : List StoredObservation → List StoredObservation → Type 0
SameTallies es ds = (f : StoredObservation → Bool) → tally f es ≡ tally f ds

clear-size : (k : BinaryPrefix) → length (record_at clear k).observations ≡ 0
unfolding find
clear-size (v4 x) = refl
clear-size (v6 x) = refl

pub clear-Fits : (es : List StoredObservation) → length es < 2 ^ 32 → Fits clear (map call es)
clear-Fits es small = calls-Fits es clear (λ k. omega (arith, clear-size k))

-- A cleared state that is given, as announces in any order, the observations that a sound state
-- stores, fewer than 2^32 of them, is sound and has the entries of that state.
pub run-stored :
    (s : RoutingState) (es : List StoredObservation)
    → BothSound s
    → SameTallies es (stored_observations s)
    → length es < 2 ^ 32
    → BothSound (run clear (map call es))
      × ((k : BinaryPrefix) (q : ℕ) → observed (run clear (map call es)) k q ≡ observed s k q)
run-stored s es v same small =
    let fits = clear-Fits es small in
    (
      run-BothSound clear (map call es) clear-BothSound fits,
      λ k q.
          observed_after clear (map call es) k q clear-BothSound fits
          ∙ (elim (Option-cases (observed s k q)) [
            | inl nobody ↦
                said_nothing es k q _ (same (is_about k q) ∙ stored_none s k q v nobody)
                ∙ observed-clear k q
                ∙ sym nobody
            | inr (w, somebody) ↦
                said_once es k q w _ (omega (arith, same (is_about k q), stored_single s k q v))
                  (omega (arith, same (is_stored k q w), stored_some s k q w v somebody))
                ∙ sym somebody
          ]),
    )

-- For a sound state: to rebuild the aggregated maps from the records gives a sound state, and changes
-- no entry and no exported origin.
pub rebuild_aggregated_lem :
    (s : RoutingState)
    → BothSound s
    → BothSound (rebuild_aggregated s)
      × ((k : BinaryPrefix) (q : ℕ) → observed (rebuild_aggregated s) k q ≡ observed s k q)
      × ((k : BinaryPrefix) → exported (rebuild_aggregated s) k ≡ exported s k)
unfolding rebuild_aggregated observed exported table_observed
rebuild_aggregated_lem s v =
    let (sound_v4, same_v4, exports_v4) = rebuild_table_lem s.table_v4 v.sound_v4 in
    let (sound_v6, same_v6, exports_v6) = rebuild_table_lem s.table_v6 v.sound_v6 in
    (
      record { sound_v4 = sound_v4; sound_v6 = sound_v6 },
      λ k q. elim k as (λ b. observed (rebuild_aggregated s) b q ≡ observed s b q) [
        | v4 x ↦ ap (λ m. seen (get_or empty_record (find x m)) q) same_v4
        | v6 x ↦ ap (λ m. seen (get_or empty_record (find x m)) q) same_v6
      ],
      λ k. elim k as (λ b. exported (rebuild_aggregated s) b ≡ exported s b) [
        | v4 x ↦ exports_v4 x
        | v6 x ↦ exports_v6 x
      ],
    )
