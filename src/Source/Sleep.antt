-- ===== src/Source/Sleep.antt =====
-- src/source/ris_live_websocket_source.cpp: how long `sleep_with_stop` sleeps, and what it leaves.
use asnprefix_map.Base.{
  ℕ, zero, suc, ◌+◌, ◌-◌, ◌<◌, ◌≤◌, ◌≡◌, refl, Bool, true, false, not, some, List, [], ◌∷◌, arith,
  min, inl, inr, Bool-cases, nat_eq,
}
use asnprefix_map.Source.{Network, Source, shutdown_requested, sleep_rounds, sleep_with_stop}

-- The time of a list of sleeps.
abbrev pub total : List ℕ → ℕ
total [] = 0
total (n ∷ ns) = n + total ns

abbrev pub Chunks : List ℕ → Type 0
Chunks [] = Unit
Chunks (n ∷ ns) = (n ≤ 100) × Chunks ns

-- A sleep of at most `duration` from `s` to `t`: its result is the answer of the last poll, turned
-- round, and it lasts the whole duration unless it is stopped.
pub record Sleeps (net : Network) (duration : ℕ) (s t : Source) (slept : Bool) : Type 0 where
  pub frame : t ≡ record s { polls = t.polls; slept = t.slept }
  pub polled : s.polls < t.polls
  pub asked : net.stop (t.polls - 1) ≡ not slept
  pub at_most : total t.slept ≤ total s.slept + duration
  pub exactly : slept ≡ true → total t.slept ≡ total s.slept + duration
  pub chunks : Chunks s.slept → Chunks t.slept

pub last_poll : (n : ℕ) → n + 1 - 1 ≡ n
last_poll n = omega arith

double_negation : (b : Bool) → b ≡ not (not b)
double_negation true = refl
double_negation false = refl

module _ (net : Network) where
  -- With more fuel than milliseconds the loop returns.
  sleep_rounds_lem :
      (fuel remaining : ℕ) (s : Source)
      → remaining < fuel
      → (t : Source) × (slept : Bool) × (sleep_rounds net fuel remaining s ≡ some (t, slept))
        × Sleeps net remaining s t slept
  unfolding sleep_rounds shutdown_requested
  sleep_rounds_lem zero remaining s h = absurd (omega arith)
  sleep_rounds_lem (suc fuel) zero s h = (
    record s { polls = s.polls + 1 },
    not (net.stop s.polls),
    refl,
    record {
      frame = refl;
      polled = omega arith;
      asked = rw (last_poll s.polls) (double_negation (net.stop s.polls));
      at_most = omega arith;
      exactly = λ e. omega arith;
      chunks = λ c. c;
    },
  )
  sleep_rounds_lem (suc fuel) (suc r) s h = elim (Bool-cases (net.stop s.polls)) [
    | inl stop ↦ (
      record s { polls = s.polls + 1 },
      false,
      ground (arith, stop),
      record {
        frame = refl;
        polled = omega arith;
        asked = rw (last_poll s.polls) stop;
        at_most = omega arith;
        exactly = λ e. cc;
        chunks = λ c. c;
      },
    )
    | inr on ↦
        let chunk = min (suc r) 100 in
        let s' : Source = record s { polls = s.polls + 1; slept = chunk ∷ s.slept } in
        let (t, slept, runs, v) = sleep_rounds_lem fuel (suc r - chunk) s' (omega arith) in
        (
          t,
          slept,
          ground (arith, on, runs),
          record {
            frame = v.frame;
            polled = omega (arith, v.polled);
            asked = v.asked;
            at_most = omega (arith, v.at_most);
            exactly = λ e. omega (arith, v.exactly e);
            chunks = λ c. v.chunks (omega arith, c);
          },
        )
  ]

  -- A sleep always returns, and in chunks of at most 100 ms; it lasts the whole delay and the last
  -- poll said to go on, or it lasts at most the delay and the last poll said to stop. No field but
  -- the counts of polls and sleeps changes.
  pub sleep_with_stop_lem :
      (delay_ms : ℕ) (s : Source)
      → (t : Source) × (slept : Bool) × (sleep_with_stop net delay_ms s ≡ some (t, slept))
        × Sleeps net delay_ms s t slept
  unfolding sleep_with_stop
  sleep_with_stop_lem delay_ms s = sleep_rounds_lem (suc delay_ms) delay_ms s (omega arith)
