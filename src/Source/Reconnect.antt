-- ===== src/Source/Reconnect.antt =====
-- src/source/ris_live_websocket_source.cpp: how often `reconnect_with_backoff` dials, and that it
-- returns.
use asnprefix_map.Base.{
  ℕ, zero, suc, ◌+◌, ◌-◌, ◌%◌, ◌^◌, ◌<◌, ◌≤◌, ◌≡◌, Bool, true, false, some, arith, inl, inr, ◌⊎◌,
  dec_lt,
}
use asnprefix_map.Source.{
  Network, Source, Round, over, again, shutdown_requested, backoff_round, backoff_rounds,
  reconnect_with_backoff,
}
use asnprefix_map.Source.Backoff.{
  IsValid, Keeps, Attempted, stopped, attached, gave_up, failed, backoff_round_lem,
}

-- The attempts are limited, and `attempt` of them have been made.
abbrev pub Limited : ℕ → Source → Type 0
Limited attempt s = (attempt < s.reconnect_max_attempts) × (s.reconnect_max_attempts < 2 ^ 64)

-- From poll `k` on the callback asks to stop.
abbrev pub StopsFrom : Network → ℕ → Type 0
StopsFrom net k = (n : ℕ) → k ≤ n → net.stop n ≡ true

-- What the loop leaves, started after `attempt` attempts.
pub record Reconnects (net : Network) (attempt : ℕ) (s t : Source) (up : Bool) : Type 0 where
  pub valid : IsValid t
  pub keeps : Keeps s t
  pub polled : s.polls < t.polls
  pub attached : up ≡ true → t.connected ≡ true
  pub no_fewer : s.dials ≤ t.dials
  pub one_more : up ≡ true → s.dials < t.dials
  pub dialled : Limited attempt s → t.dials + attempt ≤ s.dials + s.reconnect_max_attempts
  pub down :
      up ≡ false
      → (net.stop (t.polls - 1) ≡ true)
        ⊎ ((1 ≤ s.reconnect_max_attempts)
            × (Limited attempt s → t.dials + attempt ≡ s.dials + s.reconnect_max_attempts))

pub record Fails (attempt : ℕ) (s t : Source) : Type 0 where
  pub valid : IsValid t
  pub keeps : Keeps s t
  pub polled : s.polls < t.polls
  pub dials : t.dials ≡ s.dials + 1
  pub more : 1 ≤ s.reconnect_max_attempts → attempt < s.reconnect_max_attempts

-- The way that a round goes on, after `attempt` attempts before it.
abbrev After : Network → ℕ → Source → Round → Type 0
After net attempt s (over (t, up)) = Reconnects net attempt s t up
After net attempt s (again delay t) = Fails ((attempt + 1) % 2 ^ 64) s t

module _ (net : Network) where
  Attempted-After :
      (attempt delay_ms : ℕ) (s : Source) (r : Round)
      → Attempted net ((attempt + 1) % 2 ^ 64) delay_ms s r
      → After net attempt s r
  Attempted-After attempt delay_ms s r (stopped t v k p d e) = record {
    valid = v;
    keeps = k;
    polled = p;
    attached = λ h. cc;
    no_fewer = omega arith;
    one_more = λ h. absurd (cc);
    dialled = λ l. omega arith;
    down = λ h. inl e;
  }
  Attempted-After attempt delay_ms s r (attached t v k p d e) = record {
    valid = v;
    keeps = k;
    polled = p;
    attached = λ h. e;
    no_fewer = omega arith;
    one_more = λ h. omega arith;
    dialled = λ l. omega arith;
    down = λ h. cc;
  }
  Attempted-After attempt delay_ms s r (gave_up t v k p d m l) = record {
    valid = v;
    keeps = k;
    polled = p;
    attached = λ h. cc;
    no_fewer = omega arith;
    one_more = λ h. absurd (cc);
    dialled = λ h. omega arith;
    down = λ h. inr (m, λ h. omega arith);
  }
  Attempted-After attempt delay_ms s r (failed t delay v k p d m n c e) = record {
    valid = v;
    keeps = k;
    polled = p;
    dials = d;
    more = m;
  }

  Fails-Limited :
      (attempt : ℕ) (s u : Source)
      → Fails ((attempt + 1) % 2 ^ 64) s u
      → Limited attempt s
      → Limited ((attempt + 1) % 2 ^ 64) u
  Fails-Limited attempt s u f l =
      let more = f.more (omega arith) in
      (omega (arith, more, f.keeps.attempts), omega (arith, f.keeps.attempts))

  -- A round that goes on counts for the loop behind it.
  Fails-Reconnects :
      (attempt : ℕ) (s u t : Source) (up : Bool)
      → Fails ((attempt + 1) % 2 ^ 64) s u
      → Reconnects net ((attempt + 1) % 2 ^ 64) u t up
      → Reconnects net attempt s t up
  Fails-Reconnects attempt s u t up f r = record {
    valid = r.valid;
    keeps = ground (arith, f.keeps, r.keeps);
    polled = omega (arith, f.polled, r.polled);
    attached = r.attached;
    no_fewer = omega (arith, f.dials, r.no_fewer);
    one_more = λ h. omega (arith, f.dials, r.no_fewer);
    dialled =
        λ l. omega (arith, f.dials, f.keeps.attempts, r.dialled (Fails-Limited attempt s u f l));
    down = λ h. elim (r.down h) [
      | inl e ↦ inl e
      | inr (m, exact) ↦ inr (
        omega (arith, f.keeps.attempts),
        λ l. omega (arith, f.dials, f.keeps.attempts, exact (Fails-Limited attempt s u f l)),
      )
    ];
  }

  -- The loop has rounds enough: for the attempts that are left, or for the polls before poll `k`.
  abbrev pub Enough : ℕ → ℕ → Source → Type 0
  Enough fuel attempt s =
      (Limited attempt s × (s.reconnect_max_attempts ≤ attempt + fuel))
      ⊎ ((k : ℕ) × StopsFrom net k × (1 ≤ fuel) × (k < s.polls + fuel))

  stopped_round :
      (attempt delay_ms : ℕ) (flag : Bool) (s : Source)
      → net.stop s.polls ≡ true
      → backoff_round net attempt delay_ms flag s
        ≡ some (over (record s { polls = s.polls + 1 }, false))
  unfolding backoff_round shutdown_requested
  stopped_round attempt delay_ms flag s e = rw e

  Fails-Enough :
      (fuel attempt delay_ms delay : ℕ) (flag : Bool) (s u : Source)
      → Fails ((attempt + 1) % 2 ^ 64) s u
      → backoff_round net ((attempt + 1) % 2 ^ 64) delay_ms flag s ≡ some (again delay u)
      → Enough (suc fuel) attempt s
      → Enough fuel ((attempt + 1) % 2 ^ 64) u
  Fails-Enough fuel attempt delay_ms delay flag s u f runs (inl (l, e)) =
      let l' = Fails-Limited attempt s u f l in inl (l', omega (arith, f.keeps.attempts))
  Fails-Enough fuel attempt delay_ms delay flag s u f runs (inr (k, stops, pos, e)) =
      elim (dec_lt s.polls k) [
        | yes before ↦ inr (k, stops, omega arith, omega (arith, f.polled))
        | no after ↦
            let stop =
              stopped_round ((attempt + 1) % 2 ^ 64) delay_ms flag s
                (stops s.polls (omega arith)) in
            absurd (cc (stop, runs))
      ]

  rounds_lem :
      (fuel attempt delay_ms : ℕ) (flag : Bool) (s : Source)
      → IsValid s
      → Enough fuel attempt s
      → (t : Source) × (up : Bool) × (backoff_rounds net fuel attempt delay_ms flag s
          ≡ some (t, up))
        × Reconnects net attempt s t up
  unfolding backoff_rounds
  rounds_lem zero attempt delay_ms flag s v (inl (l, e)) = absurd (omega arith)
  rounds_lem zero attempt delay_ms flag s v (inr (k, stops, pos, e)) = absurd (omega arith)
  rounds_lem (suc fuel) attempt delay_ms flag s v enough =
      let n = (attempt + 1) % 2 ^ 64 in
      let (r, runs, q) = backoff_round_lem net n delay_ms flag s v in
      round_ends fuel attempt delay_ms flag s r runs (Attempted-After attempt delay_ms s r q) enough
        (λ d u f e. rounds_lem fuel n d true u f.valid e)
    where
      round_ends :
          (fuel attempt delay_ms : ℕ) (flag : Bool) (s : Source) (r : Round)
          → backoff_round net ((attempt + 1) % 2 ^ 64) delay_ms flag s ≡ some r
          → After net attempt s r
          → Enough (suc fuel) attempt s
          → ((d : ℕ) (u : Source)
              → Fails ((attempt + 1) % 2 ^ 64) s u
              → Enough fuel ((attempt + 1) % 2 ^ 64) u
              → (t : Source) × (up : Bool) × (backoff_rounds net fuel
                    ((attempt + 1) % 2 ^ 64)
                    d
                    true
                    u
                  ≡ some (t, up))
                × Reconnects net ((attempt + 1) % 2 ^ 64) u t up)
          → (t : Source) × (up : Bool) × (backoff_rounds net (suc fuel) attempt delay_ms flag s
              ≡ some (t, up))
            × Reconnects net attempt s t up
      round_ends fuel attempt delay_ms flag s (over (t, up)) runs after enough rest =
          (t, up, rw (runs, backoff_rounds), after)
      round_ends fuel attempt delay_ms flag s (again d u) runs after enough rest =
          let e = Fails-Enough fuel attempt delay_ms d flag s u after runs enough in
          let (t, up, more, h) = rest d u after e in
          (t, up, rw (runs, backoff_rounds) more, Fails-Reconnects attempt s u t up after h)

  -- From a valid state, where the attempts are limited (and the limit fits in 64 bits) and a round is
  -- given for each, or where the callback asks to stop from some poll on and a round is given for each
  -- poll before it: the loop returns, in a valid state and with the settings kept. It returns true
  -- only with a connection, for which it has dialled. With a limit it dials at most that often, and it
  -- returns false only when the last poll said to stop, or there is a limit and it was reached.
  pub reconnect_with_backoff_lem :
      (fuel : ℕ) (s : Source)
      → IsValid s
      → Enough fuel 0 s
      → (t : Source) × (up : Bool) × (reconnect_with_backoff net fuel s ≡ some (t, up))
        × Reconnects net 0 s t up
  unfolding reconnect_with_backoff
  reconnect_with_backoff_lem fuel s v enough =
      rounds_lem fuel 0 s.next_reconnect_delay_ms s.delay_before_reconnect s v enough
