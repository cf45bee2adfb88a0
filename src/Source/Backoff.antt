-- ===== src/Source/Backoff.antt =====
-- src/source/ris_live_websocket_source.cpp: the connection state and the reconnection loop.
use asnprefix_map.Base.{
  ℕ, ◌+◌, ◌-◌, ◌<◌, ◌≤◌, ◌≡◌, refl, Bool, true, false, not, ◌&&◌, subst, sym, some, arith, inl, inr,
  Bool-cases, ◌==◌, nat_eq, leb,
}
use asnprefix_map.Source.{
  Network, Source, Round, over, again, shutdown_requested, connect, send_subscribe,
  connect_and_subscribe, settle_connection, reset_connection, next_delay, after_failure,
  try_attempt, delay_attempt, wait_and_attempt, backoff_round,
}
use asnprefix_map.Source.Sleep.{Sleeps, sleep_with_stop_lem, last_poll}

-- The delays are in range, a connection that is up has its stream, and a connection that is down
-- after an attempt makes the next one wait.
pub record IsValid (s : Source) : Type 0 where
  pub initial : s.reconnect_initial_delay_ms ≤ s.reconnect_max_delay_ms
  pub delay : s.next_reconnect_delay_ms ≤ s.reconnect_max_delay_ms
  pub stream : s.connected ≡ true → s.websocket ≡ true
  pub waits : s.connected ≡ false → 1 ≤ s.dials → s.delay_before_reconnect ≡ true

-- What no call changes.
pub record Keeps (s t : Source) : Type 0 where
  pub enabled : t.reconnect_enabled ≡ s.reconnect_enabled
  pub initial : t.reconnect_initial_delay_ms ≡ s.reconnect_initial_delay_ms
  pub largest : t.reconnect_max_delay_ms ≡ s.reconnect_max_delay_ms
  pub attempts : t.reconnect_max_attempts ≡ s.reconnect_max_attempts
  pub reads : t.reads ≡ s.reads

-- One attempt, numbered `attempt` and waited for with `delay_ms`, from `s`.
pub data Attempted (net : Network) (attempt delay_ms : ℕ) (s : Source) : Round → Type 0 where
  stopped :
      (t : Source)
      → IsValid t
      → Keeps s t
      → s.polls < t.polls
      → t.dials ≡ s.dials
      → net.stop (t.polls - 1) ≡ true
      → Attempted net attempt delay_ms s (over (t, false))
  attached :
      (t : Source)
      → IsValid t
      → Keeps s t
      → s.polls < t.polls
      → t.dials ≡ s.dials + 1
      → t.connected ≡ true
      → Attempted net attempt delay_ms s (over (t, true))
  gave_up :
      (t : Source)
      → IsValid t
      → Keeps s t
      → s.polls < t.polls
      → t.dials ≡ s.dials + 1
      → 1 ≤ s.reconnect_max_attempts
      → s.reconnect_max_attempts ≤ attempt
      → Attempted net attempt delay_ms s (over (t, false))
  failed :
      (t : Source) (delay : ℕ)
      → IsValid t
      → Keeps s t
      → s.polls < t.polls
      → t.dials ≡ s.dials + 1
      → (1 ≤ s.reconnect_max_attempts → attempt < s.reconnect_max_attempts)
      → t.next_reconnect_delay_ms ≡ delay
      → t.connected ≡ false
      → delay ≡ next_delay delay_ms s
      → Attempted net attempt delay_ms s (again delay t)

module _ (net : Network) where
  -- What `connect_and_subscribe` leaves.
  pub record Tried (s t : Source) (up : Bool) : Type 0 where
    pub keeps : Keeps s t
    pub polls : t.polls ≡ s.polls
    pub dials : t.dials ≡ s.dials + 1
    pub delay : t.next_reconnect_delay_ms ≡ s.next_reconnect_delay_ms
    pub connection : up ≡ true → (t.connected ≡ true) × (t.websocket ≡ true)

  pub connect_and_subscribe_lem :
      (s : Source) → Tried s (connect_and_subscribe net s).0 (connect_and_subscribe net s).1
  unfolding connect_and_subscribe connect send_subscribe
  connect_and_subscribe_lem s = ground arith

  -- The callback and the sleep leave the connection as it is.
  record Waited (s w : Source) : Type 0 where
    valid : IsValid w
    keeps : Keeps s w
    polled : s.polls < w.polls
    dials : w.dials ≡ s.dials

  after_failure_lem :
      (attempt delay_ms : ℕ) (s w t : Source)
      → Waited s w
      → Tried w t false
      → Attempted net attempt delay_ms s (after_failure attempt delay_ms t)
  unfolding after_failure reset_connection next_delay
  after_failure_lem attempt delay_ms s w t v tried =
      let m = t.reconnect_max_attempts in
      elim (Bool-cases (not (m == 0) && leb m attempt)) [
        | inl last ↦
            rw (last, after_failure)
              (gave_up (reset_connection t) (ground arith) (ground arith) (ground arith)
                (ground arith) (ground arith) (ground arith))
        | inr more ↦
            rw (more, after_failure)
              (failed _ _ (ground arith) (ground arith) (ground arith) (ground arith) (ground arith)
                refl refl (ground arith))
      ]

  try_attempt_lem :
      (attempt delay_ms : ℕ) (s w : Source)
      → Waited s w
      → Attempted net attempt delay_ms s (try_attempt net attempt delay_ms w)
  unfolding try_attempt settle_connection
  try_attempt_lem attempt delay_ms s w v =
      let t = (connect_and_subscribe net w).0 in
      let tried = connect_and_subscribe_lem w in
      elim (Bool-cases (connect_and_subscribe net w).1) [
        | inl e ↦
            rw (e, try_attempt)
              (attached (settle_connection t) (ground (arith, tried.connection e)) (ground arith)
                (ground arith) (ground arith) (ground (arith, tried.connection e)))
        | inr e ↦ rw (e, try_attempt) (after_failure_lem attempt delay_ms s w t v (rw e at tried))
      ]

  -- The callback and the sleep leave what `connect` reads.
  slept_Waited :
      (d : ℕ) (s a w : Source) (b : Bool)
      → IsValid s
      → a ≡ record s { polls = s.polls + 1 }
      → Sleeps net d a w b
      → Waited s w
  slept_Waited d s a w b v e z =
      let valid : IsValid (record s { polls = w.polls; slept = w.slept }) = ground arith in
      let frame : w ≡ record s { polls = w.polls; slept = w.slept } = ground (arith, z.frame) in
      record {
        valid = subst IsValid (sym frame) valid;
        keeps = ground (arith, frame);
        polled = ground (arith, z.polled);
        dials = ground (arith, frame);
      }

  wait_and_attempt_lem :
      (attempt delay_ms : ℕ) (flag : Bool) (s a : Source)
      → IsValid s
      → a ≡ record s { polls = s.polls + 1 }
      → (r : Round) × (wait_and_attempt net attempt delay_ms flag a ≡ some r)
        × Attempted net attempt delay_ms s r
  unfolding wait_and_attempt delay_attempt
  wait_and_attempt_lem attempt delay_ms false s a v e = (
    try_attempt net attempt delay_ms a,
    refl,
    try_attempt_lem attempt delay_ms s a (record {
      valid = subst IsValid (sym e) (ground arith);
      keeps = ground (arith, e);
      polled = ground (arith, e);
      dials = ground (arith, e);
    }),
  )
  wait_and_attempt_lem attempt delay_ms true s a v e =
      let (w, b, runs, z) = sleep_with_stop_lem net delay_ms a in
      let h = slept_Waited delay_ms s a w b v e z in
      elim (Bool-cases b) [
        | inl on ↦ (
          try_attempt net attempt delay_ms w,
          rw (runs, on, wait_and_attempt),
          try_attempt_lem attempt delay_ms s w h,
        )
        | inr off ↦
            let stop : net.stop (w.polls - 1) ≡ true = rw off at z.asked in
            (
              over (w, false),
              rw (runs, off, wait_and_attempt),
              stopped w h.valid h.keeps h.polled h.dials stop,
            )
      ]

  -- One round returns, or goes on after one attempt that failed.
  pub backoff_round_lem :
      (attempt delay_ms : ℕ) (flag : Bool) (s : Source)
      → IsValid s
      → (r : Round) × (backoff_round net attempt delay_ms flag s ≡ some r)
        × Attempted net attempt delay_ms s r
  unfolding backoff_round shutdown_requested
  backoff_round_lem attempt delay_ms flag s v =
      let a : Source = record s { polls = s.polls + 1 } in
      elim (Bool-cases (net.stop s.polls)) [
        | inl e ↦ (
          over (a, false),
          rw e,
          stopped a (ground arith) (ground arith) (omega arith) refl (rw (last_poll s.polls) e),
        )
        | inr e ↦
            let (r, runs, q) = wait_and_attempt_lem attempt delay_ms flag s a v refl in
            (r, rw e runs, q)
      ]
