-- ===== src/Source/Connecting.antt =====
-- src/source/ris_live_websocket_source.cpp: what `ensure_connected` leaves, and why it gives up.
use asnprefix_map.Base.{
  ℕ, ◌+◌, ◌-◌, ◌^◌, ◌<◌, ◌≤◌, ◌≡◌, refl, ◌⊎◌, if◌then◌else◌, Bool, true, false, ◌&&◌, some, arith,
  inl, inr, Bool-cases, dec_lt,
}
use asnprefix_map.Source.{
  Network, Source, shutdown_requested, connect_and_subscribe, settle_connection, reset_connection,
  connect_once, ensure_connected,
}
use asnprefix_map.Source.Sleep.{last_poll}
use asnprefix_map.Source.Backoff.{IsValid, Keeps, connect_and_subscribe_lem}
use asnprefix_map.Source.Reconnect.{Limited, StopsFrom, reconnect_with_backoff_lem}

-- The dial that has to come before the next read: one where the connection is down.
abbrev pub owed : Source → ℕ
owed s = if s.connected then 0 else 1

-- Why a call has given no message: the last poll, which is one of its own, said to stop; or without
-- reconnection an attempt of its own failed; or with it, the attempts are limited, and as many have
-- been made as the limit allows (where that fits in 64 bits).
abbrev pub GaveUp : Network → Source → Source → Type 0
GaveUp net s t =
    ((s.polls < t.polls) × (net.stop (t.polls - 1) ≡ true))
    ⊎ ((s.reconnect_enabled ≡ false) × (s.dials < t.dials))
    ⊎ ((s.reconnect_enabled ≡ true)
        × (1 ≤ s.reconnect_max_attempts)
        × ((2 ^ 64 ≤ s.reconnect_max_attempts) ⊎ (s.dials + s.reconnect_max_attempts ≤ t.dials)))

module _ (net : Network) where
  -- What `ensure_connected` leaves.
  pub record Ready (s t : Source) (up : Bool) : Type 0 where
    pub valid : IsValid t
    pub keeps : Keeps s t
    pub polled : s.polls ≤ t.polls
    pub connected : up ≡ true → t.connected ≡ true
    pub dialled : up ≡ true → s.dials + owed s ≤ t.dials
    pub no_fewer : s.dials ≤ t.dials
    pub down : up ≡ false → GaveUp net s t

  connect_once_lem :
      (s : Source)
      → IsValid s
      → s.reconnect_enabled ≡ false
      → Ready s (connect_once net s).0 (connect_once net s).1
  unfolding connect_once settle_connection reset_connection
  connect_once_lem s v once =
      let tried = connect_and_subscribe_lem net s in
      elim (Bool-cases (connect_and_subscribe net s).1) [
        | inl e ↦
            let up = tried.connection e in
            rw (e, connect_once)
              (record {
                valid = ground (arith, up);
                keeps = ground arith;
                polled = ground arith;
                connected = λ h. up.0;
                dialled = λ h. ground arith;
                no_fewer = ground arith;
                down = λ h. absurd (cc);
              })
        | inr e ↦
            rw (e, connect_once)
              (record {
                valid = ground arith;
                keeps = ground arith;
                polled = ground arith;
                connected = λ h. absurd (cc);
                dialled = λ h. absurd (cc);
                no_fewer = ground arith;
                down = λ h. inr (inl (once, ground arith));
              })
      ]

  -- One poll more in front.
  pub GaveUp-polled :
      (s t : Source) → GaveUp net (record s { polls = s.polls + 1 }) t → GaveUp net s t
  GaveUp-polled s t (inl (polled, stop)) = inl (omega arith, stop)
  GaveUp-polled s t (inr rest) = inr rest

  module _ (k : ℕ) (stops : StopsFrom net k) where
    -- The reason of the reconnection loop, started behind a poll.
    exhausted :
        (s t : Source)
        → s.reconnect_enabled ≡ true
        → s.polls < t.polls
        → (net.stop (t.polls - 1) ≡ true)
          ⊎ ((1 ≤ s.reconnect_max_attempts)
              × (Limited 0 s → t.dials + 0 ≡ s.dials + s.reconnect_max_attempts))
        → GaveUp net s t
    exhausted s t again polled (inl stop) = inl (polled, stop)
    exhausted s t again polled (inr (limited, all)) =
        elim (dec_lt s.reconnect_max_attempts (2 ^ 64)) [
          | yes fits ↦
              let made = all (omega arith, fits) in
              inr (inr (again, limited, inr (omega (arith, made))))
          | no huge ↦ inr (inr (again, limited, inl (omega arith)))
        ]

    pub ensure_connected_lem :
        (backoff : ℕ) (s : Source)
        → IsValid s
        → 1 ≤ backoff
        → k < s.polls + backoff
        → (t : Source) × (up : Bool) × (ensure_connected net backoff s ≡ some (t, up))
          × Ready s t up
    unfolding ensure_connected shutdown_requested
    ensure_connected_lem backoff s v pos enough =
        let a : Source = record s { polls = s.polls + 1 } in
        let valid : IsValid a = ground arith in
        elim (Bool-cases (s.connected && s.websocket)) [
          | inl e ↦ (
            s,
            true,
            rw e,
            record {
              valid = v;
              keeps = record {
                enabled = refl;
                initial = refl;
                largest = refl;
                attempts = refl;
                reads = refl;
              };
              polled = omega arith;
              connected = λ h. ground (arith, e);
              dialled = λ h. ground (arith, e);
              no_fewer = omega arith;
              down = λ h. absurd (cc);
            },
          )
          | inr e ↦ elim (Bool-cases (net.stop s.polls)) [
            | inl stop ↦ (
              a,
              false,
              rw (e, stop),
              record {
                valid = valid;
                keeps = ground arith;
                polled = omega arith;
                connected = λ h. absurd (cc);
                dialled = λ h. absurd (cc);
                no_fewer = omega arith;
                down = λ h. inl (omega arith, rw (last_poll s.polls) stop);
              },
            )
            | inr on ↦ elim (Bool-cases s.reconnect_enabled) [
              | inl again ↦
                  let (t, up, runs, h) =
                    reconnect_with_backoff_lem net backoff a valid
                      (inr (k, stops, pos, omega arith)) in
                  (
                    t,
                    up,
                    ground (arith, e, on, again, runs),
                    record {
                      valid = h.valid;
                      keeps = ground (arith, h.keeps);
                      polled = omega (arith, h.polled);
                      connected = h.attached;
                      dialled = λ u. ground (arith, h.one_more u);
                      no_fewer = h.no_fewer;
                      down = λ u. exhausted s t again (omega (arith, h.polled)) (h.down u);
                    },
                  )
              | inr once ↦
                  let h = connect_once_lem a valid once in
                  (
                    (connect_once net a).0,
                    (connect_once net a).1,
                    ground (arith, e, on, once),
                    record {
                      valid = h.valid;
                      keeps = ground (arith, h.keeps);
                      polled = omega (arith, h.polled);
                      connected = h.connected;
                      dialled = h.dialled;
                      no_fewer = h.no_fewer;
                      down = λ u. GaveUp-polled s (connect_once net a).0 (h.down u);
                    },
                  )
            ]
          ]
        ]
