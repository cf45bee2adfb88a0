-- ===== src/Source.antt =====
-- src/source/ris_live_websocket_source.h and src/source/ris_live_websocket_source.cpp: the class
-- `RisLiveWebSocketSource`. What the network does and what the shutdown callback answers are
-- parameters: the outcome of each call, by the number of calls before it. An exception is the
-- result `false` beside the state that it leaves.
pub mod Sleep
pub mod Backoff
pub mod Reconnect
pub mod Connecting
pub mod Messages
mod Tests
use asnprefix_map.Base.{
  ℕ, zero, suc, ◌+◌, ◌-◌, ◌*◌, ◌%◌, ◌^◌, Bool, true, false, not, ◌&&◌, ◌||◌, Option, none, some,
  List, [], ◌∷◌, ◌++◌, min, max, Bytes, leb, ◌==◌, nat_eq, if◌then◌else◌,
}

-- How `connect` ends: the resolver throws, a later call throws, or none does.
pub data Dial : Type 0 where
  unresolved refused opened : Dial

pub record Network : Type 0 where
  -- The answers of `shutdown_requested_`; an empty `std::function` never asks to stop.
  pub stop : ℕ → Bool
  pub dial : ℕ → Dial
  -- Whether the write of the subscription succeeds.
  pub write : ℕ → Bool
  -- What `read` receives, or nothing where it throws.
  pub read : ℕ → Option Bytes

-- The fields of the object; `websocket` says that `websocket_` is not null. Behind them stand how
-- often the parameters have been called, and the sleeps so far, the last in front.
pub record Source : Type 0 where
  pub reconnect_enabled : Bool
  pub reconnect_initial_delay_ms : ℕ
  pub reconnect_max_delay_ms : ℕ
  pub reconnect_max_attempts : ℕ
  pub next_reconnect_delay_ms : ℕ
  pub delay_before_reconnect : Bool
  pub websocket : Bool
  pub buffer : Bytes
  pub connected : Bool
  pub polls : ℕ
  pub dials : ℕ
  pub writes : ℕ
  pub reads : ℕ
  pub slept : List ℕ

-- The constructor.
unfoldable pub new_source : Bool → ℕ → ℕ → ℕ → Source
new_source enabled initial_delay max_delay max_attempts = record {
  reconnect_enabled = enabled;
  reconnect_initial_delay_ms = initial_delay;
  reconnect_max_delay_ms = max initial_delay max_delay;
  reconnect_max_attempts = max_attempts;
  next_reconnect_delay_ms = initial_delay;
  delay_before_reconnect = false;
  websocket = false;
  buffer = [];
  connected = false;
  polls = 0;
  dials = 0;
  writes = 0;
  reads = 0;
  slept = [];
}

unfoldable pub reset_connection : Source → Source
reset_connection s = record s {
  connected = false;
  delay_before_reconnect = true;
  websocket = false;
  buffer = [];
}

-- The doubled delay, on a `std::size_t`, cut at the largest one.
unfoldable pub next_delay : ℕ → Source → ℕ
next_delay delay_ms s = min ((delay_ms * 2) % 2 ^ 64) s.reconnect_max_delay_ms

-- A connection that is up: the delay starts anew.
unfoldable pub settle_connection : Source → Source
settle_connection s = record s {
  next_reconnect_delay_ms = s.reconnect_initial_delay_ms;
  delay_before_reconnect = false;
}

-- How a round of the reconnection loop ends: the loop returns, or goes on with a delay.
pub data Round : Type 0 where
  over : Source × Bool → Round
  again : ℕ → Source → Round

-- What a failed attempt leaves.
unfoldable pub after_failure : ℕ → ℕ → Source → Round
after_failure attempt delay_ms tried =
    let down = reset_connection tried in
    let delay = next_delay delay_ms down in
    if not (down.reconnect_max_attempts == 0) && leb down.reconnect_max_attempts attempt
    then over (down, false)
    else again delay (record down { next_reconnect_delay_ms = delay })

module _ (net : Network) where
  unfoldable pub shutdown_requested : Source → Source × Bool
  shutdown_requested s = (record s { polls = s.polls + 1 }, net.stop s.polls)

  unfoldable pub connect : Source → Source × Bool
  connect s = elim (net.dial s.dials) [
    | unresolved ↦ (record s { dials = s.dials + 1 }, false)
    | refused ↦ (record s { dials = s.dials + 1; websocket = true }, false)
    | opened ↦ (record s { dials = s.dials + 1; websocket = true; connected = true }, true)
  ]

  unfoldable pub send_subscribe : Source → Source × Bool
  send_subscribe s =
      if not s.connected || not s.websocket
      then (s, false)
      else (record s { writes = s.writes + 1 }, net.write s.writes)

  -- The body of the `try` blocks, up to the subscription.
  unfoldable pub connect_and_subscribe : Source → Source × Bool
  connect_and_subscribe s =
      let tried = connect s in if tried.1 then send_subscribe tried.0 else (tried.0, false)

  -- The loop of `sleep_with_stop`, a round for each unit of fuel.
  unfoldable pub sleep_rounds : ℕ → ℕ → Source → Option (Source × Bool)
  sleep_rounds zero remaining s = none
  sleep_rounds (suc fuel) remaining s =
      let asked = shutdown_requested s in
      let chunk = min remaining 100 in
      let rest =
        sleep_rounds fuel (remaining - chunk) (record asked.0 { slept = chunk ∷ asked.0.slept }) in
      if remaining == 0
      then some (asked.0, not asked.1)
      else if asked.1
      then some (asked.0, false)
      else rest

  -- The fuel is one more than the delay: each round but the last sleeps for a millisecond or more.
  unfoldable pub sleep_with_stop : ℕ → Source → Option (Source × Bool)
  sleep_with_stop delay_ms s = sleep_rounds (suc delay_ms) delay_ms s

  -- The wait before an attempt, if there is one.
  unfoldable pub delay_attempt : Bool → ℕ → Source → Option (Source × Bool)
  delay_attempt delay_before_attempt delay_ms s =
      if delay_before_attempt then sleep_with_stop delay_ms s else some (s, true)

  unfoldable pub try_attempt : ℕ → ℕ → Source → Round
  try_attempt attempt delay_ms waited =
      let (tried, up) = connect_and_subscribe waited in
      if up then over (settle_connection tried, true) else after_failure attempt delay_ms tried

  -- The wait and the attempt behind it.
  unfoldable pub wait_and_attempt : ℕ → ℕ → Bool → Source → Option Round
  wait_and_attempt attempt delay_ms delay_before_attempt s =
      elim (delay_attempt delay_before_attempt delay_ms s) [
        | none ↦ none
        | some (waited, go_on) ↦
            some (if go_on then try_attempt attempt delay_ms waited else over (waited, false))
      ]

  -- One round of the loop of `reconnect_with_backoff`, its number counted from 1.
  unfoldable pub backoff_round : ℕ → ℕ → Bool → Source → Option Round
  backoff_round attempt delay_ms delay_before_attempt s =
      let (asked, stop) = shutdown_requested s in
      if stop
      then some (over (asked, false))
      else wait_and_attempt attempt delay_ms delay_before_attempt asked

  -- The loop, a round for each unit of fuel.
  unfoldable pub backoff_rounds : ℕ → ℕ → ℕ → Bool → Source → Option (Source × Bool)
  backoff_rounds zero attempt delay_ms delay_before_attempt s = none
  backoff_rounds (suc fuel) attempt delay_ms delay_before_attempt s =
      let attempt' = (attempt + 1) % 2 ^ 64 in
      elim (backoff_round attempt' delay_ms delay_before_attempt s) [
        | none ↦ none
        | some (over result) ↦ some result
        | some (again delay down) ↦ backoff_rounds fuel attempt' delay true down
      ]

  unfoldable pub reconnect_with_backoff : ℕ → Source → Option (Source × Bool)
  reconnect_with_backoff fuel s =
      backoff_rounds fuel 0 s.next_reconnect_delay_ms s.delay_before_reconnect s

  -- The branch of `ensure_connected` without reconnection.
  unfoldable pub connect_once : Source → Source × Bool
  connect_once s =
      let (tried, up) = connect_and_subscribe s in
      if up then (settle_connection tried, true) else (reset_connection tried, false)

  unfoldable pub ensure_connected : ℕ → Source → Option (Source × Bool)
  ensure_connected fuel s =
      let (asked, stop) = shutdown_requested s in
      if s.connected && s.websocket
      then some (s, true)
      else if stop
      then some (asked, false)
      else if s.reconnect_enabled
      then reconnect_with_backoff fuel asked
      else some (connect_once asked)

  -- The body of the `try` block of `next_message`: the message, or a connection that is reset.
  unfoldable pub read_message : Source → Source × Option Bytes
  read_message s = elim (net.read s.reads) [
    | none ↦ (reset_connection (record s { buffer = []; reads = s.reads + 1 }), none)
    | some text ↦ (record s { buffer = text; reads = s.reads + 1 }, some text)
  ]

  -- The loop of `next_message`, a round for each unit of fuel; `backoff` is the fuel of each
  -- reconnection. The message is what `json` is set to where the source returns true.
  unfoldable pub next_message : ℕ → ℕ → Source → Option (Source × Option Bytes)
  next_message backoff zero s = none
  next_message backoff (suc fuel) s =
      let (asked, stop) = shutdown_requested s in
      if stop then some (asked, none) else elim (ensure_connected backoff asked) [
        | none ↦ none
        | some (ready, false) ↦ some (ready, none)
        | some (ready, true) ↦
            let (next, got) = read_message ready in
            elim got [ none ↦ next_message backoff fuel next | some text ↦ some (next, some text) ]
      ]
