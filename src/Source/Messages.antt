-- ===== src/Source/Messages.antt =====
-- src/source/ris_live_websocket_source.cpp: which message `next_message` gives.
use asnprefix_map.Base.{ℕ, suc, ◌+◌, ◌-◌, ◌<◌, ◌≤◌, ◌≡◌, true, false, Option, none, some, Bytes}
use asnprefix_map.Source.{Network, Source}
use asnprefix_map.Source.Backoff.{IsValid}
use asnprefix_map.Source.Reconnect.{StopsFrom}
use asnprefix_map.Source.Connecting.{owed, GaveUp}

-- What the reads from `from` on have given before read `to`: nothing.
abbrev pub Missed : Network → ℕ → ℕ → Type 0
Missed net from to = (n : ℕ) → from ≤ n → n < to → net.read n ≡ none

-- The message is that of the last read, and the reads before it had none; or no read had one, and the
-- call gave up. Each read that threw was followed by a dial, but for the last one of a call that gave
-- up, and a connection that was down before the call was dialled.
abbrev pub Received : Network → Source → Source → Option Bytes → Type 0
Received net s t none =
    Missed net s.reads t.reads
    × (s.reads ≤ t.reads)
    × (s.dials + owed s + (t.reads - s.reads) ≤ t.dials + 1)
    × GaveUp net s t
Received net s t (some text) =
    (k : ℕ) × (t.reads ≡ suc k)
    × (s.reads ≤ k)
    × (net.read k ≡ some text)
    × Missed net s.reads k
    × (t.connected ≡ true)
    × (s.dials + owed s + (k - s.reads) ≤ t.dials)

module _ (net : Network) where
  -- The state behind a read that throws, where the reads of the rest begin.
  record Dropped (s u : Source) : Type 0 where
    reads : u.reads ≡ s.reads + 1
    polled : s.polls ≤ u.polls
    down : u.connected ≡ false
    dialled : s.dials + owed s ≤ u.dials
    enabled : u.reconnect_enabled ≡ s.reconnect_enabled
    attempts : u.reconnect_max_attempts ≡ s.reconnect_max_attempts

  module _ (k : ℕ) (stops : StopsFrom net k) where
    abbrev Gives : Source → Option (Source × Option Bytes) → Type 0
    Gives s result =
        (t : Source) × (got : Option Bytes) × (result ≡ some (t, got))
        × IsValid t
        × Received net s t got
