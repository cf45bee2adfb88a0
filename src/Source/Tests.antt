-- ===== src/Source/Tests.antt =====
-- A network whose first dial is refused, whose first read throws and whose second one has a message;
-- the callback asks to stop from its tenth call on.
use asnprefix_map.Base.{◌≡◌, Bool, true, none, some, arith, inl, leb, ◌==◌, nat_eq, if◌then◌else◌}
use asnprefix_map.Base.Text.{codes}
use asnprefix_map.Source.{
  Network, Source, refused, opened, new_source, sleep_with_stop, reconnect_with_backoff,
}
use asnprefix_map.Source.Sleep.{Sleeps, sleep_with_stop_lem}
use asnprefix_map.Source.Backoff.{IsValid}
use asnprefix_map.Source.Reconnect.{Reconnects, reconnect_with_backoff_lem}

abbrev flaky : Network
flaky = record {
  stop = λ n. leb 10 n;
  dial = λ n. if n == 0 then refused else opened;
  write = λ n. true;
  read = λ n. if n == 1 then some (codes "{}") else none;
}

-- Two attempts, 50 ms before the second one.
abbrev start : Source
start = new_source true 50 400 2

start-IsValid : IsValid start
unfolding new_source
start-IsValid = ground arith

sleep_with_stop_lem_example :
    (t : Source) × (slept : Bool) × (sleep_with_stop flaky 250 start ≡ some (t, slept))
    × Sleeps flaky 250 start t slept
sleep_with_stop_lem_example = sleep_with_stop_lem flaky 250 start

reconnect_with_backoff_lem_example :
    (t : Source) × (up : Bool) × (reconnect_with_backoff flaky 2 start ≡ some (t, up))
    × Reconnects flaky 0 start t up
unfolding new_source
reconnect_with_backoff_lem_example =
    reconnect_with_backoff_lem flaky 2 start start-IsValid
      (inl ((omega arith, omega arith), omega arith))
