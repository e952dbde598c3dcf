-- ===== src/Scheduler/Tests.antt =====
-- The theorems on src/upload/scheduler.js at concrete inputs: 00:10 of the second day, and a tick
-- that asks for a retry.
use collectivus.Prelude.{◌≡◌, refl, false, none, some, text, arith}
use collectivus.Scheduler.{parse_time, Scheduler, retry, schedule, on_timer}
use collectivus.Scheduler.Delay.{Rearmed, on_timer-ticks}

ten_past : parse_time (text "00:10") ≡ some (0, 10)
unfolding parse_time
ten_past = refl

abbrev running : Scheduler
running = record { last_retry = false; stopped = false; ticks = 0; timer = none }

on_timer-ticks_example : Rearmed 0 10 900_000 87_000_000 retry running (
    on_timer 0 10 900_000 87_000_000 retry
      (schedule 0 10 900_000 1000 running).timer
      (schedule 0 10 900_000 1000 running))
on_timer-ticks_example =
    on_timer-ticks 0 10 900_000 1000 87_000_000 retry running (omega arith) (omega arith) refl
