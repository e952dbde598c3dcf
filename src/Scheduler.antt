-- ===== src/Scheduler.antt =====
-- src/upload/scheduler.js: the daily timer in UTC. Times are milliseconds since the epoch; the tick
-- is a parameter through its outcome. `start` is called while no timer is armed, and the two readings
-- of the clock in `schedule` are one.
pub mod Delay
pub mod Tests
use collectivus.Prelude.{
  ℕ, zero, suc, ◌+◌, ◌-◌, ◌*◌, ◌/◌, ◌%◌, min, Bool, true, false, ◌&&◌, Option, none, some, List, [],
  ◌∷◌, ltb, leb, if◌then◌else◌, Text,
}

abbrev pub max_timeout : ℕ
max_timeout = 2_147_483_647

abbrev pub default_retry_delay_ms : ℕ
default_retry_delay_ms = 15 * 60 * 1000

abbrev pub day_ms : ℕ
day_ms = 86_400_000

abbrev pub is_digit : ℕ → Bool
is_digit c = leb b'0' c && leb c b'9'

abbrev pub in_range : ℕ → ℕ → Option (ℕ × ℕ)
in_range hh mm = if leb hh 23 && leb mm 59 then some (hh, mm) else none

-- `parseTime`; none where it throws.
pub parse_time : Text → Option (ℕ × ℕ)
parse_time (a ∷ b ∷ colon ∷ c ∷ d ∷ []) =
    if is_digit a
      && (is_digit b && (is_digit c && (is_digit d && (leb b':' colon && leb colon b':'))))
    then in_range ((a - b'0') * 10 + (b - b'0')) ((c - b'0') * 10 + (d - b'0'))
    else none
parse_time _ = none

-- `nextFireAt`: a day in UTC has 86,400,000 milliseconds.
pub next_fire_at : ℕ → ℕ → ℕ → ℕ
next_fire_at from hh mm =
    let next = from / day_ms * day_ms + (hh * 60 + mm) * 60_000 in
    if leb next from then next + day_ms else next

-- What a tick leads to: it reports a retry or not, or it throws.
pub data TickOutcome : Type 0 where
  done retry threw : TickOutcome

pub record Scheduler : Type 0 where
  pub last_retry : Bool
  pub stopped : Bool
  pub ticks : ℕ
  pub timer : Option (ℕ × ℕ)

abbrev pub asks_retry : TickOutcome → Bool
asks_retry done = false
asks_retry retry = true
asks_retry threw = true

-- `runTick`
abbrev pub run_tick : TickOutcome → Scheduler → Scheduler
run_tick outcome s =
    if s.stopped then s else record s { last_retry = asks_retry outcome; ticks = suc s.ticks }

module _ (hh mm retry_delay : ℕ) where
  -- The milliseconds to the next firing.
  abbrev pub delay_from : ℕ → Bool → ℕ
  delay_from now last_retry =
      let delay = next_fire_at now hh mm - now in
      if last_retry && ltb retry_delay delay then retry_delay else delay

  -- `schedule`: the timer holds the capped delay and the delay.
  pub schedule : ℕ → Scheduler → Scheduler
  schedule now s =
      let delay = delay_from now s.last_retry in
      if s.stopped then s else record s { timer = some (min delay max_timeout, delay) }

  -- The timer's callback: a capped delay only schedules again.
  abbrev pub on_timer : ℕ → TickOutcome → Option (ℕ × ℕ) → Scheduler → Scheduler
  on_timer now outcome none s = s
  on_timer now outcome (some (capped, delay)) s =
      let idle = record s { timer = none } in
      if s.stopped
      then idle
      else if ltb capped delay
      then schedule now idle
      else schedule now (run_tick outcome idle)

  -- `start`
  abbrev pub start : Bool → ℕ → TickOutcome → Scheduler → Scheduler
  start skip_initial_tick now outcome s =
      let ready = record s { stopped = false } in
      schedule now (if skip_initial_tick then ready else run_tick outcome ready)

  -- `stop`
  abbrev pub stop : Scheduler → Scheduler
  stop s = record s { stopped = true; timer = none }
