-- ===== src/Scheduler/Delay.antt =====
-- When the daily timer of src/upload/scheduler.js fires.
use collectivus.Prelude.{
  ℕ, suc, ◌+◌, ◌-◌, ◌*◌, ◌/◌, ◌%◌, ◌≤◌, ◌<◌, ◌≡◌, refl, ap, ◌∙◌, min, Bool, true, false, none, some,
  ltb, leb, if◌then◌else◌, arith, Bool-cases, inl, inr,
}
use collectivus.Scheduler.{
  max_timeout, day_ms, next_fire_at, Scheduler, TickOutcome, done, retry, threw, delay_from,
  schedule, on_timer, asks_retry,
}

-- The next firing is after the present moment, at most a day later, and at the configured time of a
-- day in UTC.
pub next_fire_at-bounds :
    (from hh mm : ℕ)
    → hh ≤ 23
    → mm ≤ 59
    → (from < next_fire_at from hh mm)
      × (next_fire_at from hh mm ≤ from + day_ms)
      × (next_fire_at from hh mm % day_ms ≡ (hh * 60 + mm) * 60_000)
unfolding next_fire_at
next_fire_at-bounds from hh mm h m =
    elim (Bool-cases (leb (from / day_ms * day_ms + (hh * 60 + mm) * 60_000) from)) [
      | inl e ↦ rw e (ground arith, ground arith, ground arith)
      | inr e ↦ rw e (ground arith, ground arith, ground arith)
    ]

if_false {ℓ} : {A : Type ℓ} (b : Bool) (x y : A) → b ≡ false → (if b then x else y) ≡ y
if_false true x y e = cc
if_false false x y e = refl

not_less : (n : ℕ) → ltb n n ≡ false
not_less n = ground arith

module _ (hh mm retry_delay : ℕ) (h : hh ≤ 23) (m : mm ≤ 59) where
  uncapped :
      (now : ℕ) (r : Bool)
      → min (delay_from hh mm retry_delay now r) max_timeout ≡ delay_from hh mm retry_delay now r
  uncapped now r = ground (arith, next_fire_at-bounds now hh mm h m)

  schedule-running :
      (now : ℕ) (s : Scheduler)
      → s.stopped ≡ false
      → schedule hh mm retry_delay now s ≡ (record s {
        timer = some (
          delay_from hh mm retry_delay now s.last_retry,
          delay_from hh mm retry_delay now s.last_retry,
        );
      })
  unfolding schedule
  schedule-running now s r =
      if_false s.stopped _ _ r
      ∙ ap (λ d. record s { timer = some (d, delay_from hh mm retry_delay now s.last_retry) })
          (uncapped now s.last_retry)

  armed-ticks :
      (d later : ℕ) (outcome : TickOutcome) (s : Scheduler)
      → s.stopped ≡ false
      → on_timer hh mm retry_delay later outcome (some (d, d)) s ≡ (record s {
        ticks = suc s.ticks;
        last_retry = asks_retry outcome;
        timer = some (
          delay_from hh mm retry_delay later (asks_retry outcome),
          delay_from hh mm retry_delay later (asks_retry outcome),
        );
      })
  armed-ticks d later outcome s r =
      if_false s.stopped _ _ r
      ∙ if_false (ltb d d) _ _ (not_less d)
      ∙ ap (schedule hh mm retry_delay later) (if_false s.stopped _ _ r)
      ∙ schedule-running later
          (record s { timer = none; last_retry = asks_retry outcome; ticks = suc s.ticks }) r

-- The milliseconds after which the next tick comes, where the next configured time is so many away:
-- after a tick that failed or asked for a retry, the delay of a retry if that is sooner.
abbrev pub fires_in : TickOutcome → ℕ → ℕ → ℕ
fires_in done retry_delay away = away
fires_in retry retry_delay away = min retry_delay away
fires_in threw retry_delay away = min retry_delay away

delay_from-fires_in :
    (hh mm retry_delay later : ℕ) (outcome : TickOutcome)
    → delay_from hh mm retry_delay later (asks_retry outcome)
      ≡ fires_in outcome retry_delay (next_fire_at later hh mm - later)
delay_from-fires_in hh mm retry_delay later done = refl
delay_from-fires_in hh mm retry_delay later retry = ground arith
delay_from-fires_in hh mm retry_delay later threw = ground arith

-- The state behind a firing of the timer: a tick more and a timer that is not capped, to fire when
-- the next configured time t or the retry comes.
abbrev pub Rearmed : ℕ → ℕ → ℕ → ℕ → TickOutcome → Scheduler → Scheduler → Type 0
Rearmed hh mm retry_delay later outcome s s' =
    (t : ℕ) × (later < t)
    × (t ≤ later + day_ms)
    × (t % day_ms ≡ (hh * 60 + mm) * 60_000)
    × (s' ≡ (record s {
      ticks = suc s.ticks;
      last_retry = asks_retry outcome;
      timer =
          some (fires_in outcome retry_delay (t - later), fires_in outcome retry_delay (t - later));
    }))

-- Each firing of the timer of a running scheduler runs the tick once and arms the timer again: for
-- the configured time of a day in UTC that comes within a day, or, if the tick failed or asked for a
-- retry and that comes sooner, for the delay of a retry. The cap of the delay never makes it fire
-- without a tick. The configured time is one of the day, 00:00 to 23:59.
pub on_timer-ticks :
    (hh mm retry_delay now later : ℕ) (outcome : TickOutcome) (s : Scheduler)
    → hh ≤ 23
    → mm ≤ 59
    → s.stopped ≡ false
    → Rearmed hh mm retry_delay later outcome s (
        on_timer hh mm retry_delay later outcome
          (schedule hh mm retry_delay now s).timer
          (schedule hh mm retry_delay now s))
on_timer-ticks hh mm retry_delay now later outcome s h m r =
    let (after, within, at_time) = next_fire_at-bounds later hh mm h m in
    let armed = delay_from hh mm retry_delay now s.last_retry in
    (
      next_fire_at later hh mm,
      after,
      within,
      at_time,
      ap (λ x. on_timer hh mm retry_delay later outcome x.timer x)
            (schedule-running hh mm retry_delay h m now s r)
          ∙ armed-ticks hh mm retry_delay h m armed later outcome
              (record s { timer = some (armed, armed) }) r
          ∙ ap
              (λ d. record s {
                ticks = suc s.ticks;
                last_retry = asks_retry outcome;
                timer = some (d, d);
              })
              (delay_from-fires_in hh mm retry_delay later outcome),
    )
