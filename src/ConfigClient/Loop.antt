-- ===== src/ConfigClient/Loop.antt =====
-- The timer of src/gateway/config_client.js: `start`, `stop` and `scheduleNext`. A tick runs
-- between the firing of the timer and the settling of its promise; `stop` may come in between.
use collectivus.Prelude.{
  ℕ, zero, suc, ◌*◌, ◌≤◌, ◌<◌, ◌≡◌, refl, Bool, true, false, Option, none, some, List, [], ◌∷◌,
  arith, inl, inr, ◌⊎◌, All,
}
use collectivus.ConfigClient.{Client, World, run_tick, record_network_failure}

-- The fields of the loop: the milliseconds of the armed timer, the flag, the ticks in flight.
pub record Loop {ℓ} (C : Type ℓ) : Type ℓ where
  pub client : Client C
  pub timer : Option ℕ
  pub stopped : Bool
  pub in_flight : ℕ

pub data Event {ℓ} (C : Type ℓ) : Type ℓ where
  start stop fire : Event C
  settle : World C → Event C

module _ {ℓ} {C : Type ℓ} where
  abbrev pub arm_unless : Bool → ℕ → Loop C → Loop C
  arm_unless true delay l = l
  arm_unless false delay l = record l { timer = some (delay * 1000) }

  -- `scheduleNext`
  abbrev pub schedule_next : ℕ → Loop C → Loop C
  schedule_next delay l = arm_unless l.stopped delay l

  -- The timer's callback, if one is armed.
  abbrev pub fire_timer : Option ℕ → Loop C → Loop C
  fire_timer none l = l
  fire_timer (some ms) l = record l { timer = none; in_flight = suc l.in_flight }

  -- `.then` and `.catch` of the tick: its delay, or one more network failure where it threw.
  abbrev pub settled : Option ℕ × Client C → Loop C → Loop C
  settled (some delay, c) l = schedule_next delay (record l { client = c })
  settled (none, c) l =
      let failed = record_network_failure c in
      schedule_next failed.0 (record l { client = failed.1 })

  module _ (poll_interval : ℕ) (is_valid : C → Bool) where
    abbrev pub settle_tick : ℕ → World C → Loop C → Loop C
    settle_tick zero w l = l
    settle_tick (suc n) w l =
        settled (run_tick poll_interval is_valid w l.client) (record l { in_flight = n })

    pub handle : Event C → Loop C → Loop C
    handle start l = schedule_next 0 (record l { stopped = false })
    handle stop l = record l { stopped = true; timer = none }
    handle fire l = fire_timer l.timer l
    handle (settle w) l = settle_tick l.in_flight w l

    abbrev pub handle_all : List (Event C) → Loop C → Loop C
    handle_all [] l = l
    handle_all (e ∷ es) l = handle_all es (handle e l)

  -- A loop that is not stopped has a timer or a tick; one that is stopped has no timer.
  abbrev pub IsAlive : Loop C → Type 0
  IsAlive l =
      ((l.stopped ≡ true) × (l.timer ≡ none))
      ⊎ ((l.stopped ≡ false) × (((ms : ℕ) × (l.timer ≡ some ms)) ⊎ (0 < l.in_flight)))

  arm_unless-IsAlive :
      (b : Bool) (delay : ℕ) (l : Loop C)
      → l.stopped ≡ b
      → (l.stopped ≡ false) ⊎ (l.timer ≡ none)
      → IsAlive (arm_unless b delay l)
  arm_unless-IsAlive true delay l e (inl f) = absurd (ground (arith, e, f))
  arm_unless-IsAlive true delay l e (inr f) = inl (e, f)
  arm_unless-IsAlive false delay l e h = inr (e, inl (delay * 1000, refl))

  quiet : (l : Loop C) → IsAlive l → (l.stopped ≡ false) ⊎ (l.timer ≡ none)
  quiet l (inl (s, t)) = inr t
  quiet l (inr (s, h)) = inl s

  fire_timer-IsAlive :
      (o : Option ℕ) (l : Loop C) → l.timer ≡ o → IsAlive l → IsAlive (fire_timer o l)
  fire_timer-IsAlive none l e h = h
  fire_timer-IsAlive (some ms) l e (inl (s, t)) = absurd (ground (arith, e, t))
  fire_timer-IsAlive (some ms) l e (inr (s, h)) = inr (s, inr (omega arith))

  settled-IsAlive :
      (x : Option ℕ × Client C) (l : Loop C)
      → (l.stopped ≡ false) ⊎ (l.timer ≡ none)
      → IsAlive (settled x l)
  settled-IsAlive (some delay, c) l h =
      arm_unless-IsAlive l.stopped delay (record l { client = c }) refl h
  settled-IsAlive (none, c) l h =
      arm_unless-IsAlive l.stopped (record_network_failure c).0
        (record l { client = (record_network_failure c).1 }) refl h

  -- Stopped, with no timer, and no more ticks in flight than there were.
  abbrev pub IsEnding : ℕ → Loop C → Type 0
  IsEnding n l = (l.stopped ≡ true) × (l.timer ≡ none) × (l.in_flight ≤ n)

  abbrev pub is_no_start : Event C → Bool
  is_no_start start = false
  is_no_start _ = true

  arm_unless-IsEnding :
      (b : Bool) (n delay : ℕ) (l : Loop C)
      → l.stopped ≡ b
      → IsEnding n l
      → IsEnding n (arm_unless b delay l)
  arm_unless-IsEnding true n delay l e h = h
  arm_unless-IsEnding false n delay l e (s, t, le) = absurd (ground (arith, e, s))

  settled-IsEnding :
      (n : ℕ) (x : Option ℕ × Client C) (l : Loop C) → IsEnding n l → IsEnding n (settled x l)
  settled-IsEnding n (some delay, c) l h =
      arm_unless-IsEnding l.stopped n delay (record l { client = c }) refl h
  settled-IsEnding n (none, c) l h =
      arm_unless-IsEnding l.stopped n (record_network_failure c).0
        (record l { client = (record_network_failure c).1 }) refl h

  fire_timer-IsEnding :
      (n : ℕ) (o : Option ℕ) (l : Loop C) → l.timer ≡ o → IsEnding n l → IsEnding n (fire_timer o l)
  fire_timer-IsEnding n none l e h = h
  fire_timer-IsEnding n (some ms) l e (s, t, le) = absurd (ground (arith, e, t))

  module _ (poll_interval : ℕ) (is_valid : C → Bool) where
    settle_tick-IsAlive :
        (n : ℕ) (w : World C) (l : Loop C)
        → IsAlive l
        → IsAlive (settle_tick poll_interval is_valid n w l)
    settle_tick-IsAlive zero w l h = h
    settle_tick-IsAlive (suc n) w l h =
        settled-IsAlive (run_tick poll_interval is_valid w l.client) (record l { in_flight = n })
          (quiet l h)

    settle_tick-IsEnding :
        (m n : ℕ) (w : World C) (l : Loop C)
        → n ≤ m
        → IsEnding m l
        → IsEnding m (settle_tick poll_interval is_valid n w l)
    settle_tick-IsEnding m zero w l le h = h
    settle_tick-IsEnding m (suc n) w l le (s, t, f) =
        settled-IsEnding m (run_tick poll_interval is_valid w l.client) (record l { in_flight = n })
          (s, t, omega (arith, le))

    handle-IsAlive :
        (e : Event C) (l : Loop C) → IsAlive l → IsAlive (handle poll_interval is_valid e l)
    unfolding handle
    handle-IsAlive start l h = inr (refl, inl (0, refl))
    handle-IsAlive stop l h = inl (refl, refl)
    handle-IsAlive fire l h = fire_timer-IsAlive l.timer l refl h
    handle-IsAlive (settle w) l h = settle_tick-IsAlive l.in_flight w l h

    -- The loop never dies: as long as it is not stopped there is an armed timer or a tick in flight,
    -- whatever the ticks meet and whenever the loop is stopped and started; and while it is stopped
    -- no timer is armed.
    pub handle_all-IsAlive :
        (es : List (Event C)) (l : Loop C)
        → IsAlive l
        → IsAlive (handle_all poll_interval is_valid es l)
    handle_all-IsAlive [] l h = h
    handle_all-IsAlive (e ∷ es) l h = handle_all-IsAlive es _ (handle-IsAlive e l h)

    handle-IsEnding :
        (n : ℕ) (e : Event C) (l : Loop C)
        → is_no_start e ≡ true
        → IsEnding n l
        → IsEnding n (handle poll_interval is_valid e l)
    unfolding handle
    handle-IsEnding n start l k h = cc
    handle-IsEnding n stop l k (s, t, le) = (refl, refl, le)
    handle-IsEnding n fire l k h = fire_timer-IsEnding n l.timer l refl h
    handle-IsEnding n (settle w) l k h = settle_tick-IsEnding n l.in_flight w l h.2 h

    All-IsEnding :
        (n : ℕ) (es : List (Event C)) (l : Loop C)
        → All (λ e. is_no_start e ≡ true) es
        → IsEnding n l
        → IsEnding n (handle_all poll_interval is_valid es l)
    All-IsEnding n [] l k h = h
    All-IsEnding n (e ∷ es) l (k, ks) h = All-IsEnding n es _ ks (handle-IsEnding n e l k h)

    -- After `stop`, and until `start` is called again, no timer is armed, and there are no more ticks
    -- in flight than there were at the stop.
    pub handle_all-stop :
        (es : List (Event C)) (l : Loop C)
        → All (λ e. is_no_start e ≡ true) es
        → IsEnding l.in_flight
            (handle_all poll_interval is_valid es (handle poll_interval is_valid stop l))
    handle_all-stop es l k =
        All-IsEnding l.in_flight es _ k (unfold handle in (refl, refl, omega arith))
