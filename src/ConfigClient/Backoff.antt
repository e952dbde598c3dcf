-- ===== src/ConfigClient/Backoff.antt =====
-- The delays of src/gateway/config_client.js while the central server cannot be reached.
use collectivus.Prelude.{
  ℕ, zero, suc, ◌≡◌, refl, sym, ap, ap₂, subst, ◌∙◌, Bool, true, false, not, ◌&&◌, ◌||◌, Option,
  none, some, List, [], ◌∷◌, ltb, leb, ◌==◌, if◌then◌else◌, length, get_elem?, min, Text, arith,
  Bool-cases, Option-cases, inl, inr, All,
}
use collectivus.ConfigClient.{
  Client, World, Response, Warning, network_backoff_schedule_seconds, delay_at, fail_with,
  handle_response, after_retry, fetch_with, after_fetch, after_jwt, run_tick,
  record_network_failure,
}

-- The schedule's entry, the last one from there on.
abbrev pub backoff_delay : ℕ → ℕ
backoff_delay i = delay_at (get_elem? network_backoff_schedule_seconds (min i 3))

-- The delays of n failures that start at index i.
abbrev pub schedule_from : ℕ → ℕ → List (Option ℕ)
schedule_from i zero = []
schedule_from i (suc n) = some (backoff_delay i) ∷ schedule_from (suc i) n

schedule_from-min : (i j n : ℕ) → min i 3 ≡ min j 3 → schedule_from i n ≡ schedule_from j n
schedule_from-min i j zero e = refl
schedule_from-min i j (suc n) e =
    ap₂ (λ a b. a ∷ b) (ap (λ k. some (delay_at (get_elem? network_backoff_schedule_seconds k))) e)
      (schedule_from-min (suc i) (suc j) n (omega (arith, e)))

-- Staying on the last entry is the same as going on past it.
schedule_from-capped :
    (i n : ℕ) → schedule_from (if ltb i 3 then suc i else i) n ≡ schedule_from (suc i) n
schedule_from-capped i n = schedule_from-min _ (suc i) n (ground arith)

module _ {ℓ} {C : Type ℓ} where
  abbrev has_json : Option C → Bool
  has_json none = false
  has_json (some c) = true

  -- Whether the last response counts as a failure of the network; none is one that did not come.
  abbrev pub is_failing : Option (Response C) → Bool
  is_failing none = true
  is_failing (some r) =
      not (r.status == 304)
      && (not (r.status == 404) && (not (r.status == 200) || not (has_json r.json)))

  abbrev retried : Option (Response C) → Option (Response C)
  retried none = none
  retried (some r) = if r.status == 401 then none else some r

  abbrev first_or_second : World C → Option Text → Option (Response C) → Option (Response C)
  first_or_second w etag none = none
  first_or_second w etag (some r) =
      if r.status == 401
      then (if w.refreshes then retried (fetch_with w.fetch_again w.new_jwt etag) else none)
      else some r

  -- The response that decides a tick: of the second request where the first was unauthorized.
  abbrev pub last_response : World C → Option Text → Option (Response C)
  last_response w etag = first_or_second w etag (fetch_with w.fetch w.jwt etag)

  -- One step along the schedule, with the ETag kept.
  abbrev Failed : Client C → Option ℕ × Client C → Type 0
  Failed c x =
      (x.0 ≡ some (backoff_delay c.backoff_index))
      × (x.1.backoff_index
          ≡ (if ltb c.backoff_index 3 then suc c.backoff_index else c.backoff_index))
      × (x.1.etag ≡ c.etag)

  fail_with-Failed : (w : Warning) (c : Client C) → Failed c (fail_with w c)
  unfolding record_network_failure
  fail_with-Failed w c = (refl, refl, refl)

  module _ (poll_interval : ℕ) (is_valid : C → Bool) where
    handle_response-Failed :
        (writes : Bool) (r : Response C) (c : Client C)
        → is_failing (some r) ≡ true
        → Failed c (handle_response poll_interval is_valid writes r c)
    unfolding handle_response
    handle_response-Failed writes r c e = elim (Bool-cases (r.status == 304)) [
      | inl h ↦ absurd (ground (arith, e, h))
      | inr h ↦ elim (Bool-cases (r.status == 200)) [
        | inl k ↦ elim (Option-cases r.json) [
          | inl n ↦ rw (h, k, n) (fail_with-Failed _ c)
          | inr (config, n) ↦ absurd (ground (arith, e, h, k, n))
        ]
        | inr k ↦ elim (Bool-cases (r.status == 404)) [
          | inl l ↦ absurd (ground (arith, e, l))
          | inr l ↦ elim (Bool-cases (leb 500 r.status && ltb r.status 600)) [
            | inl m ↦ rw (h, k, l, m) (fail_with-Failed _ c)
            | inr m ↦ rw (h, k, l, m) (fail_with-Failed _ c)
          ]
        ]
      ]
    ]

    after_retry-Failed :
        (writes : Bool) (o : Option (Response C)) (c : Client C)
        → is_failing (retried o) ≡ true
        → Failed c (after_retry poll_interval is_valid writes o c)
    after_retry-Failed writes none c e = fail_with-Failed _ c
    after_retry-Failed writes (some r) c e = elim (Bool-cases (r.status == 401)) [
      | inl h ↦ rw h (fail_with-Failed _ c)
      | inr h ↦ rw h (handle_response-Failed writes r c (rw h at e))
    ]

    after_fetch-Failed :
        (w : World C) (o : Option (Response C)) (c : Client C)
        → is_failing (first_or_second w c.etag o) ≡ true
        → Failed c (after_fetch poll_interval is_valid w o c)
    after_fetch-Failed w none c e = fail_with-Failed _ c
    after_fetch-Failed w (some r) c e = elim (Bool-cases (r.status == 401)) [
      | inl h ↦ elim (Bool-cases w.refreshes) [
        | inl k ↦
            rw (h, k)
              (after_retry-Failed w.writes (fetch_with w.fetch_again w.new_jwt c.etag) c
                (rw (h, k) at e))
        | inr k ↦ rw (h, k) (fail_with-Failed _ c)
      ]
      | inr h ↦ rw h (handle_response-Failed w.writes r c (rw h at e))
    ]

    after_jwt-Failed :
        (w : World C) (o : Option Text) (c : Client C)
        → is_failing (first_or_second w c.etag (fetch_with w.fetch o c.etag)) ≡ true
        → Failed c (after_jwt poll_interval is_valid w o c)
    after_jwt-Failed w none c e = fail_with-Failed _ c
    after_jwt-Failed w (some jwt) c e = after_fetch-Failed w (w.fetch jwt c.etag) c e

    abbrev pub run_ticks : List (World C) → Client C → List (Option ℕ) × Client C
    run_ticks [] c = ([], c)
    run_ticks (w ∷ ws) c =
        let x = run_tick poll_interval is_valid w c in
        let (delays, c') = run_ticks ws x.1 in (x.0 ∷ delays, c')

    -- In a row of ticks that all fail, the delays go up the schedule of 30, 60, 120 and 300
    -- seconds from where it stands, one step each, and stay on its last entry; none of the ticks
    -- throws.
    pub run_ticks-backoff :
        (ws : List (World C)) (c : Client C)
        → All (λ w. is_failing (last_response w c.etag) ≡ true) ws
        → (run_ticks ws c).0 ≡ schedule_from c.backoff_index (length ws)
    unfolding run_tick
    run_ticks-backoff [] c h = refl
    run_ticks-backoff (w ∷ ws) c (e, h) =
        let x = after_jwt poll_interval is_valid w w.jwt c in
        let (delay, index, etag) = after_jwt-Failed w w.jwt c e in
        let same : All (λ w. is_failing (last_response w x.1.etag) ≡ true) ws =
          subst (λ t. All (λ w. is_failing (last_response w t) ≡ true) ws) (sym etag) h in
        ap₂ (λ a b. a ∷ b) delay
          (run_ticks-backoff ws x.1 same
            ∙ ap (λ i. schedule_from i (length ws)) index
            ∙ schedule_from-capped c.backoff_index (length ws))
