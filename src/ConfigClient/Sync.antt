-- ===== src/ConfigClient/Sync.antt =====
-- Which configuration the client of src/gateway/config_client.js has emitted last, against a
-- central server that answers as HTTP says: 304 to a request with the current ETag.
use collectivus.Prelude.{
  ℕ, ◌≡◌, refl, ap, ◌∙◌, Bool, true, false, Option, none, some, List, [], ◌∷◌, ◌++◌, Text, text_eq,
  text_eq_iff, text_eq_refl, arith, Bool-cases, inl, inr, ◌⊎◌, map,
}
use collectivus.ConfigClient.{
  Client, World, Response, handle_response, run_tick, publish, read_etag_header,
}
use collectivus.ConfigClient.Backoff.{run_ticks}

abbrev pub is_tag : Option Text → Text → Bool
is_tag none t = false
is_tag (some s) t = text_eq s t

abbrev pub last_event {ℓ} : {A : Type ℓ} → List A → Option A
last_event [] = none
last_event (x ∷ []) = some x
last_event (x ∷ y ∷ xs) = last_event (y ∷ xs)

last_event-append {ℓ} : {A : Type ℓ} (xs : List A) (x : A) → last_event (xs ++ x ∷ []) ≡ some x
last_event-append [] x = refl
last_event-append (y ∷ []) x = refl
last_event-append (y ∷ z ∷ xs) x = last_event-append (z ∷ xs) x

module _ {ℓ} {C : Type ℓ} (tag_of : C → Text) where
  abbrev serve_if : Bool → C → Response C
  serve_if true v = record { status = 304; etag_header = some (tag_of v); json = none }
  serve_if false v = record { status = 200; etag_header = some (tag_of v); json = some v }

  -- A tick that reaches a server whose current configuration is v.
  abbrev pub serving : C → Bool → World C
  serving v writes = record {
    jwt = some [];
    fetch = λ jwt etag. some (serve_if (is_tag etag (tag_of v)) v);
    refreshes = true;
    new_jwt = some [];
    fetch_again = λ jwt etag. some (serve_if (is_tag etag (tag_of v)) v);
    writes = writes;
  }

  -- The ETag is that of the last configuration that was emitted, if there is one.
  abbrev pub IsHonest : Client C → Type ℓ
  IsHonest c =
      (c.etag ≡ none)
      ⊎ ((v : C) × (c.etag ≡ some (tag_of v)) × (last_event c.events ≡ some (v, tag_of v)))

  module _ (poll_interval : ℕ) (is_valid : C → Bool) where
    tick-current :
        (v : C) (writes : Bool) (c : Client C)
        → is_tag c.etag (tag_of v) ≡ true
        → (run_tick poll_interval is_valid (serving v writes) c).1.events ≡ c.events
    unfolding run_tick handle_response
    tick-current v writes c e = rw e refl

    tick-etag :
        (v : C) (writes : Bool) (c : Client C)
        → is_tag c.etag (tag_of v) ≡ true
        → (run_tick poll_interval is_valid (serving v writes) c).1.etag ≡ c.etag
    unfolding run_tick handle_response
    tick-etag v writes c e = rw e refl

    tick-new :
        (v : C) (writes : Bool) (c : Client C)
        → read_etag_header (some (tag_of v)) ≡ some (tag_of v)
        → is_valid v ≡ true
        → is_tag c.etag (tag_of v) ≡ false
        → run_tick poll_interval is_valid (serving v writes) c
          ≡ publish poll_interval is_valid writes v (tag_of v) c
    unfolding run_tick handle_response
    tick-new v writes c plain valid e = rw (e, plain, valid) refl

    -- A tick that reaches the server, whose current configuration is valid, leaves that
    -- configuration as the last one emitted, and its ETag as the client's, if the ETag file can be
    -- written. The client starts with no ETag, or with that of the last configuration it emitted;
    -- different configurations have different ETags, which the header carries as they are.
    pub run_tick-converges :
        (v : C) (c : Client C)
        → ((u : C) → tag_of u ≡ tag_of v → u ≡ v)
        → read_etag_header (some (tag_of v)) ≡ some (tag_of v)
        → is_valid v ≡ true
        → IsHonest c
        → (last_event (run_tick poll_interval is_valid (serving v true) c).1.events
            ≡ some (v, tag_of v))
          × ((run_tick poll_interval is_valid (serving v true) c).1.etag ≡ some (tag_of v))
    run_tick-converges v c injective plain valid h = elim (Bool-cases (is_tag c.etag (tag_of v))) [
      | inl e ↦ elim h [
        | inl fresh ↦ absurd (ground (arith, e, fresh))
        | inr (u, tag, emitted) ↦
            let same : tag_of u ≡ tag_of v = (text_eq_iff (tag_of u) (tag_of v)).0 (rw tag at e) in
            (
              ap last_event (tick-current v true c e)
                  ∙ emitted
                  ∙ ap (λ w. some (w, tag_of w)) (injective u same),
              tick-etag v true c e ∙ tag ∙ ap some same,
            )
      ]
      | inr e ↦
          let new = tick-new v true c plain valid e in
          (
            ap (λ x. last_event x.1.events) new ∙ last_event-append c.events (v, tag_of v),
            ap (λ x. x.1.etag) new,
          )
    ]

    -- A lost update: where the ETag file cannot be written, the client has the new ETag in memory
    -- but has not emitted the configuration, and it does not emit anything in any later tick that
    -- reaches the server while that configuration is the current one.
    pub run_ticks-lost :
        (v : C) (writes : List Bool) (c : Client C)
        → read_etag_header (some (tag_of v)) ≡ some (tag_of v)
        → is_valid v ≡ true
        → is_tag c.etag (tag_of v) ≡ false
        → (run_ticks poll_interval is_valid
            (map (λ b. serving v b) writes)
            (run_tick poll_interval is_valid (serving v false) c).1).1.events
          ≡ c.events
    run_ticks-lost v writes c plain valid e =
        let new = tick-new v false c plain valid e in
        ap (λ x. (run_ticks poll_interval is_valid (map (λ b. serving v b) writes) x.1).1.events)
          new
        ∙ idle writes (publish poll_interval is_valid false v (tag_of v) c).1
            (text_eq_refl (tag_of v))
      where
        idle :
            (writes : List Bool) (c : Client C)
            → is_tag c.etag (tag_of v) ≡ true
            → (run_ticks poll_interval is_valid (map (λ b. serving v b) writes) c).1.events
              ≡ c.events
        idle [] c e = refl
        idle (b ∷ writes) c e =
            idle writes _ (ap (λ t. is_tag t (tag_of v)) (tick-etag v b c e) ∙ e)
            ∙ tick-current v b c e
