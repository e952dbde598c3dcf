-- ===== src/ConfigClient.antt =====
-- src/gateway/config_client.js: the loop that pulls a gateway's configuration. The central server,
-- the identity client, the validation of a configuration and the writing of the ETag file are
-- parameters; a tick that throws returns no delay.
pub mod Backoff
pub mod Sync
pub mod Loop
pub mod Etag
pub mod Tests
use collectivus.Prelude.{
  ℕ, zero, suc, ◌+◌, ◌-◌, ◌*◌, Bool, true, false, not, ◌&&◌, Option, none, some, List, [], ◌∷◌,
  ◌++◌, ltb, leb, ◌==◌, if◌then◌else◌, length, take, drop, get_elem?, min, Text, text, text_eq,
}

abbrev pub network_backoff_schedule_seconds : List ℕ
network_backoff_schedule_seconds = 30 ∷ 60 ∷ 120 ∷ 300 ∷ []

abbrev pub not_registered_backoff_seconds : ℕ
not_registered_backoff_seconds = 5 * 60

pub record Response {ℓ} (C : Type ℓ) : Type ℓ where
  pub status : ℕ
  pub etag_header : Option Text
  pub json : Option C

pub data Warning : Type 0 where
  identity_unavailable unreachable refresh_failed retry_failed still_unauthorized bad_json
        invalid_config not_registered server_error unexpected_status :
      Warning

-- The client's fields, the ETag file, the events that it emitted and the warnings that it logged.
pub record Client {ℓ} (C : Type ℓ) : Type ℓ where
  pub etag : Option Text
  pub etag_file : Option Text
  pub backoff_index : ℕ
  pub not_registered_logged : Bool
  pub events : List (C × Text)
  pub log : List Warning

-- What the outside answers during one tick: each promise that may reject is an Option or a Bool.
pub record World {ℓ} (C : Type ℓ) : Type ℓ where
  pub jwt : Option Text
  pub fetch : Text → Option Text → Option (Response C)
  pub refreshes : Bool
  pub new_jwt : Option Text
  pub fetch_again : Text → Option Text → Option (Response C)
  pub writes : Bool

abbrev pub non_empty : Text → Option Text
non_empty [] = none
non_empty (c ∷ s) = some (c ∷ s)

abbrev pub starts_with : Text → Text → Bool
starts_with [] s = true
starts_with (c ∷ prefix) [] = false
starts_with (c ∷ prefix) (d ∷ s) = c == d && starts_with prefix s

abbrev pub last_is : ℕ → Text → Bool
last_is c [] = false
last_is c (d ∷ []) = d == c
last_is c (d ∷ e ∷ s) = last_is c (e ∷ s)

abbrev pub without_weak : Text → Text
without_weak s = if starts_with (text "W/") s then drop 2 s else s

abbrev pub without_quotes : Text → Text
without_quotes s =
    if leb 2 (length s) && (starts_with (text "\"") s && last_is b'"' s)
    then take (length s - 2) (drop 1 s)
    else s

-- `readEtagHeader`, of the header's value
pub read_etag_header : Option Text → Option Text
read_etag_header none = none
read_etag_header (some []) = none
read_etag_header (some (c ∷ raw)) = non_empty (without_quotes (without_weak (c ∷ raw)))

abbrev pub or_else : Option Text → Option Text → Option Text
or_else none o = o
or_else (some s) o = some s

abbrev pub text_or : Option Text → Text → Text
text_or none t = t
text_or (some s) t = s

abbrev pub delay_at : Option ℕ → ℕ
delay_at none = 0
delay_at (some n) = n

module _ {ℓ} {C : Type ℓ} where
  abbrev pub log_warning : Warning → Client C → Client C
  log_warning w c = record c { log = c.log ++ w ∷ [] }

  -- `recordSuccess`
  abbrev pub record_success : Client C → Client C
  record_success c = record c { backoff_index = 0; not_registered_logged = false }

  -- `recordNetworkFailure`: the delay, and the client
  pub record_network_failure : Client C → ℕ × Client C
  record_network_failure c =
      let last = length network_backoff_schedule_seconds - 1 in
      let index = min c.backoff_index last in
      (
        delay_at (get_elem? network_backoff_schedule_seconds index),
        record c {
          backoff_index = if ltb c.backoff_index last then suc c.backoff_index else c.backoff_index;
        },
      )

  -- `return this.recordNetworkFailure()`, after a warning
  abbrev pub fail_with : Warning → Client C → Option ℕ × Client C
  fail_with w c = let failed = record_network_failure (log_warning w c) in (some failed.0, failed.1)

  abbrev pub fetch_with :
      (Text → Option Text → Option (Response C)) → Option Text → Option Text → Option (Response C)
  fetch_with fetch none etag = none
  fetch_with fetch (some jwt) etag = fetch jwt etag

  module _ (poll_interval : ℕ) (is_valid : C → Bool) where
    -- A new configuration, its ETag set in memory, then on disk; where the write throws, so does
    -- the tick.
    abbrev pub publish : Bool → C → Text → Client C → Option ℕ × Client C
    publish false config tag c = (none, record c { etag = some tag })
    publish true config tag c = (
      some poll_interval,
      record_success (record c {
        etag = some tag;
        etag_file = some tag;
        events = c.events ++ (config, tag) ∷ [];
      }),
    )

    -- The branch of status 200.
    abbrev pub handle_config : Bool → Option Text → Option C → Client C → Option ℕ × Client C
    handle_config writes tag none c = fail_with bad_json c
    handle_config writes tag (some config) c =
        if is_valid config
        then publish writes config (text_or (or_else tag c.etag) []) c
        else (some poll_interval, record_success (log_warning invalid_config c))

    -- The branch of status 404.
    abbrev pub handle_missing : Client C → Option ℕ × Client C
    handle_missing c = (
      some not_registered_backoff_seconds,
      record (if c.not_registered_logged then c else log_warning not_registered c) {
        backoff_index = 0;
        not_registered_logged = true;
      },
    )

    -- `handleResponse`
    pub handle_response : Bool → Response C → Client C → Option ℕ × Client C
    handle_response writes r c =
        if r.status == 304
        then (some poll_interval, record_success c)
        else if r.status == 200
        then handle_config writes (read_etag_header r.etag_header) r.json c
        else if r.status == 404
        then handle_missing c
        else if leb 500 r.status && ltb r.status 600
        then fail_with server_error c
        else fail_with unexpected_status c

    abbrev pub after_retry : Bool → Option (Response C) → Client C → Option ℕ × Client C
    after_retry writes none c = fail_with retry_failed c
    after_retry writes (some r) c =
        if r.status == 401 then fail_with still_unauthorized c else handle_response writes r c

    abbrev pub after_fetch : World C → Option (Response C) → Client C → Option ℕ × Client C
    after_fetch w none c = fail_with unreachable c
    after_fetch w (some r) c =
        if r.status == 401
        then (if w.refreshes
            then after_retry w.writes (fetch_with w.fetch_again w.new_jwt c.etag) c
            else fail_with refresh_failed c)
        else handle_response w.writes r c

    abbrev pub after_jwt : World C → Option Text → Client C → Option ℕ × Client C
    after_jwt w none c = fail_with identity_unavailable c
    after_jwt w (some jwt) c = after_fetch w (w.fetch jwt c.etag) c

    -- `runTick`: the next delay in seconds
    pub run_tick : World C → Client C → Option ℕ × Client C
    run_tick w c = after_jwt w w.jwt c
