-- ===== src/ControlPlane/Requests.antt =====
-- `handleRequest` of src/server/control_plane.js and the handlers behind it.
use collectivus.Prelude.{
  ℕ, ◌+◌, ◌/◌, max, not, Option, none, some, [], ◌∷◌, if◌then◌else◌, Text, text, text_eq,
}
use collectivus.RateLimit.{Limits, Verdict, check}
use collectivus.Bootstrap.{is_empty, Inspected, valid, invalid, inspect}
use collectivus.Enrollment.{
  IssueResult, granted, unknown_key, expired, exhausted, not_registered, issue_bootstrap,
}
use collectivus.Json.{Json, string, object, field_of}
use collectivus.Jwt.{
  Claims, Issued, issued_jwt, not_issued, sign_failed, sign_jwt, issue_from_bootstrap,
}
use collectivus.Registry.{Result, ok, failed, get_config}
use collectivus.Ingest.{admit}
use collectivus.BearerAuth.{Authorized, claimed, unauthorized, thrown, authorize, authorize_admin}
use collectivus.ControlPlane.{
  Setup, ControlPlane, HttpRequest, Reply, health, failure, rate_limited, token_reply, config_reply,
  not_modified, starter_reply, enrolled_reply, Outcome, replied, awaits_bootstrap,
  awaits_enrollment, runs_admin_invite, runs_ingest, Route, health_route, bootstrap_route,
  refresh_route, starter_route, enrollment_route, config_route, admin_route, ingest_route, no_route,
  route_of,
}
use collectivus.ControlPlane.Etags.{etag_matches}
use collectivus.ControlPlane.Starter.{bootstrap_config_for_gateway}

abbrev pub bootstrap_limits : Limits
bootstrap_limits = record { window_ms = 60000; max = 5 }

abbrev pub refresh_limits : Limits
refresh_limits = record { window_ms = 60000; max = 1 }

abbrev pub admin_invite_limits : Limits
admin_invite_limits = record { window_ms = 60000; max = 10 }

-- `writeRateLimited`
abbrev pub write_rate_limited : Verdict → Reply
write_rate_limited v = rate_limited (max 1 ((v.retry_after_ms + 999) / 1000))

-- What the body of a request turned out to be.
pub data Body : Type 0 where
  bad_body : ℕ → Body
  json_body : Json → Body

-- A field of the body that has to be a string.
abbrev pub string_of : Option Json → Option Text
string_of (some (string (c ∷ s))) = some (c ∷ s)
string_of _ = none

abbrev pub string_in : Text → Json → Option Text
string_in k (object fs) = string_of (field_of k fs)
string_in k _ = none

abbrev pub starter_or_failure : Result Json → Reply
starter_or_failure (failed f) = failure 500
starter_or_failure (ok config) = starter_reply config

module _ (su : Setup) (now : ℕ) where
  -- `handleBootstrap` and `handleEnrollmentBootstrapConfig`, up to the body
  abbrev pub limit_bootstrap : Outcome → HttpRequest → ControlPlane → Outcome × ControlPlane
  limit_bootstrap waits q s =
      let (verdict, limiter) = check bootstrap_limits now q.client_ip s.bootstrap_limiter in
      let s' = record s { bootstrap_limiter = limiter } in
      if not verdict.allowed
      then (replied (write_rate_limited verdict), s')
      else if su.provisioned
      then (waits, s')
      else (replied (failure 503), s')

  abbrev pub issued_reply : Issued → Reply
  issued_reply (issued_jwt jwt expires gateway) = token_reply jwt expires
  issued_reply (not_issued reason) = failure 401
  issued_reply sign_failed = failure 500

  abbrev pub finish_token : Option Text → ControlPlane → Reply × ControlPlane
  finish_token none s = (failure 400, s)
  finish_token (some token) s =
      let (issued, bootstrap) =
        issue_from_bootstrap su.runtime su.platform.sha256 now token su.jwt_ttl_seconds su.secret
          s.stores.bootstrap in
      (issued_reply issued, record s { stores = record s.stores { bootstrap = bootstrap } })

  -- `handleBootstrap`, from the body
  unfoldable pub finish_bootstrap : Body → ControlPlane → Reply × ControlPlane
  finish_bootstrap (bad_body status) s = (failure status, s)
  finish_bootstrap (json_body v) s = finish_token (string_in (text "bootstrap_token") v) s

  abbrev pub enrolled_or_failure : Text → ℕ → Result Json → Reply
  enrolled_or_failure gateway expires (failed f) = failure 500
  enrolled_or_failure gateway expires (ok config) = enrolled_reply config gateway expires

  abbrev pub enrollment_reply : HttpRequest → IssueResult → ControlPlane → Reply
  enrollment_reply q (granted token gateway expires) s =
      enrolled_or_failure gateway expires
        (bootstrap_config_for_gateway su.platform su.public_url q s.registry gateway token)
  enrollment_reply q unknown_key s = failure 401
  enrollment_reply q expired s = failure 410
  enrollment_reply q exhausted s = failure 409
  enrollment_reply q not_registered s = failure 500

  abbrev pub finish_join : HttpRequest → Text → Option Text → ControlPlane → Reply × ControlPlane
  finish_join q token none s = (failure 400, s)
  finish_join q token (some join_code) s =
      let (issued, stores) = issue_bootstrap su.platform.sha256 now token join_code s.stores in
      (enrollment_reply q issued s, record s { stores = stores })

  -- `handleEnrollmentBootstrapConfig`, from the body; `token` is the one made at random
  unfoldable pub finish_enrollment : HttpRequest → Text → Body → ControlPlane → Reply × ControlPlane
  finish_enrollment q token (bad_body status) s = (failure status, s)
  finish_enrollment q token (json_body v) s = finish_join q token (string_in (text "join_code") v) s

  -- `url.searchParams.get('token') ?? url.searchParams.get('bootstrap_token') ?? ''`
  abbrev pub query_token : Option Text → Option Text → Text
  query_token (some t) u = t
  query_token none (some u) = u
  query_token none none = []

  abbrev pub inspected_reply : HttpRequest → Text → Inspected → ControlPlane → Reply
  inspected_reply q token (invalid reason) s = failure 401
  inspected_reply q token (valid gateway expires) s =
      starter_or_failure
        (bootstrap_config_for_gateway su.platform su.public_url q s.registry gateway token)

  -- `handleBootstrapConfig`
  abbrev pub handle_bootstrap_config : HttpRequest → ControlPlane → Reply
  handle_bootstrap_config q s =
      let token = query_token q.token q.bootstrap_token in
      if not su.provisioned
      then failure 503
      else if is_empty token
      then failure 400
      else inspected_reply q token (inspect su.platform.sha256 now token s.stores.bootstrap) s

  -- `signJwt` throws for settings only that are refused at the start.
  abbrev pub signed_reply : Option Text → Reply
  signed_reply none = failure 500
  signed_reply (some jwt) = token_reply jwt (now / 1000 + su.jwt_ttl_seconds)

  -- `handleRefresh`
  abbrev pub handle_refresh : Claims → ControlPlane → Outcome × ControlPlane
  handle_refresh c s =
      let (verdict, limiter) = check refresh_limits now c.sub s.refresh_limiter in
      let s' = record s { refresh_limiter = limiter } in
      if verdict.allowed
      then (replied (signed_reply (sign_jwt su.runtime now c.sub su.jwt_ttl_seconds su.secret)), s')
      else (replied (write_rate_limited verdict), s')

  abbrev pub matched_reply : Option Text → Json → Text → Reply
  matched_reply none config etag = config_reply config etag
  matched_reply (some header) config etag =
      if etag_matches header etag then not_modified etag else config_reply config etag

  abbrev pub entry_reply : HttpRequest → Result (Option (Json × Text)) → Reply
  entry_reply q (failed f) = failure 500
  entry_reply q (ok none) = failure 404
  entry_reply q (ok (some (config, etag))) = matched_reply q.if_none_match config etag

  -- `handleGetConfig`
  abbrev pub handle_get_config : HttpRequest → Claims → ControlPlane → Reply
  handle_get_config q c s = entry_reply q (get_config su.platform c.sub s.registry)

  -- `authorize`, with what follows it
  abbrev pub when_authorized :
      (Claims → Outcome × ControlPlane) → Authorized → ControlPlane → Outcome × ControlPlane
  when_authorized next (claimed c) s = next c
  when_authorized next (unauthorized reason) s = (replied (failure 401), s)
  when_authorized next thrown s = (replied (failure 500), s)

  -- `ensureGatewayRegistered`, with what follows it
  abbrev pub when_registered :
      Outcome × ControlPlane → Result (Option (Json × Text)) → ControlPlane → Outcome × ControlPlane
  when_registered next (failed f) s = (replied (failure 500), s)
  when_registered next (ok none) s = (replied (failure 401), s)
  when_registered next (ok (some entry)) s = next

  abbrev pub run_ingest : Text → HttpRequest → Claims → ControlPlane → Outcome × ControlPlane
  run_ingest signal q c s =
      let (admission, ingest) =
        admit su.ingest_options
          (record { signal = signal; claims_sub = some c.sub; content_type = q.content_type })
          s.ingest in
      (runs_ingest signal admission, record s { ingest = ingest })

  abbrev pub limit_admin : Option Text → HttpRequest → ControlPlane → Outcome × ControlPlane
  limit_admin none q s = (replied (failure 404), s)
  limit_admin (some token) q s =
      let (verdict, limiter) = check admin_invite_limits now q.client_ip s.admin_limiter in
      let s' = record s { admin_limiter = limiter } in
      if not verdict.allowed
      then (replied (write_rate_limited verdict), s')
      else if authorize_admin su.runtime token q.authorization
      then (runs_admin_invite, s')
      else (replied (failure 401), s')

  abbrev pub method_of : Route → Text
  method_of health_route = text "GET"
  method_of starter_route = text "GET"
  method_of config_route = text "GET"
  method_of _ = text "POST"

  -- The handler of a route, for a request with its method.
  unfoldable pub dispatch : Route → HttpRequest → ControlPlane → Outcome × ControlPlane
  dispatch health_route q s = (replied health, s)
  dispatch bootstrap_route q s = limit_bootstrap awaits_bootstrap q s
  dispatch enrollment_route q s = limit_bootstrap awaits_enrollment q s
  dispatch starter_route q s = (replied (handle_bootstrap_config q s), s)
  dispatch refresh_route q s =
      when_authorized
        (λ c. when_registered (handle_refresh c s) (get_config su.platform c.sub s.registry) s)
        (authorize su.runtime now su.secret q.authorization) s
  dispatch config_route q s =
      when_authorized (λ c. (replied (handle_get_config q c s), s))
        (authorize su.runtime now su.secret q.authorization) s
  dispatch (ingest_route signal) q s =
      when_authorized
        (λ c. when_registered (run_ingest signal q c s) (get_config su.platform c.sub s.registry) s)
        (authorize su.runtime now su.secret q.authorization) s
  dispatch admin_route q s = limit_admin su.admin_token q s
  dispatch no_route q s = (replied (failure 404), s)

  abbrev pub with_method : Route → HttpRequest → ControlPlane → Outcome × ControlPlane
  with_method no_route q s = dispatch no_route q s
  with_method route q s =
      if text_eq q.method (method_of route) then dispatch route q s else (replied (failure 405), s)

  -- `handleRequest`
  unfoldable pub begin : HttpRequest → ControlPlane → Outcome × ControlPlane
  begin q s = with_method (route_of q.path) q s
