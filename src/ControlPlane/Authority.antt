-- ===== src/ControlPlane/Authority.antt =====
-- On whose authority src/server/control_plane.js answers a request.
use collectivus.Prelude.{
  ◌+◌, ◌/◌, ℕ, ◌≡◌, refl, sym, ap, ◌∙◌, true, not, Option, none, some, if◌then◌else◌, Text, text_eq,
  arith, if_cases, inl, inr, false, ◌⊎◌,
}
use collectivus.RateLimit.{check}
use collectivus.Bootstrap.{is_empty, Inspected, valid, invalid, inspect}
use collectivus.Json.{Json}
use collectivus.Jwt.{Claims, sign_jwt}
use collectivus.Registry.{Result, ok, failed, get_config}
use collectivus.Ingest.{Admission, admitted, replied, admit}
use collectivus.BearerAuth.{authorize_admin}
use collectivus.ControlPlane.{
  Setup, ControlPlane, HttpRequest, failure, token_reply, config_reply, not_modified, starter_reply,
  enrolled_reply, Outcome, awaits_bootstrap, awaits_enrollment, runs_admin_invite, runs_ingest,
  Route, health_route, bootstrap_route, refresh_route, starter_route, enrollment_route,
  config_route, admin_route, ingest_route, no_route, route_of,
}
use collectivus.ControlPlane.Etags.{etag_matches}
use collectivus.ControlPlane.Starter.{bootstrap_config_for_gateway}
use collectivus.ControlPlane.Requests.{
  refresh_limits, bootstrap_limits, admin_invite_limits, query_token, with_method, method_of,
  signed_reply, inspected_reply, starter_or_failure, dispatch, begin, handle_refresh, entry_reply,
  matched_reply, run_ingest, limit_admin, limit_bootstrap, handle_bootstrap_config,
}
use collectivus.ControlPlane.Bearers.{
  Bears, authorize-Bears, when_authorized-holds, when_registered-holds,
}

module _ (su : Setup) (now : ℕ) where
  abbrev pub IsKnown : ControlPlane → Text → Type 0
  IsKnown s g =
      (w : Json) × (etag : Text) × (get_config su.platform g s.registry ≡ ok (some (w, etag)))

  -- The bootstrap token that the query of a request names: `token`, or `bootstrap_token` where there
  -- is no `token`.
  abbrev pub IsNamed : HttpRequest → Text → Type 0
  IsNamed q token = (q.token ≡ some token) ⊎ ((q.token ≡ none) × (q.bootstrap_token ≡ some token))

  -- What an outcome that serves somebody rests on.
  unfoldable pub Grant : HttpRequest → ControlPlane → Outcome → Type 0
  Grant q s (Outcome.replied (token_reply jwt expires)) =
      (c : Claims) × Bears su now q.authorization c
      × IsKnown s c.sub
      × (sign_jwt su.runtime now c.sub su.jwt_ttl_seconds su.secret ≡ some jwt)
      × (expires ≡ now / 1000 + su.jwt_ttl_seconds)
  Grant q s (Outcome.replied (config_reply w etag)) =
      (c : Claims) × Bears su now q.authorization c
      × (get_config su.platform c.sub s.registry ≡ ok (some (w, etag)))
  Grant q s (Outcome.replied (not_modified etag)) =
      (c : Claims) × Bears su now q.authorization c
      × ((w : Json) × (get_config su.platform c.sub s.registry ≡ ok (some (w, etag))))
  Grant q s (Outcome.replied (starter_reply config)) =
      (token gateway : Text) × IsNamed q token
      × (expires : ℕ) × (inspect su.platform.sha256 now token s.stores.bootstrap
          ≡ valid gateway expires)
      × (bootstrap_config_for_gateway su.platform su.public_url q s.registry gateway token
          ≡ ok config)
  Grant q s (Outcome.replied (enrolled_reply config gateway expires)) = ⊥
  Grant q s (runs_ingest signal (admitted g)) =
      (c : Claims) × Bears su now q.authorization c × IsKnown s g × (c.sub ≡ g)
  Grant q s runs_admin_invite =
      (token : Text) × (su.admin_token ≡ some token)
      × (authorize_admin su.runtime token q.authorization ≡ true)
  Grant q s _ = Unit

  signed_reply-Grant :
      (q : HttpRequest) (s : ControlPlane) (c : Claims) (signed : Option Text)
      → Bears su now q.authorization c
      → IsKnown s c.sub
      → sign_jwt su.runtime now c.sub su.jwt_ttl_seconds su.secret ≡ signed
      → Grant q s (Outcome.replied (signed_reply su now signed))
  unfolding Grant
  signed_reply-Grant q s c none b k e = tt
  signed_reply-Grant q s c (some jwt) b k e = (c, b, k, e, refl)

  handle_refresh-Grant :
      (q : HttpRequest) (s : ControlPlane) (c : Claims)
      → Bears su now q.authorization c
      → IsKnown s c.sub
      → Grant q s (handle_refresh su now c s).0
  unfolding Grant
  handle_refresh-Grant q s c b k =
      if_cases (λ (r : Outcome × ControlPlane). Grant q s r.0)
        (check refresh_limits now c.sub s.refresh_limiter).0.allowed _ _
        (λ e. signed_reply-Grant q s c _ b k refl) λ e. tt

  matched_reply-Grant :
      (q : HttpRequest) (s : ControlPlane) (c : Claims) (header : Option Text) (w : Json)
      (etag : Text)
      → Bears su now q.authorization c
      → get_config su.platform c.sub s.registry ≡ ok (some (w, etag))
      → Grant q s (Outcome.replied (matched_reply su now header w etag))
  unfolding Grant
  matched_reply-Grant q s c none w etag b e = (c, b, e)
  matched_reply-Grant q s c (some header) w etag b e =
      if_cases (λ r. Grant q s (Outcome.replied r)) (etag_matches header etag) _ _
        (λ h. (c, b, (w, e))) λ h. (c, b, e)

  entry_reply-Grant :
      (q : HttpRequest) (s : ControlPlane) (c : Claims) (entry : Result (Option (Json × Text)))
      → Bears su now q.authorization c
      → get_config su.platform c.sub s.registry ≡ entry
      → Grant q s (Outcome.replied (entry_reply su now q entry))
  entry_reply-Grant q s c (failed f) b e = unfold Grant in tt
  entry_reply-Grant q s c (ok none) b e = unfold Grant in tt
  entry_reply-Grant q s c (ok (some (w, etag))) b e =
      matched_reply-Grant q s c q.if_none_match w etag b e

  admit-sub :
      (q : HttpRequest) (s : ControlPlane) (c : Claims) (signal : Text) (a : Admission)
      → Bears su now q.authorization c
      → IsKnown s c.sub
      → ((g : Text) → a ≡ admitted g → c.sub ≡ g)
      → Grant q s (runs_ingest signal a)
  unfolding Grant
  admit-sub q s c signal (replied r) b k h = tt
  admit-sub q s c signal (admitted g) b (w, etag, e) h =
      let same = h g refl in
      (c, b, (w, etag, ap (λ t. get_config su.platform t s.registry) (sym same) ∙ e), same)

  configured-Grant :
      (q : HttpRequest) (s : ControlPlane) (token gateway : Text) (expires : ℕ) (r : Result Json)
      → IsNamed q token
      → inspect su.platform.sha256 now token s.stores.bootstrap ≡ valid gateway expires
      → bootstrap_config_for_gateway su.platform su.public_url q s.registry gateway token ≡ r
      → Grant q s (Outcome.replied (starter_or_failure r))
  unfolding Grant
  configured-Grant q s token gateway expires (failed f) named e k = tt
  configured-Grant q s token gateway expires (ok config) named e k =
      (token, gateway, named, expires, e, k)

  starter-Grant :
      (q : HttpRequest) (s : ControlPlane) (token : Text) (i : Inspected)
      → IsNamed q token
      → inspect su.platform.sha256 now token s.stores.bootstrap ≡ i
      → Grant q s (Outcome.replied (inspected_reply su now q token i s))
  starter-Grant q s token (invalid reason) named e = unfold Grant in tt
  starter-Grant q s token (valid gateway expires) named e =
      configured-Grant q s token gateway expires _ named e refl

  query_token-IsNamed :
      (q : HttpRequest)
      → is_empty (query_token su now q.token q.bootstrap_token) ≡ false
      → IsNamed q (query_token su now q.token q.bootstrap_token)
  query_token-IsNamed q = by_query q.token q.bootstrap_token
    where
      by_query :
          (t u : Option Text)
          → is_empty (query_token su now t u) ≡ false
          → (t ≡ some (query_token su now t u)) ⊎ ((t ≡ none) × (u ≡ some (query_token su now t u)))
      by_query (some t) u h = inl refl
      by_query none (some u) h = inr (refl, refl)
      by_query none none h = cc

  handle_bootstrap_config-Grant :
      (q : HttpRequest) (s : ControlPlane)
      → Grant q s (Outcome.replied (handle_bootstrap_config su now q s))
  unfolding Grant
  handle_bootstrap_config-Grant q s =
      let token = query_token su now q.token q.bootstrap_token in
      if_cases (λ r. Grant q s (Outcome.replied r)) (not su.provisioned) _ _ (λ e. tt)
        λ e.
          if_cases (λ r. Grant q s (Outcome.replied r)) (is_empty token) _ _ (λ f. tt)
            λ f. starter-Grant q s token _ (query_token-IsNamed q f) refl

  limit_bootstrap-Grant :
      (q : HttpRequest) (s : ControlPlane) (waits : Outcome)
      → Grant q s waits
      → Grant q s (limit_bootstrap su now waits q s).0
  unfolding Grant
  limit_bootstrap-Grant q s waits g =
      if_cases (λ (r : Outcome × ControlPlane). Grant q s r.0)
        (not (check bootstrap_limits now q.client_ip s.bootstrap_limiter).0.allowed) _ _ (λ e. tt)
        λ e.
          if_cases (λ (r : Outcome × ControlPlane). Grant q s r.0) su.provisioned _ _ (λ f. g)
            λ f. tt

  limit_admin-Grant :
      (q : HttpRequest) (s : ControlPlane) (token : Option Text)
      → su.admin_token ≡ token
      → Grant q s (limit_admin su now token q s).0
  unfolding Grant
  limit_admin-Grant q s none e = tt
  limit_admin-Grant q s (some token) e =
      if_cases (λ (r : Outcome × ControlPlane). Grant q s r.0)
        (not (check admin_invite_limits now q.client_ip s.admin_limiter).0.allowed) _ _ (λ e. tt)
        λ f.
          if_cases (λ (r : Outcome × ControlPlane). Grant q s r.0)
            (authorize_admin su.runtime token q.authorization) _ _ (λ h. (token, e, h)) λ h. tt

  admit-admitted :
      (signal type : Text) (sub g : Text) (s : ControlPlane)
      → (admit su.ingest_options
          (record { signal = signal; claims_sub = some sub; content_type = type })
          s.ingest).0
        ≡ admitted g
      → sub ≡ g
  unfolding admit
  admit-admitted signal type sub g s e = ground arith

  run_ingest-Grant :
      (q : HttpRequest) (s : ControlPlane) (c : Claims) (signal : Text)
      → Bears su now q.authorization c
      → IsKnown s c.sub
      → Grant q s (run_ingest su now signal q c s).0
  run_ingest-Grant q s c signal b k =
      admit-sub q s c signal _ b k λ g e. admit-admitted signal q.content_type c.sub g s e

  failure-Grant :
      (q : HttpRequest) (s : ControlPlane) (n : ℕ) → Grant q s (Outcome.replied (failure n))
  unfolding Grant
  failure-Grant q s n = tt

  dispatch-Grant :
      (route : Route) (q : HttpRequest) (s : ControlPlane) → Grant q s (dispatch su now route q s).0
  unfolding dispatch
  dispatch-Grant health_route q s = unfold Grant in tt
  dispatch-Grant bootstrap_route q s =
      limit_bootstrap-Grant q s awaits_bootstrap (unfold Grant in tt)
  dispatch-Grant enrollment_route q s =
      limit_bootstrap-Grant q s awaits_enrollment (unfold Grant in tt)
  dispatch-Grant starter_route q s = handle_bootstrap_config-Grant q s
  dispatch-Grant refresh_route q s =
      when_authorized-holds su now (λ (r : Outcome × ControlPlane). Grant q s r.0) _ _ s
        (failure-Grant q s)
        λ c a.
          when_registered-holds su now (λ (r : Outcome × ControlPlane). Grant q s r.0) _ _ s
            (failure-Grant q s)
            λ w etag e. handle_refresh-Grant q s c (authorize-Bears su now _ c a) (w, etag, e)
  dispatch-Grant config_route q s =
      when_authorized-holds su now (λ (r : Outcome × ControlPlane). Grant q s r.0) _ _ s
        (failure-Grant q s) λ c a. entry_reply-Grant q s c _ (authorize-Bears su now _ c a) refl
  dispatch-Grant (ingest_route signal) q s =
      when_authorized-holds su now (λ (r : Outcome × ControlPlane). Grant q s r.0) _ _ s
        (failure-Grant q s)
        λ c a.
          when_registered-holds su now (λ (r : Outcome × ControlPlane). Grant q s r.0) _ _ s
            (failure-Grant q s)
            λ w etag e. run_ingest-Grant q s c signal (authorize-Bears su now _ c a) (w, etag, e)
  dispatch-Grant admin_route q s = limit_admin-Grant q s su.admin_token refl
  dispatch-Grant no_route q s = failure-Grant q s 404

  gate-Grant :
      (route : Route) (q : HttpRequest) (s : ControlPlane) (method : Text)
      → Grant q s
          (if text_eq q.method method
            then dispatch su now route q s
            else (Outcome.replied (failure 405), s)).0
  gate-Grant route q s method =
      if_cases (λ (r : Outcome × ControlPlane). Grant q s r.0) (text_eq q.method method) _ _
        (λ e. dispatch-Grant route q s) λ e. failure-Grant q s 405

  with_method-Grant :
      (route : Route) (q : HttpRequest) (s : ControlPlane)
      → Grant q s (with_method su now route q s).0
  with_method-Grant no_route q s = dispatch-Grant no_route q s
  with_method-Grant route q s = gate-Grant route q s (method_of su now route)

  -- Whatever a request is answered in its first step, each answer that serves a gateway rests on a
  -- bearer token that verifies: a renewed token, with its expiry, and an admission to ingest on one
  -- of a gateway with a stored configuration, for that gateway, and a configuration, or 304, on one
  -- of the gateway whose configuration it is. A starter configuration rests on the bootstrap token
  -- that the query of the request names, which is unused and unexpired and has its gateway; an
  -- invitation on the admin token.
  pub begin-Grant : (q : HttpRequest) (s : ControlPlane) → Grant q s (begin su now q s).0
  unfolding begin
  begin-Grant q s = with_method-Grant (route_of q.path) q s
