-- ===== src/ControlPlane/Revoked.antt =====
-- What src/server/control_plane.js does for a gateway whose configuration was deleted.
use collectivus.Prelude.{
  ℕ, ◌≡◌, refl, sym, ap, ◌∙◌, true, not, Option, none, some, List, [], ◌∷◌, if◌then◌else◌, Text,
  text_eq, arith, if_cases,
}
use collectivus.RateLimit.{check}
use collectivus.Enrollment.{is_valid_gateway_id}
use collectivus.Json.{Json}
use collectivus.Jwt.{Claims, verified, verify_jwt}
use collectivus.Registry.{ok, get_config, delete_config}
use collectivus.Registry.Files.{get_config-delete_config}
use collectivus.Ingest.{admitted, replied}
use collectivus.BearerAuth.{bearer_of, authorize, authorize_admin}
use collectivus.ControlPlane.{
  Setup, ControlPlane, HttpRequest, health, failure, rate_limited, token_reply, config_reply,
  not_modified, starter_reply, enrolled_reply, Outcome, awaits_bootstrap, awaits_enrollment,
  runs_admin_invite, runs_ingest, Route, health_route, bootstrap_route, refresh_route,
  starter_route, enrollment_route, config_route, admin_route, ingest_route, no_route, route_of,
}
use collectivus.ControlPlane.Requests.{
  Body, bad_body, json_body, finish_token, finish_join, finish_bootstrap, finish_enrollment,
  refresh_limits, bootstrap_limits, admin_invite_limits, with_method, method_of, dispatch, begin,
  handle_refresh, handle_get_config, when_authorized, when_registered, run_ingest, limit_admin,
  limit_bootstrap,
}
use collectivus.ControlPlane.Bearers.{Bears, when_authorized-holds, when_registered-holds}
use collectivus.ControlPlane.Authority.{Grant, begin-Grant}

-- What a request gets on the bearer token in its first step: a renewed token, its configuration, the
-- answer that it is unchanged, or the admission of its rows. A starter configuration and the exchange
-- of a bootstrap token do not look at the bearer token and are not among these.
abbrev pub Serves : Outcome → Type 0
Serves (Outcome.replied (token_reply jwt expires)) = Unit
Serves (Outcome.replied (config_reply w etag)) = Unit
Serves (Outcome.replied (not_modified etag)) = Unit
Serves (runs_ingest signal (admitted g)) = Unit
Serves _ = ⊥

-- What the server takes in, one step each.
pub data Event : Type 0 where
  request : HttpRequest → Event
  bootstrap_body : Body → Event
  enrollment_body : HttpRequest → Text → Body → Event

module _ (su : Setup) where
  pub handle : ℕ → Event → ControlPlane → ControlPlane
  handle now (request q) s = (begin su now q s).1
  handle now (bootstrap_body b) s = (finish_bootstrap su now b s).1
  handle now (enrollment_body q token b) s = (finish_enrollment su now q token b s).1

  pub handle_all : List (ℕ × Event) → ControlPlane → ControlPlane
  handle_all [] s = s
  handle_all ((now, e) ∷ es) s = handle_all es (handle now e s)

  Keeps : ControlPlane → Outcome × ControlPlane → Type 0
  Keeps s r = r.1.registry ≡ s.registry

  module _ (now : ℕ) where
    same-Keeps : (o : Outcome) (s : ControlPlane) → Keeps s (o, s)
    unfolding Keeps
    same-Keeps o s = refl

    handle_refresh-Keeps : (c : Claims) (s : ControlPlane) → Keeps s (handle_refresh su now c s)
    unfolding Keeps
    handle_refresh-Keeps c s =
        if_cases (Keeps s) (check refresh_limits now c.sub s.refresh_limiter).0.allowed _ _
          (λ e. refl) λ e. refl

    limit_bootstrap-Keeps :
        (waits : Outcome) (q : HttpRequest) (s : ControlPlane)
        → Keeps s (limit_bootstrap su now waits q s)
    unfolding Keeps
    limit_bootstrap-Keeps waits q s =
        if_cases (Keeps s)
          (not (check bootstrap_limits now q.client_ip s.bootstrap_limiter).0.allowed) _ _
          (λ e. refl) λ e. if_cases (Keeps s) su.provisioned _ _ (λ f. refl) λ f. refl

    limit_admin-Keeps :
        (token : Option Text) (q : HttpRequest) (s : ControlPlane)
        → Keeps s (limit_admin su now token q s)
    unfolding Keeps
    limit_admin-Keeps none q s = refl
    limit_admin-Keeps (some token) q s =
        if_cases (Keeps s)
          (not (check admin_invite_limits now q.client_ip s.admin_limiter).0.allowed) _ _
          (λ e. refl)
          λ e.
            if_cases (Keeps s) (authorize_admin su.runtime token q.authorization) _ _ (λ f. refl)
              λ f. refl

    run_ingest-Keeps :
        (signal : Text) (q : HttpRequest) (c : Claims) (s : ControlPlane)
        → Keeps s (run_ingest su now signal q c s)
    unfolding Keeps
    run_ingest-Keeps signal q c s = refl

    registered-Keeps :
        (next : Claims → Outcome × ControlPlane) (q : HttpRequest) (s : ControlPlane)
        → ((c : Claims) → Keeps s (next c))
        → Keeps s (
            when_authorized su now
              (λ c. when_registered su now (next c) (get_config su.platform c.sub s.registry) s)
              (authorize su.runtime now su.secret q.authorization)
              s)
    registered-Keeps next q s h =
        when_authorized-holds su now (Keeps s)
          (λ c. when_registered su now (next c) (get_config su.platform c.sub s.registry) s)
          (authorize su.runtime now su.secret q.authorization) s (λ n. same-Keeps _ s)
          λ c a.
            when_registered-holds su now (Keeps s) (next c)
              (get_config su.platform c.sub s.registry) s (λ n. same-Keeps _ s) λ w etag e. h c

    dispatch-Keeps :
        (route : Route) (q : HttpRequest) (s : ControlPlane) → Keeps s (dispatch su now route q s)
    unfolding dispatch
    dispatch-Keeps health_route q s = same-Keeps _ s
    dispatch-Keeps bootstrap_route q s = limit_bootstrap-Keeps awaits_bootstrap q s
    dispatch-Keeps enrollment_route q s = limit_bootstrap-Keeps awaits_enrollment q s
    dispatch-Keeps starter_route q s = same-Keeps _ s
    dispatch-Keeps refresh_route q s =
        registered-Keeps (λ c. handle_refresh su now c s) q s (λ c. handle_refresh-Keeps c s)
    dispatch-Keeps config_route q s =
        when_authorized-holds su now (Keeps s)
          (λ c. (Outcome.replied (handle_get_config su now q c s), s))
          (authorize su.runtime now su.secret q.authorization) s (λ n. same-Keeps _ s)
          λ c a. same-Keeps _ s
    dispatch-Keeps (ingest_route signal) q s =
        registered-Keeps (λ c. run_ingest su now signal q c s) q s
          (λ c. run_ingest-Keeps signal q c s)
    dispatch-Keeps admin_route q s = limit_admin-Keeps su.admin_token q s
    dispatch-Keeps no_route q s = same-Keeps _ s

    gate-Keeps :
        (route : Route) (q : HttpRequest) (s : ControlPlane) (method : Text)
        → Keeps s (
            if text_eq q.method method
            then dispatch su now route q s
            else (Outcome.replied (failure 405), s))
    gate-Keeps route q s method =
        if_cases (Keeps s) (text_eq q.method method) _ _ (λ e. dispatch-Keeps route q s)
          λ e. same-Keeps _ s

    with_method-Keeps :
        (route : Route) (q : HttpRequest) (s : ControlPlane)
        → Keeps s (with_method su now route q s)
    with_method-Keeps no_route q s = dispatch-Keeps no_route q s
    with_method-Keeps route q s = gate-Keeps route q s (method_of su now route)

    finish_token-registry :
        (token : Option Text) (s : ControlPlane)
        → (finish_token su now token s).1.registry ≡ s.registry
    finish_token-registry none s = refl
    finish_token-registry (some token) s = refl

    finish_join-registry :
        (q : HttpRequest) (token : Text) (code : Option Text) (s : ControlPlane)
        → (finish_join su now q token code s).1.registry ≡ s.registry
    finish_join-registry q token none s = refl
    finish_join-registry q token (some code) s = refl

    handle-registry : (e : Event) (s : ControlPlane) → (handle now e s).registry ≡ s.registry
    unfolding Keeps handle begin finish_bootstrap finish_enrollment
    handle-registry (request q) s = with_method-Keeps (route_of q.path) q s
    handle-registry (bootstrap_body (bad_body n)) s = refl
    handle-registry (bootstrap_body (json_body v)) s = finish_token-registry _ s
    handle-registry (enrollment_body q token (bad_body n)) s = refl
    handle-registry (enrollment_body q token (json_body v)) s = finish_join-registry q token _ s

  handle_all-registry :
      (es : List (ℕ × Event)) (s : ControlPlane) → (handle_all es s).registry ≡ s.registry
  unfolding handle_all
  handle_all-registry [] s = refl
  handle_all-registry ((now, e) ∷ es) s =
      handle_all-registry es (handle now e s) ∙ handle-registry now e s

  Bears-unique :
      (now : ℕ) (header : Option Text) (c d : Claims)
      → Bears su now header c
      → Bears su now header d
      → c ≡ d
  Bears-unique now header c d b k =
      verified-injective c d
        (sym b.verifies ∙ ap (λ t. verify_jwt su.runtime now t su.secret) tokens ∙ k.verifies)
    where
      verified-injective : (x y : Claims) → verified x ≡ verified y → x ≡ y
      verified-injective x y e = ground (arith, e)

      some-injective : (x y : Text) → some x ≡ some y → x ≡ y
      some-injective x y e = ground (arith, e)

      tokens : b.token ≡ k.token
      tokens = some-injective b.token k.token (
          sym b.bearer
          ∙ ap bearer_of (some-injective b.value k.value (sym b.there ∙ k.there))
          ∙ k.bearer)

  no_entry :
      (now : ℕ) (q : HttpRequest) (s : ControlPlane) (c d : Claims) (entry : Json × Text)
      → Bears su now q.authorization c
      → Bears su now q.authorization d
      → get_config su.platform c.sub s.registry ≡ ok none
      → get_config su.platform d.sub s.registry ≡ ok (some entry)
      → ⊥
  no_entry now q s c d entry b k gone e =
      let same : c ≡ d = Bears-unique now q.authorization c d b k in
      clash (sym gone ∙ ap (λ (x : Claims). get_config su.platform x.sub s.registry) same ∙ e)
    where
      clash : ok none ≡ ok (some entry) → ⊥
      clash p = cc

  unserved :
      (now : ℕ) (q : HttpRequest) (s : ControlPlane) (o : Outcome) (c : Claims)
      → Bears su now q.authorization c
      → get_config su.platform c.sub s.registry ≡ ok none
      → Grant su now q s o
      → Serves o
      → ⊥
  unfolding Grant
  unserved now q s (Outcome.replied (token_reply jwt expires)) c b gone
        (d, k, (w, etag, e), sig, ends) v =
      no_entry now q s c d (w, etag) b k gone e
  unserved now q s (Outcome.replied (config_reply w etag)) c b gone (d, k, e) v =
      no_entry now q s c d (w, etag) b k gone e
  unserved now q s (Outcome.replied (not_modified etag)) c b gone (d, k, (w, e)) v =
      no_entry now q s c d (w, etag) b k gone e
  unserved now q s (runs_ingest signal (admitted g)) c b gone (d, k, (w, etag, e), same) v =
      no_entry now q s c d (w, etag) b k gone
        (ap (λ t. get_config su.platform t s.registry) same ∙ e)
  unserved now q s (runs_ingest signal (replied r)) c b gone g v = absurd v
  unserved now q s (Outcome.replied health) c b gone g v = absurd v
  unserved now q s (Outcome.replied (failure n)) c b gone g v = absurd v
  unserved now q s (Outcome.replied (rate_limited n)) c b gone g v = absurd v
  unserved now q s (Outcome.replied (starter_reply w)) c b gone g v = absurd v
  unserved now q s (Outcome.replied (enrolled_reply w i n)) c b gone g v = absurd v
  unserved now q s awaits_bootstrap c b gone g v = absurd v
  unserved now q s awaits_enrollment c b gone g v = absurd v
  unserved now q s runs_admin_invite c b gone g v = absurd v

  -- Once the configuration of a gateway with a valid id is deleted, then however many requests and
  -- bodies come in between, no request with a token of that gateway, though it verifies, is answered
  -- in its first step with a renewed token, with its configuration or with 304, and no rows of it are
  -- admitted to ingest. A starter configuration and the exchange of a bootstrap token, which do not
  -- look at the bearer token, are not covered.
  pub handle_all-deleted :
      (g : Text) (s : ControlPlane) (es : List (ℕ × Event)) (now : ℕ) (q : HttpRequest) (c : Claims)
      → is_valid_gateway_id g ≡ true
      → Bears su now q.authorization c
      → c.sub ≡ g
      → ¬ Serves
          (begin su now q
            (handle_all es (record s { registry = (delete_config su.platform g s.registry).1 }))).0
  handle_all-deleted g s es now q c valid b own =
      let s' = handle_all es (record s { registry = (delete_config su.platform g s.registry).1 }) in
      let gone : get_config su.platform c.sub s'.registry ≡ ok none =
        ap (λ r. get_config su.platform c.sub r) (handle_all-registry es _)
        ∙ ap (λ t. get_config su.platform t (delete_config su.platform g s.registry).1) own
        ∙ (get_config-delete_config su.platform g s.registry valid).1 in
      unserved now q s' _ c b gone (begin-Grant su now q s')
