-- ===== src/ControlPlane.antt =====
-- src/server/control_plane.js: the requests to the server, over the stores, the limiters and the
-- ingest endpoint of the other modules. A request with a body takes two steps, `begin` and
-- `finish`, which those of other requests may come between. The URL is split into its path and its
-- query before; the handler of admin invites is that of the module AdminInvites.
pub mod Etags
pub mod Starter
pub mod Requests
pub mod Bearers
pub mod Authority
pub mod Revoked
pub mod Conditional
pub mod Tests
use collectivus.Prelude.{
  ℕ, zero, suc, ◌+◌, ◌/◌, max, Bool, true, false, ◌&&◌, ◌||◌, Option, none, some, List, [], ◌∷◌,
  ◌++◌, leb, ◌==◌, if◌then◌else◌, Text, text, text_eq, drop,
}
use collectivus.Prelude.Maps.{Map}
use collectivus.Prelude.Splits.{split_on}
use collectivus.RateLimit.{Limits, Verdict, check}
use collectivus.Bootstrap.{is_empty, Reason, Inspected, valid, invalid, inspect}
use collectivus.Enrollment.{
  Stores, IssueResult, granted, unknown_key, expired, exhausted, not_registered, issue_bootstrap,
}
use collectivus.Json.{Json, null, number, string, object, Fields, no_fields, field, field_of}
use collectivus.Jwt.{
  Runtime, Claims, Issued, issued_jwt, not_issued, sign_failed, sign_jwt, issue_from_bootstrap,
}
use collectivus.Registry.{Platform, Registry, Result, ok, failed, Failure, get_config}
use collectivus.Ingest.{IngestOptions, Ingest, Admission, admit, put_field}
use collectivus.BearerAuth.{
  Authorized, claimed, unauthorized, thrown, authorize, authorize_admin, trim,
}

-- The settings of the server.
pub record Setup : Type 0 where
  pub runtime : Runtime
  pub platform : Platform
  pub secret : Text
  pub jwt_ttl_seconds : ℕ
  pub provisioned : Bool
  pub public_url : Option Text
  pub admin_token : Option Text
  pub ingest_options : IngestOptions

pub record ControlPlane : Type 0 where
  pub stores : Stores
  pub registry : Registry
  pub bootstrap_limiter : Map (List ℕ)
  pub refresh_limiter : Map (List ℕ)
  pub admin_limiter : Map (List ℕ)
  pub ingest : Ingest

pub record HttpRequest : Type 0 where
  pub path : Text
  pub method : Text
  pub client_ip : Text
  pub authorization : Option Text
  pub if_none_match : Option Text
  pub content_type : Text
  pub forwarded_proto : Option Text
  pub forwarded_host : Option Text
  pub host : Option Text
  pub token : Option Text
  pub bootstrap_token : Option Text

pub data Reply : Type 0 where
  health : Reply
  failure : ℕ → Reply
  rate_limited : ℕ → Reply
  token_reply : Text → ℕ → Reply
  config_reply : Json → Text → Reply
  not_modified : Text → Reply
  starter_reply : Json → Reply
  enrolled_reply : Json → Text → ℕ → Reply

-- What the first step ends with: an answer, or the wait for a body.
pub data Outcome : Type 0 where
  replied : Reply → Outcome
  awaits_bootstrap : Outcome
  awaits_enrollment : Outcome
  runs_admin_invite : Outcome
  runs_ingest : Text → Admission → Outcome

pub data Route : Type 0 where
  health_route bootstrap_route refresh_route starter_route enrollment_route config_route
        admin_route :
      Route
  ingest_route : Text → Route
  no_route : Route

-- What follows a prefix, none where it is not there.
unfoldable pub after_prefix : Text → Text → Option Text
after_prefix [] s = some s
after_prefix (p ∷ ps) [] = none
after_prefix (p ∷ ps) (c ∷ s) = if c == p then after_prefix ps s else none

abbrev pub ingest_or_none : Option Text → Route
ingest_or_none none = no_route
ingest_or_none (some signal) = ingest_route signal

-- The tests of `handleRequest` on the path.
pub route_of : Text → Route
route_of path =
    if text_eq path (text "/health")
    then health_route
    else if text_eq path (text "/v1/identity/bootstrap")
    then bootstrap_route
    else if text_eq path (text "/v1/identity/refresh")
    then refresh_route
    else if text_eq path (text "/v1/bootstrap-config")
    then starter_route
    else if text_eq path (text "/v1/enrollments/bootstrap-config")
    then enrollment_route
    else if text_eq path (text "/v1/config")
    then config_route
    else if text_eq path (text "/v1/admin/invites")
    then admin_route
    else ingest_or_none (after_prefix (text "/v1/ingest/") path)
