-- ===== src/ControlPlane/Starter.antt =====
-- The configuration that src/server/control_plane.js hands to a new gateway.
use collectivus.Prelude.{
  ◌≡◌, refl, arith, text_eq_refl, Option, none, some, List, [], ◌∷◌, ◌++◌, Text, text,
}
use collectivus.Prelude.Splits.{split_on}
use collectivus.ServerUtil.{strip_trailing_slashes}
use collectivus.Json.{Json, null, number, string, object, Fields, no_fields, field, field_of}
use collectivus.Registry.{Platform, Registry, Result, ok, failed, get_config}
use collectivus.Ingest.{put_field}
use collectivus.BearerAuth.{trim}
use collectivus.ControlPlane.{HttpRequest}

abbrev pub first_part : List Text → Text
first_part [] = []
first_part (p ∷ ps) = trim p

-- `firstHeaderValue`, of a header that is there once
abbrev pub first_header_value : Option Text → Option Text
first_header_value none = none
first_header_value (some []) = none
first_header_value (some (c ∷ s)) = some (first_part (split_on b',' [] (c ∷ s)))

-- `??`
abbrev pub or_else : Option Text → Text → Text
or_else none t = t
or_else (some s) t = s

-- `requestBaseUrl`
pub request_base_url : HttpRequest → Text
request_base_url q =
    or_else (first_header_value q.forwarded_proto) (text "http")
    ++ text "://"
    ++ or_else (first_header_value q.forwarded_host)
        (or_else (first_header_value q.host) (text "localhost"))

-- `normalizeBaseUrl`
abbrev pub normalize_base_url : Text → Text
normalize_base_url = strip_trailing_slashes

-- The URL of this server, for a gateway.
abbrev pub central_url : Option Text → HttpRequest → Text
central_url none q = normalize_base_url (request_base_url q)
central_url (some public) q = normalize_base_url public

-- The configuration of a gateway that has none yet.
abbrev pub starter_config : Text → Json
starter_config url = object (
    field (text "version") (number 1) (
      field (text "role") (string (text "gateway")) (
        field (text "central_server")
          (object (
            field (text "url") (string url) (field (text "identity") (object no_fields) no_fields)))
          no_fields)))

-- The fields of `{ ...v }`, for a value that is an object or missing
abbrev pub spread : Option Json → Fields
spread (some (object fs)) = fs
spread _ = no_fields

-- `config.central_server ?? { url, identity: {} }`
abbrev pub central_of : Text → Option Json → Fields
central_of url none =
    field (text "url") (string url) (field (text "identity") (object no_fields) no_fields)
central_of url (some null) =
    field (text "url") (string url) (field (text "identity") (object no_fields) no_fields)
central_of url (some v) = spread (some v)

-- `central.url ?? centralUrl`
abbrev pub url_of : Text → Option Json → Json
url_of url none = string url
url_of url (some null) = string url
url_of url (some v) = v

abbrev pub identity_with : Text → Fields → Json
identity_with token central = object (
    put_field (text "bootstrap_token") (string token) (spread (field_of (text "identity") central)))

abbrev pub central_with : Text → Text → Fields → Json
central_with url token central = object (
    put_field (text "identity") (identity_with token central)
      (put_field (text "url") (url_of url (field_of (text "url") central)) central))

-- `withBootstrapToken`; a validated configuration is an object.
pub with_bootstrap_token : Json → Text → Text → Json
with_bootstrap_token (object fs) url token = object (
    put_field (text "central_server")
      (central_with url token (central_of url (field_of (text "central_server") fs))) fs)
with_bootstrap_token config url token = config

abbrev pub config_or_starter : Text → Text → Result (Option (Json × Text)) → Result Json
config_or_starter url token (failed f) = failed f
config_or_starter url token (ok none) = ok (with_bootstrap_token (starter_config url) url token)
config_or_starter url token (ok (some (config, etag))) = ok (with_bootstrap_token config url token)

-- `bootstrapConfigForGateway`
pub bootstrap_config_for_gateway :
    Platform → Option Text → HttpRequest → Registry → Text → Text → Result Json
bootstrap_config_for_gateway p public_url q r gateway token =
    config_or_starter (central_url public_url q) token (get_config p gateway r)

-- The bootstrap token that a gateway finds in its configuration.
abbrev field_in : Text → Option Json → Option Json
field_in k (some (object fs)) = field_of k fs
field_in k _ = none

pub token_in : Json → Option Json
token_in config =
    field_in (text "bootstrap_token")
      (field_in (text "identity") (field_in (text "central_server") (some config)))

field_of-put_field_same :
    (k : Text) (v : Json) (fs : Fields) → field_of k (put_field k v fs) ≡ some v
unfolding field_of put_field
field_of-put_field_same k v no_fields = rw (text_eq_refl k) refl
field_of-put_field_same k v (field j w fs) =
    ground (arith, text_eq_refl k, field_of-put_field_same k v fs)

-- A gateway finds the token that it was given.
pub token_in-with_bootstrap_token :
    (fs : Fields) (url token : Text)
    → token_in (with_bootstrap_token (object fs) url token) ≡ some (string token)
unfolding token_in with_bootstrap_token
token_in-with_bootstrap_token fs url token =
    rw
      (
        field_of-put_field_same (text "central_server") _ fs,
        field_of-put_field_same (text "identity") _ _,
        field_of-put_field_same (text "bootstrap_token") (string token) _,
      )
      refl
