-- ===== src/Identity.antt =====
-- src/gateway/identity.js: how a gateway gets, keeps and renews its JWT. The responses of the
-- central server and the outcome of each write of the identity file are parameters; the file is
-- what reading and parsing it gives. A network call is one entry of `posts`. The texts of errors
-- are left out, and a refresh runs alone, as `refreshing` makes concurrent callers share one.
pub mod Renewal
pub mod Restart
pub mod Enrolled
pub mod Tests
use collectivus.Prelude.{
  ℕ, zero, suc, ◌+◌, ◌*◌, ◌/◌, Bool, true, false, ◌&&◌, Option, none, some, List, [], ◌∷◌, ◌++◌,
  ltb, leb, if◌then◌else◌, Text, text,
}
use collectivus.Prelude.Splits.{split_on}
use collectivus.Json.{Json, number, string, object, Fields, no_fields, field, field_of}
use collectivus.Jwt.{Runtime, base64_url_decode}

abbrev pub refresh_window_seconds : ℕ
refresh_window_seconds = 24 * 60 * 60

pub record PersistedIdentity : Type 0 where
  pub jwt : Text
  pub expires_at : ℕ
  pub gateway_id : Text

pub data Failure : Type 0 where
  token_missing unreachable server_refused bad_json not_object jwt_missing expiry_missing
        sub_missing nothing_to_refresh file_unreadable file_unparsable file_invalid write_failed
        not_acquired :
      Failure

pub data Result {ℓ} (A : Type ℓ) : Type ℓ where
  ok : A → Result A
  failed : Failure → Result A

-- The file: absent, not readable, not JSON, or a JSON value.
pub data IdentityFile : Type 0 where
  absent unreadable unparsable : IdentityFile
  holding : Json → IdentityFile

pub data Post : Type 0 where
  bootstrap_post : Text → Post
  refresh_post : Text → Post

pub record IdentityClient : Type 0 where
  pub identity : Option PersistedIdentity
  pub file : IdentityFile
  pub posts : List Post

-- A response: its status, and its JSON where that parses.
pub record Response : Type 0 where
  pub status : ℕ
  pub json : Option Json

-- `JSON.stringify(identity)`, as the value that it parses to
abbrev pub identity_json : PersistedIdentity → Json
identity_json i = object (
    field (text "jwt") (string i.jwt) (
      field (text "expires_at") (number i.expires_at)
        (field (text "gateway_id") (string i.gateway_id) no_fields)))

abbrev pub text_value : Option Json → Option Text
text_value (some (string (c ∷ s))) = some (c ∷ s)
text_value _ = none

-- A string that is not empty.
abbrev pub text_field : Text → Fields → Option Text
text_field k fs = text_value (field_of k fs)

abbrev pub number_field : Text → Fields → Option ℕ
number_field k fs = elim (field_of k fs) [
  | some v ↦ elim v [ number n ↦ some n | _ ↦ none ]
  | none ↦ none
]

abbrev pub identity_of : Option Text → Option ℕ → Option Text → Result PersistedIdentity
identity_of (some jwt) (some expires_at) (some gateway_id) =
    ok (record { jwt = jwt; expires_at = expires_at; gateway_id = gateway_id })
identity_of _ _ _ = failed file_invalid

abbrev pub read_json : Json → Result PersistedIdentity
read_json (object fs) =
    identity_of (text_field (text "jwt") fs) (number_field (text "expires_at") fs)
      (text_field (text "gateway_id") fs)
read_json _ = failed file_invalid

-- `readPersistedFile`; none where there is no file
pub read_persisted_file : IdentityFile → Option (Result PersistedIdentity)
read_persisted_file absent = none
read_persisted_file unreadable = some (failed file_unreadable)
read_persisted_file unparsable = some (failed file_unparsable)
read_persisted_file (holding v) = some (read_json v)

abbrev pub sub_of : Option Json → Option Text
sub_of (some (object fs)) = text_field (text "sub") fs
sub_of _ = none

abbrev pub or_fallback : Option Text → Option Text → Option Text
or_fallback none fallback = fallback
or_fallback (some s) fallback = some s

abbrev pub with_sub : Text → ℕ → Option Text → Result PersistedIdentity
with_sub jwt expires_at (some (c ∷ s)) =
    ok (record { jwt = jwt; expires_at = expires_at; gateway_id = c ∷ s })
with_sub jwt expires_at _ = failed sub_missing

-- The identity is kept in memory before it is written.
abbrev pub keep_identity :
    Bool → Result PersistedIdentity → IdentityClient → Result (Unit {0}) × IdentityClient
keep_identity writes (failed e) c = (failed e, c)
keep_identity false (ok i) c = (failed write_failed, record c { identity = some i })
keep_identity true (ok i) c =
    (ok tt, record c { identity = some i; file = holding (identity_json i) })

abbrev pub add_post : Post → IdentityClient → IdentityClient
add_post p c = record c { posts = c.posts ++ p ∷ [] }

abbrev pub is_due : ℕ → PersistedIdentity → Bool
is_due now i = leb i.expires_at (now / 1000 + refresh_window_seconds)

pub data AcquireSource : Type 0 where
  loaded refreshed bootstrapped : AcquireSource

abbrev pub as_source :
    AcquireSource → Result (Unit {0}) × IdentityClient → Result AcquireSource × IdentityClient
as_source source (failed e, c) = (failed e, c)
as_source source (ok u, c) = (ok source, c)

abbrev pub jwt_of : Option PersistedIdentity → Result Text
jwt_of none = failed not_acquired
jwt_of (some i) = ok i.jwt

abbrev pub after_refresh : Result (Unit {0}) × IdentityClient → Result Text × IdentityClient
after_refresh (failed e, c) = (failed e, c)
after_refresh (ok u, c) = (jwt_of c.identity, c)

module _ (rt : Runtime) where
  abbrev pub sub_of_parts : List Text → Option Text
  sub_of_parts (header ∷ payload ∷ sig ∷ []) =
      sub_of (rt.parse (rt.from_utf8 (base64_url_decode payload)))
  sub_of_parts _ = none

  -- `decodeJwtSub`
  pub decode_jwt_sub : Text → Option Text
  decode_jwt_sub jwt = sub_of_parts (split_on b'.' [] jwt)

  abbrev pub with_fields : Option Text → Option ℕ → Option Text → Result PersistedIdentity
  with_fields none expires_at fallback = failed jwt_missing
  with_fields (some jwt) none fallback = failed expiry_missing
  with_fields (some jwt) (some expires_at) fallback =
      with_sub jwt expires_at (or_fallback (decode_jwt_sub jwt) fallback)

  -- `identityFromPayload`
  pub identity_from_payload : Json → Option Text → Result PersistedIdentity
  identity_from_payload (object fs) fallback =
      with_fields (text_field (text "jwt") fs) (number_field (text "expires_at") fs) fallback
  identity_from_payload _ fallback = failed not_object

  abbrev pub take_json :
      Bool → Option Text → Option Json → IdentityClient → Result (Unit {0}) × IdentityClient
  take_json writes fallback none c = (failed bad_json, c)
  take_json writes fallback (some v) c = keep_identity writes (identity_from_payload v fallback) c

  abbrev pub take_response :
      Bool → Option Text → Option Response → IdentityClient → Result (Unit {0}) × IdentityClient
  take_response writes fallback none c = (failed unreachable, c)
  take_response writes fallback (some r) c =
      if leb 200 r.status && ltb r.status 300
      then take_json writes fallback r.json c
      else (failed server_refused, c)

  -- `bootstrap`, with the configured token
  pub bootstrap :
      Option Text → Option Response → Bool → IdentityClient → Result (Unit {0}) × IdentityClient
  bootstrap none response writes c = (failed token_missing, c)
  bootstrap (some []) response writes c = (failed token_missing, c)
  bootstrap (some (t ∷ token)) response writes c =
      take_response writes none response (add_post (bootstrap_post (t ∷ token)) c)

  abbrev pub refresh_from :
      Option PersistedIdentity
      → Option Response
      → Bool
      → IdentityClient
      → Result (Unit {0}) × IdentityClient
  refresh_from none response writes c = (failed nothing_to_refresh, c)
  refresh_from (some i) response writes c =
      take_response writes (some i.gateway_id) response (add_post (refresh_post i.jwt) c)

  -- `doRefresh`
  pub do_refresh : Option Response → Bool → IdentityClient → Result (Unit {0}) × IdentityClient
  do_refresh response writes c = refresh_from c.identity response writes c

  abbrev pub acquire_from :
      ℕ
      → Option (Result PersistedIdentity)
      → Option Text
      → Option Response
      → Bool
      → IdentityClient
      → Result AcquireSource × IdentityClient
  acquire_from now none token response writes c =
      as_source bootstrapped (bootstrap token response writes c)
  acquire_from now (some (failed e)) token response writes c = (failed e, c)
  acquire_from now (some (ok i)) token response writes c =
      let held = record c { identity = some i } in
      if is_due now i
      then as_source refreshed (do_refresh response writes held)
      else (ok loaded, held)

  -- `acquire`
  pub acquire :
      ℕ
      → Option Text
      → Option Response
      → Bool
      → IdentityClient
      → Result AcquireSource × IdentityClient
  acquire now token response writes c =
      acquire_from now (read_persisted_file c.file) token response writes c

  abbrev pub jwt_from :
      ℕ
      → Option PersistedIdentity
      → Option Response
      → Bool
      → IdentityClient
      → Result Text × IdentityClient
  jwt_from now none response writes c = (failed not_acquired, c)
  jwt_from now (some i) response writes c =
      if is_due now i then after_refresh (do_refresh response writes c) else (ok i.jwt, c)

  -- `getCurrentJwt`
  pub get_current_jwt : ℕ → Option Response → Bool → IdentityClient → Result Text × IdentityClient
  get_current_jwt now response writes c = jwt_from now c.identity response writes c
