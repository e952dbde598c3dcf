-- ===== src/Jwt.antt =====
-- src/server/identity.js: the JWTs of the control plane, and their issue for a bootstrap token.
-- `Buffer`'s base64 is written out; HMAC-SHA256, UTF-8, JSON.stringify and JSON.parse are the
-- interface `Runtime`. Clocks are in milliseconds.
pub mod Base64
pub mod RoundTrip
pub mod Verify
pub mod Issue
pub mod Tests
use collectivus.Prelude.{
  ℕ, zero, suc, ◌+◌, ◌-◌, ◌*◌, ◌/◌, ◌%◌, Bool, true, false, ◌&&◌, ◌||◌, Option, none, some, List,
  [], ◌∷◌, ◌++◌, map, ltb, leb, ◌==◌, if◌then◌else◌, length, take, Text, text, text_eq,
}
use collectivus.Prelude.Splits.{split_on}
use collectivus.Bootstrap.{Records, Reason, Consumed, ok, refused, is_empty, try_consume}
use collectivus.Json.{
  Json, null, boolean, number, string, array, object, Fields, no_fields, field, field_of,
}

-- Six bits as a character of the base64 alphabet.
abbrev pub char_of : ℕ → ℕ
char_of n =
    if ltb n 26
    then b'A' + n
    else if ltb n 52
    then b'a' + (n - 26)
    else if ltb n 62
    then b'0' + (n - 52)
    else if n == 62
    then b'+'
    else b'/'

abbrev pub value_of : ℕ → Option ℕ
value_of c =
    if leb b'A' c && leb c b'Z'
    then some (c - b'A')
    else if leb b'a' c && leb c b'z'
    then some (c - b'a' + 26)
    else if leb b'0' c && leb c b'9'
    then some (c - b'0' + 52)
    else if c == b'+'
    then some 62
    else if c == b'/'
    then some 63
    else none

-- The bits of the bytes, in groups of six.
pub sextets : List ℕ → List ℕ
sextets [] = []
sextets (a ∷ []) = (a / 4) ∷ (a % 4 * 16) ∷ []
sextets (a ∷ b ∷ []) = (a / 4) ∷ (a % 4 * 16 + b / 16) ∷ (b % 16 * 4) ∷ []
sextets (a ∷ b ∷ c ∷ bytes) =
    (a / 4) ∷ (a % 4 * 16 + b / 16) ∷ (b % 16 * 4 + c / 64) ∷ (c % 64) ∷ sextets bytes

pub padding : List ℕ → Text
padding [] = []
padding (a ∷ []) = text "=="
padding (a ∷ b ∷ []) = text "="
padding (a ∷ b ∷ c ∷ bytes) = padding bytes

-- `buf.toString('base64')`
pub to_base64 : List ℕ → Text
to_base64 bytes = map char_of (sextets bytes) ++ padding bytes

-- The values of the characters before the first `=`; others are skipped.
pub values : Text → List ℕ
values [] = []
values (c ∷ s) =
    let rest = values s in
    if c == b'=' then [] else elim (value_of c) [ none ↦ rest | some n ↦ n ∷ rest ]

pub bytes_of : List ℕ → List ℕ
bytes_of [] = []
bytes_of (a ∷ []) = []
bytes_of (a ∷ b ∷ []) = (a * 4 + b / 16) ∷ []
bytes_of (a ∷ b ∷ c ∷ []) = (a * 4 + b / 16) ∷ (b % 16 * 16 + c / 4) ∷ []
bytes_of (a ∷ b ∷ c ∷ d ∷ rest) =
    (a * 4 + b / 16) ∷ (b % 16 * 16 + c / 4) ∷ (c % 4 * 64 + d) ∷ bytes_of rest

-- `Buffer.from(s, 'base64')`
pub from_base64 : Text → List ℕ
from_base64 s = bytes_of (values s)

-- `s.replace(/=+$/g, '')`
pub strip_padding : Text → Text
strip_padding [] = []
strip_padding (c ∷ s) = elim (strip_padding s) [
  | [] ↦ (if c == b'=' then [] else c ∷ [])
  | d ∷ rest ↦ c ∷ d ∷ rest
]

abbrev pub to_url_char : ℕ → ℕ
to_url_char c = if c == b'+' then b'-' else if c == b'/' then b'_' else c

abbrev pub from_url_char : ℕ → ℕ
from_url_char c = if c == b'-' then b'+' else if c == b'_' then b'/' else c

-- `base64UrlEncode`
pub base64_url_encode : List ℕ → Text
base64_url_encode bytes = map to_url_char (strip_padding (to_base64 bytes))

-- `base64UrlDecode`
pub base64_url_decode : Text → List ℕ
base64_url_decode s = from_base64 (map from_url_char s ++ take ((4 - length s % 4) % 4) (text "=="))

pub record Runtime : Type 0 where
  pub hmac : Text → Text → List ℕ
  pub utf8 : Text → List ℕ
  pub from_utf8 : List ℕ → Text
  pub stringify : Json → Text
  pub parse : Text → Option Json

pub record Claims : Type 0 where
  pub sub : Text
  pub iat : ℕ
  pub exp : ℕ

pub data VerifyError : Type 0 where
  malformed bad_signature iat_in_future token_expired : VerifyError

-- A thrown error, or the result of `verifyJwt`.
pub data Verified : Type 0 where
  verified : Claims → Verified
  rejected : VerifyError → Verified
  secret_missing : Verified

abbrev pub claims_json : Claims → Json
claims_json c = object (
    field (text "sub") (string c.sub)
      (field (text "iat") (number c.iat) (field (text "exp") (number c.exp) no_fields)))

abbrev pub header_text : Text
header_text = text "{\"alg\":\"HS256\",\"typ\":\"JWT\"}"

abbrev pub iat_skew_tolerance_seconds : ℕ
iat_skew_tolerance_seconds = 5

-- Equality of two buffers, the length first.
pub same_bytes : List ℕ → List ℕ → Bool
same_bytes as' bs = length as' == length bs && text_eq as' bs

-- `constantTimeEqualB64`
pub constant_time_equal_b64 : Text → Text → Bool
constant_time_equal_b64 a b = same_bytes (base64_url_decode a) (base64_url_decode b)

abbrev pub is_text : Text → Option Json → Bool
is_text t (some (string s)) = text_eq s t
is_text t _ = false

-- The test on the header.
abbrev pub is_header : Option Json → Bool
is_header (some (object fs)) =
    is_text (text "HS256") (field_of (text "alg") fs)
    && is_text (text "JWT") (field_of (text "typ") fs)
is_header _ = false

-- The tests on the types of the claims.
abbrev pub claims_of : Option Json → Option Json → Option Json → Option Claims
claims_of (some (string (c ∷ s))) (some (number iat)) (some (number exp)) =
    some (record { sub = c ∷ s; iat = iat; exp = exp })
claims_of _ _ _ = none

abbrev pub read_claims : Option Json → Option Claims
read_claims (some (object fs)) =
    claims_of (field_of (text "sub") fs) (field_of (text "iat") fs) (field_of (text "exp") fs)
read_claims _ = none

-- The tests on the times.
abbrev pub check_times : ℕ → Option Claims → Verified
check_times now none = rejected malformed
check_times now (some c) =
    if ltb (now / 1000 + iat_skew_tolerance_seconds) c.iat
    then rejected iat_in_future
    else if leb c.exp (now / 1000)
    then rejected token_expired
    else verified c

pub data Issued : Type 0 where
  issued_jwt : Text → ℕ → Text → Issued
  not_issued : Reason → Issued
  sign_failed : Issued

abbrev pub issue_signed : ℕ → ℕ → Text → Option Text → Issued
issue_signed now ttl gateway none = sign_failed
issue_signed now ttl gateway (some jwt) = issued_jwt jwt (now / 1000 + ttl) gateway

module _ (rt : Runtime) where
  abbrev pub jwt_header_b64 : Text
  jwt_header_b64 = base64_url_encode (rt.utf8 header_text)

  abbrev pub signature : Text → Text → Text
  signature secret input = base64_url_encode (rt.hmac secret input)

  abbrev pub payload_b64 : Claims → Text
  payload_b64 c = base64_url_encode (rt.utf8 (rt.stringify (claims_json c)))

  -- The token of given claims.
  abbrev pub token_of : Text → Claims → Text
  token_of secret c =
      let payload = base64_url_encode (rt.utf8 (rt.stringify (claims_json c))) in
      let input = jwt_header_b64 ++ b'.' ∷ payload in input ++ b'.' ∷ signature secret input

  -- `signJwt`; none where it throws.
  unfoldable pub sign_jwt : ℕ → Text → ℕ → Text → Option Text
  sign_jwt now gateway ttl secret =
      if is_empty gateway || ttl == 0 || is_empty secret
      then none
      else some
          (token_of secret (record { sub = gateway; iat = now / 1000; exp = now / 1000 + ttl }))

  abbrev pub read_part : Text → Option Json
  read_part part = rt.parse (rt.from_utf8 (base64_url_decode part))

  -- What follows the test of the signature. Where the header does not parse the payload is not
  -- read, with the same answer.
  abbrev pub verify_payload : ℕ → Text → Text → Verified
  verify_payload now header payload =
      if is_header (read_part header)
      then check_times now (read_claims (read_part payload))
      else rejected malformed

  abbrev pub verify_parts : ℕ → Text → List Text → Verified
  verify_parts now secret (header ∷ payload ∷ sig ∷ []) =
      if constant_time_equal_b64 (signature secret (header ++ b'.' ∷ payload)) sig
      then verify_payload now header payload
      else rejected bad_signature
  verify_parts now secret _ = rejected malformed

  -- `verifyJwt`
  pub verify_jwt : ℕ → Text → Text → Verified
  verify_jwt now token secret =
      if is_empty token
      then rejected malformed
      else if is_empty secret
      then secret_missing
      else verify_parts now secret (split_on b'.' [] token)

  abbrev pub issue_consumed : ℕ → ℕ → Text → Consumed → Issued
  issue_consumed now ttl secret (refused reason) = not_issued reason
  issue_consumed now ttl secret (ok gateway) =
      issue_signed now ttl gateway (sign_jwt now gateway ttl secret)

  -- `issueFromBootstrap`, with the store that it leaves. Its readings of the clock, for the token's
  -- expiry and for the answer's, are one.
  pub issue_from_bootstrap : (Text → Text) → ℕ → Text → ℕ → Text → Records → Issued × Records
  issue_from_bootstrap sha256 now token ttl secret records =
      let consumed = try_consume sha256 now token records in
      (issue_consumed now ttl secret consumed.0, consumed.1)
