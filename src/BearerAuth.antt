-- ===== src/BearerAuth.antt =====
-- The authorization of requests to the control plane: src/server/auth.js, for the tokens of
-- gateways, and src/server/admin_auth.js. The comparison of the admin token in constant time is
-- equality of bytes; what a refused request is told is the reason.
use collectivus.Prelude.{
  ℕ, ◌+◌, Bool, false, ◌&&◌, ◌||◌, Option, none, some, [], ◌∷◌, leb, ◌==◌, if◌then◌else◌, Text,
  text,
}
use collectivus.Bootstrap.{is_empty}
use collectivus.Jwt.{
  Runtime, Claims, VerifyError, malformed, bad_signature, iat_in_future, token_expired, Verified,
  verified, rejected, secret_missing, verify_jwt, same_bytes,
}

-- The class `\s` of a regular expression, which is also what `trim` removes.
abbrev pub is_white : ℕ → Bool
is_white c =
    (leb 9 c && leb c 13)
    || c == 32
    || c == 160
    || c == 5760
    || (leb 8192 c && leb c 8202)
    || c == 8232
    || c == 8233
    || c == 8239
    || c == 8287
    || c == 12288
    || c == 65279

unfoldable pub trim_start : Text → Text
trim_start [] = []
trim_start (c ∷ s) = let rest = trim_start s in if is_white c then rest else c ∷ s

abbrev pub keep_end : ℕ → Text → Text
keep_end c [] = if is_white c then [] else c ∷ []
keep_end c (d ∷ s) = c ∷ d ∷ s

unfoldable pub trim_end : Text → Text
trim_end [] = []
trim_end (c ∷ s) = keep_end c (trim_end s)

-- `trim`
abbrev pub trim : Text → Text
trim s = trim_end (trim_start s)

-- A letter against a lower-case one, as the flag `i` compares them.
abbrev pub same_letter : ℕ → ℕ → Bool
same_letter c l = c == l || c + 32 == l

-- What follows a prefix of lower-case letters.
unfoldable pub after_letters : Text → Text → Option Text
after_letters [] s = some s
after_letters (l ∷ ls) [] = none
after_letters (l ∷ ls) (c ∷ s) = if same_letter c l then after_letters ls s else none

abbrev pub after_white : Option Text → Option Text
after_white (some (c ∷ s)) = if is_white c then some (trim (c ∷ s)) else none
after_white _ = none

-- The text behind `/^bearer\s+/i`, trimmed; none where that does not match.
abbrev pub bearer_of : Text → Option Text
bearer_of header = after_white (after_letters (text "bearer") header)

pub data Authorized : Type 0 where
  claimed : Claims → Authorized
  unauthorized : Text → Authorized
  thrown : Authorized

-- `errorReason`
abbrev pub error_reason : VerifyError → Text
error_reason token_expired = text "token expired"
error_reason bad_signature = text "invalid token signature"
error_reason iat_in_future = text "token issued-at is in the future"
error_reason malformed = text "malformed token"

abbrev pub judge_token : Verified → Authorized
judge_token (verified c) = claimed c
judge_token (rejected e) = unauthorized (error_reason e)
judge_token secret_missing = thrown

module _ (rt : Runtime) where
  abbrev pub judge_bearer : ℕ → Text → Option Text → Authorized
  judge_bearer now secret none = unauthorized (text "expected \"Authorization: Bearer <token>\"")
  judge_bearer now secret (some token) =
      if is_empty token
      then unauthorized (text "empty bearer token")
      else judge_token (verify_jwt rt now token secret)

  -- The middleware of `createBearerAuth`.
  unfoldable pub authorize : ℕ → Text → Option Text → Authorized
  authorize now secret none = unauthorized (text "missing Authorization header")
  authorize now secret (some header) = judge_bearer now secret (bearer_of header)

  abbrev pub judge_admin : Text → Option Text → Bool
  judge_admin token none = false
  judge_admin token (some presented) =
      if is_empty presented then false else same_bytes (rt.utf8 presented) (rt.utf8 token)

  -- The middleware of `createAdminAuth`.
  unfoldable pub authorize_admin : Text → Option Text → Bool
  authorize_admin token none = false
  authorize_admin token (some header) = judge_admin token (bearer_of header)
