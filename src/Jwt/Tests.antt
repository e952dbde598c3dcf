-- ===== src/Jwt/Tests.antt =====
-- The theorems on src/server/identity.js at concrete inputs. The runtime below writes each number
-- as that many ones and a zero, and the claims as their two times and their subject.
use collectivus.Prelude.{
  ℕ, zero, suc, ◌+◌, ◌/◌, ◌≡◌, refl, ap, ◌∙◌, Option, none, some, List, [], ◌∷◌, ltb, leb, ◌==◌,
  if◌then◌else◌, All, Text, text, text_eq, arith,
}
use collectivus.Bootstrap.{register}
use collectivus.Bootstrap.Tests.{plain, long}
use collectivus.Json.{Json, number, string, object, no_fields, field, field_of}
use collectivus.Jwt.{
  constant_time_equal_b64, same_bytes, from_base64, bytes_of, values, Runtime, Claims,
  iat_in_future, token_expired, rejected, verified, claims_json, header_text, base64_url_encode,
  base64_url_decode, to_base64, sextets, padding, strip_padding, token_of, sign_jwt, verify_jwt,
}
use collectivus.Prelude.Splits.{split_on}
use collectivus.Jwt.Base64.{IsByte}
use collectivus.Jwt.RoundTrip.{header_json, IsLawful, verify_jwt-sign_jwt}
use collectivus.Jwt.Verify.{IsSigned, verify_jwt-IsSigned}
use collectivus.Jwt.Issue.{Hands, issue_from_bootstrap-register}

abbrev ones : ℕ → List ℕ → List ℕ
ones zero rest = 0 ∷ rest
ones (suc n) rest = 1 ∷ ones n rest

abbrev unary : Text → List ℕ
unary [] = []
unary (c ∷ s) = ones c (unary s)

abbrev read_unary : ℕ → List ℕ → Text
read_unary n [] = []
read_unary n (b ∷ bytes) =
    let ended = n ∷ read_unary 0 bytes in
    let longer = read_unary (suc n) bytes in if b == 0 then ended else longer

read_unary-ones :
    (n k : ℕ) (rest : List ℕ) → read_unary n (ones k rest) ≡ (n + k) ∷ read_unary 0 rest
read_unary-ones n zero rest = ap (λ m. m ∷ read_unary 0 rest) (omega arith)
read_unary-ones n (suc k) rest =
    read_unary-ones (suc n) k rest ∙ ap (λ m. m ∷ read_unary 0 rest) (omega arith)

read_unary-unary : (s : Text) → read_unary 0 (unary s) ≡ s
read_unary-unary [] = refl
read_unary-unary (c ∷ s) =
    read_unary-ones 0 c (unary s)
    ∙ ap (λ m. m ∷ read_unary 0 (unary s)) (omega arith)
    ∙ ap (λ r. c ∷ r) (read_unary-unary s)

ones-IsByte : (n : ℕ) (rest : List ℕ) → All IsByte rest → All IsByte (ones n rest)
ones-IsByte zero rest h = (omega arith, h)
ones-IsByte (suc n) rest h = (omega arith, ones-IsByte n rest h)

unary-IsByte : (s : Text) → All IsByte (unary s)
unary-IsByte [] = tt
unary-IsByte (c ∷ s) = ones-IsByte c (unary s) (unary-IsByte s)

abbrev write_claims : Json → Text
write_claims (object (field a (string s) (field b (number i) (field c (number e) no_fields)))) =
    0 ∷ i ∷ e ∷ s
write_claims _ = []

abbrev read_json : Text → Option Json
read_json (zero ∷ i ∷ e ∷ s) = some (claims_json (record { sub = s; iat = i; exp = e }))
read_json (suc c ∷ s) = some header_json
read_json _ = none

abbrev pub runtime : Runtime
runtime = record {
  hmac = λ secret input. 7 ∷ 8 ∷ 9 ∷ 10 ∷ [];
  utf8 = unary;
  from_utf8 = read_unary 0;
  stringify = write_claims;
  parse = read_json;
}

pub runtime-IsLawful : IsLawful runtime
runtime-IsLawful = record {
  hmac_bytes = λ secret input. omega arith;
  utf8_bytes = unary-IsByte;
  header = ap read_json (read_unary-unary header_text);
  payload = λ c. ap read_json (read_unary-unary (write_claims (claims_json c)));
}

base64_example : base64_url_encode (0xfb ∷ 0xff ∷ 0x01 ∷ 0xfe ∷ []) ≡ text "-_8B_g"
unfolding base64_url_encode to_base64 sextets padding strip_padding
base64_example = refl

abbrev pub gw_claims : Claims
gw_claims = record { sub = text "gw"; iat = 2; exp = 9 }

abbrev pub gw_token : Text
gw_token = token_of runtime (text "key") gw_claims

gw_token-verifies : verify_jwt runtime 8_999 gw_token (text "key") ≡ (
    if ltb (8_999 / 1000 + 5) (2_000 / 1000)
    then rejected iat_in_future
    else if leb (2_000 / 1000 + 7) (8_999 / 1000)
    then rejected token_expired
    else verified (record { sub = text "gw"; iat = 2_000 / 1000; exp = 2_000 / 1000 + 7 }))
unfolding sign_jwt
gw_token-verifies =
    verify_jwt-sign_jwt runtime runtime-IsLawful 2_000 8_999 (text "gw") 7 (text "key") gw_token
      refl

gw_token-verified : verify_jwt runtime 8_999 gw_token (text "key") ≡ verified gw_claims
gw_token-verified = gw_token-verifies

verify_jwt-IsSigned_example : IsSigned runtime 8_999 gw_token (text "key") gw_claims
verify_jwt-IsSigned_example =
    verify_jwt-IsSigned runtime runtime-IsLawful 8_999 gw_token (text "key") gw_claims
      gw_token-verified

issue_from_bootstrap-register_example :
    (jwt : Text) × Hands runtime plain 5_000 long 7
      (text "key")
      (register plain 0 (text "gw") 60 long []).1
      jwt
      (text "gw")
    × (verify_jwt runtime 6_000 jwt (text "key") ≡ (
        if leb (5_000 / 1000 + 7) (6_000 / 1000)
        then rejected token_expired
        else verified (record { sub = text "gw"; iat = 5_000 / 1000; exp = 5_000 / 1000 + 7 })))
issue_from_bootstrap-register_example =
    issue_from_bootstrap-register runtime plain runtime-IsLawful 0 5_000 6_000 (text "gw") 60 long 7
      (text "key") [] refl (omega arith) (omega arith) (omega arith) refl (omega arith)
      (omega arith)

-- A runtime of short texts: one byte for the header, another for the claims.
abbrev read_short : Text → Option Json
read_short (zero ∷ []) = some header_json
read_short (suc zero ∷ []) = some (claims_json gw_claims)
read_short _ = none

abbrev pub short : Runtime
short = record {
  hmac = λ secret input. 7 ∷ 8 ∷ 9 ∷ [];
  utf8 = λ t. t;
  from_utf8 = λ bytes. bytes;
  stringify = write_claims;
  parse = read_short;
}

abbrev pub short_token : Text
short_token = text "AA.AQ.BwgJ"

pub short_token-verified : verify_jwt short 8_999 short_token (text "key") ≡ verified gw_claims
unfolding verify_jwt constant_time_equal_b64 same_bytes base64_url_decode base64_url_encode
    from_base64 to_base64 sextets padding strip_padding split_on text_eq field_of bytes_of values
short_token-verified = refl
