-- ===== src/Identity/Enrolled.antt =====
-- A gateway's bootstrap against the server's: src/gateway/identity.js and src/server/identity.js.
use collectivus.Prelude.{
  ℕ, ◌+◌, ◌/◌, ◌≡◌, refl, false, Option, some, [], ◌∷◌, Text, text, text_eq, arith, ap, ◌∙◌, subst,
}
use collectivus.Bootstrap.{is_empty}
use collectivus.Json.{Json, number, string, object, no_fields, field, field_of}
use collectivus.Jwt.{Runtime, Claims, claims_json, token_of, sign_jwt}
use collectivus.Jwt.RoundTrip.{IsLawful, split_on-token_of, read_payload, sign_jwt-token_of}
use collectivus.Identity.{ok, sub_of, sub_of_parts, decode_jwt_sub, identity_from_payload}

-- The server's answer to a bootstrap or a refresh: `{ jwt, expires_at }`
abbrev pub answer_json : Text → ℕ → Json
answer_json jwt expires_at =
    object
      (field (text "jwt") (string jwt) (field (text "expires_at") (number expires_at) no_fields))

sub_of-claims_json :
    (c : ℕ) (s : Text) (iat exp : ℕ)
    → sub_of (some (claims_json (record { sub = c ∷ s; iat = iat; exp = exp }))) ≡ some (c ∷ s)
unfolding field_of text_eq
sub_of-claims_json c s iat exp = refl

module _ (rt : Runtime) (law : IsLawful rt) where
  decode_jwt_sub-token_of :
      (secret : Text) (c : ℕ) (s : Text) (iat exp : ℕ)
      → let claims : Claims = record { sub = c ∷ s; iat = iat; exp = exp } in
        decode_jwt_sub rt (token_of rt secret claims) ≡ some (c ∷ s)
  unfolding decode_jwt_sub
  decode_jwt_sub-token_of secret c s iat exp =
      let claims : Claims = record { sub = c ∷ s; iat = iat; exp = exp } in
      ap (sub_of_parts rt) (split_on-token_of rt law secret claims)
      ∙ ap sub_of (read_payload rt law claims)
      ∙ sub_of-claims_json c s iat exp

  answer-parts :
      (jwt : Text) (expires_at c : ℕ) (s : Text) (fallback : Option Text)
      → is_empty jwt ≡ false
      → decode_jwt_sub rt jwt ≡ some (c ∷ s)
      → identity_from_payload rt (answer_json jwt expires_at) fallback
        ≡ ok (record { jwt = jwt; expires_at = expires_at; gateway_id = c ∷ s })
  unfolding identity_from_payload field_of text_eq
  answer-parts [] expires_at c s fallback h e = cc
  answer-parts (k ∷ jwt) expires_at c s fallback h e = rw e

  -- A gateway that gets a JWT which the server signed for it, in the server's answer, takes on the
  -- identity of that JWT: the same token, the answer's expiry and the gateway of the claims.
  pub identity_from_payload-sign_jwt :
      (now : ℕ) (gateway : Text) (ttl : ℕ) (secret jwt : Text) (fallback : Option Text)
      → sign_jwt rt now gateway ttl secret ≡ some jwt
      → identity_from_payload rt (answer_json jwt (now / 1000 + ttl)) fallback
        ≡ ok (record { jwt = jwt; expires_at = now / 1000 + ttl; gateway_id = gateway })
  identity_from_payload-sign_jwt now [] ttl secret jwt fallback e =
      ground (arith, sign_jwt-token_of rt now [] ttl secret jwt)
  identity_from_payload-sign_jwt now (c ∷ s) ttl secret jwt fallback e =
      let (g, same, filled) = sign_jwt-token_of rt now (c ∷ s) ttl secret jwt e in
      answer-parts jwt (now / 1000 + ttl) c s fallback filled (
        subst (λ j. decode_jwt_sub rt j ≡ some (c ∷ s)) same
          (decode_jwt_sub-token_of secret c s (now / 1000) (now / 1000 + ttl)))
