-- ===== src/Jwt/RoundTrip.antt =====
-- The JWTs that src/server/identity.js signs, verified.
use collectivus.Prelude.{
  ℕ, ◌+◌, ◌/◌, ◌≡◌, ◌≢◌, refl, ap, ◌∙◌, subst, inl, inr, true, false, some, [], ◌∷◌, ◌++◌,
  append_assoc, ltb, leb, ◌==◌, ◌||◌, none, if◌then◌else◌, All, Text, text, text_eq, text_eq_refl,
  arith, Bool-cases,
}
use collectivus.Prelude.Splits.{split_on, split_on-append, split_on-last}
use collectivus.Bootstrap.{is_empty}
use collectivus.Json.{Json, string, object, no_fields, field, field_of}
use collectivus.Jwt.{
  base64_url_decode, Runtime, Claims, iat_in_future, token_expired, verified, rejected, claims_json,
  header_text, same_bytes, constant_time_equal_b64, is_header, read_claims, check_times,
  jwt_header_b64, payload_b64, signature, token_of, sign_jwt, read_part, verify_jwt,
}
use collectivus.Jwt.Base64.{IsByte, base64_url_decode-encode, base64_url_encode-IsNotDot}

abbrev pub header_json : Json
header_json = object (
    field (text "alg") (string (text "HS256")) (field (text "typ") (string (text "JWT")) no_fields))

-- HMAC and UTF-8 give bytes, and the header and the claims come back as they were written.
pub record IsLawful (rt : Runtime) : Type 0 where
  pub hmac_bytes : (secret input : Text) → All IsByte (rt.hmac secret input)
  pub utf8_bytes : (s : Text) → All IsByte (rt.utf8 s)
  pub header : rt.parse (rt.from_utf8 (rt.utf8 header_text)) ≡ some header_json
  pub payload :
      (c : Claims)
      → rt.parse (rt.from_utf8 (rt.utf8 (rt.stringify (claims_json c)))) ≡ some (claims_json c)

constant_time_equal_b64_refl : (s : Text) → constant_time_equal_b64 s s ≡ true
unfolding constant_time_equal_b64 same_bytes
constant_time_equal_b64_refl s = ground (arith, text_eq_refl (base64_url_decode s))

is_empty-append : (s t : Text) (c : ℕ) → is_empty (s ++ c ∷ t) ≡ false
is_empty-append [] t c = refl
is_empty-append (d ∷ s) t c = refl

none-ne-some : {t : Text} → none ≢ some t
none-ne-some e = cc

read_claims-claims_json :
    (c : ℕ) (s : Text) (iat exp : ℕ)
    → let claims : Claims = record { sub = c ∷ s; iat = iat; exp = exp } in
      read_claims (some (claims_json claims)) ≡ some claims
unfolding field_of text_eq
read_claims-claims_json c s iat exp = refl

is_header-header_json : is_header (some header_json) ≡ true
unfolding field_of text_eq
is_header-header_json = refl

-- What `signJwt` returns.
pub sign_jwt-token_of :
    (rt : Runtime) (now : ℕ) (gateway : Text) (ttl : ℕ) (secret jwt : Text)
    → sign_jwt rt now gateway ttl secret ≡ some jwt
    → (is_empty gateway ≡ false)
      × (token_of rt secret (record { sub = gateway; iat = now / 1000; exp = now / 1000 + ttl })
          ≡ jwt)
      × (is_empty jwt ≡ false)
unfolding sign_jwt
sign_jwt-token_of rt now gateway ttl secret jwt e =
    elim (Bool-cases (is_empty gateway || ttl == 0 || is_empty secret)) [
      | inl bad ↦ absurd (none-ne-some (rw bad at e))
      | inr good ↦
          let claims : Claims = record {
            sub = gateway;
            iat = now / 1000;
            exp = now / 1000 + ttl;
          } in
          let same : token_of rt secret claims ≡ jwt = cc (rw good at e) in
          (
            ground arith,
            same,
            subst (λ j. is_empty j ≡ false) same
                (is_empty-append (jwt_header_b64 rt ++ b'.' ∷ payload_b64 rt claims) _ b'.'),
          )
    ]

module _ (rt : Runtime) (law : IsLawful rt) where
  read_header : read_part rt (jwt_header_b64 rt) ≡ some header_json
  read_header =
      ap (λ b. rt.parse (rt.from_utf8 b))
        (base64_url_decode-encode (rt.utf8 header_text) (law.utf8_bytes header_text))
      ∙ law.header

  pub read_payload : (c : Claims) → read_part rt (payload_b64 rt c) ≡ some (claims_json c)
  read_payload c =
      ap (λ b. rt.parse (rt.from_utf8 b))
        (base64_url_decode-encode (rt.utf8 (rt.stringify (claims_json c))) (law.utf8_bytes _))
      ∙ law.payload c

  abbrev pub sig_of : Text → Claims → Text
  sig_of secret c = signature rt secret (jwt_header_b64 rt ++ b'.' ∷ payload_b64 rt c)

  pub split_on-token_of :
      (secret : Text) (c : Claims)
      → split_on b'.' [] (token_of rt secret c)
        ≡ jwt_header_b64 rt ∷ payload_b64 rt c ∷ sig_of secret c ∷ []
  split_on-token_of secret c =
      let header = jwt_header_b64 rt in
      let payload = payload_b64 rt c in
      ap (split_on b'.' []) (append_assoc header (b'.' ∷ payload) (b'.' ∷ sig_of secret c))
      ∙ split_on-append b'.' [] header (payload ++ b'.' ∷ sig_of secret c)
          (base64_url_encode-IsNotDot _ (law.utf8_bytes _)) refl
      ∙ ap (λ r. header ∷ r)
          (split_on-append b'.' [] payload (sig_of secret c)
              (base64_url_encode-IsNotDot _ (law.utf8_bytes _)) refl
            ∙ ap (λ r. payload ∷ r)
                (split_on-last b'.' [] (sig_of secret c)
                  (base64_url_encode-IsNotDot _ (law.hmac_bytes _ _))))

  pub verify_jwt-token_of :
      (later : ℕ) (k : ℕ) (key : Text) (c : ℕ) (s : Text) (iat exp : ℕ)
      → let claims : Claims = record { sub = c ∷ s; iat = iat; exp = exp } in
        verify_jwt rt later (token_of rt (k ∷ key) claims) (k ∷ key)
        ≡ check_times later (some claims)
  unfolding verify_jwt
  verify_jwt-token_of later k key c s iat exp =
      let claims : Claims = record { sub = c ∷ s; iat = iat; exp = exp } in
      let sig = sig_of (k ∷ key) claims in
      rw (
        is_empty-append (jwt_header_b64 rt ++ b'.' ∷ payload_b64 rt claims) sig b'.',
        split_on-token_of (k ∷ key) claims,
        constant_time_equal_b64_refl sig,
        read_header,
        is_header-header_json,
        read_payload claims,
        read_claims-claims_json c s iat exp,
      )

  -- A JWT that was signed verifies with the same secret for its gateway until it expires, and is
  -- refused as expired from then on; a clock that is more than five seconds behind the signing one
  -- refuses it as issued in the future. HMAC and UTF-8 give bytes, and JSON and UTF-8 read back
  -- the header and the claims as they were written.
  pub verify_jwt-sign_jwt :
      (now later : ℕ) (gateway : Text) (ttl : ℕ) (secret jwt : Text)
      → sign_jwt rt now gateway ttl secret ≡ some jwt
      → verify_jwt rt later jwt secret ≡ (
          if ltb (later / 1000 + 5) (now / 1000)
          then rejected iat_in_future
          else if leb (now / 1000 + ttl) (later / 1000)
          then rejected token_expired
          else verified (record { sub = gateway; iat = now / 1000; exp = now / 1000 + ttl }))
  unfolding sign_jwt
  verify_jwt-sign_jwt now later [] ttl secret jwt e = cc
  verify_jwt-sign_jwt now later (c ∷ s) ttl [] jwt e = ground arith
  verify_jwt-sign_jwt now later (c ∷ s) ttl (k ∷ key) jwt e = elim (Bool-cases (ttl == 0)) [
    | inl z ↦ ground arith
    | inr z ↦
        subst
          (λ j.
            verify_jwt rt later j (k ∷ key)
            ≡ check_times later
                (some (record { sub = c ∷ s; iat = now / 1000; exp = now / 1000 + ttl })))
          (cc (rw z at e)) (verify_jwt-token_of later k key c s (now / 1000) (now / 1000 + ttl))
  ]
