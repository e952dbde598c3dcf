-- ===== src/Jwt/Issue.antt =====
-- `issueFromBootstrap` of src/server/identity.js: a bootstrap token for a JWT.
use collectivus.Prelude.{
  ℕ, ◌+◌, ◌/◌, ◌≤◌, ◌<◌, ◌≡◌, ◌∙◌, false, some, leb, if◌then◌else◌, length, Text, arith,
}
use collectivus.Bootstrap.{Records, is_empty, register}
use collectivus.Bootstrap.OneShot.{try_consume-register}
use collectivus.Jwt.{
  Runtime, token_expired, rejected, verified, token_of, sign_jwt, verify_jwt, issued_jwt,
  issue_from_bootstrap,
}
use collectivus.Jwt.RoundTrip.{IsLawful, verify_jwt-sign_jwt}

module _ (rt : Runtime) (sha256 : Text → Text) where
  -- The exchange hands out the JWT `jwt` with its expiry, for the gateway.
  abbrev pub Hands : ℕ → Text → ℕ → Text → Records → Text → Text → Type 0
  Hands now token ttl secret records jwt gateway =
      (issue_from_bootstrap rt sha256 now token ttl secret records).0
      ≡ issued_jwt jwt (now / 1000 + ttl) gateway

  sign_jwt-some :
      (now : ℕ) (gateway : Text) (ttl : ℕ) (secret : Text)
      → is_empty gateway ≡ false
      → 0 < ttl
      → is_empty secret ≡ false
      → (jwt : Text) × (sign_jwt rt now gateway ttl secret ≡ some jwt)
  unfolding sign_jwt
  sign_jwt-some now gateway ttl secret g t s = (
    token_of rt secret (record { sub = gateway; iat = now / 1000; exp = now / 1000 + ttl }),
    ground arith,
  )

  module _ (law : IsLawful rt) where
    -- A bootstrap token that was registered for a gateway is exchanged, before it expires, for a
    -- JWT that verifies as that gateway at any later time up to the expiry that the answer names,
    -- and is refused from then on. The arguments pass the checks of `register` and `signJwt`.
    pub issue_from_bootstrap-register :
        (start now later : ℕ) (gateway : Text) (ttl : ℕ) (token : Text) (jwt_ttl : ℕ)
        (secret : Text) (records : Records)
        → is_empty gateway ≡ false
        → 0 < ttl
        → 32 ≤ length token
        → 0 < jwt_ttl
        → is_empty secret ≡ false
        → now / 1000 < start / 1000 + ttl
        → now ≤ later
        → (jwt : Text) × Hands now token jwt_ttl secret
            (register sha256 start gateway ttl token records).1
            jwt
            gateway
          × (verify_jwt rt later jwt secret ≡ (
              if leb (now / 1000 + jwt_ttl) (later / 1000)
              then rejected token_expired
              else verified
                  (record { sub = gateway; iat = now / 1000; exp = now / 1000 + jwt_ttl })))
    unfolding issue_from_bootstrap
    issue_from_bootstrap-register start now later gateway ttl token jwt_ttl secret records g t l j s
          n k =
        let (jwt, e) = sign_jwt-some now gateway jwt_ttl secret g j s in
        let consumed = try_consume-register sha256 start now gateway ttl token records g t l in
        let live : leb (start / 1000 + ttl) (now / 1000) ≡ false = ground arith in
        (
          jwt,
          rw (consumed, live, e),
          verify_jwt-sign_jwt rt law now later gateway jwt_ttl secret jwt e ∙ ground arith,
        )
