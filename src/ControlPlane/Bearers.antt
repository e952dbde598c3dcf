-- ===== src/ControlPlane/Bearers.antt =====
-- Requests to src/server/control_plane.js that bear a token, and what the guards of the handlers keep.
use collectivus.Prelude.{
  ℕ, ◌≡◌, refl, inl, inr, Option, none, some, Text, arith, Bool-cases, Option-cases,
}
use collectivus.Bootstrap.{is_empty}
use collectivus.Json.{Json}
use collectivus.Jwt.{Claims, Verified, verified, rejected, secret_missing, verify_jwt}
use collectivus.Jwt.Verify.{verify_jwt-full}
use collectivus.Registry.{Result, ok, failed}
use collectivus.BearerAuth.{
  Authorized, claimed, unauthorized, thrown, authorize, bearer_of, judge_token,
}
use collectivus.ControlPlane.{Setup, ControlPlane, failure, Outcome}
use collectivus.ControlPlane.Requests.{when_authorized, when_registered}

-- A header whose bearer token verifies, with these claims.
pub record Bears (su : Setup) (now : ℕ) (header : Option Text) (c : Claims) : Type 0 where
  pub value : Text
  pub token : Text
  pub there : header ≡ some value
  pub bearer : bearer_of value ≡ some token
  pub verifies : verify_jwt su.runtime now token su.secret ≡ verified c

module _ (su : Setup) (now : ℕ) where
  judge_token-claimed : (v : Verified) (c : Claims) → judge_token v ≡ claimed c → v ≡ verified c
  judge_token-claimed (verified d) c e = ground (arith, e)
  judge_token-claimed (rejected r) c e = cc
  judge_token-claimed secret_missing c e = cc

  pub authorize-Bears :
      (header : Option Text) (c : Claims)
      → authorize su.runtime now su.secret header ≡ claimed c
      → Bears su now header c
  unfolding authorize
  authorize-Bears none c e = cc
  authorize-Bears (some value) c e = elim (Option-cases (bearer_of value)) [
    | inl gone ↦ absurd (ground (arith, e, gone))
    | inr (token, found) ↦ elim (Bool-cases (is_empty token)) [
      | inl empty ↦ absurd (ground (arith, e, found, empty))
      | inr full ↦ record {
        value = value;
        token = token;
        there = refl;
        bearer = found;
        verifies = judge_token-claimed _ c (ground (arith, e, found, full));
      }
    ]
  ]

  pub Bears-authorize :
      (header : Option Text) (c : Claims)
      → Bears su now header c
      → authorize su.runtime now su.secret header ≡ claimed c
  unfolding authorize
  Bears-authorize header c b =
      rw
        (
          b.there,
          b.bearer,
          verify_jwt-full su.runtime now b.token su.secret c b.verifies,
          b.verifies,
        )
        refl

  pub when_authorized-holds :
      (P : Outcome × ControlPlane → Type 0) (next : Claims → Outcome × ControlPlane)
      (a : Authorized) (s : ControlPlane)
      → ((n : ℕ) → P (Outcome.replied (failure n), s))
      → ((c : Claims) → a ≡ claimed c → P (next c))
      → P (when_authorized su now next a s)
  when_authorized-holds P next (claimed c) s f h = h c refl
  when_authorized-holds P next (unauthorized reason) s f h = f 401
  when_authorized-holds P next thrown s f h = f 500

  pub when_registered-holds :
      (P : Outcome × ControlPlane → Type 0) (next : Outcome × ControlPlane)
      (entry : Result (Option (Json × Text))) (s : ControlPlane)
      → ((n : ℕ) → P (Outcome.replied (failure n), s))
      → ((w : Json) (etag : Text) → entry ≡ ok (some (w, etag)) → P next)
      → P (when_registered su now next entry s)
  when_registered-holds P next (failed f) s g h = g 500
  when_registered-holds P next (ok none) s g h = g 401
  when_registered-holds P next (ok (some (w, etag))) s g h = h w etag refl
