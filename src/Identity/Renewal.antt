-- ===== src/Identity/Renewal.antt =====
-- `getCurrentJwt` of src/gateway/identity.js: when the gateway renews its JWT, and what it keeps.
use collectivus.Prelude.{
  ℕ, ◌+◌, ◌/◌, ◌<◌, ◌≡◌, ◌≢◌, ◌≤◌, refl, ◌&&◌, Bool, true, false, Option, none, some, [], ◌∷◌, ◌++◌,
  if◌then◌else◌, leb, ltb, Text, arith, if_cases, subst, sym,
}
use collectivus.Json.{Json}
use collectivus.Jwt.{Runtime}
use collectivus.Identity.{
  refresh_window_seconds, PersistedIdentity, Failure, write_failed, server_refused, Result, ok,
  failed, holding, refresh_post, IdentityClient, Response, identity_json, identity_from_payload,
  keep_identity, take_json, take_response, add_post, refresh_from, do_refresh, is_due,
  after_refresh, jwt_from, get_current_jwt,
}

-- What a call that returns a JWT did: nothing, where the identity lasts for more than the window;
-- otherwise one refresh, and the identity that the payload of its answer gives is in memory and in the
-- file.
pub data Served (rt : Runtime) (now : ℕ) (response : Option Response) (c c' : IdentityClient)
    (jwt : Text) : Type 0 where
  healthy :
      (i : PersistedIdentity)
      → c.identity ≡ some i
      → i.jwt ≡ jwt
      → now / 1000 + refresh_window_seconds < i.expires_at
      → c' ≡ c
      → Served rt now response c c' jwt
  renewed :
      (i j : PersistedIdentity) (r : Response) (payload : Json)
      → c.identity ≡ some i
      → is_due now i ≡ true
      → response ≡ some r
      → (200 ≤ r.status) × (r.status < 300)
      → r.json ≡ some payload
      → identity_from_payload rt payload (some i.gateway_id) ≡ ok j
      → c'.identity ≡ some j
      → j.jwt ≡ jwt
      → c'.file ≡ holding (identity_json j)
      → c'.posts ≡ c.posts ++ refresh_post i.jwt ∷ []
      → Served rt now response c c' jwt

-- What is kept of an identity that was read from a response.
pub record Kept (rt : Runtime) (fallback : Option Text) (response : Option Response)
    (d : IdentityClient) (r : Result (Unit {0}) × IdentityClient) : Type 0 where
  pub answer : Response
  pub payload : Json
  pub identity : PersistedIdentity
  pub answered : response ≡ some answer
  pub is_good : (200 ≤ answer.status) × (answer.status < 300)
  pub has_payload : answer.json ≡ some payload
  pub is_read : identity_from_payload rt payload fallback ≡ ok identity
  pub in_memory : r.1.identity ≡ some identity
  pub in_file : r.1.file ≡ holding (identity_json identity)
  pub no_post : r.1.posts ≡ d.posts

keep_identity-ok :
    (writes : Bool) (i : Result PersistedIdentity) (d : IdentityClient)
    → (keep_identity writes i d).0 ≡ ok tt
    → (j : PersistedIdentity) × (i ≡ ok j)
      × ((keep_identity writes i d).1.identity ≡ some j)
      × ((keep_identity writes i d).1.file ≡ holding (identity_json j))
      × ((keep_identity writes i d).1.posts ≡ d.posts)
keep_identity-ok writes (failed e) d h = cc
keep_identity-ok false (ok i) d h = cc
keep_identity-ok true (ok i) d h = (i, refl, refl, refl, refl)

keep_identity-failed :
    (writes : Bool) (i : Result PersistedIdentity) (d : IdentityClient) (e : Failure)
    → (keep_identity writes i d).0 ≡ failed e
    → e ≢ write_failed
    → (keep_identity writes i d).1 ≡ d
keep_identity-failed writes (failed e) d f h n = refl
keep_identity-failed false (ok i) d f h n = absurd (n (cc))
keep_identity-failed true (ok i) d f h n = cc

module _ (rt : Runtime) where
  pub take_response-Kept :
      (writes : Bool) (fallback : Option Text) (r : Option Response) (d : IdentityClient)
      → (take_response rt writes fallback r d).0 ≡ ok tt
      → Kept rt fallback r d (take_response rt writes fallback r d)
  take_response-Kept writes fallback none d h = cc
  take_response-Kept writes fallback (some r) d h =
      by_status (leb 200 r.status && ltb r.status 300) r.json refl refl h
    where
      by_status :
          (good : Bool) (json : Option Json)
          → (leb 200 r.status && ltb r.status 300) ≡ good
          → r.json ≡ json
          → (if good then take_json rt writes fallback json d else (failed server_refused, d)).0
            ≡ ok tt
          → Kept rt fallback
              (some r)
              d
              (if good then take_json rt writes fallback json d else (failed server_refused, d))
      by_status false json g b k = cc
      by_status true none g b k = cc
      by_status true (some v) g b k =
          let (j, is_read, in_memory, in_file, no_post) =
            keep_identity-ok writes (identity_from_payload rt v fallback) d k in
          record {
            answer = r;
            payload = v;
            identity = j;
            answered = refl;
            is_good = (ground (arith, g), ground (arith, g));
            has_payload = b;
            is_read = is_read;
            in_memory = in_memory;
            in_file = in_file;
            no_post = no_post;
          }

  take_response-failed :
      (writes : Bool) (fallback : Option Text) (r : Option Response) (d : IdentityClient)
      (e : Failure)
      → (take_response rt writes fallback r d).0 ≡ failed e
      → e ≢ write_failed
      → (take_response rt writes fallback r d).1 ≡ d
  take_response-failed writes fallback none d e h n = refl
  take_response-failed writes fallback (some r) d e h n =
      by_status (leb 200 r.status && ltb r.status 300) r.json h
    where
      by_status :
          (good : Bool) (json : Option Json)
          → (if good then take_json rt writes fallback json d else (failed server_refused, d)).0
            ≡ failed e
          → (if good then take_json rt writes fallback json d else (failed server_refused, d)).1 ≡ d
      by_status false json k = refl
      by_status true none k = refl
      by_status true (some v) k =
          keep_identity-failed writes (identity_from_payload rt v fallback) d e k n

  -- A refresh that fails, other than by the write of the file, loses nothing: the identity in
  -- memory and the file are those before, and at most one refresh was posted.
  pub do_refresh-failed :
      (response : Option Response) (writes : Bool) (c : IdentityClient) (e : Failure)
      → (do_refresh rt response writes c).0 ≡ failed e
      → e ≢ write_failed
      → ((do_refresh rt response writes c).1.identity ≡ c.identity)
        × ((do_refresh rt response writes c).1.file ≡ c.file)
  unfolding do_refresh
  do_refresh-failed response writes c e h n = by_identity c.identity h
    where
      by_identity :
          (o : Option PersistedIdentity)
          → (refresh_from rt o response writes c).0 ≡ failed e
          → ((refresh_from rt o response writes c).1.identity ≡ c.identity)
            × ((refresh_from rt o response writes c).1.file ≡ c.file)
      by_identity none k = (refl, refl)
      by_identity (some i) k =
          let same =
            take_response-failed writes (some i.gateway_id) response
              (add_post (refresh_post i.jwt) c) e k n in
          rw same (refl, refl)

  after_refresh-ok :
      (fallback : Option Text) (response : Option Response) (d : IdentityClient)
      (r : Result (Unit {0}) × IdentityClient) (jwt : Text)
      → (r.0 ≡ ok tt → Kept rt fallback response d r)
      → (after_refresh r).0 ≡ ok jwt
      → (k : Kept rt fallback response d r) × (k.identity.jwt ≡ jwt) × ((after_refresh r).1 ≡ r.1)
  after_refresh-ok fallback response d (failed e, c) jwt kept h = cc
  after_refresh-ok fallback response d (ok u, c) jwt kept h =
      let k = kept refl in (k, ground (arith, k.in_memory), refl)

  due-Served :
      (now : ℕ) (i : PersistedIdentity) (response : Option Response) (writes : Bool)
      (c : IdentityClient) (jwt : Text)
      → c.identity ≡ some i
      → is_due now i ≡ true
      → (after_refresh (refresh_from rt (some i) response writes c)).0 ≡ ok jwt
      → Served rt now response c (after_refresh (refresh_from rt (some i) response writes c)).1 jwt
  due-Served now i response writes c jwt e due h =
      let d = add_post (refresh_post i.jwt) c in
      let (k, same_jwt, same) =
        after_refresh-ok (some i.gateway_id) response d (refresh_from rt (some i) response writes c)
          jwt (take_response-Kept writes (some i.gateway_id) response d) h in
      renewed i k.identity k.answer k.payload e due k.answered k.is_good k.has_payload k.is_read
        (rw same k.in_memory) same_jwt (rw same k.in_file) (rw same k.no_post)

  jwt_from-Served :
      (now : ℕ) (o : Option PersistedIdentity) (response : Option Response) (writes : Bool)
      (c : IdentityClient) (jwt : Text)
      → c.identity ≡ o
      → (jwt_from rt now o response writes c).0 ≡ ok jwt
      → Served rt now response c (jwt_from rt now o response writes c).1 jwt
  unfolding do_refresh
  jwt_from-Served now none response writes c jwt e = λ h. cc
  jwt_from-Served now (some i) response writes c jwt e =
      if_cases
        (λ (r : Result Text × IdentityClient). r.0 ≡ ok jwt → Served rt now response c r.1 jwt)
        (is_due now i) _ _
        (λ due.
          subst
            (λ o.
              (after_refresh (refresh_from rt o response writes c)).0 ≡ ok jwt
              → Served rt now response c (after_refresh (refresh_from rt o response writes c)).1
                  jwt)
            (sym e) (due-Served now i response writes c jwt e due))
        λ fresh h. healthy i e (cc) (ground arith) refl

  -- A call of `getCurrentJwt` that returns a JWT either did nothing, and then the JWT is the one in
  -- memory and lasts for more than the window of a day, or the one in memory was due: then one
  -- refresh was posted with it and answered with a status of success, and the JWT is that of the
  -- identity read from the payload of the answer, which is now in memory and in the file.
  pub get_current_jwt-Served :
      (now : ℕ) (response : Option Response) (writes : Bool) (c : IdentityClient) (jwt : Text)
      → (get_current_jwt rt now response writes c).0 ≡ ok jwt
      → Served rt now response c (get_current_jwt rt now response writes c).1 jwt
  unfolding get_current_jwt
  get_current_jwt-Served now response writes c jwt h =
      jwt_from-Served now c.identity response writes c jwt refl h
