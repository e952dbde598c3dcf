-- ===== src/Identity/Restart.antt =====
-- What a gateway finds after a restart, in src/gateway/identity.js.
use collectivus.Prelude.{
  ℕ, ◌≡◌, refl, ◌&&◌, Bool, true, false, Option, none, some, [], ◌∷◌, if◌then◌else◌, leb, ltb, Text,
  text, text_eq, arith, if_cases, ap, ◌∙◌, sym,
}
use collectivus.Bootstrap.{is_empty}
use collectivus.Json.{Json, null, boolean, number, string, array, object, field_of}
use collectivus.Jwt.{Runtime}
use collectivus.Identity.{
  PersistedIdentity, Result, ok, failed, server_refused, refresh_post, bootstrap_post,
  IdentityClient, Response, identity_json, text_value, text_field, number_field, read_json,
  read_persisted_file, with_sub, with_fields, or_fallback, decode_jwt_sub, identity_from_payload,
  keep_identity, take_json, take_response, add_post, bootstrap, refresh_from, do_refresh, is_due,
  AcquireSource, loaded, refreshed, bootstrapped, as_source, acquire_from, acquire,
}

-- The file holds the identity in memory.
pub record Agrees (c : IdentityClient) : Type 0 where
  pub identity : PersistedIdentity
  pub in_memory : c.identity ≡ some identity
  pub in_file : read_persisted_file c.file ≡ some (ok identity)

record IsWhole (i : PersistedIdentity) : Type 0 where
  some_jwt : is_empty i.jwt ≡ false
  some_gateway : is_empty i.gateway_id ≡ false

text_value-whole : (v : Option Json) (s : Text) → text_value v ≡ some s → is_empty s ≡ false
text_value-whole (some (string (c ∷ t))) s e = ground arith
text_value-whole (some (string [])) s e = cc
text_value-whole (some null) s e = cc
text_value-whole (some (boolean b)) s e = cc
text_value-whole (some (number n)) s e = cc
text_value-whole (some (array xs)) s e = cc
text_value-whole (some (object fs)) s e = cc
text_value-whole none s e = cc

read_json-parts :
    (jwt : Text) (expires_at : ℕ) (gateway_id : Text)
    → is_empty jwt ≡ false
    → is_empty gateway_id ≡ false
    → let i : PersistedIdentity = record {
      jwt = jwt;
      expires_at = expires_at;
      gateway_id = gateway_id;
    } in
      read_json (identity_json i) ≡ ok i
unfolding field_of text_eq
read_json-parts [] expires_at gateway_id h k = cc
read_json-parts (c ∷ s) expires_at [] h k = cc
read_json-parts (c ∷ s) expires_at (d ∷ t) h k = refl

read_json-identity_json : (i : PersistedIdentity) → IsWhole i → read_json (identity_json i) ≡ ok i
read_json-identity_json i w =
    read_json-parts i.jwt i.expires_at i.gateway_id w.some_jwt w.some_gateway

with_sub-IsWhole :
    (jwt : Text) (expires_at : ℕ) (sub : Option Text) (i : PersistedIdentity)
    → is_empty jwt ≡ false
    → with_sub jwt expires_at sub ≡ ok i
    → IsWhole i
with_sub-IsWhole jwt n (some (c ∷ s)) i h e = record {
  some_jwt = ground arith;
  some_gateway = ground arith;
}
with_sub-IsWhole jwt n (some []) i h e = cc
with_sub-IsWhole jwt n none i h e = cc

keep_identity-Agrees :
    (r : Result PersistedIdentity) (d : IdentityClient)
    → ((i : PersistedIdentity) → r ≡ ok i → IsWhole i)
    → (keep_identity true r d).0 ≡ ok tt
    → Agrees (keep_identity true r d).1
unfolding read_persisted_file
keep_identity-Agrees (failed e) d whole h = cc
keep_identity-Agrees (ok i) d whole h = record {
  identity = i;
  in_memory = refl;
  in_file = rw (read_json-identity_json i (whole i refl)) refl;
}

as_source-Agrees :
    (source source' : AcquireSource) (r : Result (Unit {0}) × IdentityClient)
    → (r.0 ≡ ok tt → Agrees r.1)
    → (as_source source r).0 ≡ ok source'
    → Agrees (as_source source r).1
as_source-Agrees source source' (failed e, c) a h = cc
as_source-Agrees source source' (ok u, c) a h = a refl

module _ (rt : Runtime) where
  with_fields-IsWhole :
      (jwt : Option Text) (expires_at : Option ℕ) (fallback : Option Text) (i : PersistedIdentity)
      → ((s : Text) → jwt ≡ some s → is_empty s ≡ false)
      → with_fields rt jwt expires_at fallback ≡ ok i
      → IsWhole i
  with_fields-IsWhole none n fallback i h e = cc
  with_fields-IsWhole (some jwt) none fallback i h e = cc
  with_fields-IsWhole (some jwt) (some n) fallback i h e =
      with_sub-IsWhole jwt n (or_fallback (decode_jwt_sub rt jwt) fallback) i (h jwt refl) e

  identity_from_payload-IsWhole :
      (v : Json) (fallback : Option Text) (i : PersistedIdentity)
      → identity_from_payload rt v fallback ≡ ok i
      → IsWhole i
  unfolding identity_from_payload
  identity_from_payload-IsWhole (object fs) fallback i e =
      with_fields-IsWhole (text_field (text "jwt") fs) (number_field (text "expires_at") fs)
        fallback i (text_value-whole (field_of (text "jwt") fs)) e
  identity_from_payload-IsWhole null fallback i e = cc
  identity_from_payload-IsWhole (boolean b) fallback i e = cc
  identity_from_payload-IsWhole (number n) fallback i e = cc
  identity_from_payload-IsWhole (string s) fallback i e = cc
  identity_from_payload-IsWhole (array xs) fallback i e = cc

  take_response-Agrees :
      (fallback : Option Text) (r : Option Response) (d : IdentityClient)
      → (take_response rt true fallback r d).0 ≡ ok tt
      → Agrees (take_response rt true fallback r d).1
  take_response-Agrees fallback none d h = cc
  take_response-Agrees fallback (some r) d h =
      by_status (leb 200 r.status && ltb r.status 300) r.json h
    where
      by_status :
          (good : Bool) (json : Option Json)
          → (if good then take_json rt true fallback json d else (failed server_refused, d)).0
            ≡ ok tt
          → Agrees
              (if good then take_json rt true fallback json d else (failed server_refused, d)).1
      by_status false json k = cc
      by_status true none k = cc
      by_status true (some v) k =
          keep_identity-Agrees (identity_from_payload rt v fallback) d
            (identity_from_payload-IsWhole v fallback) k

  bootstrap-Agrees :
      (token : Option Text) (response : Option Response) (c : IdentityClient)
      → (bootstrap rt token response true c).0 ≡ ok tt
      → Agrees (bootstrap rt token response true c).1
  unfolding bootstrap
  bootstrap-Agrees none response c h = cc
  bootstrap-Agrees (some []) response c h = cc
  bootstrap-Agrees (some (t ∷ token)) response c h =
      take_response-Agrees none response (add_post (bootstrap_post (t ∷ token)) c) h

  do_refresh-Agrees :
      (response : Option Response) (c : IdentityClient)
      → (do_refresh rt response true c).0 ≡ ok tt
      → Agrees (do_refresh rt response true c).1
  unfolding do_refresh
  do_refresh-Agrees response c h = by_identity c.identity h
    where
      by_identity :
          (o : Option PersistedIdentity)
          → (refresh_from rt o response true c).0 ≡ ok tt
          → Agrees (refresh_from rt o response true c).1
      by_identity none k = cc
      by_identity (some i) k =
          take_response-Agrees (some i.gateway_id) response (add_post (refresh_post i.jwt) c) k

  acquire_from-Agrees :
      (now : ℕ) (found : Option (Result PersistedIdentity)) (token : Option Text)
      (response : Option Response) (c : IdentityClient) (source : AcquireSource)
      → read_persisted_file c.file ≡ found
      → (acquire_from rt now found token response true c).0 ≡ ok source
      → Agrees (acquire_from rt now found token response true c).1
  acquire_from-Agrees now none token response c source e =
      as_source-Agrees bootstrapped source (bootstrap rt token response true c)
        (bootstrap-Agrees token response c)
  acquire_from-Agrees now (some (failed f)) token response c source e = λ h. cc
  acquire_from-Agrees now (some (ok i)) token response c source e =
      let held = record c { identity = some i } in
      if_cases (λ (r : Result AcquireSource × IdentityClient). r.0 ≡ ok source → Agrees r.1)
        (is_due now i) _ _
        (λ due.
          as_source-Agrees refreshed source (do_refresh rt response true held)
            (do_refresh-Agrees response held))
        λ fresh h. record { identity = i; in_memory = refl; in_file = e }

  reload :
      (later : ℕ) (token : Option Text) (response : Option Response) (writes : Bool)
      (c : IdentityClient) (i : PersistedIdentity)
      → c.identity ≡ some i
      → read_persisted_file c.file ≡ some (ok i)
      → is_due later i ≡ false
      → acquire rt later token response writes (record c { identity = none }) ≡ (ok loaded, c)
  unfolding acquire
  reload later token response writes c i m f fresh =
      ap (λ found. acquire_from rt later found token response writes (record c { identity = none }))
        f
      ∙ rw fresh (ap (λ o. (ok loaded, record c { identity = o })) (sym m))

  -- After an `acquire` that succeeded, the file holds the identity in memory: a restarted gateway
  -- reads it back, and as long as the identity lasts for more than the window of a day it needs
  -- neither the network nor a bootstrap token to acquire that same identity. The writes of the
  -- file succeed.
  pub acquire-restart :
      (now later : ℕ) (token token' : Option Text) (response response' : Option Response)
      (writes : Bool) (c : IdentityClient) (source : AcquireSource)
      → (acquire rt now token response true c).0 ≡ ok source
      → let c' = (acquire rt now token response true c).1 in
        (i : PersistedIdentity) × (c'.identity ≡ some i)
        × (is_due later i ≡ false
            → acquire rt later token' response' writes (record c' { identity = none })
              ≡ (ok loaded, c'))
  unfolding acquire
  acquire-restart now later token token' response response' writes c source h =
      let agrees =
        acquire_from-Agrees now (read_persisted_file c.file) token response c source refl h in
      (
        agrees.identity,
        agrees.in_memory,
        reload later token' response' writes _ agrees.identity agrees.in_memory agrees.in_file,
      )
