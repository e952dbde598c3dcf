-- ===== src/Bootstrap/OneShot.antt =====
-- The exchanges of a bootstrap token of src/server/identity.js.
use collectivus.Prelude.{
  ℕ, ◌+◌, ◌/◌, ◌≤◌, ◌<◌, ◌≡◌, ◌≢◌, refl, inl, inr, Bool, true, false, Option, none, some, List, [],
  ◌∷◌, leb, if◌then◌else◌, length, Text, text_eq_iff, text_eq_refl, arith, Option-cases, All,
}
use collectivus.Prelude.Maps.{lookup, lookup-insert}
use collectivus.Bootstrap.{
  BootstrapRecord, Records, unknown_token, expired, Looked, found, missed, Consumed, ok, refused,
  Inspected, valid, invalid, judge, is_empty, revoke_unused, revoke_for_gateway, look_up, burn,
  try_consume, report, inspect, register,
}

-- What may happen to the store, each with the clock's value.
pub data Operation : Type 0 where
  registering : ℕ → Text → ℕ → Text → Operation
  consuming : ℕ → Text → Operation
  revoking : Text → Operation

abbrev burnt : Option BootstrapRecord → Bool
burnt none = false
burnt (some r) = r.used

-- The token with this hash was exchanged.
abbrev pub is_burnt : Text → Records → Bool
is_burnt hash records = burnt (lookup hash records)

revoke_unused-is_burnt :
    (gateway hash : Text) (records : Records)
    → is_burnt hash records ≡ true
    → is_burnt hash (revoke_unused gateway records).1 ≡ true
unfolding revoke_unused lookup
revoke_unused-is_burnt gateway hash [] h = h
revoke_unused-is_burnt gateway hash ((k, q) ∷ records) h =
    ground (arith, revoke_unused-is_burnt gateway hash records)

burn-is_burnt :
    (hash other : Text) (now : ℕ) (empty : Bool) (records : Records)
    → is_burnt hash records ≡ true
    → is_burnt hash
        (burn
          (if empty then missed unknown_token else judge now other (lookup other records))
          records).1
      ≡ true
burn-is_burnt hash other now true records h = h
burn-is_burnt hash other now false records h = elim (Option-cases (lookup other records)) [
  | inl e ↦ rw e h
  | inr (r, e) ↦ ground (
    arith,
    e,
    lookup-insert other hash (record r { used = true }) records,
    text_eq_iff other hash,
  )
]

burn-ok :
    (now : ℕ) (hash gateway : Text) (o : Option BootstrapRecord) (records : Records)
    → (burn (judge now hash o) records).0 ≡ ok gateway
    → is_burnt hash (burn (judge now hash o) records).1 ≡ true
burn-ok now hash gateway none records e = cc
burn-ok now hash gateway (some r) records e =
    ground (arith, lookup-insert hash hash (record r { used = true }) records, text_eq_refl hash)

abbrev pub foretold : Inspected → Consumed
foretold (valid gateway e) = ok gateway
foretold (invalid reason) = refused reason

abbrev pub is_valid : Inspected → Bool
is_valid (valid gateway e) = true
is_valid (invalid reason) = false

burn-report :
    (l : Looked) (records : Records)
    → ((burn l records).0 ≡ foretold (report l))
      × ((burn l records).1 ≡ (if is_valid (report l) then (burn l records).1 else records))
burn-report (found hash r) records = (refl, refl)
burn-report (missed reason) records = (refl, refl)

module _ (sha256 : Text → Text) where
  abbrev pub perform : Operation → Records → Records
  perform (registering now gateway ttl token) records =
      (register sha256 now gateway ttl token records).1
  perform (consuming now token) records = (try_consume sha256 now token records).1
  perform (revoking gateway) records = (revoke_for_gateway gateway records).1

  abbrev pub perform_all : List Operation → Records → Records
  perform_all [] records = records
  perform_all (op ∷ ops) records = perform_all ops (perform op records)

  -- No token with this hash is registered anew.
  abbrev pub Spares : Text → Operation → Type 0
  Spares hash (registering now gateway ttl token) = sha256 token ≢ hash
  Spares hash (consuming now token) = Unit
  Spares hash (revoking gateway) = Unit

  perform-is_burnt :
      (hash : Text) (op : Operation) (records : Records)
      → Spares hash op
      → is_burnt hash records ≡ true
      → is_burnt hash (perform op records) ≡ true
  unfolding register try_consume look_up revoke_for_gateway
  perform-is_burnt hash (registering now gateway ttl token) records ne h =
      let fresh : BootstrapRecord = record {
        gateway_id = gateway;
        expires_at = now / 1000 + ttl;
        used = false;
      } in
      ground
        (arith, lookup-insert (sha256 token) hash fresh records, text_eq_iff (sha256 token) hash)
  perform-is_burnt hash (consuming now token) records ne h =
      burn-is_burnt hash (sha256 token) now (is_empty token) records h
  perform-is_burnt hash (revoking gateway) records ne h =
      ground (arith, revoke_unused-is_burnt gateway hash records h)

  perform_all-is_burnt :
      (hash : Text) (ops : List Operation) (records : Records)
      → All (Spares hash) ops
      → is_burnt hash records ≡ true
      → is_burnt hash (perform_all ops records) ≡ true
  perform_all-is_burnt hash [] records h b = b
  perform_all-is_burnt hash (op ∷ ops) records (k, h) b =
      perform_all-is_burnt hash ops (perform op records) h (perform-is_burnt hash op records k b)

  consumed-is_burnt :
      (now : ℕ) (token gateway : Text) (records : Records)
      → (try_consume sha256 now token records).0 ≡ ok gateway
      → is_burnt (sha256 token) (try_consume sha256 now token records).1 ≡ true
  unfolding try_consume look_up
  consumed-is_burnt now [] gateway records e = cc
  consumed-is_burnt now (c ∷ token) gateway records e =
      burn-ok now (sha256 (c ∷ token)) gateway (lookup (sha256 (c ∷ token)) records) records e

  burnt-refused :
      (later : ℕ) (token gateway : Text) (records : Records)
      → is_burnt (sha256 token) records ≡ true
      → (try_consume sha256 later token records).0 ≢ ok gateway
  unfolding try_consume look_up
  burnt-refused later token gateway records b e = ground arith

  -- A token that was exchanged is not exchanged again, for any gateway and at any time, whatever
  -- tokens are registered, exchanged or revoked in between, but for one with its hash that is
  -- registered anew.
  pub try_consume_once :
      (now later : ℕ) (token gateway gateway' : Text) (ops : List Operation) (records : Records)
      → (try_consume sha256 now token records).0 ≡ ok gateway
      → All (Spares (sha256 token)) ops
      → (try_consume sha256 later token
          (perform_all ops (try_consume sha256 now token records).1)).0
        ≢ ok gateway'
  try_consume_once now later token gateway gateway' ops records e h =
      burnt-refused later token gateway' _ (
        perform_all-is_burnt (sha256 token) ops _ h (consumed-is_burnt now token gateway records e))

  -- A token that was registered is exchanged for its gateway while its time has not run out, and is
  -- refused as expired from then on.
  pub try_consume-register :
      (now later : ℕ) (gateway : Text) (ttl : ℕ) (token : Text) (records : Records)
      → is_empty gateway ≡ false
      → 0 < ttl
      → 32 ≤ length token
      → (try_consume sha256 later token (register sha256 now gateway ttl token records).1).0
        ≡ (if leb (now / 1000 + ttl) (later / 1000) then refused expired else ok gateway)
  unfolding try_consume look_up register
  try_consume-register now later gateway ttl [] records g t l = absurd (omega arith)
  try_consume-register now later gateway ttl (c ∷ token) records g t l =
      let hash = sha256 (c ∷ token) in
      let fresh : BootstrapRecord = record {
        gateway_id = gateway;
        expires_at = now / 1000 + ttl;
        used = false;
      } in
      ground (arith, lookup-insert hash hash fresh records, text_eq_refl hash)

  -- `inspect`, which burns nothing, foretells `tryConsume`: the same gateway, or the same reason of
  -- a refusal; and a refusal leaves the records as they are.
  pub try_consume-inspect :
      (now : ℕ) (token : Text) (records : Records)
      → ((try_consume sha256 now token records).0 ≡ foretold (inspect sha256 now token records))
        × ((try_consume sha256 now token records).1 ≡ (
            if is_valid (inspect sha256 now token records)
            then (try_consume sha256 now token records).1
            else records))
  unfolding inspect try_consume
  try_consume-inspect now token records = burn-report (look_up sha256 now token records) records
