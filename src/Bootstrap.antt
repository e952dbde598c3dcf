-- ===== src/Bootstrap.antt =====
-- src/server/identity.js: the store of one-shot bootstrap tokens and their exchange. The file is
-- the state: each method loads it first, and `flush` replaces it whole. SHA-256 is the parameter `sha256`; the clock is an argument in milliseconds.
pub mod OneShot
pub mod Tests
use collectivus.Prelude.{
  ℕ, zero, suc, ◌+◌, ◌/◌, Bool, true, false, not, ◌&&◌, ◌||◌, Option, none, some, List, [], ◌∷◌,
  ltb, leb, ◌==◌, if◌then◌else◌, length, Text, text_eq,
}
use collectivus.Prelude.Maps.{Map, lookup, insert, remove}

pub record BootstrapRecord : Type 0 where
  pub gateway_id : Text
  pub expires_at : ℕ
  pub used : Bool

-- `records`, by the hash of the token
abbrev pub Records : Type 0
Records = Map BootstrapRecord

pub data Reason : Type 0 where
  unknown_token already_used expired : Reason

pub data Looked : Type 0 where
  found : Text → BootstrapRecord → Looked
  missed : Reason → Looked

pub data Consumed : Type 0 where
  ok : Text → Consumed
  refused : Reason → Consumed

pub data Inspected : Type 0 where
  valid : Text → ℕ → Inspected
  invalid : Reason → Inspected

pub data Registered : Type 0 where
  issued : Text → ℕ → Registered
  bad_gateway bad_ttl short_token : Registered

abbrev pub judge : ℕ → Text → Option BootstrapRecord → Looked
judge now hash none = missed unknown_token
judge now hash (some r) =
    if leb r.expires_at (now / 1000)
    then missed expired
    else if r.used
    then missed already_used
    else found hash r

abbrev pub is_empty : Text → Bool
is_empty [] = true
is_empty (c ∷ s) = false

abbrev pub burn : Looked → Records → Consumed × Records
burn (missed reason) records = (refused reason, records)
burn (found hash r) records = (ok r.gateway_id, insert hash (record r { used = true }) records)

abbrev pub report : Looked → Inspected
report (missed reason) = invalid reason
report (found hash r) = valid r.gateway_id r.expires_at

-- The loops of `revokeUnusedForGateway`: the count, and what is left.
pub revoke_unused : Text → Records → ℕ × Records
revoke_unused gateway [] = (0, [])
revoke_unused gateway ((hash, r) ∷ records) =
    let (n, rest) = revoke_unused gateway records in
    if text_eq r.gateway_id gateway && not r.used then (suc n, rest) else (n, (hash, r) ∷ rest)

-- `revokeUnusedForGateway`; none where it throws.
pub revoke_for_gateway : Text → Records → Option ℕ × Records
revoke_for_gateway gateway records =
    if is_empty gateway
    then (none, records)
    else (some (revoke_unused gateway records).0, (revoke_unused gateway records).1)

module _ (sha256 : Text → Text) where
  -- The private method `lookup`.
  pub look_up : ℕ → Text → Records → Looked
  look_up now token records =
      if is_empty token
      then missed unknown_token
      else judge now (sha256 token) (lookup (sha256 token) records)

  -- `tryConsume`
  pub try_consume : ℕ → Text → Records → Consumed × Records
  try_consume now token records = burn (look_up now token records) records

  -- `inspect`
  pub inspect : ℕ → Text → Records → Inspected
  inspect now token records = report (look_up now token records)

  -- `register`, of a token that was given or made at random
  unfoldable pub register : ℕ → Text → ℕ → Text → Records → Registered × Records
  register now gateway ttl token records =
      if is_empty gateway
      then (bad_gateway, records)
      else if ttl == 0
      then (bad_ttl, records)
      else if ltb (length token) 32
      then (short_token, records)
      else (
        issued token (now / 1000 + ttl),
        insert (sha256 token)
            (record { gateway_id = gateway; expires_at = now / 1000 + ttl; used = false }) records,
      )
