-- ===== src/Rendezvous/Checks.antt =====
-- The records that src/rendezvous/store.js makes of checked inputs.
use collectivus.Prelude.{
  ℕ, zero, suc, ◌≡◌, ◌≢◌, refl, ap, subst, true, false, Option, none, some, [], ◌∷◌, ◌==◌, Text,
  text, Bool-cases, inl, inr,
}
use collectivus.Json.{Json, number, string, object, array, null, boolean, Fields, field_of}
use collectivus.Enrollment.{is_hash, is_valid_gateway_id}
use collectivus.ServerUtil.{strip_trailing_slashes, unless_slash}
use collectivus.Rendezvous.{
  InviteRecord, Result, ok, thrown, and_then, ErrorCode, invalid_display_name, validate_kind,
  normalize_hash, validate_gateway_id, validate_max_uses, validate_name, Platform,
  normalize_connect_url, validate_iso_time, iso_of, validate_future_iso_time, check_invite, is_past,
  is_expired,
}
use collectivus.Rendezvous.Records.{IsRecord, is_used, is_named}

-- What is relied on of the platform: a printed time is parsed as itself, and an http(s) address
-- stays one without its trailing slashes.
pub record IsPlatform (p : Platform) : Type 0 where
  pub parse-print : (ms : ℕ) → p.parse_time (p.print_time ms) ≡ some ms
  pub bare_url :
      (s : Text) → p.is_http_url s ≡ true → p.is_http_url (strip_trailing_slashes s) ≡ true

strip-unless_slash :
    (c : ℕ) (s : Text)
    → strip_trailing_slashes s ≡ s
    → strip_trailing_slashes (unless_slash c s) ≡ unless_slash c s
unfolding strip_trailing_slashes
strip-unless_slash c [] e = elim (Bool-cases (c == b'/')) [
  | inl k ↦ rw k refl
  | inr k ↦ rw (k, k) refl
]
strip-unless_slash c (d ∷ s) e = ap (unless_slash c) e

strip_trailing_slashes-twice :
    (s : Text) → strip_trailing_slashes (strip_trailing_slashes s) ≡ strip_trailing_slashes s
unfolding strip_trailing_slashes
strip_trailing_slashes-twice [] = refl
strip_trailing_slashes-twice (c ∷ s) =
    strip-unless_slash c (strip_trailing_slashes s) (strip_trailing_slashes-twice s)

pub ok_injective {ℓ} : {A : Type ℓ} {a b : A} → ok a ≡ ok b → a ≡ b
ok_injective e = cc

not_ok {ℓ} : {A : Type ℓ} {x : ErrorCode} {a : A} → thrown x ≢ ok a
not_ok e = cc

and_then-ok {ℓ κ} :
    {A : Type ℓ} {B : Type κ} (x : Result A) (f : A → Result B) (b : B)
    → and_then x f ≡ ok b
    → (a : A) × (x ≡ ok a) × (f a ≡ ok b)
and_then-ok (ok a) f b e = (a, refl, e)
and_then-ok (thrown x) f b e = cc

hash-inv : (v : Option Json) (s : Text) → normalize_hash v ≡ ok s → is_hash s ≡ true
unfolding normalize_hash
hash-inv (some (string t)) s e = elim (Bool-cases (is_hash t)) [
  | inl k ↦ subst (λ u. is_hash u ≡ true) (ok_injective (rw k at e)) k
  | inr k ↦ absurd (not_ok (rw k at e))
]
hash-inv none s e = cc
hash-inv (some null) s e = cc
hash-inv (some (boolean b)) s e = cc
hash-inv (some (number n)) s e = cc
hash-inv (some (array xs)) s e = cc
hash-inv (some (object fs)) s e = cc

gateway-inv :
    (v : Option Json) (s : Text) → validate_gateway_id v ≡ ok s → is_valid_gateway_id s ≡ true
unfolding validate_gateway_id
gateway-inv (some (string t)) s e = elim (Bool-cases (is_valid_gateway_id t)) [
  | inl k ↦ subst (λ u. is_valid_gateway_id u ≡ true) (ok_injective (rw k at e)) k
  | inr k ↦ absurd (not_ok (rw k at e))
]
gateway-inv none s e = cc
gateway-inv (some null) s e = cc
gateway-inv (some (boolean b)) s e = cc
gateway-inv (some (number n)) s e = cc
gateway-inv (some (array xs)) s e = cc
gateway-inv (some (object fs)) s e = cc

uses-inv : (v : Option Json) (u : Option ℕ) → validate_max_uses v ≡ ok u → is_used u ≡ true
unfolding validate_max_uses
uses-inv none u e = subst (λ o. is_used o ≡ true) (ok_injective e) refl
uses-inv (some (number (suc n))) u e = subst (λ o. is_used o ≡ true) (ok_injective e) refl
uses-inv (some (number zero)) u e = cc
uses-inv (some null) s e = cc
uses-inv (some (boolean b)) s e = cc
uses-inv (some (string t)) s e = cc
uses-inv (some (array xs)) s e = cc
uses-inv (some (object fs)) s e = cc

name-inv :
    (x : ErrorCode) (v : Option Json) (u : Option Text)
    → validate_name x v ≡ ok u
    → is_named u ≡ true
unfolding validate_name
name-inv x none u e = subst (λ o. is_named o ≡ true) (ok_injective e) refl
name-inv x (some (string (c ∷ s))) u e = subst (λ o. is_named o ≡ true) (ok_injective e) refl
name-inv x (some (string [])) s e = cc
name-inv x (some null) s e = cc
name-inv x (some (boolean b)) s e = cc
name-inv x (some (number n)) s e = cc
name-inv x (some (array xs)) s e = cc
name-inv x (some (object fs)) s e = cc

module _ (p : Platform) (law : IsPlatform p) where
  url-inv :
      (v : Option Json) (s : Text)
      → normalize_connect_url p v ≡ ok s
      → (p.is_http_url s ≡ true) × (strip_trailing_slashes s ≡ s)
  unfolding normalize_connect_url
  url-inv (some (string t)) s e = elim (Bool-cases (p.is_http_url t)) [
    | inl k ↦
        subst (λ u. (p.is_http_url u ≡ true) × (strip_trailing_slashes u ≡ u))
          (ok_injective (rw k at e)) (law.bare_url t k, strip_trailing_slashes-twice t)
    | inr k ↦ absurd (not_ok (rw k at e))
  ]
  url-inv none s e = cc
  url-inv (some null) s e = cc
  url-inv (some (boolean b)) s e = cc
  url-inv (some (number n)) s e = cc
  url-inv (some (array xs)) s e = cc
  url-inv (some (object fs)) s e = cc

  printed-fixed : (ms : ℕ) → iso_of p (p.parse_time (p.print_time ms)) ≡ ok (p.print_time ms)
  printed-fixed ms = rw (law.parse-print ms) refl

  iso-inv : (o : Option ℕ) (s : Text) → iso_of p o ≡ ok s → iso_of p (p.parse_time s) ≡ ok s
  iso-inv none s e = cc
  iso-inv (some ms) s e =
      subst (λ u. iso_of p (p.parse_time u) ≡ ok u) (ok_injective e) (printed-fixed ms)

  time-inv :
      (v : Option Json) (s : Text) → validate_iso_time p v ≡ ok s → iso_of p (p.parse_time s) ≡ ok s
  unfolding validate_iso_time
  time-inv (some (string t)) s e = iso-inv (p.parse_time t) s e
  time-inv none s e = cc
  time-inv (some null) s e = cc
  time-inv (some (boolean b)) s e = cc
  time-inv (some (number n)) s e = cc
  time-inv (some (array xs)) s e = cc
  time-inv (some (object fs)) s e = cc

  future-inv :
      (v : Option Json) (now : ℕ) (s : Text)
      → validate_future_iso_time p v now ≡ ok s
      → (iso_of p (p.parse_time s) ≡ ok s) × (is_past p (p.parse_time s) now ≡ false)
  unfolding validate_future_iso_time
  future-inv v now s e =
      let (iso, is_iso, rest) = and_then-ok (validate_iso_time p v) _ s e in
      elim (Bool-cases (is_past p (p.parse_time iso) now)) [
        | inl k ↦ absurd (not_ok (rw k at rest))
        | inr k ↦
            subst
              (λ u. (iso_of p (p.parse_time u) ≡ ok u) × (is_past p (p.parse_time u) now ≡ false))
              (ok_injective (rw k at rest)) (time-inv v iso is_iso, k)
      ]

  -- What a checked input is turned into.
  pub check_invite-IsRecord :
      (now : ℕ) (fs : Fields) (r : InviteRecord)
      → check_invite p now fs ≡ ok r
      → IsRecord p r × (is_expired p r now ≡ false)
  unfolding check_invite is_expired
  check_invite-IsRecord now fs r e =
      let (kind, is_kind, e1) = and_then-ok (validate_kind (field_of (text "kind") fs)) _ r e in
      let (hash, is_a_hash, e2) =
        and_then-ok (normalize_hash (field_of (text "join_code_hash") fs)) _ r e1 in
      let (url, is_url, e3) =
        and_then-ok (normalize_connect_url p (field_of (text "connect_url") fs)) _ r e2 in
      let (gateway, is_id, e4) =
        and_then-ok (validate_gateway_id (field_of (text "gateway_id") fs)) _ r e3 in
      let (expires, is_time, e5) =
        and_then-ok (validate_future_iso_time p (field_of (text "expires_at") fs) now) _ r e4 in
      let (uses, is_uses, e6) =
        and_then-ok (validate_max_uses (field_of (text "max_uses") fs)) _ r e5 in
      let (name, is_name, e7) =
        and_then-ok (validate_name invalid_display_name (field_of (text "display_name") fs)) _ r
          e6 in
      subst (λ x. IsRecord p x × (is_past p (p.parse_time x.expires_at) now ≡ false))
        (ok_injective e7)
        (
          record {
            hash = hash-inv _ hash is_a_hash;
            url = (url-inv _ url is_url).0;
            bare = (url-inv _ url is_url).1;
            gateway = gateway-inv _ gateway is_id;
            expires = (future-inv _ now expires is_time).0;
            made = printed-fixed now;
            used = uses-inv _ uses is_uses;
            named = name-inv invalid_display_name _ name is_name;
          },
          (future-inv _ now expires is_time).1,
        )
