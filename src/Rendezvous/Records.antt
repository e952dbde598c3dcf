-- ===== src/Rendezvous/Records.antt =====
-- The records of src/rendezvous/store.js and their JSON.
use collectivus.Prelude.{
  ℕ, zero, suc, ◌≡◌, refl, ap, Bool, true, false, Option, none, some, [], ◌∷◌, Text, text, text_eq,
}
use collectivus.Json.{string, field_of}
use collectivus.Enrollment.{is_hash, is_valid_gateway_id}
use collectivus.ServerUtil.{strip_trailing_slashes}
use collectivus.Rendezvous.{
  Kind, one_time_gateway, enterprise_enrollment, InviteRecord, ok, invalid_record, validate_kind,
  normalize_hash, validate_gateway_id, validate_max_uses, validate_name, Platform, to_json,
  add_uses, add_name, kind_name, normalize_connect_url, validate_iso_time, iso_of, validate_record,
}

abbrev pub is_used : Option ℕ → Bool
is_used none = true
is_used (some zero) = false
is_used (some (suc n)) = true

abbrev pub is_named : Option Text → Bool
is_named none = true
is_named (some []) = false
is_named (some (c ∷ s)) = true

-- What `validateRecord` asks of each field, in its normal form.
pub record IsRecord (p : Platform) (r : InviteRecord) : Type 0 where
  pub hash : is_hash r.join_code_hash ≡ true
  pub url : p.is_http_url r.connect_url ≡ true
  pub bare : strip_trailing_slashes r.connect_url ≡ r.connect_url
  pub gateway : is_valid_gateway_id r.gateway_id ≡ true
  pub expires : iso_of p (p.parse_time r.expires_at) ≡ ok r.expires_at
  pub made : iso_of p (p.parse_time r.created_at) ≡ ok r.created_at
  pub used : is_used r.max_uses ≡ true
  pub named : is_named r.display_name ≡ true

validate_kind-name : (k : Kind) → validate_kind (some (string (kind_name k))) ≡ ok k
unfolding validate_kind text_eq
validate_kind-name one_time_gateway = refl
validate_kind-name enterprise_enrollment = refl

hash-ok : (s : Text) → is_hash s ≡ true → normalize_hash (some (string s)) ≡ ok s
unfolding normalize_hash
hash-ok s e = rw e refl

gateway-ok :
    (s : Text) → is_valid_gateway_id s ≡ true → validate_gateway_id (some (string s)) ≡ ok s
unfolding validate_gateway_id
gateway-ok s e = rw e refl

uses-ok :
    (uses : Option ℕ) (name : Option Text)
    → is_used uses ≡ true
    → validate_max_uses (field_of (text "max_uses") (add_uses uses (add_name name))) ≡ ok uses
unfolding validate_max_uses field_of text_eq
uses-ok none none u = refl
uses-ok none (some s) u = refl
uses-ok (some zero) name u = cc
uses-ok (some (suc n)) name u = refl

name-ok :
    (uses : Option ℕ) (name : Option Text)
    → is_named name ≡ true
    → validate_name invalid_record (field_of (text "display_name") (add_uses uses (add_name name)))
      ≡ ok name
unfolding validate_name field_of text_eq
name-ok none none u = refl
name-ok none (some []) u = cc
name-ok none (some (c ∷ s)) u = refl
name-ok (some n) none u = refl
name-ok (some n) (some []) u = cc
name-ok (some n) (some (c ∷ s)) u = refl

module _ (p : Platform) where
  url-ok :
      (s : Text)
      → p.is_http_url s ≡ true
      → strip_trailing_slashes s ≡ s
      → normalize_connect_url p (some (string s)) ≡ ok s
  unfolding normalize_connect_url
  url-ok s e f = rw e (ap ok f)

  time-ok :
      (s : Text) → iso_of p (p.parse_time s) ≡ ok s → validate_iso_time p (some (string s)) ≡ ok s
  unfolding validate_iso_time
  time-ok s e = e

  -- A record in normal form is read back from its JSON as it was.
  pub validate_record-to_json :
      (r : InviteRecord) → IsRecord p r → validate_record p (to_json r) ≡ ok r
  unfolding validate_record field_of text_eq
  validate_record-to_json r h =
      rw
        (
          validate_kind-name r.kind,
          hash-ok r.join_code_hash h.hash,
          url-ok r.connect_url h.url h.bare,
          gateway-ok r.gateway_id h.gateway,
          time-ok r.expires_at h.expires,
          time-ok r.created_at h.made,
          uses-ok r.max_uses r.display_name h.used,
          name-ok r.max_uses r.display_name h.named,
        )
        refl
