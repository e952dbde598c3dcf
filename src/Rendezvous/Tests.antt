-- ===== src/Rendezvous/Tests.antt =====
-- The theorems on src/rendezvous/store.js at concrete inputs: a time is printed as the digit 0 as
-- often as it has milliseconds, and every address counts as one of http.
use collectivus.Prelude.{
  ℕ, zero, suc, ◌≡◌, refl, ap, true, none, some, [], ◌∷◌, if◌then◌else◌, length, Text, text,
  text_eq, Bool-cases, inl, inr,
}
use collectivus.Prelude.Maps.{Map, lookup}
use collectivus.Json.{string, Fields, no_fields, field, field_of}
use collectivus.Enrollment.{is_hash, all_hex, is_valid_gateway_id, matches_pattern, all_id_chars}
use collectivus.ServerUtil.{strip_trailing_slashes}
use collectivus.Rendezvous.{
  InviteRecord, one_time_gateway, ok, thrown, expired, File, json, to_json, Platform, is_expired,
  register_invite, resolve_invite, check_invite, read_invite_by_hash, validate_kind, normalize_hash,
  normalize_connect_url, validate_gateway_id, validate_iso_time, validate_future_iso_time,
  validate_max_uses, validate_name,
}
use collectivus.Rendezvous.Records.{IsRecord, validate_record-to_json}
use collectivus.Rendezvous.Checks.{IsPlatform}
use collectivus.Rendezvous.Resolve.{resolve_invite-register}
use collectivus.Rendezvous.Cleanup.{IsReadable}

abbrev zeros : ℕ → Text
zeros zero = []
zeros (suc n) = b'0' ∷ zeros n

length-zeros : (n : ℕ) → length (zeros n) ≡ n
length-zeros zero = refl
length-zeros (suc n) = ap (λ k. suc k) (length-zeros n)

abbrev platform : Platform
platform = record { parse_time = λ s. some (length s); print_time = zeros; is_http_url = λ s. true }

abbrev platform-IsPlatform : IsPlatform platform
platform-IsPlatform = record { parse-print = λ n. ap some (length-zeros n); bare_url = λ s e. refl }

abbrev hash : Text → Text
hash s = text "0000000000000000000000000000000000000000000000000000000000000000"

abbrev input : Fields
input = field (text "join_code_hash") (string (hash [])) (
    field (text "connect_url") (string (text "http://c/")) (
      field (text "gateway_id") (string (text "gw"))
        (field (text "expires_at") (string (text "0000")) no_fields)))

abbrev invite : InviteRecord
invite = record {
  kind = one_time_gateway;
  join_code_hash = hash [];
  connect_url = text "http://c";
  gateway_id = text "gw";
  expires_at = text "0000";
  created_at = text "00";
  max_uses = none;
  display_name = none;
}

abbrev invite-IsRecord : IsRecord platform invite
invite-IsRecord = record {
  hash = (unfold is_hash all_hex in refl);
  url = refl;
  bare = (unfold strip_trailing_slashes in refl);
  gateway = (unfold is_valid_gateway_id matches_pattern all_id_chars in refl);
  expires = refl;
  made = refl;
  used = refl;
  named = refl;
}

resolve_invite-register_example :
    resolve_invite platform hash 3 (text "code") (register_invite platform 2 input []).1
    ≡ (if is_expired platform invite 3 then thrown expired else ok invite)
unfolding register_invite check_invite read_invite_by_hash validate_kind normalize_hash
    normalize_connect_url validate_gateway_id validate_iso_time validate_future_iso_time
    validate_max_uses validate_name field_of text_eq is_hash all_hex is_valid_gateway_id
    matches_pattern all_id_chars strip_trailing_slashes lookup
resolve_invite-register_example =
    resolve_invite-register platform platform-IsPlatform hash 2 3 input (text "code") invite [] refl
      refl (λ e. cc)

abbrev store : Map File
store = (hash [], json (to_json invite)) ∷ []

store-IsReadable : IsReadable platform store
unfolding lookup
store-IsReadable h = elim (Bool-cases (text_eq (hash []) h)) [
  | inl e ↦ rw (e, validate_record-to_json platform invite invite-IsRecord) refl
  | inr e ↦ rw e refl
]
