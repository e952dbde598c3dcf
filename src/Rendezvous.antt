-- ===== src/Rendezvous.antt =====
-- src/rendezvous/store.js: the invites of the rendezvous service, one file for each hash of a join
-- code. SHA-256, `Date.parse`, `toISOString` and the test of `new URL` for an http(s) address are
-- parameters; times are in milliseconds.
pub mod Records
pub mod Checks
pub mod Resolve
pub mod Cleanup
pub mod Tests
use collectivus.Prelude.{
  ℕ, zero, suc, ◌+◌, Bool, true, false, not, ◌&&◌, Option, none, some, List, [], ◌∷◌, ltb, leb,
  ◌==◌, if◌then◌else◌, length, Text, text, text_eq,
}
use collectivus.Prelude.Maps.{Map, lookup, insert, remove}
use collectivus.Json.{Json, number, string, object, Fields, no_fields, field, field_of}
use collectivus.Enrollment.{is_hash, is_valid_gateway_id}
use collectivus.ServerUtil.{strip_trailing_slashes}

pub data Kind : Type 0 where
  one_time_gateway enterprise_enrollment : Kind

pub record InviteRecord : Type 0 where
  pub kind : Kind
  pub join_code_hash : Text
  pub connect_url : Text
  pub gateway_id : Text
  pub expires_at : Text
  pub created_at : Text
  pub max_uses : Option ℕ
  pub display_name : Option Text

-- `RendezvousStoreErrorCode`
pub data ErrorCode : Type 0 where
  invalid_kind invalid_join_code_hash invalid_connect_url invalid_gateway_id invalid_expires_at
        invalid_max_uses invalid_display_name invalid_record duplicate_active invalid_join_code
        unknown_join_code expired :
      ErrorCode

-- A value, or the error that is thrown.
pub data Result {ℓ} (A : Type ℓ) : Type ℓ where
  ok : A → Result A
  thrown : ErrorCode → Result A

abbrev pub and_then {ℓ κ} : {A : Type ℓ} {B : Type κ} → Result A → (A → Result B) → Result B
and_then (ok a) f = f a
and_then (thrown e) f = thrown e

-- A file's text: a JSON value, or no JSON.
pub data File : Type 0 where
  json : Json → File
  garbage : File

abbrev pub kind_name : Kind → Text
kind_name one_time_gateway = text "one_time_gateway"
kind_name enterprise_enrollment = text "enterprise_enrollment"

pub validate_kind : Option Json → Result Kind
validate_kind none = ok one_time_gateway
validate_kind (some (string s)) =
    if text_eq s (text "one_time_gateway")
    then ok one_time_gateway
    else if text_eq s (text "enterprise_enrollment")
    then ok enterprise_enrollment
    else thrown invalid_kind
validate_kind (some _) = thrown invalid_kind

pub normalize_hash : Option Json → Result Text
normalize_hash (some (string s)) = if is_hash s then ok s else thrown invalid_join_code_hash
normalize_hash _ = thrown invalid_join_code_hash

-- GATEWAY_ID_PATTERN already excludes the ids `.` and `..`.
pub validate_gateway_id : Option Json → Result Text
validate_gateway_id (some (string s)) =
    if is_valid_gateway_id s then ok s else thrown invalid_gateway_id
validate_gateway_id _ = thrown invalid_gateway_id

pub validate_max_uses : Option Json → Result (Option ℕ)
validate_max_uses none = ok none
validate_max_uses (some (number (suc n))) = ok (some (suc n))
validate_max_uses (some _) = thrown invalid_max_uses

pub validate_name : ErrorCode → Option Json → Result (Option Text)
validate_name e none = ok none
validate_name e (some (string (c ∷ s))) = ok (some (c ∷ s))
validate_name e (some _) = thrown e

-- The platform's functions.
pub record Platform : Type 0 where
  pub parse_time : Text → Option ℕ
  pub print_time : ℕ → Text
  pub is_http_url : Text → Bool

abbrev pub add_uses : Option ℕ → Fields → Fields
add_uses none fs = fs
add_uses (some n) fs = field (text "max_uses") (number n) fs

abbrev pub add_name : Option Text → Fields
add_name none = no_fields
add_name (some s) = field (text "display_name") (string s) no_fields

-- `JSON.stringify(record)`
abbrev pub to_json : InviteRecord → Json
to_json r = object (
    field (text "kind") (string (kind_name r.kind)) (
      field (text "join_code_hash") (string r.join_code_hash) (
        field (text "connect_url") (string r.connect_url) (
          field (text "gateway_id") (string r.gateway_id) (
            field (text "expires_at") (string r.expires_at) (
              field (text "created_at") (string r.created_at)
                (add_uses r.max_uses (add_name r.display_name))))))))

-- A throw ends the loop; what was removed before it stays removed.
abbrev pub continue : Result ℕ × Map File → Result ℕ × Map File → Result ℕ × Map File
continue (thrown e, files) next = (thrown e, files)
continue (ok removed, files) next = next

abbrev pub count_of : Result ℕ → ℕ
count_of (ok removed) = removed
count_of (thrown e) = 0

abbrev pub names_of : Map File → List Text
names_of [] = []
names_of ((hash, f) ∷ files) = hash ∷ names_of files

module _ (p : Platform) where
  pub normalize_connect_url : Option Json → Result Text
  normalize_connect_url (some (string s)) =
      if p.is_http_url s then ok (strip_trailing_slashes s) else thrown invalid_connect_url
  normalize_connect_url _ = thrown invalid_connect_url

  abbrev pub iso_of : Option ℕ → Result Text
  iso_of none = thrown invalid_expires_at
  iso_of (some ms) = ok (p.print_time ms)

  pub validate_iso_time : Option Json → Result Text
  validate_iso_time (some (string s)) = iso_of (p.parse_time s)
  validate_iso_time _ = thrown invalid_expires_at

  -- `Date.parse(iso) <= now`, which is false for no date
  abbrev pub is_past : Option ℕ → ℕ → Bool
  is_past none now = false
  is_past (some ms) now = leb ms now

  pub validate_future_iso_time : Option Json → ℕ → Result Text
  validate_future_iso_time v now =
      and_then (validate_iso_time v)
        (λ iso. if is_past (p.parse_time iso) now then thrown expired else ok iso)

  pub is_expired : InviteRecord → ℕ → Bool
  is_expired r now = is_past (p.parse_time r.expires_at) now

  -- `validateRecord`
  pub validate_record : Json → Result InviteRecord
  validate_record (object fs) = and_then (validate_kind (field_of (text "kind") fs)) (λ kind.
      and_then (normalize_hash (field_of (text "join_code_hash") fs)) (λ hash.
        and_then (normalize_connect_url (field_of (text "connect_url") fs)) (λ url.
          and_then (validate_gateway_id (field_of (text "gateway_id") fs)) (λ gateway.
            and_then (validate_iso_time (field_of (text "expires_at") fs)) (λ expires.
              and_then (validate_max_uses (field_of (text "max_uses") fs)) (λ uses.
                and_then (validate_iso_time (field_of (text "created_at") fs)) (λ made.
                  and_then (validate_name invalid_record (field_of (text "display_name") fs))
                    (λ name. ok (record {
                      kind = kind;
                      join_code_hash = hash;
                      connect_url = url;
                      gateway_id = gateway;
                      expires_at = expires;
                      created_at = made;
                      max_uses = uses;
                      display_name = name;
                    })))))))))
  validate_record _ = thrown invalid_record

  abbrev pub read_file : Option File → Result (Option InviteRecord)
  read_file none = ok none
  read_file (some garbage) = thrown invalid_record
  read_file (some (json j)) = and_then (validate_record j) (λ r. ok (some r))

  -- `readInviteByHash`
  pub read_invite_by_hash : Text → Map File → Result (Option InviteRecord)
  read_invite_by_hash hash files =
      if is_hash hash then read_file (lookup hash files) else thrown invalid_join_code_hash

  -- The checks of `registerInvite` on its input, and the record that they make.
  pub check_invite : ℕ → Fields → Result InviteRecord
  check_invite now fs = and_then (validate_kind (field_of (text "kind") fs)) (λ kind.
      and_then (normalize_hash (field_of (text "join_code_hash") fs)) (λ hash.
        and_then (normalize_connect_url (field_of (text "connect_url") fs)) (λ url.
          and_then (validate_gateway_id (field_of (text "gateway_id") fs)) (λ gateway.
            and_then (validate_future_iso_time (field_of (text "expires_at") fs) now) (λ expires.
              and_then (validate_max_uses (field_of (text "max_uses") fs)) (λ uses.
                and_then (validate_name invalid_display_name (field_of (text "display_name") fs))
                  (λ name. ok (record {
                    kind = kind;
                    join_code_hash = hash;
                    connect_url = url;
                    gateway_id = gateway;
                    expires_at = expires;
                    created_at = p.print_time now;
                    max_uses = uses;
                    display_name = name;
                  }))))))))

  abbrev pub is_active : ℕ → Option InviteRecord → Bool
  is_active now none = false
  is_active now (some r) = not (is_expired r now)

  abbrev pub write_unless_active :
      ℕ → InviteRecord → Result (Option InviteRecord) → Map File → Result InviteRecord × Map File
  write_unless_active now r (thrown e) files = (thrown e, files)
  write_unless_active now r (ok existing) files =
      if is_active now existing
      then (thrown duplicate_active, files)
      else (ok r, insert r.join_code_hash (json (to_json r)) files)

  abbrev pub write_checked : ℕ → Result InviteRecord → Map File → Result InviteRecord × Map File
  write_checked now (thrown e) files = (thrown e, files)
  write_checked now (ok r) files =
      write_unless_active now r (read_invite_by_hash r.join_code_hash files) files

  -- `registerInvite`
  pub register_invite : ℕ → Fields → Map File → Result InviteRecord × Map File
  register_invite now input files = write_checked now (check_invite now input) files

  abbrev pub judge_found : ℕ → Option InviteRecord → Result InviteRecord
  judge_found now none = thrown unknown_join_code
  judge_found now (some r) = if is_expired r now then thrown expired else ok r

  -- `resolveInvite`
  pub resolve_invite : (Text → Text) → ℕ → Text → Map File → Result InviteRecord
  resolve_invite sha256 now [] files = thrown invalid_join_code
  resolve_invite sha256 now (c ∷ code) files =
      and_then (read_invite_by_hash (sha256 (c ∷ code)) files) (λ found. judge_found now found)

  abbrev pub is_stale : ℕ → Option InviteRecord → Bool
  is_stale now none = false
  is_stale now (some r) = is_expired r now

  -- One file of `cleanupExpiredInvites`.
  abbrev pub clean_one :
      ℕ → Text → Result (Option InviteRecord) → ℕ → Map File → Result ℕ × Map File
  clean_one now hash (thrown e) removed files = (thrown e, files)
  clean_one now hash (ok r) removed files =
      if is_stale now r then (ok (suc removed), remove hash files) else (ok removed, files)

  abbrev pub clean_name : ℕ → Text → ℕ → Map File → Result ℕ × Map File
  clean_name now hash removed files =
      if is_hash hash
      then clean_one now hash (read_invite_by_hash hash files) removed files
      else (ok removed, files)

  -- The loop of `cleanupExpiredInvites`, over the names of the files less their ending.
  pub clean_names : ℕ → List Text → ℕ → Map File → Result ℕ × Map File
  clean_names now [] removed files = (ok removed, files)
  clean_names now (hash ∷ hashes) removed files =
      let step = clean_name now hash removed files in
      continue step (clean_names now hashes (count_of step.0) step.1)

  -- `cleanupExpiredInvites`
  pub cleanup_expired_invites : ℕ → Map File → Result ℕ × Map File
  cleanup_expired_invites now files = clean_names now (names_of files) 0 files
