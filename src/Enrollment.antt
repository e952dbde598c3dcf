-- ===== src/Enrollment.antt =====
-- src/server/enrollment.js: join codes for a number of gateways, and src/gateway_id.js: which ids
-- are valid. The file is the state: each function loads the valid records and flushes them whole.
-- SHA-256 is the parameter `sha256`; the bootstrap store is that of Bootstrap.
pub mod Ids
pub mod Uses
pub mod Store
pub mod Tests
use collectivus.Prelude.{
  ℕ, zero, suc, ◌+◌, ◌-◌, ◌/◌, Bool, true, false, not, ◌&&◌, ◌||◌, Option, none, some, List, [],
  ◌∷◌, ◌++◌, ltb, leb, ◌==◌, if◌then◌else◌, length, keep, Text, text, text_eq,
}
use collectivus.Prelude.Decimals.{digits}
use collectivus.Bootstrap.{Records, Registered, issued, register}

abbrev pub gateway_id_max_length : ℕ
gateway_id_max_length = 128

abbrev pub is_alphanumeric : ℕ → Bool
is_alphanumeric c =
    (leb b'a' c && leb c b'z') || (leb b'A' c && leb c b'Z') || (leb b'0' c && leb c b'9')

-- The classes of GATEWAY_ID_PATTERN.
abbrev pub is_id_char : ℕ → Bool
is_id_char c = is_alphanumeric c || c == b'.' || c == b'_' || c == b'+' || c == b'@' || c == b'-'

unfoldable pub all_id_chars : Text → Bool
all_id_chars [] = true
all_id_chars (c ∷ s) = is_id_char c && all_id_chars s

unfoldable pub matches_pattern : Text → Bool
matches_pattern [] = false
matches_pattern (c ∷ s) = is_alphanumeric c && all_id_chars s

-- `isValidGatewayId`
unfoldable pub is_valid_gateway_id : Text → Bool
is_valid_gateway_id id = leb (length id) gateway_id_max_length && matches_pattern id

abbrev pub is_hex : ℕ → Bool
is_hex c = (leb b'0' c && leb c b'9') || (leb b'a' c && leb c b'f')

unfoldable pub all_hex : Text → Bool
all_hex [] = true
all_hex (c ∷ s) = is_hex c && all_hex s

-- `isHash`
unfoldable pub is_hash : Text → Bool
is_hash s = length s == 64 && all_hex s

pub record EnrollmentRecord : Type 0 where
  pub join_code_hash : Text
  pub gateway_id : Text
  pub max_uses : ℕ
  pub used_count : ℕ
  pub expires_at : ℕ
  pub created_at : ℕ
  pub display_name : Option Text

-- The tests of `loadRecords` on one value of the file.
pub is_record : EnrollmentRecord → Bool
is_record r = is_hash r.join_code_hash && is_valid_gateway_id r.gateway_id && ltb 0 r.max_uses

-- `loadRecords`, of values with the fields of a record; its name, if it has one, is not empty.
unfoldable pub load_records : List EnrollmentRecord → List EnrollmentRecord
load_records file = keep is_record file

unfoldable pub find_record : Text → List EnrollmentRecord → Option EnrollmentRecord
find_record hash [] = none
find_record hash (r ∷ records) =
    let rest = find_record hash records in if text_eq r.join_code_hash hash then some r else rest

-- `gatewayIdForUse`
pub gateway_id_for_use : EnrollmentRecord → ℕ → Text
gateway_id_for_use r n =
    if r.max_uses == 1 then r.gateway_id else r.gateway_id ++ (text "-" ++ digits n)

-- `validateGatewayIdCapacity`
pub has_capacity : Text → ℕ → Bool
has_capacity id max_uses =
    max_uses == 1 || leb (length (id ++ (text "-" ++ digits max_uses))) gateway_id_max_length

pub record RegisterInput : Type 0 where
  pub join_code_hash : Text
  pub gateway_id : Text
  pub max_uses : ℕ
  pub ttl_seconds : ℕ
  pub display_name : Option Text

pub data RegisterError : Type 0 where
  bad_hash bad_gateway_id bad_max_uses bad_ttl prefix_too_long bad_display_name active_exists :
      RegisterError

pub data RegisterResult : Type 0 where
  registered : EnrollmentRecord → RegisterResult
  failed : RegisterError → RegisterResult

abbrev pub is_bad_name : Option Text → Bool
is_bad_name (some []) = true
is_bad_name _ = false

-- The checks of `registerEnrollment` on its input, in their order.
pub check_input : RegisterInput → Option RegisterError
check_input i =
    if not (is_hash i.join_code_hash)
    then some bad_hash
    else if not (is_valid_gateway_id i.gateway_id)
    then some bad_gateway_id
    else if i.max_uses == 0
    then some bad_max_uses
    else if i.ttl_seconds == 0
    then some bad_ttl
    else if not (has_capacity i.gateway_id i.max_uses)
    then some prefix_too_long
    else if is_bad_name i.display_name
    then some bad_display_name
    else none

pub is_active : ℕ → EnrollmentRecord → Bool
is_active now r = ltb (now / 1000) r.expires_at && ltb r.used_count r.max_uses

abbrev pub is_taken : ℕ → Option EnrollmentRecord → Bool
is_taken now none = false
is_taken now (some r) = is_active now r

abbrev pub without : Text → List EnrollmentRecord → List EnrollmentRecord
without hash records = keep (λ r. not (text_eq r.join_code_hash hash)) records

abbrev pub new_record : ℕ → RegisterInput → EnrollmentRecord
new_record now i = record {
  join_code_hash = i.join_code_hash;
  gateway_id = i.gateway_id;
  max_uses = i.max_uses;
  used_count = 0;
  expires_at = now / 1000 + i.ttl_seconds;
  created_at = now / 1000;
  display_name = i.display_name;
}

-- What follows the checks.
abbrev pub register_checked :
    Option RegisterError
    → ℕ
    → RegisterInput
    → List EnrollmentRecord
    → RegisterResult × List EnrollmentRecord
register_checked (some error) now i file = (failed error, file)
register_checked none now i file =
    let records = load_records file in
    if is_taken now (find_record i.join_code_hash records)
    then (failed active_exists, file)
    else (registered (new_record now i), without i.join_code_hash records ++ new_record now i ∷ [])

-- `registerEnrollment`, over the file's records
unfoldable pub register_enrollment :
    ℕ → RegisterInput → List EnrollmentRecord → RegisterResult × List EnrollmentRecord
register_enrollment now i file = register_checked (check_input i) now i file

-- `deleteEnrollment`, for a hash: whether a record was there, and the file's records
pub delete_enrollment : Text → List EnrollmentRecord → Bool × List EnrollmentRecord
delete_enrollment hash file =
    let records = load_records file in
    let next = without hash records in
    if length next == length records then (false, file) else (true, next)

pub data IssueResult : Type 0 where
  granted : Text → Text → ℕ → IssueResult
  unknown_key expired exhausted not_registered : IssueResult

-- `record.usedCount = nextUse`, at the record that was found
pub set_used : Text → ℕ → List EnrollmentRecord → List EnrollmentRecord
set_used hash n [] = []
set_used hash n (r ∷ records) =
    let rest = set_used hash n records in
    if text_eq r.join_code_hash hash then record r { used_count = n } ∷ records else r ∷ rest

-- Both stores.
pub record Stores : Type 0 where
  pub enrollments : List EnrollmentRecord
  pub bootstrap : Records

module _ (sha256 : Text → Text) where
  -- What follows the answer of `bootstrapStore.register`; its errors are thrown before the flush.
  abbrev pub count_use :
      Text → Text → ℕ → List EnrollmentRecord → Registered × Records → Stores → IssueResult × Stores
  count_use hash id n records (issued token expires, bootstrap) s = (
    granted token id expires,
    record { enrollments = set_used hash n records; bootstrap = bootstrap },
  )
  count_use hash id n records (_, bootstrap) s = (not_registered, s)

  abbrev pub issue_for :
      ℕ
      → Text
      → Text
      → Option EnrollmentRecord
      → List EnrollmentRecord
      → Stores
      → IssueResult × Stores
  issue_for now token hash none records s = (unknown_key, s)
  issue_for now token hash (some r) records s =
      if leb r.expires_at (now / 1000)
      then (expired, s)
      else if leb r.max_uses r.used_count
      then (exhausted, s)
      else count_use hash (gateway_id_for_use r (r.used_count + 1)) (r.used_count + 1) records
          (register sha256 now (gateway_id_for_use r (r.used_count + 1)) (r.expires_at - now / 1000)
            token s.bootstrap)
          s

  -- `issueEnrollmentBootstrap`; `token` is the random one that the bootstrap store makes.
  pub issue_bootstrap : ℕ → Text → Text → Stores → IssueResult × Stores
  issue_bootstrap now token join_code s =
      let records = load_records s.enrollments in
      issue_for now token (sha256 join_code) (find_record (sha256 join_code) records) records s
