-- ===== src/Enrollment/Tests.antt =====
-- The theorems on src/server/enrollment.js at concrete inputs; the hash of a join code is one
-- digit 64 times over.
use collectivus.Prelude.{
  ℕ, ◌+◌, ◌≤◌, max, ◌≡◌, refl, none, List, [], ◌∷◌, length, Text, text, text_eq,
}
use collectivus.Prelude.Decimals.{digits}
use collectivus.Bootstrap.{register}
use collectivus.Enrollment.{
  EnrollmentRecord, is_record, is_hash, all_hex, all_id_chars, matches_pattern, is_valid_gateway_id,
  gateway_id_for_use, load_records, find_record, RegisterInput, Stores, issue_bootstrap, set_used,
}
use collectivus.Enrollment.Uses.{ids_granted, uses_after, ids_granted-uses}

abbrev hash_of : Text → Text
hash_of [] = text "0000000000000000000000000000000000000000000000000000000000000000"
hash_of (c ∷ s) = text "abcdef0123456789abcdef0123456789abcdef0123456789abcdef0123456789"

abbrev pool : EnrollmentRecord
pool = record {
  join_code_hash = hash_of (text "x");
  gateway_id = text "pool";
  max_uses = 2;
  used_count = 0;
  expires_at = 60;
  created_at = 0;
  display_name = none;
}

abbrev stores : Stores
stores = record { enrollments = pool ∷ []; bootstrap = [] }

abbrev input : RegisterInput
input = record {
  join_code_hash = hash_of [];
  gateway_id = text "gw";
  max_uses = 3;
  ttl_seconds = 60;
  display_name = none;
}

abbrev long : Text
long = text "0123456789abcdef0123456789abcdef"

abbrev calls : List (ℕ × Text × Text)
calls =
    (1000, long, text "x") ∷ (2000, long, []) ∷ (3000, long, text "x") ∷ (4000, long, text "x") ∷ []

-- The third exchange finds the code used up.
two_ids : ids_granted hash_of (hash_of (text "x")) calls stores ≡ text "pool-1" ∷ text "pool-2" ∷ []
unfolding issue_bootstrap load_records is_record is_hash matches_pattern all_id_chars all_hex
    is_valid_gateway_id find_record gateway_id_for_use text_eq digits register set_used
two_ids = refl

ids_granted-uses_example :
    (ids_granted hash_of (hash_of (text "x")) calls stores
      ≡ uses_after pool 0 (length (ids_granted hash_of (hash_of (text "x")) calls stores)))
    × (0 + length (ids_granted hash_of (hash_of (text "x")) calls stores) ≤ max 0 2)
unfolding load_records is_record is_hash matches_pattern all_id_chars all_hex is_valid_gateway_id
    find_record text_eq
ids_granted-uses_example = ids_granted-uses hash_of (hash_of (text "x")) calls stores pool refl
