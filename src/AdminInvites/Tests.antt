-- ===== src/AdminInvites/Tests.antt =====
-- The theorems on src/server/admin_invites.js at concrete inputs; every join code has the same
-- hash.
use collectivus.Prelude.{refl, Bool, false, Option, none, some, [], Text, text}
use collectivus.Json.{Json, number, object, no_fields, field}
use collectivus.Enrollment.{load_records, find_record}
use collectivus.AdminInvites.{ServerConfig, value, Posted, handle_invite}
use collectivus.AdminInvites.Rollback.{Outcome, handle_invite-Outcome}

abbrev hash : Text → Text
hash s = text "0000000000000000000000000000000000000000000000000000000000000000"

abbrev no_env : Text → Option Text
no_env k = none

abbrev config : ServerConfig
config = record {
  gateway_prefix = some (text "gw");
  public_url = some (text "https://c");
  rendezvous = some (record {
    url = some (text "https://r/");
    url_env = none;
    registration_token = some (text "t");
    registration_token_env = none;
  });
}

abbrev refuses : Posted → Bool
refuses p = false

abbrev three_uses : Json
three_uses = object (field (text "maxUses") (number 3) no_fields)

handle_invite-Outcome_example :
    Outcome
      (hash [])
      (text "other")
      []
      (handle_invite hash no_env config refuses 1000 (text "code") (value three_uses) [])
unfolding find_record load_records
handle_invite-Outcome_example =
    handle_invite-Outcome hash no_env config refuses 1000 (text "code") (value three_uses)
      (text "other") [] refl
