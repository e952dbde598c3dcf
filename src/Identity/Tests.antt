-- ===== src/Identity/Tests.antt =====
-- The theorems on src/gateway/identity.js at concrete inputs, with the runtime of Jwt/Tests.
use collectivus.Prelude.{◌≡◌, refl, true, false, Option, none, some, [], text, text_eq}
use collectivus.Prelude.Splits.{split_on}
use collectivus.Json.{field_of}
use collectivus.Jwt.Tests.{runtime}
use collectivus.Identity.{
  PersistedIdentity, ok, absent, holding, IdentityClient, Response, identity_json,
  identity_from_payload, decode_jwt_sub, do_refresh, is_due, loaded, refreshed, acquire,
  get_current_jwt, read_persisted_file,
}
use collectivus.Identity.Renewal.{Served, get_current_jwt-Served}
use collectivus.Identity.Restart.{acquire-restart}
use collectivus.Identity.Enrolled.{answer_json}

abbrev fresh_client : IdentityClient
fresh_client = record { identity = none; file = absent; posts = [] }

-- A payload without a JWT that decodes: the fallback names the gateway.
abbrev renewed_answer : Option Response
renewed_answer = some (record { status = 200; json = some (answer_json (text "new") 900_000) })

abbrev old_identity : PersistedIdentity
old_identity = record { jwt = text "old"; expires_at = 100; gateway_id = text "gw" }

abbrev due_client : IdentityClient
due_client = record {
  identity = some old_identity;
  file = holding (identity_json old_identity);
  posts = [];
}

get_current_jwt-Served_example :
    Served runtime 5_000 renewed_answer due_client
      (get_current_jwt runtime 5_000 renewed_answer true due_client).1
      (text "new")
unfolding get_current_jwt do_refresh identity_from_payload decode_jwt_sub split_on field_of text_eq
get_current_jwt-Served_example =
    get_current_jwt-Served runtime 5_000 renewed_answer true due_client (text "new") refl

abbrev refusal : Option Response
refusal = some (record { status = 503; json = none })

acquire-restart_example :
    let c' = (acquire runtime 2_000 (some (text "one-shot")) renewed_answer true due_client).1 in
    (i : PersistedIdentity) × (c'.identity ≡ some i)
    × (is_due 3_000 i ≡ false
        → acquire runtime 3_000 none none true (record c' { identity = none }) ≡ (ok loaded, c'))
unfolding acquire do_refresh identity_from_payload decode_jwt_sub split_on read_persisted_file
    field_of text_eq
acquire-restart_example =
    acquire-restart runtime 2_000 3_000 (some (text "one-shot")) none renewed_answer none true
      due_client refreshed refl
