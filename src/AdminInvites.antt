-- ===== src/AdminInvites.antt =====
-- src/server/admin_invites.js: the handler of POST /v1/admin/invites, with the request that
-- src/server/rendezvous_client.js posts. SHA-256, the random join code, the environment and the
-- answers of the rendezvous service are parameters; the enrollment store is that of Enrollment.
pub mod Rollback
pub mod Tests
use collectivus.Prelude.{
  ℕ, zero, suc, ◌+◌, ◌*◌, Bool, true, false, not, ◌&&◌, ◌||◌, Option, none, some, List, [], ◌∷◌,
  ◌++◌, ltb, leb, ◌==◌, if◌then◌else◌, length, Text, text, text_eq,
}
use collectivus.Json.{
  Json, null, boolean, number, string, array, object, Fields, no_fields, field, field_of,
}
use collectivus.ServerUtil.{shell_single_quote, strip_trailing_slashes, resolve_secret}
use collectivus.Enrollment.{
  EnrollmentRecord, is_valid_gateway_id, RegisterInput, RegisterResult, registered, failed,
  register_enrollment, delete_enrollment,
}

abbrev pub default_max_uses : ℕ
default_max_uses = 1

abbrev pub default_ttl_seconds : ℕ
default_ttl_seconds = 7 * 24 * 60 * 60

-- The last moment that a Date can stand for, in milliseconds.
abbrev pub max_date_ms : ℕ
max_date_ms = 8_640_000_000_000_000

pub record Rendezvous : Type 0 where
  pub url : Option Text
  pub url_env : Option Text
  pub registration_token : Option Text
  pub registration_token_env : Option Text

pub record ServerConfig : Type 0 where
  pub gateway_prefix : Option Text
  pub public_url : Option Text
  pub rendezvous : Option Rendezvous

pub data Problem : Type 0 where
  unreadable bad_body not_an_object bad_max_uses bad_ttl_seconds bad_display_name bad_gateway_prefix
        no_prefix no_public_url no_rendezvous not_enrolled bad_expiry rendezvous_failed :
      Problem

pub record Created : Type 0 where
  pub join_code : Text
  pub expires_at : ℕ
  pub max_uses : ℕ
  pub gateway_prefix : Text
  pub rendezvous_url : Text
  pub command : Text

pub data Answer : Type 0 where
  error : ℕ → Problem → Answer
  created : Created → Answer

-- `readJsonBody`: a value, an empty body, another error with its status, or a rejection.
pub data Body : Type 0 where
  value : Json → Body
  empty : Body
  faulty : ℕ → Body
  broken : Body

pub data Check {ℓ} (A : Type ℓ) : Type ℓ where
  reject : ℕ → Problem → Check A
  accept : A → Check A

-- The early returns.
abbrev pub check_then {ℓ κ} : {A : Type ℓ} {B : Type κ} → Check A → (A → Check B) → Check B
check_then (reject status p) f = reject status p
check_then (accept a) f = f a

abbrev pub read_body : Body → Check Json
read_body (value j) = accept j
read_body empty = accept (object no_fields)
read_body (faulty status) = reject status bad_body
read_body broken = reject 500 unreadable

abbrev pub as_object : Json → Check Fields
as_object (object fs) = accept fs
as_object _ = reject 400 not_an_object

abbrev pub positive_or : ℕ → Problem → Option Json → Check ℕ
positive_or n p none = accept n
positive_or n p (some (number zero)) = reject 400 p
positive_or n p (some (number (suc m))) = accept (suc m)
positive_or n p (some _) = reject 400 p

abbrev pub check_display_name : Option Json → Check (Option Text)
check_display_name none = accept none
check_display_name (some (string (c ∷ s))) = accept (some (c ∷ s))
check_display_name (some _) = reject 400 bad_display_name

abbrev pub check_prefix : Option Json → Check (Option Text)
check_prefix none = accept none
check_prefix (some (string s)) =
    if is_valid_gateway_id s then accept (some s) else reject 400 bad_gateway_prefix
check_prefix (some _) = reject 400 bad_gateway_prefix

abbrev pub prefix_or : Option Text → Option Text → Check Text
prefix_or (some (c ∷ s)) configured = accept (c ∷ s)
prefix_or (some []) configured = reject 400 no_prefix
prefix_or none (some (c ∷ s)) = accept (c ∷ s)
prefix_or none _ = reject 400 no_prefix

abbrev pub check_public_url : Option Text → Check Text
check_public_url (some (c ∷ s)) = accept (c ∷ s)
check_public_url _ = reject 500 no_public_url

abbrev pub both : Option Text → Option Text → Check (Text × Text)
both (some url) (some token) = accept (url, token)
both _ _ = reject 500 no_rendezvous

-- `resolveRendezvous`
abbrev pub resolve_rendezvous : (Text → Option Text) → Option Rendezvous → Check (Text × Text)
resolve_rendezvous env none = reject 500 no_rendezvous
resolve_rendezvous env (some r) =
    both (resolve_secret env 1 r.url r.url_env)
      (resolve_secret env 1 r.registration_token r.registration_token_env)

pub record Invite : Type 0 where
  pub max_uses : ℕ
  pub ttl_seconds : ℕ
  pub display_name : Option Text
  pub gateway_prefix : Text
  pub public_url : Text
  pub rendezvous_url : Text
  pub registration_token : Text

-- The handler up to the join code.
pub check_request : (Text → Option Text) → ServerConfig → Body → Check Invite
check_request env config body = check_then (read_body body) (λ j. check_then (as_object j) (λ fs.
    check_then (positive_or default_max_uses bad_max_uses (field_of (text "maxUses") fs)) (λ uses.
      check_then (positive_or default_ttl_seconds bad_ttl_seconds (field_of (text "ttlSeconds") fs))
        (λ ttl. check_then (check_display_name (field_of (text "displayName") fs)) (λ name.
          check_then (check_prefix (field_of (text "gatewayPrefix") fs)) (λ own.
            check_then (prefix_or own config.gateway_prefix) (λ prefix.
              check_then (check_public_url config.public_url) (λ url.
                check_then (resolve_rendezvous env config.rendezvous) (λ r. accept (record {
                  max_uses = uses;
                  ttl_seconds = ttl;
                  display_name = name;
                  gateway_prefix = prefix;
                  public_url = url;
                  rendezvous_url = r.0;
                  registration_token = r.1;
                }))))))))))

-- What `registerRendezvousInvite` posts.
pub record Posted : Type 0 where
  pub base_url : Text
  pub token : Text
  pub join_code_hash : Text
  pub connect_url : Text
  pub gateway_id : Text
  pub expires_at : ℕ
  pub max_uses : ℕ
  pub display_name : Option Text

module _ (sha256 : Text → Text) where
  abbrev pub input_of : Text → Invite → RegisterInput
  input_of code i = record {
    join_code_hash = sha256 code;
    gateway_id = i.gateway_prefix;
    max_uses = i.max_uses;
    ttl_seconds = i.ttl_seconds;
    display_name = i.display_name;
  }

  abbrev pub posted_of : Text → Invite → EnrollmentRecord → Posted
  posted_of code i r = record {
    base_url = strip_trailing_slashes i.rendezvous_url;
    token = i.registration_token;
    join_code_hash = sha256 code;
    connect_url = i.public_url;
    gateway_id = i.gateway_prefix;
    expires_at = r.expires_at;
    max_uses = i.max_uses;
    display_name = i.display_name;
  }

  abbrev pub created_of : Text → Invite → EnrollmentRecord → Created
  created_of code i r = record {
    join_code = code;
    expires_at = r.expires_at;
    max_uses = i.max_uses;
    gateway_prefix = i.gateway_prefix;
    rendezvous_url = strip_trailing_slashes i.rendezvous_url;
    command =
        text "npx collectivus join "
        ++ (shell_single_quote code
            ++ (text " --rendezvous "
                ++ shell_single_quote (strip_trailing_slashes i.rendezvous_url)));
  }

  -- The registration with the rendezvous service, and its rollback. `toISOString` throws for an
  -- expiry that no date has, after the enrollment is registered: nothing catches that before the
  -- control plane, which answers 500.
  abbrev pub publish_invite :
      (Posted → Bool)
      → Text
      → Invite
      → RegisterResult × List EnrollmentRecord
      → Answer × List EnrollmentRecord
  publish_invite accepts code i (failed e, file) = (error 400 not_enrolled, file)
  publish_invite accepts code i (registered r, file) =
      if ltb max_date_ms (r.expires_at * 1000)
      then (error 500 bad_expiry, file)
      else if accepts (posted_of code i r)
      then (created (created_of code i r), file)
      else (error 502 rendezvous_failed, (delete_enrollment (sha256 code) file).1)

  abbrev pub create_invite :
      (Posted → Bool)
      → ℕ
      → Text
      → Check Invite
      → List EnrollmentRecord
      → Answer × List EnrollmentRecord
  create_invite accepts now code (reject status p) file = (error status p, file)
  create_invite accepts now code (accept i) file =
      publish_invite accepts code i (register_enrollment now (input_of code i) file)

  -- The handler that `createAdminInvitesHandler` returns.
  pub handle_invite :
      (Text → Option Text)
      → ServerConfig
      → (Posted → Bool)
      → ℕ
      → Text
      → Body
      → List EnrollmentRecord
      → Answer × List EnrollmentRecord
  handle_invite env config accepts now code body file =
      create_invite accepts now code (check_request env config body) file
