-- ===== src/ControlPlane/Tests.antt =====
-- The theorems on src/server/control_plane.js at concrete inputs: a server that stores the
-- configuration of one gateway, whose token is three short parts.
use collectivus.Prelude.{◌≡◌, refl, true, none, some, [], ◌∷◌, text, text_eq}
use collectivus.Prelude.Maps.{lookup}
use collectivus.Enrollment.{is_valid_gateway_id, matches_pattern, all_id_chars, all_hex}
use collectivus.Json.{deep_equal, IsJson, field_of}
use collectivus.Jwt.Tests.{short, short_token, short_token-verified, gw_claims}
use collectivus.Registry.{Platform, ok, get_config, compute_etag, delete_config}
use collectivus.Registry.Tests.{printed, one_order, other_order}
use collectivus.Ingest.{IngestOptions}
use collectivus.BearerAuth.{after_letters, trim_start, trim_end}
use collectivus.ControlPlane.{Setup, ControlPlane, HttpRequest, replied, not_modified}
use collectivus.ControlPlane.Etags.{quoted, spell}
use collectivus.ControlPlane.Requests.{bad_body, begin}
use collectivus.ControlPlane.Bearers.{Bears}
use collectivus.ControlPlane.Authority.{Grant, begin-Grant}
use collectivus.ControlPlane.Revoked.{
  Serves, request, bootstrap_body, handle_all, handle_all-deleted,
}
use collectivus.ControlPlane.Conditional.{begin-unchanged}

-- The hash is constant.
abbrev platform : Platform
platform = record printed { sha256 = λ t. text "0af" }

abbrev options : IngestOptions
options = record {
  sink_dir = text "sink";
  max_pending_rows = 10;
  high_water_pct = 80;
  retry_after_seconds = 5;
}

abbrev setup : Setup
setup = record {
  runtime = short;
  platform = platform;
  secret = text "key";
  jwt_ttl_seconds = 60;
  provisioned = true;
  public_url = none;
  admin_token = none;
  ingest_options = options;
}

abbrev server : ControlPlane
server = record {
  stores = record { enrollments = []; bootstrap = [] };
  registry = (text "gw.json", text "{dirs:[4,],listen:':1',}") ∷ [];
  bootstrap_limiter = [];
  refresh_limiter = [];
  admin_limiter = [];
  ingest = record {
    pending_rows = 0;
    byte_budget = none;
    throttle_stats = record { pending_high_water = 0; pending_at_capacity = 0; byte_rate = 0 };
    writes = [];
    files = [];
  };
}

abbrev poll : HttpRequest
poll = record {
  path = text "/v1/config";
  method = text "GET";
  client_ip = text "10.0.0.1";
  authorization = some (text "Bearer  AA.AQ.BwgJ");
  if_none_match = some (text "\"0af\"");
  content_type = [];
  forwarded_proto = none;
  forwarded_host = none;
  host = none;
  token = none;
  bootstrap_token = none;
}

abbrev refresh : HttpRequest
refresh = record poll { path = text "/v1/identity/refresh"; method = text "POST" }

bears : Bears setup 8_999 (some (text "Bearer  AA.AQ.BwgJ")) gw_claims
unfolding after_letters trim_start trim_end
bears = record {
  value = text "Bearer  AA.AQ.BwgJ";
  token = short_token;
  there = refl;
  bearer = refl;
  verifies = short_token-verified;
}

begin-Grant_example : Grant setup 8_999 refresh server (begin setup 8_999 refresh server).0
begin-Grant_example = begin-Grant setup 8_999 refresh server

handle_all-deleted_example :
    ¬ Serves
      (begin setup 8_999 refresh (
        handle_all setup
          ((8_000, request poll) ∷ (8_500, bootstrap_body (bad_body 413)) ∷ [])
          (record server { registry = (delete_config platform (text "gw") server.registry).1 }))).0
unfolding is_valid_gateway_id matches_pattern all_id_chars
handle_all-deleted_example =
    handle_all-deleted setup (text "gw") server
      ((8_000, request poll) ∷ (8_500, bootstrap_body (bad_body 413)) ∷ []) 8_999 refresh gw_claims
      refl bears refl

stored : get_config platform (text "gw") server.registry ≡ ok (some (other_order, text "0af"))
unfolding get_config lookup text_eq is_valid_gateway_id matches_pattern all_id_chars compute_etag
stored = refl

begin-unchanged_example :
    begin setup 8_999 poll server ≡ (replied (not_modified (text "0af")), server)
unfolding all_hex spell compute_etag deep_equal IsJson field_of text_eq
begin-unchanged_example =
    begin-unchanged setup 8_999 poll gw_claims quoted b'0' (text "af") one_order other_order
      (text "0af") server (record { path = refl; method = refl; bearer = bears; known = refl }) refl
      refl stored (refl, tt, (refl, (tt, tt), tt)) (refl, (tt, tt), (refl, tt, tt)) refl
