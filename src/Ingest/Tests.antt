-- ===== src/Ingest/Tests.antt =====
-- The theorems on src/server/ingest.js at concrete inputs. The formats below read every text that
-- begins with a brace as an empty object.
use collectivus.Prelude.{
  ◌≡◌, ◌≢◌, refl, none, some, List, [], ◌∷◌, inl, if◌then◌else◌, take, All, text, text_eq, arith,
}
use collectivus.Prelude.Splits.{split_on}
use collectivus.Prelude.Maps.{lookup, insert}
use collectivus.Enrollment.{matches_pattern, all_id_chars}
use collectivus.Json.{object, no_fields}
use collectivus.RateLimit.{new_bucket}
use collectivus.Shipping.{body_of, utf8_length}
use collectivus.Ingest.{
  IngestOptions, Formats, Request, accepted, Ingest, admitted, admit, tag_rows, append_batch,
  take_body, pick, settle, done,
}
use collectivus.Ingest.Accounting.{
  Event, arriving, storing, settling, handle, handle_all, IsCounted, handle_all-IsCounted,
}
use collectivus.Ingest.Backpressure.{IsRefusal, admit_starved, take_body_oversized}
use collectivus.Ingest.Batches.{take_body-body_of}
use collectivus.Ingest.Places.{IsOwn}
use collectivus.Ingest.Attribution.{handle_all-IsOwn}

abbrev formats : Formats
formats = record {
  parse = λ s. if text_eq (take 1 s) (text "{") then some (object no_fields) else none;
  stringify = λ v. text "row";
  iso = λ now. text "2026-01-02T03:04:05.000Z";
}

abbrev options : IngestOptions
options = record {
  sink_dir = text "/in";
  max_pending_rows = 10;
  high_water_pct = 80;
  retry_after_seconds = 5;
}

abbrev request : Request
request = record {
  signal = text "proxy";
  claims_sub = some (text "gw-1");
  content_type = text "application/jsonl";
}

abbrev idle : Ingest
idle = record {
  pending_rows = 0;
  byte_budget = none;
  throttle_stats = record { pending_high_water = 0; pending_at_capacity = 0; byte_rate = 0 };
  writes = [];
  files = [];
}

abbrev steps : List Event
steps =
    arriving request
    ∷ storing (text "gw-1") (text "proxy") 0 (inl (text "{a\n\n{b\nno\n{c"))
    ∷ settling done (text "/in/gw-1/proxy/2026-01-02.jsonl")
    ∷ []

handle_all-IsCounted_example : IsCounted (handle_all options formats steps idle)
handle_all-IsCounted_example = handle_all-IsCounted options formats steps idle refl

abbrev busy : Ingest
busy = record idle { pending_rows = 9 }

admit_starved_example :
    (admit (record options { max_pending_rows = 1 }) request idle).0 ≢ admitted (text "gw-1")
admit_starved_example =
    admit_starved (record options { max_pending_rows = 1 }) request (text "gw-1") idle (omega arith)

abbrev tight : Ingest
tight = record idle { byte_budget = some (new_bucket 3 3 0) }

take_body_oversized_example :
    let s = handle_all options formats steps tight in
    IsRefusal options s
      (take_body formats options (text "gw-1") (text "logs") 90_000 (inl (text "{}")) s)
unfolding tag_rows split_on text_eq utf8_length
take_body_oversized_example =
    take_body_oversized formats options 3 0 90_000 (text "gw-1") (text "logs") (text "{}") steps
      tight refl (omega arith)

take_body-body_of_example :
    take_body formats options
      (text "gw-1")
      (text "logs")
      0
      (inl (body_of (text "{a" ∷ text "{b" ∷ [])))
      idle
    ≡ (
      none,
      append_batch
          (text "/in/gw-1/logs/2026-01-02.jsonl")
          (text "row" ∷ text "row" ∷ [])
          (accepted 2)
          idle,
    )
unfolding text_eq
take_body-body_of_example =
    take_body-body_of formats options (text "gw-1") (text "logs") 0 (text "{a") (text "{b" ∷ [])
      idle
      (
        record {
          fields = no_fields;
          parses = refl;
          one_line = (refl, (refl, tt));
          some_text = λ e. cc;
        },
        (
          record {
            fields = no_fields;
            parses = refl;
            one_line = (refl, (refl, tt));
            some_text = λ e. cc;
          },
          tt,
        ),
      )
      refl

handle_all-IsOwn_example : All (IsOwn formats (text "gw-1")) (text "row" ∷ text "row" ∷ [])
unfolding handle_all handle admit take_body settle pick tag_rows split_on text_eq lookup insert
    matches_pattern all_id_chars
handle_all-IsOwn_example =
    handle_all-IsOwn formats options steps (text "gw-1") (text "proxy/2026-01-02.jsonl")
      (text "row" ∷ text "row" ∷ []) idle (tt, ((request, idle, refl), (tt, tt))) refl refl refl
      refl
