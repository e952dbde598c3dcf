-- ===== src/Ingest.antt =====
-- src/server/ingest.js: the endpoint that takes batches of rows and appends them to the files of
-- their gateway. A request runs in three steps, which those of other requests may come between: up
-- to the reading of its body, from there to the queue of its file, and the write. JSON, the format
-- of a time and `Content-Type` parsing are parameters; the writes of a file end in their order.
pub mod Accounting
pub mod Places
pub mod Attribution
pub mod Backpressure
pub mod Batches
pub mod Tests
use collectivus.Prelude.{
  ℕ, zero, suc, ◌+◌, ◌-◌, ◌*◌, ◌/◌, Bool, true, false, ◌||◌, Option, none, some, List, [], ◌∷◌,
  ◌++◌, ◌⊎◌, inl, inr, ltb, leb, ◌==◌, if◌then◌else◌, length, take, Text, text, text_eq,
}
use collectivus.Prelude.Maps.{Map, lookup, insert}
use collectivus.Prelude.Splits.{split_on}
use collectivus.Enrollment.{matches_pattern}
use collectivus.Json.{Json, string, object, Fields, no_fields, field}
use collectivus.RateLimit.{TokenBucket, try_consume}
use collectivus.Shipping.{utf8_length}

pub record IngestOptions : Type 0 where
  pub sink_dir : Text
  pub max_pending_rows : ℕ
  pub high_water_pct : ℕ
  pub retry_after_seconds : ℕ

-- `highWaterRows`
abbrev pub high_water_rows : IngestOptions → ℕ
high_water_rows o = o.max_pending_rows * o.high_water_pct / 100

-- What comes from the language: JSON, and the ISO form of a time in milliseconds.
pub record Formats : Type 0 where
  pub parse : Text → Option Json
  pub stringify : Json → Text
  pub iso : ℕ → Text

pub record ThrottleStats : Type 0 where
  pub pending_high_water : ℕ
  pub pending_at_capacity : ℕ
  pub byte_rate : ℕ

pub record Request : Type 0 where
  pub signal : Text
  pub claims_sub : Option Text
  pub content_type : Text

-- The answers that are errors of their own, those of backpressure with the seconds to wait.
pub data Reply : Type 0 where
  failure : ℕ → Reply
  backpressure : ℕ → ℕ → Reply
  accepted : ℕ → Reply
  rejected_at_line : ℕ → ℕ → Reply

-- A batch in the queue of its file, with the answer that is given when it is written.
pub record Write : Type 0 where
  pub file : Text
  pub lines : List Text
  pub reply : Reply

pub record Ingest : Type 0 where
  pub pending_rows : ℕ
  pub byte_budget : Option TokenBucket
  pub throttle_stats : ThrottleStats
  pub writes : List Write
  pub files : Map (List Text)

abbrev pub signals : List Text
signals = text "logs" ∷ text "traces" ∷ text "metrics" ∷ text "proxy" ∷ []

abbrev pub member : Text → List Text → Bool
member t [] = false
member t (s ∷ ss) = text_eq t s || member t ss

pub data Admission : Type 0 where
  replied : Reply → Admission
  admitted : Text → Admission

abbrev pub count_capacity : Ingest → Ingest
count_capacity s = record s {
  throttle_stats = record s.throttle_stats {
    pending_at_capacity = s.throttle_stats.pending_at_capacity + 1;
  };
}

abbrev pub count_high_water : Ingest → Ingest
count_high_water s = record s {
  throttle_stats = record s.throttle_stats {
    pending_high_water = s.throttle_stats.pending_high_water + 1;
  };
}

abbrev pub count_byte_rate : Ingest → Ingest
count_byte_rate s = record s {
  throttle_stats = record s.throttle_stats { byte_rate = s.throttle_stats.byte_rate + 1 };
}

-- The tests on the pending rows.
abbrev pub admit_pending : IngestOptions → Text → Ingest → Admission × Ingest
admit_pending o gateway s =
    if leb o.max_pending_rows s.pending_rows
    then (replied (backpressure 503 o.retry_after_seconds), count_capacity s)
    else if leb (high_water_rows o) s.pending_rows
    then (replied (backpressure 429 o.retry_after_seconds), count_high_water s)
    else (admitted gateway, s)

abbrev pub admit_gateway : IngestOptions → Request → Option Text → Ingest → Admission × Ingest
admit_gateway o r none s = (replied (failure 500), s)
admit_gateway o r (some gateway) s =
    if matches_pattern gateway
    then (if text_eq r.content_type (text "application/x-ndjson")
          || text_eq r.content_type (text "application/jsonl")
        then admit_pending o gateway s
        else (replied (failure 415), s))
    else (replied (failure 500), s)

-- `handleRequest`, up to the reading of the body
unfoldable pub admit : IngestOptions → Request → Ingest → Admission × Ingest
admit o r s =
    if member r.signal signals then admit_gateway o r r.claims_sub s else (replied (failure 404), s)

-- `obj[k] = v`: a key that is there keeps its place.
unfoldable pub put_field : Text → Json → Fields → Fields
put_field k v no_fields = field k v no_fields
put_field k v (field j w fs) =
    let rest = put_field k v fs in if text_eq j k then field j v fs else field j w rest

abbrev pub tag_json : Text → Text → Json
tag_json gateway received_at = object (
    field (text "gateway_id") (string gateway)
      (field (text "received_at") (string received_at) no_fields))

abbrev pub join_path : Text → Text → Text
join_path dir name = dir ++ b'/' ∷ name

-- `<sink_dir>/<gateway_id>/<signal>/<day>.jsonl`
abbrev pub file_of : Text → Text → Text → Text → Text
file_of dir gateway signal day =
    join_path dir (join_path gateway (join_path signal (day ++ text ".jsonl")))

-- `computeBatchBytes`
abbrev pub compute_batch_bytes : List Text → ℕ
compute_batch_bytes [] = 0
compute_batch_bytes (line ∷ lines) = utf8_length line + 1 + compute_batch_bytes lines

-- The rows that were tagged, and the number of the line that stopped the loop.
pub record Tagged : Type 0 where
  pub rows : List Text
  pub stopped : Option ℕ

abbrev pub with_row : Text → Tagged → Tagged
with_row row t = record t { rows = row ∷ t.rows }

abbrev pub stop_at : ℕ → Tagged
stop_at n = record { rows = []; stopped = some n }

abbrev pub reply_of : Tagged → Reply
reply_of t = elim t.stopped [
  | none ↦ accepted (length t.rows)
  | some n ↦ rejected_at_line (length t.rows) n
]

abbrev pub spend : ℕ → ℕ → Option TokenBucket → Bool × Option TokenBucket
spend now cost none = (true, none)
spend now cost (some b) = let r = try_consume now cost b in (r.0, some r.1)

-- `appendBatch`, up to its wait for the write
abbrev pub append_batch : Text → List Text → Reply → Ingest → Ingest
append_batch file lines reply s = record s {
  pending_rows = s.pending_rows + length lines;
  writes = s.writes ++ record { file = file; lines = lines; reply = reply } ∷ [];
}

module _ (f : Formats) where
  -- One row, tagged; none where it is no JSON object.
  abbrev pub tag_value : Text → Text → Option Json → Option Text
  tag_value gateway at (some (object fs)) =
      some (f.stringify (object (put_field (text "_ingest") (tag_json gateway at) fs)))
  tag_value gateway at _ = none

  abbrev pub tag_next : ℕ → Option Text → Tagged → Tagged
  tag_next n none rest = stop_at n
  tag_next n (some row) rest = with_row row rest

  -- The loop over the lines, from line `n`.
  unfoldable pub tag_rows : Text → Text → ℕ → List Text → Tagged
  tag_rows gateway at n [] = record { rows = []; stopped = none }
  tag_rows gateway at n ([] ∷ lines) = tag_rows gateway at (suc n) lines
  tag_rows gateway at n ((c ∷ line) ∷ lines) =
      tag_next n (tag_value gateway at (f.parse (c ∷ line))) (tag_rows gateway at (suc n) lines)

  abbrev pub queue_rows :
      IngestOptions → Text → Text → ℕ → Tagged → List Text → Bool → Ingest → Option Reply × Ingest
  queue_rows o gateway signal now t rows true s = (
    none,
    append_batch (file_of o.sink_dir gateway signal (take 10 (f.iso now))) rows (reply_of t) s,
  )
  queue_rows o gateway signal now t rows false s =
      (some (backpressure 429 o.retry_after_seconds), count_byte_rate s)

  abbrev pub store_tagged :
      IngestOptions → Text → Text → ℕ → Tagged → List Text → Ingest → Option Reply × Ingest
  store_tagged o gateway signal now t [] s = (some (reply_of t), s)
  store_tagged o gateway signal now t (row ∷ rows) s =
      let spent = spend now (compute_batch_bytes (row ∷ rows)) s.byte_budget in
      queue_rows o gateway signal now t (row ∷ rows) spent.0 (record s { byte_budget = spent.1 })

  -- `handleRequest`, from the body to the queue; none stands for the answer that waits for the
  -- write. A body that could not be read is the status of its error.
  unfoldable pub take_body :
      IngestOptions → Text → Text → ℕ → Text ⊎ ℕ → Ingest → Option Reply × Ingest
  take_body o gateway signal now (inr status) s = (some (failure status), s)
  take_body o gateway signal now (inl body) s =
      let t = tag_rows gateway (f.iso now) 1 (split_on b'\n' [] body) in
      store_tagged o gateway signal now t t.rows s

abbrev pub lines_in : Option (List Text) → List Text
lines_in none = []
lines_in (some lines) = lines

-- How a write ends: well, with an error before anything was written, or after it (as of `sync`).
pub data WriteEnd : Type 0 where
  done lost failed_after : WriteEnd

abbrev pub append_lines : Write → Ingest → Ingest
append_lines w s = record s {
  files = insert w.file (lines_in (lookup w.file s.files) ++ w.lines) s.files;
}

-- `writeOnce` of a batch, and the answer
abbrev pub write_once : WriteEnd → Write → Ingest → Reply × Ingest
write_once done w s = (w.reply, append_lines w s)
write_once lost w s = (failure 500, s)
write_once failed_after w s = (failure 500, append_lines w s)

abbrev pub put_back : Write → Option (Write × List Write) → Option (Write × List Write)
put_back w none = none
put_back w (some (first, rest)) = some (first, w ∷ rest)

-- The first batch in the queue of a file, and the batches without it.
unfoldable pub pick : Text → List Write → Option (Write × List Write)
pick file [] = none
pick file (w ∷ writes) =
    let later = put_back w (pick file writes) in
    if text_eq w.file file then some (w, writes) else later

abbrev pub settle_picked : WriteEnd → Option (Write × List Write) → Ingest → Option Reply × Ingest
settle_picked end none s = (none, s)
settle_picked end (some (w, writes)) s =
    let written =
      write_once end w
        (record s { pending_rows = s.pending_rows - length w.lines; writes = writes }) in
    (some written.0, written.1)

-- The end of the first write of a file: `pendingRows` goes down whether it threw or not.
unfoldable pub settle : WriteEnd → Text → Ingest → Option Reply × Ingest
settle end file s = settle_picked end (pick file s.writes) s
