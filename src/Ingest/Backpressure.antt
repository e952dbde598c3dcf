-- ===== src/Ingest/Backpressure.antt =====
-- The refusals of src/server/ingest.js.
use collectivus.Prelude.{
  ℕ, ◌*◌, ◌<◌, ◌≡◌, ◌≢◌, refl, Bool, true, false, ◌||◌, Option, none, some, List, [], ◌∷◌,
  if◌then◌else◌, leb, Text, text, text_eq, arith, if_cases, ap, ◌∙◌, inl, Bool-cases, inr, subst,
  sym,
}
use collectivus.Prelude.Splits.{split_on}
use collectivus.Enrollment.{matches_pattern}
use collectivus.RateLimit.{TokenBucket, new_bucket, try_consume}
use collectivus.RateLimit.Bucket.{IsWithin, try_consume-IsWithin, granted-le, capacity-try_consume}
use collectivus.Ingest.Accounting.{
  Event, arriving, storing, settling, handle, handle_all, admit-Untouched,
}
use collectivus.Ingest.{
  IngestOptions, high_water_rows, Formats, Request, failure, backpressure, Reply, Write, Ingest,
  Admission, replied, admitted, signals, member, admit_pending, admit_gateway, admit, Tagged,
  tag_rows, compute_batch_bytes, queue_rows, store_tagged, spend, take_body, pick, settle_picked,
  settle, WriteEnd, done, lost, failed_after,
}

-- The request names a signal, a gateway with a valid id and a content type of rows.
pub record IsWellFormed (r : Request) (gateway : Text) : Type 0 where
  pub known_signal : member r.signal signals ≡ true
  pub authenticated : r.claims_sub ≡ some gateway
  pub valid_gateway : matches_pattern gateway ≡ true
  pub rows_type :
      (text_eq r.content_type (text "application/x-ndjson")
        || text_eq r.content_type (text "application/jsonl"))
      ≡ true

-- A well-formed request is refused with 503 at the limit of the pending rows, with 429 below it
-- from the high-water mark on, and otherwise goes on to its body.
pub admit-pending_rows :
    (o : IngestOptions) (r : Request) (gateway : Text) (s : Ingest)
    → IsWellFormed r gateway
    → (admit o r s).0 ≡ (
        if leb o.max_pending_rows s.pending_rows
        then replied (backpressure 503 o.retry_after_seconds)
        else if leb (high_water_rows o) s.pending_rows
        then replied (backpressure 429 o.retry_after_seconds)
        else admitted gateway)
unfolding admit
admit-pending_rows o r gateway s w =
    rw (w.known_signal, w.authenticated, w.valid_gateway, w.rows_type) (ground arith)

admit_pending-ne-admitted :
    (o : IngestOptions) (gateway other : Text) (s : Ingest)
    → o.max_pending_rows * o.high_water_pct < 100
    → (admit_pending o gateway s).0 ≢ admitted other
admit_pending-ne-admitted o gateway other s h = ground arith

failure-ne-admitted : (n : ℕ) (gateway : Text) → replied (failure n) ≢ admitted gateway
failure-ne-admitted n gateway e = cc

admit_gateway-ne-admitted :
    (o : IngestOptions) (r : Request) (sub : Option Text) (other : Text) (s : Ingest)
    → o.max_pending_rows * o.high_water_pct < 100
    → (admit_gateway o r sub s).0 ≢ admitted other
admit_gateway-ne-admitted o r none other s h = failure-ne-admitted 500 other
admit_gateway-ne-admitted o r (some gateway) other s h =
    let P = λ (p : Admission × Ingest). p.0 ≢ admitted other in
    if_cases P (matches_pattern gateway) _ _
      (λ e.
        if_cases P _ _ _ (λ k. admit_pending-ne-admitted o gateway other s h)
          (λ k. failure-ne-admitted 415 other))
      (λ e. failure-ne-admitted 500 other)

-- Where `maxPendingRows` times `highWaterPct` is below 100, as with one pending row at the default
-- of 80 percent, the high-water mark is 0 and no request is ever let through to its body, in any
-- state, an idle one included.
pub admit_starved :
    (o : IngestOptions) (r : Request) (gateway : Text) (s : Ingest)
    → o.max_pending_rows * o.high_water_pct < 100
    → (admit o r s).0 ≢ admitted gateway
unfolding admit
admit_starved o r gateway s h =
    if_cases (λ (p : Admission × Ingest). p.0 ≢ admitted gateway) _ _ _
      (λ e. admit_gateway-ne-admitted o r r.claims_sub gateway s h)
      (λ e. failure-ne-admitted 404 gateway)

-- The answer with 429 that leaves the queued writes, the count of the pending rows and the files.
pub record IsRefusal (o : IngestOptions) (s : Ingest) (r : Option Reply × Ingest) : Type 0 where
  pub answer : r.0 ≡ some (backpressure 429 o.retry_after_seconds)
  pub same_writes : r.1.writes ≡ s.writes
  pub same_pending : r.1.pending_rows ≡ s.pending_rows
  pub same_files : r.1.files ≡ s.files

-- The budget of bytes, as the constructor makes it and every request leaves it.
pub record HasBudget (rate : ℕ) (s : Ingest) : Type 0 where
  pub bucket : TokenBucket
  pub in_state : s.byte_budget ≡ some bucket
  pub within : IsWithin bucket
  pub same_capacity : bucket.capacity ≡ rate

settle_picked-byte_budget :
    (end : WriteEnd) (p : Option (Write × List Write)) (s : Ingest)
    → (settle_picked end p s).1.byte_budget ≡ s.byte_budget
settle_picked-byte_budget end none s = refl
settle_picked-byte_budget done (some (w, ws)) s = refl
settle_picked-byte_budget failed_after (some (w, ws)) s = refl
settle_picked-byte_budget lost (some (w, ws)) s = refl

settle-byte_budget :
    (end : WriteEnd) (file : Text) (s : Ingest) → (settle end file s).1.byte_budget ≡ s.byte_budget
unfolding settle
settle-byte_budget end file s = settle_picked-byte_budget end (pick file s.writes) s

HasBudget-same :
    (rate : ℕ) (s s' : Ingest)
    → s'.byte_budget ≡ s.byte_budget
    → HasBudget rate s
    → HasBudget rate s'
HasBudget-same rate s s' e h = record {
  bucket = h.bucket;
  in_state = e ∙ h.in_state;
  within = h.within;
  same_capacity = h.same_capacity;
}

module _ (f : Formats) (o : IngestOptions) (rate : ℕ) where
  queue_rows-byte_budget :
      (gateway signal : Text) (now : ℕ) (t : Tagged) (rows : List Text) (paid : Bool) (s : Ingest)
      → (queue_rows f o gateway signal now t rows paid s).1.byte_budget ≡ s.byte_budget
  queue_rows-byte_budget gateway signal now t rows true s = refl
  queue_rows-byte_budget gateway signal now t rows false s = refl

  store_tagged-HasBudget :
      (gateway signal : Text) (now : ℕ) (t : Tagged) (rows : List Text) (s : Ingest)
      → HasBudget rate s
      → HasBudget rate (store_tagged f o gateway signal now t rows s).1
  store_tagged-HasBudget gateway signal now t [] s h = h
  store_tagged-HasBudget gateway signal now t (row ∷ rows) s h =
      let cost = compute_batch_bytes (row ∷ rows) in
      let spent = spend now cost s.byte_budget in
      record {
        bucket = (try_consume now cost h.bucket).1;
        in_state =
            queue_rows-byte_budget gateway signal now t (row ∷ rows) spent.0
              (record s { byte_budget = spent.1 })
            ∙ ap (λ b. (spend now cost b).1) h.in_state;
        within = try_consume-IsWithin now cost h.bucket h.within;
        same_capacity = capacity-try_consume now cost h.bucket ∙ h.same_capacity;
      }

  handle-HasBudget : (e : Event) (s : Ingest) → HasBudget rate s → HasBudget rate (handle o f e s)
  unfolding handle take_body
  handle-HasBudget (arriving r) s h =
      HasBudget-same rate s (admit o r s).1 (admit-Untouched o r s).same_budget h
  handle-HasBudget (storing g sig now (inl body)) s h = store_tagged-HasBudget g sig now _ _ s h
  handle-HasBudget (storing g sig now (inr status)) s h = h
  handle-HasBudget (settling end file) s h =
      HasBudget-same rate s (settle end file s).1 (settle-byte_budget end file s) h

  handle_all-HasBudget :
      (events : List Event) (s : Ingest)
      → HasBudget rate s
      → HasBudget rate (handle_all o f events s)
  unfolding handle_all
  handle_all-HasBudget [] s h = h
  handle_all-HasBudget (e ∷ events) s h =
      handle_all-HasBudget events (handle o f e s) (handle-HasBudget e s h)

  try_consume_oversized :
      (now cost : ℕ) (b : TokenBucket)
      → IsWithin b
      → b.capacity < cost
      → (try_consume now cost b).0 ≡ false
  try_consume_oversized now cost b w h = elim (Bool-cases (try_consume now cost b).0) [
    | inl granted ↦ absurd (omega (arith, granted-le now cost b w granted))
    | inr denied ↦ denied
  ]

  store_tagged_oversized :
      (gateway signal : Text) (now : ℕ) (t : Tagged) (rows : List Text) (s : Ingest)
      → HasBudget rate s
      → rate < compute_batch_bytes rows
      → IsRefusal o s (store_tagged f o gateway signal now t rows s)
  store_tagged_oversized gateway signal now t [] s h big = absurd (omega arith)
  store_tagged_oversized gateway signal now t (row ∷ rows) s h big =
      let cost = compute_batch_bytes (row ∷ rows) in
      let refused : (spend now cost s.byte_budget).0 ≡ false =
        ap (λ b. (spend now cost b).0) h.in_state
        ∙ try_consume_oversized now cost h.bucket h.within (omega (arith, h.same_capacity)) in
      subst
        (λ b. IsRefusal o s (
          queue_rows f o gateway signal now t (row ∷ rows) b
            (record s { byte_budget = (spend now cost s.byte_budget).1 })))
        (sym refused)
        (record { answer = refl; same_writes = refl; same_pending = refl; same_files = refl })

  -- A batch whose tagged rows have more bytes than `maxBytesPerSecond` is answered with 429 however
  -- long its sender waits: whatever requests came before, in any order and at any times, its rows
  -- are not queued, and the queue, the count of the pending rows and the files are as they were. The
  -- events start from a full bucket.
  pub take_body_oversized :
      (start now : ℕ) (gateway signal body : Text) (events : List Event) (s : Ingest)
      → s.byte_budget ≡ some (new_bucket rate rate start)
      → rate < compute_batch_bytes (tag_rows f gateway (f.iso now) 1 (split_on b'\n' [] body)).rows
      → IsRefusal o
          (handle_all o f events s)
          (take_body f o gateway signal now (inl body) (handle_all o f events s))
  unfolding take_body
  take_body_oversized start now gateway signal body events s e big =
      let first : HasBudget rate s = record {
        bucket = new_bucket rate rate start;
        in_state = e;
        within = unfold new_bucket in omega arith;
        same_capacity = unfold new_bucket in refl;
      } in
      store_tagged_oversized gateway signal now _ _ (handle_all o f events s)
        (handle_all-HasBudget events s first) big
