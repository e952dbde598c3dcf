-- ===== src/Ingest/Accounting.antt =====
-- The count of the rows in flight in src/server/ingest.js.
use collectivus.Prelude.{
  ℕ, ◌+◌, ◌≡◌, refl, sym, ap, ◌∙◌, take, Bool, true, false, ◌⊎◌, Option, none, some, List, [], ◌∷◌,
  ◌++◌, length, Text, text_eq, arith, if_cases, inl, inr,
}
use collectivus.Enrollment.{matches_pattern}
use collectivus.Ingest.{
  IngestOptions, Formats, Request, Write, Ingest, Admission, admit_pending, admit_gateway, admit,
  Tagged, queue_rows, file_of, reply_of, compute_batch_bytes, store_tagged, take_body, spend,
  put_back, pick, settle_picked, settle, WriteEnd, done, lost, failed_after,
}

-- The steps of all requests, in any order.
pub data Event : Type 0 where
  arriving : Request → Event
  storing : Text → Text → ℕ → Text ⊎ ℕ → Event
  settling : WriteEnd → Text → Event

unfoldable pub handle : IngestOptions → Formats → Event → Ingest → Ingest
handle o f (arriving r) s = (admit o r s).1
handle o f (storing gateway signal now body) s = (take_body f o gateway signal now body s).1
handle o f (settling end file) s = (settle end file s).1

unfoldable pub handle_all : IngestOptions → Formats → List Event → Ingest → Ingest
handle_all o f [] s = s
handle_all o f (e ∷ events) s = handle_all o f events (handle o f e s)

abbrev pub rows_in : List Write → ℕ
rows_in [] = 0
rows_in (w ∷ writes) = length w.lines + rows_in writes

rows_in-append :
    (ws : List Write) (w : Write) → rows_in (ws ++ w ∷ []) ≡ rows_in ws + length w.lines
rows_in-append [] w = omega arith
rows_in-append (v ∷ ws) w = omega (arith, rows_in-append ws w)

abbrev RowsPicked : List Write → Option (Write × List Write) → Type 0
RowsPicked ws none = Unit
RowsPicked ws (some (w, rest)) = rows_in ws ≡ length w.lines + rows_in rest

RowsPicked-put_back :
    (w : Write) (ws : List Write) (p : Option (Write × List Write))
    → RowsPicked ws p
    → RowsPicked (w ∷ ws) (put_back w p)
RowsPicked-put_back w ws none h = tt
RowsPicked-put_back w ws (some (v, rest)) h = omega (arith, h)

pick-RowsPicked : (file : Text) (ws : List Write) → RowsPicked ws (pick file ws)
unfolding pick
pick-RowsPicked file [] = tt
pick-RowsPicked file (w ∷ ws) =
    if_cases (RowsPicked (w ∷ ws)) (text_eq w.file file) _ _ (λ e. refl)
      λ e. RowsPicked-put_back w ws (pick file ws) (pick-RowsPicked file ws)

-- The count is that of the rows whose write has not ended.
abbrev pub IsCounted : Ingest → Type 0
IsCounted s = s.pending_rows ≡ rows_in s.writes

-- A request that arrives changes the counters of the refusals only.
pub record Untouched (s s' : Ingest) : Type 0 where
  pub same_pending : s'.pending_rows ≡ s.pending_rows
  pub same_budget : s'.byte_budget ≡ s.byte_budget
  pub same_writes : s'.writes ≡ s.writes
  pub same_files : s'.files ≡ s.files

Untouched-self : (s : Ingest) → Untouched s s
Untouched-self s = record {
  same_pending = refl;
  same_budget = refl;
  same_writes = refl;
  same_files = refl;
}

admit_pending-Untouched :
    (o : IngestOptions) (gateway : Text) (s : Ingest) → Untouched s (admit_pending o gateway s).1
admit_pending-Untouched o gateway s = ground arith

admit_gateway-Untouched :
    (o : IngestOptions) (r : Request) (sub : Option Text) (s : Ingest)
    → Untouched s (admit_gateway o r sub s).1
admit_gateway-Untouched o r none s = Untouched-self s
admit_gateway-Untouched o r (some gateway) s =
    let P = λ (p : Admission × Ingest). Untouched s p.1 in
    if_cases P (matches_pattern gateway) _ _
      (λ e. if_cases P _ _ _ (λ k. admit_pending-Untouched o gateway s) (λ k. Untouched-self s))
      (λ e. Untouched-self s)

pub admit-Untouched : (o : IngestOptions) (r : Request) (s : Ingest) → Untouched s (admit o r s).1
unfolding admit
admit-Untouched o r s =
    if_cases (λ (p : Admission × Ingest). Untouched s p.1) _ _ _
      (λ e. admit_gateway-Untouched o r r.claims_sub s) (λ e. Untouched-self s)

admit-IsCounted :
    (o : IngestOptions) (r : Request) (s : Ingest) → IsCounted s → IsCounted (admit o r s).1
admit-IsCounted o r s h =
    let u = admit-Untouched o r s in u.same_pending ∙ h ∙ ap rows_in (sym u.same_writes)

queue_rows-IsCounted :
    (f : Formats) (o : IngestOptions) (gateway signal : Text) (now : ℕ) (t : Tagged)
    (rows : List Text) (paid : Bool) (s : Ingest)
    → IsCounted s
    → IsCounted (queue_rows f o gateway signal now t rows paid s).1
queue_rows-IsCounted f o gateway signal now t rows true s h = ground (
  arith,
  rows_in-append s.writes (record {
    file = file_of o.sink_dir gateway signal (take 10 (f.iso now));
    lines = rows;
    reply = reply_of t;
  }),
)
queue_rows-IsCounted f o gateway signal now t rows false s h = h

store_tagged-IsCounted :
    (f : Formats) (o : IngestOptions) (gateway signal : Text) (now : ℕ) (t : Tagged)
    (rows : List Text) (s : Ingest)
    → IsCounted s
    → IsCounted (store_tagged f o gateway signal now t rows s).1
store_tagged-IsCounted f o gateway signal now t [] s h = h
store_tagged-IsCounted f o gateway signal now t (row ∷ rows) s h =
    let spent = spend now (compute_batch_bytes (row ∷ rows)) s.byte_budget in
    queue_rows-IsCounted f o gateway signal now t (row ∷ rows) spent.0
      (record s { byte_budget = spent.1 }) h

take_body-IsCounted :
    (f : Formats) (o : IngestOptions) (gateway signal : Text) (now : ℕ) (body : Text ⊎ ℕ)
    (s : Ingest)
    → IsCounted s
    → IsCounted (take_body f o gateway signal now body s).1
unfolding take_body
take_body-IsCounted f o gateway signal now (inl body) s h =
    store_tagged-IsCounted f o gateway signal now _ _ s h
take_body-IsCounted f o gateway signal now (inr status) s h = h

settle_picked-IsCounted :
    (end : WriteEnd) (p : Option (Write × List Write)) (s : Ingest)
    → RowsPicked s.writes p
    → IsCounted s
    → IsCounted (settle_picked end p s).1
settle_picked-IsCounted end none s k h = h
settle_picked-IsCounted done (some (w, rest)) s k h = omega (arith, k, h)
settle_picked-IsCounted failed_after (some (w, rest)) s k h = omega (arith, k, h)
settle_picked-IsCounted lost (some (w, rest)) s k h = omega (arith, k, h)

settle-IsCounted :
    (end : WriteEnd) (file : Text) (s : Ingest) → IsCounted s → IsCounted (settle end file s).1
unfolding settle
settle-IsCounted end file s h =
    settle_picked-IsCounted end (pick file s.writes) s (pick-RowsPicked file s.writes) h

handle-IsCounted :
    (o : IngestOptions) (f : Formats) (e : Event) (s : Ingest)
    → IsCounted s
    → IsCounted (handle o f e s)
unfolding handle
handle-IsCounted o f (arriving r) s h = admit-IsCounted o r s h
handle-IsCounted o f (storing g sig now body) s h = take_body-IsCounted f o g sig now body s h
handle-IsCounted o f (settling end file) s h = settle-IsCounted end file s h

-- `pendingRows` is exact: whatever requests arrive, are read and are written, in any order, and
-- however the writes end, it is the number of rows of the batches whose write has not ended.
pub handle_all-IsCounted :
    (o : IngestOptions) (f : Formats) (events : List Event) (s : Ingest)
    → IsCounted s
    → IsCounted (handle_all o f events s)
unfolding handle_all
handle_all-IsCounted o f [] s h = h
handle_all-IsCounted o f (e ∷ events) s h =
    handle_all-IsCounted o f events (handle o f e s) (handle-IsCounted o f e s h)
