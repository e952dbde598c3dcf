-- ===== src/Ingest/Batches.antt =====
-- A batch that src/gateway/shipping_sink.js posts, in src/server/ingest.js.
use collectivus.Prelude.{
  ℕ, suc, ◌≡◌, ◌≢◌, refl, sym, ap, ◌∙◌, Option, none, some, List, [], ◌∷◌, ◌++◌, length, take, All,
  Text, text, inl,
}
use collectivus.Prelude.Splits.{split_on, Avoids, split_on-append}
use collectivus.Json.{object, Fields}
use collectivus.Shipping.{body_of}
use collectivus.Ingest.{
  compute_batch_bytes, IngestOptions, Formats, Reply, accepted, Ingest, put_field, tag_json,
  file_of, Tagged, tag_value, tag_next, with_row, tag_rows, append_batch, queue_rows, store_tagged,
  spend, compute_batch_bytes, take_body,
}

-- What the shipping sink writes for a row: the text of a JSON object, on one line.
pub record IsRow (f : Formats) (line : Text) : Type 0 where
  pub fields : Fields
  pub parses : f.parse line ≡ some (object fields)
  pub one_line : All (Avoids b'\n') line
  pub some_text : line ≢ []

abbrev pub AreRows : Formats → List Text → Type 0
AreRows f [] = Unit
AreRows f (line ∷ lines) = IsRow f line × AreRows f lines

-- The text of a row with its tag.
abbrev pub tagged_row : Formats → Text → Text → Fields → Text
tagged_row f gateway at fs =
    f.stringify (object (put_field (text "_ingest") (tag_json gateway at) fs))

abbrev pub tagged_rows :
    (f : Formats) → Text → Text → (lines : List Text) → AreRows f lines → List Text
tagged_rows f gateway at [] h = []
tagged_rows f gateway at (line ∷ lines) (r, h) =
    tagged_row f gateway at r.fields ∷ tagged_rows f gateway at lines h

split_on-body_of :
    (f : Formats) (lines : List Text)
    → AreRows f lines
    → split_on b'\n' [] (body_of lines) ≡ lines ++ [] ∷ []
unfolding split_on body_of
split_on-body_of f [] h = refl
split_on-body_of f (line ∷ lines) (r, h) =
    split_on-append b'\n' [] line (body_of lines) r.one_line refl
    ∙ ap (λ s. line ∷ s) (split_on-body_of f lines h)

tag_rows-cons :
    (f : Formats) (gateway at : Text) (n : ℕ) (line : Text) (lines : List Text) (r : IsRow f line)
    → tag_rows f gateway at n (line ∷ lines)
      ≡ with_row (tagged_row f gateway at r.fields) (tag_rows f gateway at (suc n) lines)
unfolding tag_rows
tag_rows-cons f gateway at n [] lines r = absurd (r.some_text refl)
tag_rows-cons f gateway at n (c ∷ line) lines r =
    ap (λ v. tag_next f n (tag_value f gateway at v) (tag_rows f gateway at (suc n) lines)) r.parses

tag_rows-AreRows :
    (f : Formats) (gateway at : Text) (n : ℕ) (lines : List Text) (h : AreRows f lines)
    → tag_rows f gateway at n (lines ++ [] ∷ [])
      ≡ record { rows = tagged_rows f gateway at lines h; stopped = none }
tag_rows-AreRows f gateway at n [] h = unfold tag_rows in refl
tag_rows-AreRows f gateway at n (line ∷ lines) (r, h) =
    tag_rows-cons f gateway at n line (lines ++ [] ∷ []) r
    ∙ ap (with_row (tagged_row f gateway at r.fields))
        (tag_rows-AreRows f gateway at (suc n) lines h)

length-tagged_rows :
    (f : Formats) (gateway at : Text) (lines : List Text) (h : AreRows f lines)
    → length (tagged_rows f gateway at lines h) ≡ length lines
length-tagged_rows f gateway at [] h = refl
length-tagged_rows f gateway at (line ∷ lines) (r, h) =
    ap suc (length-tagged_rows f gateway at lines h)

abbrev queued : Text → List Text → Reply → Ingest → Option Reply × Ingest
queued file rows reply s = (none, append_batch file rows reply s)

-- A batch that the shipping sink posts is taken whole: without a limit on bytes, its rows are
-- queued for the file of the gateway, the signal and the day, in their order and each with the
-- gateway's tag, and the answer that waits for the write accepts as many rows as were shipped.
-- Each row is a JSON object on one line.
pub take_body-body_of :
    (f : Formats) (o : IngestOptions) (gateway signal : Text) (now : ℕ) (line : Text)
    (lines : List Text) (s : Ingest) (h : AreRows f (line ∷ lines))
    → s.byte_budget ≡ none
    → take_body f o gateway signal now (inl (body_of (line ∷ lines))) s ≡ (
      none,
      append_batch
          (file_of o.sink_dir gateway signal (take 10 (f.iso now)))
          (tagged_rows f gateway (f.iso now) (line ∷ lines) h)
          (accepted (length (line ∷ lines)))
          s,
    )
unfolding take_body
take_body-body_of f o gateway signal now line lines s (r, h) e =
    let at = f.iso now in
    let file = file_of o.sink_dir gateway signal (take 10 at) in
    let rows = tagged_rows f gateway at (line ∷ lines) (r, h) in
    ap (λ ls. let t = tag_rows f gateway at 1 ls in store_tagged f o gateway signal now t t.rows s)
      (split_on-body_of f (line ∷ lines) (r, h))
    ∙ ap (λ (t : Tagged). store_tagged f o gateway signal now t t.rows s)
        (tag_rows-AreRows f gateway at 1 (line ∷ lines) (r, h))
    ∙ ap
        (λ b.
          let spent = spend now (compute_batch_bytes rows) b in
          queue_rows f o gateway signal now (record { rows = rows; stopped = none }) rows spent.0
            (record s { byte_budget = spent.1 }))
        e
    ∙ ap (λ b. queued file rows (accepted (length rows)) (record s { byte_budget = b })) (sym e)
    ∙ ap (λ n. queued file rows (accepted n) s)
        (length-tagged_rows f gateway at (line ∷ lines) (r, h))
