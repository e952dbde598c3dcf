-- ===== src/Shipping/Bounds.antt =====
-- How large the batches of src/gateway/shipping_sink.js grow, and when its timer is armed.
use collectivus.Prelude.{
  ℕ, ◌+◌, ◌≤◌, ◌<◌, ◌≡◌, refl, sym, ap, ◌∙◌, inl, inr, Bool, true, false, ◌||◌, Option, none, some,
  List, [], ◌∷◌, ◌++◌, ◌==◌, length, length-append, All, All-append, Text, arith, Bool-cases,
  if_cases,
}
use collectivus.Shipping.{
  Options, Batch, ShippingSink, utf8_length, empty_batch, ensure_batch, flush_lines, flush_batch,
  push_line, is_full, flush_if, Written, write_row, armed, disarm, on_timer, close, Answers,
  Shipped, ship_batch,
}
use collectivus.Shipping.Order.{
  Event, writing, firing, closing, settling, World, new_world, settle, handle, handle_all, waiting,
}

abbrev pub total_bytes : List Text → ℕ
total_bytes [] = 0
total_bytes (line ∷ lines) = utf8_length line + 1 + total_bytes lines

abbrev pub but_last : List Text → List Text
but_last [] = []
but_last (x ∷ []) = []
but_last (x ∷ y ∷ xs) = x ∷ but_last (y ∷ xs)

abbrev pub has_lines : List Text → Bool
has_lines [] = false
has_lines (line ∷ lines) = true

-- A batch that is shipped: no more rows than the limit, and without its last row too few bytes.
pub record Fits (o : Options) (lines : List Text) : Type 0 where
  pub some_row : has_lines lines ≡ true
  pub rows : length lines ≤ o.max_rows
  pub size : total_bytes (but_last lines) < o.max_bytes

pub record IsBatch (o : Options) (b : Batch) : Type 0 where
  pub timed : b.timer ≡ has_lines b.lines
  pub counted : b.bytes ≡ total_bytes b.lines
  pub rows : length b.lines < o.max_rows
  pub size : total_bytes b.lines < o.max_bytes

pub record IsSink (o : Options) (s : ShippingSink) : Type 0 where
  pub batch_fits : IsBatch o (ensure_batch s.batch)
  pub chain_fits : All (Fits o) s.chain
  pub closed_empty : s.closed ≡ true → waiting s.batch ≡ []

total_bytes-but_last : (lines : List Text) → total_bytes (but_last lines) ≤ total_bytes lines
total_bytes-but_last [] = omega arith
total_bytes-but_last (x ∷ []) = omega arith
total_bytes-but_last (x ∷ y ∷ xs) = omega (arith, total_bytes-but_last (y ∷ xs))

total_bytes-append :
    (lines : List Text) (line : Text)
    → total_bytes (lines ++ line ∷ []) ≡ total_bytes lines + (utf8_length line + 1)
total_bytes-append [] line = omega arith
total_bytes-append (x ∷ lines) line = omega (arith, total_bytes-append lines line)

but_last-append : (lines : List Text) (line : Text) → but_last (lines ++ line ∷ []) ≡ lines
but_last-append [] line = refl
but_last-append (x ∷ []) line = refl
but_last-append (x ∷ y ∷ lines) line = ap (λ r. x ∷ r) (but_last-append (y ∷ lines) line)

has_lines-append : (lines : List Text) (line : Text) → has_lines (lines ++ line ∷ []) ≡ true
has_lines-append [] line = refl
has_lines-append (x ∷ lines) line = refl

-- The timer after a push: armed before, or the row is the first.
first_row :
    (lines : List Text) (line : Text) → (has_lines lines || length (lines ++ line ∷ []) == 1) ≡ true
first_row [] line = refl
first_row (x ∷ lines) line = refl

module _ (o : Options) where
  Fits-of-IsBatch : (b : Batch) → IsBatch o b → has_lines b.lines ≡ true → Fits o b.lines
  Fits-of-IsBatch b v h = record {
    some_row = h;
    rows = omega (arith, v.rows);
    size = omega (arith, v.size, total_bytes-but_last b.lines);
  }

  push_line-Fits : (line : Text) (b : Batch) → IsBatch o b → Fits o (push_line line b).lines
  push_line-Fits line b v = record {
    some_row = has_lines-append b.lines line;
    rows = omega (arith, v.rows, length-append b.lines (line ∷ []));
    size = rw (but_last-append b.lines line) v.size;
  }

  push_line-IsBatch :
      (line : Text) (b : Batch)
      → IsBatch o b
      → is_full o (push_line line b) ≡ false
      → IsBatch o (push_line line b)
  push_line-IsBatch line b v e =
      let sum = total_bytes-append b.lines line in
      let counted : b.bytes + (utf8_length line + 1) ≡ total_bytes (b.lines ++ line ∷ []) =
        omega (arith, v.counted, sum) in
      record {
        timed = rw v.timed (first_row b.lines line ∙ sym (has_lines-append b.lines line));
        counted = counted;
        rows = ground arith;
        size = ground (arith, counted);
      }

  empty_batch-IsBatch : 0 < o.max_rows → 0 < o.max_bytes → IsBatch o empty_batch
  empty_batch-IsBatch hr hb = record { timed = refl; counted = refl; rows = hr; size = hb }

module _ (o : Options) (hr : 0 < o.max_rows) (hb : 0 < o.max_bytes) where
  -- What a flush of lines that fit leaves.
  flush_lines-IsSink :
      (lines : List Text) (s : ShippingSink)
      → Fits o lines
      → All (Fits o) s.chain
      → IsSink o (flush_lines lines s)
  flush_lines-IsSink [] s f c = cc (f.some_row)
  flush_lines-IsSink (line ∷ lines) s f c = record {
    batch_fits = empty_batch-IsBatch o hr hb;
    chain_fits = All-append (Fits o) s.chain ((line ∷ lines) ∷ []) c (f, tt);
    closed_empty = λ e. refl;
  }

  enqueue-IsSink :
      (line : Text) (b : Batch) (s : ShippingSink) (full : Bool)
      → IsBatch o b
      → All (Fits o) s.chain
      → s.closed ≡ false
      → is_full o (push_line line b) ≡ full
      → IsSink o (flush_if full (record s { batch = some (push_line line b) }))
  enqueue-IsSink line b s true v c open_ e =
      flush_lines-IsSink (b.lines ++ line ∷ []) (record s { batch = some (push_line line b) })
        (push_line-Fits o line b v) c
  enqueue-IsSink line b s false v c open_ e = record {
    batch_fits = push_line-IsBatch o line b v e;
    chain_fits = c;
    closed_empty = λ k. cc;
  }

  write_row-IsSink :
      (row : Option Text) (s : ShippingSink) → IsSink o s → IsSink o (write_row o row s).1
  unfolding write_row
  write_row-IsSink none s v =
      if_cases (λ (r : Written × ShippingSink). IsSink o r.1) s.closed _ _ (λ e. v) (λ e. v)
  write_row-IsSink (some line) s v =
      if_cases (λ (r : Written × ShippingSink). IsSink o r.1) s.closed _ _ (λ e. v)
        λ e. enqueue-IsSink line (ensure_batch s.batch) s _ v.batch_fits v.chain_fits e refl

  -- The flush of a batch that is there, whatever its timer is, in a sink that may be closed.
  flush_some :
      (lines : List Text) (s : ShippingSink)
      → (has_lines lines ≡ true → Fits o lines)
      → IsBatch o (ensure_batch s.batch)
      → waiting s.batch ≡ lines
      → All (Fits o) s.chain
      → IsSink o (flush_lines lines s)
  flush_some [] s f v e c = record { batch_fits = v; chain_fits = c; closed_empty = λ k. e }
  flush_some (line ∷ lines) s f v e c = flush_lines-IsSink (line ∷ lines) s (f refl) c

  close_by :
      (b : Option Batch) (s : ShippingSink)
      → s.batch ≡ b
      → IsSink o s
      → IsSink o (flush_batch b (record s { closed = true }))
  close_by none s e v = record {
    batch_fits = v.batch_fits;
    chain_fits = v.chain_fits;
    closed_empty = λ k. rw e refl;
  }
  close_by (some b) s e v =
      let fits : IsBatch o b = rw e at v.batch_fits in
      flush_some b.lines (record s { closed = true }) (Fits-of-IsBatch o b fits) v.batch_fits
        (ap waiting e) v.chain_fits

  close-IsSink : (s : ShippingSink) → IsSink o s → IsSink o (close s)
  unfolding close
  close-IsSink s v =
      if_cases (λ r. IsSink o r) s.closed _ _ (λ e. v) (λ e. close_by s.batch s refl v)

  fire_by :
      (b : Option Batch) (s : ShippingSink)
      → s.batch ≡ b
      → armed b ≡ true
      → IsSink o s
      → IsSink o (flush_batch (disarm b) (record s { batch = disarm b }))
  fire_by none s e a v = cc
  fire_by (some b) s e a v =
      let fits : IsBatch o b = rw e at v.batch_fits in
      flush_lines-IsSink b.lines (record s { batch = some (record b { timer = false }) })
        (Fits-of-IsBatch o b fits (sym fits.timed ∙ a)) v.chain_fits

  on_timer-IsSink : (s : ShippingSink) → IsSink o s → IsSink o (on_timer s)
  unfolding on_timer
  on_timer-IsSink s v = elim (Bool-cases (armed s.batch)) [
    | inl e ↦ rw e (fire_by s.batch s refl e v)
    | inr e ↦ rw e v
  ]

  -- The sink is sound, and what settled fitted.
  record IsWorld (w : World) : Type 0 where
    sink_sound : IsSink o w.sink
    settled_fits : All (λ (p : List Text × Shipped). Fits o p.0) w.settled

  settle-IsWorld :
      (a : Answers) (chain : List (List Text)) (w : World)
      → w.sink.chain ≡ chain
      → IsWorld w
      → IsWorld (settle a chain w)
  settle-IsWorld a [] w e v = v
  settle-IsWorld a (xs ∷ chain) w e v =
      let fits : All (Fits o) (xs ∷ chain) = rw e at v.sink_sound.chain_fits in
      record {
        sink_sound = record {
          batch_fits = v.sink_sound.batch_fits;
          chain_fits = fits.1;
          closed_empty = v.sink_sound.closed_empty;
        };
        settled_fits =
            All-append (λ (p : List Text × Shipped). Fits o p.0) w.settled
              ((xs, ship_batch a xs) ∷ []) v.settled_fits (fits.0, tt);
      }

  handle-IsWorld : (e : Event) (w : World) → IsWorld w → IsWorld (handle o e w)
  unfolding handle
  handle-IsWorld (writing row) w v = record {
    sink_sound = write_row-IsSink row w.sink v.sink_sound;
    settled_fits = v.settled_fits;
  }
  handle-IsWorld firing w v = record {
    sink_sound = on_timer-IsSink w.sink v.sink_sound;
    settled_fits = v.settled_fits;
  }
  handle-IsWorld closing w v = record {
    sink_sound = close-IsSink w.sink v.sink_sound;
    settled_fits = v.settled_fits;
  }
  handle-IsWorld (settling a) w v = settle-IsWorld a w.sink.chain w refl v

  handle_all-IsWorld :
      (events : List Event) (w : World) → IsWorld w → IsWorld (handle_all o events w)
  unfolding handle_all
  handle_all-IsWorld [] w v = v
  handle_all-IsWorld (e ∷ events) w v =
      handle_all-IsWorld events (handle o e w) (handle-IsWorld e w v)

  new_world-IsWorld : IsWorld new_world
  new_world-IsWorld = record {
    sink_sound = record {
      batch_fits = empty_batch-IsBatch o hr hb;
      chain_fits = tt;
      closed_empty = λ e. refl;
    };
    settled_fits = tt;
  }

-- The limits of a batch and its timer, if the limits are not 0: after any calls of a new sink, the
-- batches that are in the chain or have settled have a row, no more rows than `maxRows`, and fewer
-- bytes than `maxBytes` but for their last row; the rows that wait are fewer than `maxRows` and
-- have fewer bytes than `maxBytes`; and the timer is armed exactly while a row waits, so that no
-- row is left behind. A closed sink has no rows that wait.
pub handle_all-Fits :
    (o : Options) (events : List Event)
    → 0 < o.max_rows
    → 0 < o.max_bytes
    → All (λ (p : List Text × Shipped). Fits o p.0) (handle_all o events new_world).settled
      × IsSink o (handle_all o events new_world).sink
handle_all-Fits o events hr hb =
    let v = handle_all-IsWorld o hr hb events new_world (new_world-IsWorld o hr hb) in
    (v.settled_fits, v.sink_sound)
