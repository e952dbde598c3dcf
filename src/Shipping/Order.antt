-- ===== src/Shipping/Order.antt =====
-- What becomes of the rows that src/gateway/shipping_sink.js takes.
use collectivus.Prelude.{
  ◌≡◌, refl, sym, ap, ◌∙◌, inl, inr, Bool, true, false, Option, none, some, List, [], ◌∷◌, ◌++◌,
  append_assoc, append-nil, Text, Bool-cases,
}
use collectivus.Shipping.{
  Options, Batch, ShippingSink, new_sink, ensure_batch, flush_lines, flush_batch, schedule_flush,
  push_line, is_full, flush_if, write_row, armed, disarm, on_timer, close, Answers, Shipped,
  ship_batch,
}

-- What may happen to a sink. The ship at the head of the chain settles by the answers it gets.
pub data Event : Type 0 where
  writing : Option Text → Event
  firing : Event
  closing : Event
  settling : Answers → Event

-- The sink, the rows that it took, and the snapshots that settled.
pub record World : Type 0 where
  pub sink : ShippingSink
  pub accepted : List Text
  pub settled : List (List Text × Shipped)

abbrev pub new_world : World
new_world = record { sink = new_sink; accepted = []; settled = [] }

abbrev pub accept : Bool → Option Text → List Text → List Text
accept true row rows = rows
accept false none rows = rows
accept false (some line) rows = rows ++ line ∷ []

abbrev pub settle : Answers → List (List Text) → World → World
settle a [] w = w
settle a (lines ∷ chain) w = record w {
  sink = record w.sink { chain = chain };
  settled = w.settled ++ (lines, ship_batch a lines) ∷ [];
}

unfoldable pub handle : Options → Event → World → World
handle o (writing row) w = record w {
  sink = (write_row o row w.sink).1;
  accepted = accept w.sink.closed row w.accepted;
}
handle o firing w = record w { sink = on_timer w.sink }
handle o closing w = record w { sink = close w.sink }
handle o (settling a) w = settle a w.sink.chain w

unfoldable pub handle_all : Options → List Event → World → World
handle_all o [] w = w
handle_all o (e ∷ events) w = handle_all o events (handle o e w)

abbrev pub joined : List (List Text) → List Text
joined [] = []
joined (xs ∷ xss) = xs ++ joined xss

abbrev pub settled_rows : List (List Text × Shipped) → List Text
settled_rows [] = []
settled_rows ((xs, r) ∷ xss) = xs ++ settled_rows xss

-- Rows that wait for a flush.
abbrev pub waiting : Option Batch → List Text
waiting none = []
waiting (some b) = b.lines

abbrev pub in_sink : ShippingSink → List Text
in_sink s = joined s.chain ++ waiting s.batch

joined-append :
    (xss : List (List Text)) (xs : List Text) → joined (xss ++ xs ∷ []) ≡ joined xss ++ xs
joined-append [] xs = append-nil xs
joined-append (x ∷ xss) xs = simp (joined-append xss xs, append_assoc)

settled_rows-append :
    (xss : List (List Text × Shipped)) (xs : List Text) (r : Shipped)
    → settled_rows (xss ++ (xs, r) ∷ []) ≡ settled_rows xss ++ xs
settled_rows-append [] xs r = append-nil xs
settled_rows-append ((x, q) ∷ xss) xs r = simp (settled_rows-append xss xs r, append_assoc)

flush_lines-in_sink :
    (lines : List Text) (s : ShippingSink)
    → waiting s.batch ≡ lines
    → in_sink (flush_lines lines s) ≡ in_sink s
flush_lines-in_sink [] s e = refl
flush_lines-in_sink (line ∷ rest) s e =
    append-nil _ ∙ joined-append s.chain (line ∷ rest) ∙ ap (λ r. joined s.chain ++ r) (sym e)

flush_batch-in_sink :
    (b : Option Batch) (s : ShippingSink)
    → waiting s.batch ≡ waiting b
    → in_sink (flush_batch b s) ≡ in_sink s
flush_batch-in_sink none s e = refl
flush_batch-in_sink (some b) s e = flush_lines-in_sink b.lines s e

-- A flush moves rows and keeps their order.
schedule_flush-in_sink : (s : ShippingSink) → in_sink (schedule_flush s) ≡ in_sink s
schedule_flush-in_sink s = flush_batch-in_sink s.batch s refl

flush_if-in_sink : (b : Bool) (s : ShippingSink) → in_sink (flush_if b s) ≡ in_sink s
flush_if-in_sink true s = schedule_flush-in_sink s
flush_if-in_sink false s = refl

waiting-ensure_batch : (b : Option Batch) → (ensure_batch b).lines ≡ waiting b
waiting-ensure_batch none = refl
waiting-ensure_batch (some b) = refl

waiting-disarm : (b : Option Batch) → waiting (disarm b) ≡ waiting b
waiting-disarm none = refl
waiting-disarm (some b) = refl

write_row-in_sink :
    (o : Options) (row : Option Text) (s : ShippingSink) (closed : Bool) (before rows : List Text)
    → s.closed ≡ closed
    → rows ≡ before ++ in_sink s
    → accept closed row rows ≡ before ++ in_sink (write_row o row s).1
unfolding write_row
write_row-in_sink o row s true before rows c e = rw c e
write_row-in_sink o none s false before rows c e = rw c e
write_row-in_sink o (some line) s false before rows c e = rw c (
    rw (flush_if-in_sink (is_full o (push_line line (ensure_batch s.batch))) _)
      (rw (waiting-ensure_batch s.batch) (rw e (simp append_assoc))))

on_timer-in_sink : (s : ShippingSink) → in_sink (on_timer s) ≡ in_sink s
unfolding on_timer
on_timer-in_sink s = elim (Bool-cases (armed s.batch)) [
  | inl e ↦ rw e (
      schedule_flush-in_sink (record s { batch = disarm s.batch })
      ∙ ap (λ r. joined s.chain ++ r) (waiting-disarm s.batch))
  | inr e ↦ rw e refl
]

close-in_sink : (s : ShippingSink) → in_sink (close s) ≡ in_sink s
unfolding close
close-in_sink s = elim (Bool-cases s.closed) [
  | inl e ↦ rw e refl
  | inr e ↦ rw e (schedule_flush-in_sink (record s { closed = true }))
]

abbrev Balanced : World → Type 0
Balanced w = w.accepted ≡ settled_rows w.settled ++ in_sink w.sink

settle-Balanced :
    (a : Answers) (chain : List (List Text)) (w : World)
    → w.sink.chain ≡ chain
    → Balanced w
    → Balanced (settle a chain w)
settle-Balanced a [] w c e = e
settle-Balanced a (xs ∷ chain) w c e =
    e
    ∙ ap (λ r. settled_rows w.settled ++ (joined r ++ waiting w.sink.batch)) c
    ∙ simp (settled_rows-append, append_assoc)

handle-Balanced : (o : Options) (e : Event) (w : World) → Balanced w → Balanced (handle o e w)
unfolding handle
handle-Balanced o (writing row) w b =
    write_row-in_sink o row w.sink w.sink.closed (settled_rows w.settled) w.accepted refl b
handle-Balanced o firing w b = rw (on_timer-in_sink w.sink) b
handle-Balanced o closing w b = rw (close-in_sink w.sink) b
handle-Balanced o (settling a) w b = settle-Balanced a w.sink.chain w refl b

handle_all-Balanced :
    (o : Options) (events : List Event) (w : World) → Balanced w → Balanced (handle_all o events w)
unfolding handle_all
handle_all-Balanced o [] w b = b
handle_all-Balanced o (e ∷ events) w b =
    handle_all-Balanced o events (handle o e w) (handle-Balanced o e w b)

-- Every row that a new sink took stands in exactly one batch, in the order of the calls: the
-- batches that settled come first, then those in the chain, then the rows that wait for a flush;
-- whatever is written, whenever the timer fires or the sink is closed, and however ships settle.
pub handle_all-order :
    (o : Options) (events : List Event)
    → (handle_all o events new_world).accepted
      ≡ settled_rows (handle_all o events new_world).settled
        ++ in_sink (handle_all o events new_world).sink
handle_all-order o events = handle_all-Balanced o events new_world refl
