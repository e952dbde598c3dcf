-- ===== src/EventBus/Rows.antt =====
-- The rows that one process of src/gascity/event_writer.js writes.
use collectivus.Prelude.{
  ℕ, ◌+◌, ◌≤◌, ◌≡◌, refl, sym, subst, inl, inr, Bool, true, false, Option, none, some, List, [],
  ◌∷◌, ◌++◌, Text, text_eq, text_eq_iff, arith, if_cases, Bool-cases, All,
}
use collectivus.EventBus.{
  EventRow, EventWriter, event_row_key, has, write_new, append_keyed, append, seq_of, Backfill,
  EventBus, handle_event, is_old, take_item, end_backfill, Event, live, snapshot_item, snapshot_end,
  live_reads, snapshot_reads, live_ends, snapshot_ends, CursorCall, restarted, step, run,
}

abbrev pub bit : Bool → ℕ
bit true = 1
bit false = 0

abbrev pub is_key : Text → Option Text → Bool
is_key k none = false
is_key k (some j) = text_eq j k

-- How many rows have a key.
pub count_key : Text → List EventRow → ℕ
count_key k [] = 0
count_key k (row ∷ rows) = bit (is_key k (event_row_key row)) + count_key k rows

count_key-append :
    (k : Text) (rows : List EventRow) (row : EventRow)
    → count_key k (rows ++ row ∷ []) ≡ count_key k rows + bit (is_key k (event_row_key row))
unfolding count_key
count_key-append k [] row = omega arith
count_key-append k (r ∷ rows) row = omega (arith, count_key-append k rows row)

-- Each key was written at most once more than `base` says, and only if it was seen.
IsOnce : (Text → ℕ) → EventWriter → Type 0
IsOnce base w = (k : Text) → count_key k w.rows ≤ base k + bit (has k w.seen_keys)

write_none-IsOnce :
    (base : Text → ℕ) (written : Bool) (row : EventRow) (w : EventWriter)
    → event_row_key row ≡ none
    → IsOnce base w
    → IsOnce base (write_new written row none w)
unfolding IsOnce
write_none-IsOnce base false row w e h k = h k
write_none-IsOnce base true row w e h k = ground (arith, count_key-append k w.rows row, e, h k)

write_some-IsOnce :
    (base : Text → ℕ) (written : Bool) (row : EventRow) (j : Text) (w : EventWriter)
    → event_row_key row ≡ some j
    → has j w.seen_keys ≡ false
    → IsOnce base w
    → IsOnce base (write_new written row (some j) w)
unfolding IsOnce
write_some-IsOnce base false row j w e fresh h k = h k
write_some-IsOnce base true row j w e fresh h k = elim (Bool-cases (text_eq j k)) [
  | inl same ↦
      let jk : j ≡ k = (text_eq_iff j k).0 same in
      let unseen : has k w.seen_keys ≡ false = subst (λ t. has t w.seen_keys ≡ false) jk fresh in
      ground (arith, count_key-append k w.rows row, e, h k, unseen, same)
  | inr other ↦ ground (arith, count_key-append k w.rows row, e, h k, other)
]

append_keyed-IsOnce :
    (base : Text → ℕ) (written : Bool) (row : EventRow) (o : Option Text) (w : EventWriter)
    → event_row_key row ≡ o
    → IsOnce base w
    → IsOnce base (append_keyed written row o w)
append_keyed-IsOnce base written row none w e h = write_none-IsOnce base written row w e h
append_keyed-IsOnce base written row (some j) w e h =
    if_cases (IsOnce base) (has j w.seen_keys) _ _ (λ k. h)
      λ k. write_some-IsOnce base written row j w e k h

append-IsOnce :
    (base : Text → ℕ) (written : Bool) (row : Option EventRow) (w : EventWriter)
    → IsOnce base w
    → IsOnce base (append written row w)
unfolding append
append-IsOnce base written none w h = h
append-IsOnce base written (some row) w h =
    append_keyed-IsOnce base written row (event_row_key row) w refl h

take_item-IsOnce :
    (base : Text → ℕ) (written : Bool) (row : Option EventRow) (b : Option Backfill) (s : EventBus)
    → IsOnce base s.writer
    → IsOnce base (take_item written row b s).writer
take_item-IsOnce base written row none s h = h
take_item-IsOnce base written row (some b) s h =
    if_cases (λ (t : EventBus). IsOnce base t.writer) (is_old b.start_seq (seq_of row)) _ _ (λ e. h)
      λ e. append-IsOnce base written row s.writer h

handle_event-IsOnce :
    (base : Text → ℕ) (written : Bool) (id : Option Text) (row : Option EventRow)
    (call : Option CursorCall) (s : EventBus)
    → IsOnce base s.writer
    → IsOnce base (handle_event written id row call s).writer
handle_event-IsOnce base written id row (some call) s h = h
handle_event-IsOnce base written id row none s h = append-IsOnce base written row s.writer h

end_backfill-writer : (b : Option Backfill) (s : EventBus) → (end_backfill b s).writer ≡ s.writer
end_backfill-writer none s = refl
end_backfill-writer (some b) s = refl

abbrev pub Goes : Event → Type 0
Goes (restarted readable) = ⊥
Goes _ = Unit

step-IsOnce :
    (base : Text → ℕ) (e : Event) (s : EventBus)
    → Goes e
    → IsOnce base s.writer
    → IsOnce base (step e s).writer
unfolding step
step-IsOnce base (live written id row) s g h =
    handle_event-IsOnce base written id row s.live_call s h
step-IsOnce base (snapshot_item written row) s g h =
    take_item-IsOnce base written row s.backfill s h
step-IsOnce base snapshot_end s g h =
    subst (λ w. IsOnce base w) (sym (end_backfill-writer s.backfill s)) h
step-IsOnce base (live_reads readable) s g h = h
step-IsOnce base (snapshot_reads readable) s g h = h
step-IsOnce base (live_ends end) s g h = h
step-IsOnce base (snapshot_ends end) s g h = h
step-IsOnce base (restarted readable) s g h = absurd g

run-IsOnce :
    (base : Text → ℕ) (es : List Event) (s : EventBus)
    → All Goes es
    → IsOnce base s.writer
    → IsOnce base (run es s).writer
unfolding run
run-IsOnce base [] s g h = h
run-IsOnce base (e ∷ es) s (g, gs) h = run-IsOnce base es (step e s) gs (step-IsOnce base e s g h)

-- A process writes the row of each key at most once, however its live events and the items of its
-- snapshot repeat and interleave, and whichever writes fail.
pub run_once :
    (es : List Event) (s : EventBus) (k : Text)
    → All Goes es
    → s.writer.seen_keys ≡ []
    → count_key k (run es s).writer.rows ≤ count_key k s.writer.rows + 1
unfolding IsOnce
run_once es s k g e =
    let start : IsOnce (λ j. count_key j s.writer.rows) s.writer = λ j. ground (arith, e) in
    ground (arith, run-IsOnce (λ j. count_key j s.writer.rows) es s g start k)
