-- ===== src/EventBus/Lost.antt =====
-- The events of src/gascity/event_bus.js that the next start does not fetch again.
use collectivus.Prelude.{ℕ, ◌≤◌, true, false, Option, none, some, List, [], ◌∷◌, Text}
use collectivus.EventBus.{
  CursorCall, EventRow, CursorCall, next_cursor, saved, Backfill, EventBus, handle_event, Event,
  live, live_reads, restarted, live_ends, run,
}

-- At least as far.
abbrev Reaches : Option ℕ → Option ℕ → Type 0
Reaches none o = Unit
Reaches (some m) none = ⊥
Reaches (some m) (some n) = m ≤ n

-- The snapshot that is gone through started past a number.
abbrev Started : ℕ → Option Backfill → Type 0
Started n none = Unit
Started n (some b) = Reaches (some n) b.start_seq

-- A live event whose write fails, whose cursor is read and saved all the same, and a start after it.
abbrev pub failing : Option Text → EventRow → List Event
failing id row = live false id (some row) ∷ live_reads true ∷ live_ends saved ∷ restarted true ∷ []

-- The state after these.
abbrev after_failing : Option Text → EventRow → EventBus → EventBus
after_failing id row s =
    let c = next_cursor id row.seq s.cursor in
    record {
      writer = record s.writer { seen_keys = [] };
      cursor = c;
      backfill = some (record { start_seq = c.last_seq; max_seq = c.last_seq });
      live_call = none;
      snapshot_call = none;
    }

-- What follows the arrival of the event.
abbrev called : Option Text → EventRow → Option CursorCall → EventBus → EventBus
called id row call s =
    run (live_reads true ∷ live_ends saved ∷ restarted true ∷ [])
      (handle_event false id (some row) call s)
