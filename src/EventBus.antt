-- ===== src/EventBus.antt =====
-- src/gascity/event_bus.js with src/gascity/event_writer.js: the events of the bus, live ones and
-- those of a snapshot, and the cursor from which the next start goes on. An event is here what
-- `normalizeGascityEvent` made of it; a row is delivered in one step, whose write may fail. A call
-- that writes the cursor is two: it reads the file, and later writes what it combined. The stream
-- awaits the call of one live event before the next one; the call at the end of a snapshot goes on
-- beside it, in any order with its steps. A read that fails gives no cursor; a write is done, fails
-- or leaves a file that cannot be read, as a crash or another call's use of the same temporary file
-- can.
pub mod Cursor
pub mod Rows
pub mod Lost
pub mod Tests
use collectivus.Prelude.{
  ℕ, ◌+◌, Bool, true, false, not, ◌||◌, Option, none, some, List, [], ◌∷◌, ◌++◌, ltb, leb,
  if◌then◌else◌, keep, Text, text, text_eq,
}
use collectivus.Prelude.Decimals.{digits}
use collectivus.Bootstrap.{is_empty}

pub record EventCursor : Type 0 where
  pub last_event_id : Option Text
  pub last_seq : Option ℕ

pub record EventRow : Type 0 where
  pub event_scope : Text
  pub city : Text
  pub seq : Option ℕ
  pub event_id : Option Text
  pub line : Text

abbrev pub scope_of : EventRow → Text
scope_of row = row.event_scope ++ b':' ∷ row.city

abbrev pub id_key : EventRow → Option Text → Option Text
id_key row none = none
id_key row (some id) = if is_empty id then none else some (scope_of row ++ text ":id:" ++ id)

abbrev pub key_of : EventRow → Option ℕ → Option Text
key_of row (some n) = some (scope_of row ++ text ":seq:" ++ digits n)
key_of row none = id_key row row.event_id

-- `eventRowKey`
unfoldable pub event_row_key : EventRow → Option Text
event_row_key row = key_of row row.seq

-- GascityEventWriter; its queue is empty between two deliveries.
pub record EventWriter : Type 0 where
  pub seen_keys : List Text
  pub rows : List EventRow

abbrev pub has : Text → List Text → Bool
has k [] = false
has k (j ∷ keys) = text_eq j k || has k keys

-- A row that is new, with the outcome of its write: its key is forgotten where that fails.
abbrev pub write_new : Bool → EventRow → Option Text → EventWriter → EventWriter
write_new true row none w = record w { rows = w.rows ++ row ∷ [] }
write_new true row (some key) w = record w {
  rows = w.rows ++ row ∷ [];
  seen_keys = key ∷ w.seen_keys;
}
write_new false row key w = w

abbrev pub append_keyed : Bool → EventRow → Option Text → EventWriter → EventWriter
append_keyed written row none w = write_new written row none w
append_keyed written row (some key) w =
    if has key w.seen_keys then w else write_new written row (some key) w

-- `append`, with the end of its write
unfoldable pub append : Bool → Option EventRow → EventWriter → EventWriter
append written none w = w
append written (some row) w = append_keyed written row (event_row_key row) w

-- `seq !== undefined && (currentSeq === undefined || seq > currentSeq) ? seq : currentSeq`
abbrev pub later : Option ℕ → Option ℕ → Option ℕ
later current none = current
later none (some n) = some n
later (some m) (some n) = if ltb m n then some n else some m

-- `shouldReplaceEventId`, with what follows
abbrev pub next_event_id : Option ℕ → Option ℕ → Option Text → Option Text → Option Text
next_event_id current seq none old = old
next_event_id (some m) (some n) (some id) old = if leb m n then some id else old
next_event_id _ _ (some id) old = some id

-- A call of `writeEventCursorState` that has not ended: before its read, and with what it read.
pub data CursorCall : Type 0 where
  waiting : Option Text → Option ℕ → CursorCall
  has_read : Option Text → Option ℕ → EventCursor → CursorCall

-- `writeEventCursorState`, up to its first await; none where it returns at once.
abbrev pub write_event_cursor_state : Option Text → Option ℕ → Option CursorCall
write_event_cursor_state none none = none
write_event_cursor_state id seq = some (waiting id seq)

-- What it writes, from what it read.
unfoldable pub next_cursor : Option Text → Option ℕ → EventCursor → EventCursor
next_cursor id seq current = record {
  last_event_id = next_event_id current.last_seq seq id current.last_event_id;
  last_seq = later current.last_seq seq;
}

abbrev pub no_cursor : EventCursor
no_cursor = record { last_event_id = none; last_seq = none }

-- `readEventCursor`; a file that cannot be read is none.
abbrev pub read_event_cursor : Bool → EventCursor → EventCursor
read_event_cursor true cursor = cursor
read_event_cursor false cursor = no_cursor

-- The read of a call.
abbrev pub read_call : Bool → EventCursor → Option CursorCall → Option CursorCall
read_call readable cursor (some (waiting id seq)) =
    some (has_read id seq (read_event_cursor readable cursor))
read_call readable cursor call = call

pub data WriteEnd : Type 0 where
  saved write_failed torn : WriteEnd

-- The cursor after the end of a call, whose failure is caught.
abbrev pub end_call : WriteEnd → Option CursorCall → EventCursor → EventCursor
end_call saved (some (has_read id seq current)) cursor = next_cursor id seq current
end_call torn (some (has_read id seq current)) cursor = no_cursor
end_call end call cursor = cursor

-- A call that has read ends with its write.
abbrev pub ended_call : Option CursorCall → Option CursorCall
ended_call (some (has_read id seq current)) = none
ended_call call = call

abbrev pub seq_of : Option EventRow → Option ℕ
seq_of none = none
seq_of (some row) = row.seq

-- `writeEventCursor`
abbrev pub write_event_cursor : Option Text → Option EventRow → Option CursorCall
write_event_cursor id row = write_event_cursor_state id (seq_of row)

-- A snapshot that is being gone through: the cursor's number at its start, and the largest so far.
pub record Backfill : Type 0 where
  pub start_seq : Option ℕ
  pub max_seq : Option ℕ

-- The cursor is the file; the calls are those of a live event and of the end of a snapshot.
pub record EventBus : Type 0 where
  pub writer : EventWriter
  pub cursor : EventCursor
  pub backfill : Option Backfill
  pub live_call : Option CursorCall
  pub snapshot_call : Option CursorCall

-- `handleEvent`, of an event that is no heartbeat; the next one waits for the end of the call.
abbrev pub handle_event :
    Bool → Option Text → Option EventRow → Option CursorCall → EventBus → EventBus
handle_event written id row (some call) s = s
handle_event written id row none s = record s {
  writer = append written row s.writer;
  live_call = write_event_cursor id row;
}

-- `seq !== undefined && lastSeq !== undefined && seq <= lastSeq`
abbrev pub is_old : Option ℕ → Option ℕ → Bool
is_old (some last) (some n) = leb n last
is_old _ _ = false

abbrev pub take_item : Bool → Option EventRow → Option Backfill → EventBus → EventBus
take_item written row none s = s
take_item written row (some b) s = if is_old b.start_seq (seq_of row) then s else record s {
  writer = append written row s.writer;
  backfill = some (record b { max_seq = later b.max_seq (seq_of row) });
}

abbrev pub end_backfill : Option Backfill → EventBus → EventBus
end_backfill none s = s
end_backfill (some b) s = record s {
  backfill = none;
  snapshot_call = write_event_cursor_state none b.max_seq;
}

-- The start of the process: the keys that were seen and the calls are gone, the file and the cursor
-- stay, and the snapshot is fetched from the cursor that is read.
unfoldable pub restart : Bool → EventBus → EventBus
restart readable s =
    let last_seq = (read_event_cursor readable s.cursor).last_seq in
    record {
      writer = record s.writer { seen_keys = [] };
      cursor = s.cursor;
      backfill = some (record { start_seq = last_seq; max_seq = last_seq });
      live_call = none;
      snapshot_call = none;
    }

pub data Event : Type 0 where
  live : Bool → Option Text → Option EventRow → Event
  snapshot_item : Bool → Option EventRow → Event
  snapshot_end : Event
  live_reads snapshot_reads restarted : Bool → Event
  live_ends snapshot_ends : WriteEnd → Event

unfoldable pub step : Event → EventBus → EventBus
step (live written id row) s = handle_event written id row s.live_call s
step (snapshot_item written row) s = take_item written row s.backfill s
step snapshot_end s = end_backfill s.backfill s
step (live_reads readable) s = record s { live_call = read_call readable s.cursor s.live_call }
step (snapshot_reads readable) s = record s {
  snapshot_call = read_call readable s.cursor s.snapshot_call;
}
step (live_ends end) s = record s {
  cursor = end_call end s.live_call s.cursor;
  live_call = ended_call s.live_call;
}
step (snapshot_ends end) s = record s {
  cursor = end_call end s.snapshot_call s.cursor;
  snapshot_call = ended_call s.snapshot_call;
}
step (restarted readable) s = restart readable s

unfoldable pub run : List Event → EventBus → EventBus
run [] s = s
run (e ∷ es) s = run es (step e s)
