-- ===== src/EventBus/Cursor.antt =====
-- The cursor of src/gascity/event_bus.js against the numbers of the rows that were taken in.
use collectivus.Prelude.{
  ℕ, ◌≡◌, refl, sym, Bool, true, false, Option, none, some, List, [], ◌∷◌, ltb, Text, if_cases,
  subst, ◌⊎◌, inl, inr, All,
}
use collectivus.EventBus.{
  EventCursor, EventRow, later, CursorCall, waiting, has_read, write_event_cursor_state,
  next_cursor, read_event_cursor, read_call, WriteEnd, saved, write_failed, torn, end_call,
  ended_call, seq_of, Backfill, EventBus, handle_event, is_old, take_item, end_backfill, restart,
  Event, live, snapshot_item, snapshot_end, live_reads, snapshot_reads, restarted, live_ends,
  snapshot_ends, step, run,
}

-- The number of the row that an event brings.
abbrev pub taken_seq : Event → Option ℕ
taken_seq (live written id row) = seq_of row
taken_seq (snapshot_item written row) = seq_of row
taken_seq _ = none

-- The number is that of a row which one of the events brings.
abbrev pub Brought : Option ℕ → List Event → Type 0
Brought o [] = ⊥
Brought o (e ∷ es) = (o ≡ taken_seq e) ⊎ Brought o es

-- What holds of every number in the state.
module _ (P : Option ℕ → Type 0) (nothing : P none) where
  Called : Option CursorCall → Type 0
  Called none = Unit
  Called (some (waiting id seq)) = P seq
  Called (some (has_read id seq current)) = P seq × P current.last_seq

  Filled : Option Backfill → Type 0
  Filled none = Unit
  Filled (some b) = P b.start_seq × P b.max_seq

  record Holds (s : EventBus) : Type 0 where
    at_cursor : P s.cursor.last_seq
    at_backfill : Filled s.backfill
    at_live : Called s.live_call
    at_snapshot : Called s.snapshot_call

  later-holds : (o u : Option ℕ) → P o → P u → P (later o u)
  later-holds o none p q = p
  later-holds none (some n) p q = q
  later-holds (some m) (some n) p q = if_cases P (ltb m n) _ _ (λ e. q) λ e. p

  state-Called :
      (id : Option Text) (seq : Option ℕ) → P seq → Called (write_event_cursor_state id seq)
  unfolding Called
  state-Called none none p = tt
  state-Called none (some n) p = p
  state-Called (some id) none p = p
  state-Called (some id) (some n) p = p

  read-holds :
      (readable : Bool) (c : EventCursor) → P c.last_seq → P (read_event_cursor readable c).last_seq
  read-holds true c p = p
  read-holds false c p = nothing

  read_call-Called :
      (readable : Bool) (c : EventCursor) (call : Option CursorCall)
      → P c.last_seq
      → Called call
      → Called (read_call readable c call)
  unfolding Called
  read_call-Called readable c none p h = tt
  read_call-Called readable c (some (waiting id seq)) p h = (h, read-holds readable c p)
  read_call-Called readable c (some (has_read id seq current)) p h = h

  end_call-holds :
      (end : WriteEnd) (call : Option CursorCall) (c : EventCursor)
      → P c.last_seq
      → Called call
      → P (end_call end call c).last_seq
  unfolding Called next_cursor
  end_call-holds saved none c p h = p
  end_call-holds saved (some (waiting id seq)) c p h = p
  end_call-holds saved (some (has_read id seq current)) c p h =
      later-holds current.last_seq seq h.1 h.0
  end_call-holds torn none c p h = p
  end_call-holds torn (some (waiting id seq)) c p h = p
  end_call-holds torn (some (has_read id seq current)) c p h = nothing
  end_call-holds write_failed call c p h = p

  ended_call-Called : (call : Option CursorCall) → Called call → Called (ended_call call)
  unfolding Called
  ended_call-Called none h = tt
  ended_call-Called (some (waiting id seq)) h = h
  ended_call-Called (some (has_read id seq current)) h = tt

  handle_event-Holds :
      (written : Bool) (id : Option Text) (row : Option EventRow) (call : Option CursorCall)
      (s : EventBus)
      → P (seq_of row)
      → Holds s
      → Holds (handle_event written id row call s)
  handle_event-Holds written id row (some call) s p h = h
  handle_event-Holds written id row none s p h = record {
    at_cursor = h.at_cursor;
    at_backfill = h.at_backfill;
    at_live = state-Called id (seq_of row) p;
    at_snapshot = h.at_snapshot;
  }

  take_item-Holds :
      (written : Bool) (row : Option EventRow) (b : Option Backfill) (s : EventBus)
      → P (seq_of row)
      → Filled b
      → Holds s
      → Holds (take_item written row b s)
  unfolding Filled
  take_item-Holds written row none s p f h = h
  take_item-Holds written row (some b) s p f h =
      if_cases Holds (is_old b.start_seq (seq_of row)) _ _ (λ e. h)
        λ e. record {
          at_cursor = h.at_cursor;
          at_backfill = (f.0, later-holds b.max_seq (seq_of row) f.1 p);
          at_live = h.at_live;
          at_snapshot = h.at_snapshot;
        }

  end_backfill-Holds :
      (b : Option Backfill) (s : EventBus) → Filled b → Holds s → Holds (end_backfill b s)
  unfolding Filled
  end_backfill-Holds none s f h = h
  end_backfill-Holds (some b) s f h = record {
    at_cursor = h.at_cursor;
    at_backfill = tt;
    at_live = h.at_live;
    at_snapshot = state-Called none b.max_seq f.1;
  }

  step-Holds : (e : Event) (s : EventBus) → P (taken_seq e) → Holds s → Holds (step e s)
  unfolding step restart Called Filled
  step-Holds (live written id row) s p h = handle_event-Holds written id row s.live_call s p h
  step-Holds (snapshot_item written row) s p h =
      take_item-Holds written row s.backfill s p h.at_backfill h
  step-Holds snapshot_end s p h = end_backfill-Holds s.backfill s h.at_backfill h
  step-Holds (live_reads readable) s p h = record {
    at_cursor = h.at_cursor;
    at_backfill = h.at_backfill;
    at_live = read_call-Called readable s.cursor s.live_call h.at_cursor h.at_live;
    at_snapshot = h.at_snapshot;
  }
  step-Holds (snapshot_reads readable) s p h = record {
    at_cursor = h.at_cursor;
    at_backfill = h.at_backfill;
    at_live = h.at_live;
    at_snapshot = read_call-Called readable s.cursor s.snapshot_call h.at_cursor h.at_snapshot;
  }
  step-Holds (live_ends end) s p h = record {
    at_cursor = end_call-holds end s.live_call s.cursor h.at_cursor h.at_live;
    at_backfill = h.at_backfill;
    at_live = ended_call-Called s.live_call h.at_live;
    at_snapshot = h.at_snapshot;
  }
  step-Holds (snapshot_ends end) s p h = record {
    at_cursor = end_call-holds end s.snapshot_call s.cursor h.at_cursor h.at_snapshot;
    at_backfill = h.at_backfill;
    at_live = h.at_live;
    at_snapshot = ended_call-Called s.snapshot_call h.at_snapshot;
  }
  step-Holds (restarted readable) s p h =
      let read = read-holds readable s.cursor h.at_cursor in
      record { at_cursor = h.at_cursor; at_backfill = (read, read); at_live = tt; at_snapshot = tt }

  run-Holds :
      (es : List Event) (s : EventBus) → All (λ e. P (taken_seq e)) es → Holds s → Holds (run es s)
  unfolding run
  run-Holds [] s ps h = h
  run-Holds (e ∷ es) s (p, ps) h = run-Holds es (step e s) ps (step-Holds e s p h)

All-map :
    (P Q : Option ℕ → Type 0) (es : List Event)
    → ((o : Option ℕ) → P o → Q o)
    → All (λ e. P (taken_seq e)) es
    → All (λ e. Q (taken_seq e)) es
All-map P Q [] f h = tt
All-map P Q (e ∷ es) f (p, h) = (f (taken_seq e) p, All-map P Q es f h)

each-Brought : (es : List Event) → All (λ e. Brought (taken_seq e) es) es
each-Brought [] = tt
each-Brought (e ∷ es) = (
  inl refl,
  All-map (λ o. Brought o es) (λ o. Brought o (e ∷ es)) es (λ o h. inr h) (each-Brought es),
)

-- Over any sequence of live events, items and ends of snapshots, restarts and the steps of the calls
-- that write the cursor, whichever reads and writes fail and however the calls overlap, the cursor is
-- never ahead of what was taken in: its number is none, the one at the start of the sequence or that
-- of a row which a live event or an item brought. The sequence starts with a process, before its
-- first snapshot or call.
pub run-Brought :
    (es : List Event) (s : EventBus)
    → s.backfill ≡ none
    → s.live_call ≡ none
    → s.snapshot_call ≡ none
    → ((run es s).cursor.last_seq ≡ none)
      ⊎ (((run es s).cursor.last_seq ≡ s.cursor.last_seq) ⊎ Brought (run es s).cursor.last_seq es)
unfolding Called Filled
run-Brought es s b l c =
    let P = λ (o : Option ℕ). (o ≡ none) ⊎ ((o ≡ s.cursor.last_seq) ⊎ Brought o es) in
    (run-Holds P (inl refl) es s
      (All-map (λ o. Brought o es) P es (λ o h. inr (inr h)) (each-Brought es))
      (record {
        at_cursor = inr (inl refl);
        at_backfill = subst (λ x. Filled P (inl refl) x) (sym b) tt;
        at_live = subst (λ x. Called P (inl refl) x) (sym l) tt;
        at_snapshot = subst (λ x. Called P (inl refl) x) (sym c) tt;
      })).at_cursor
