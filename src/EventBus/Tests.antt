-- ===== src/EventBus/Tests.antt =====
-- The theorems on src/gascity/event_bus.js at concrete inputs.
use collectivus.Prelude.{
  ◌⊎◌, ℕ, ◌+◌, ◌≤◌, ◌≡◌, refl, true, none, some, List, [], ◌∷◌, text, text_eq,
}
use collectivus.Prelude.Decimals.{digits}
use collectivus.EventBus.{
  EventRow, EventBus, Event, live, snapshot_item, snapshot_end, snapshot_reads, live_reads,
  live_ends, snapshot_ends, restarted, saved, event_row_key, append, next_cursor, restart, step,
  run,
}
use collectivus.EventBus.Cursor.{Brought, run-Brought}
use collectivus.EventBus.Rows.{count_key, run_once}

abbrev numbered : ℕ → EventRow
numbered n = record {
  event_scope = text "city";
  city = text "a";
  seq = some n;
  event_id = none;
  line = [];
}

-- A process with the number 5 in the file, before and at its start.
abbrev stopped : EventBus
stopped = record {
  writer = record { seen_keys = []; rows = [] };
  cursor = record { last_event_id = none; last_seq = some 5 };
  backfill = none;
  live_call = none;
  snapshot_call = none;
}

abbrev started : EventBus
started = restart true stopped

-- The end of the snapshot with the item 6 reads the cursor 5 before the live event 8 has written it,
-- and writes 6 after it: the cursor runs back.
abbrev events : List Event
events =
    snapshot_item true (some (numbered 6))
    ∷ live true (some (text "e8")) (some (numbered 8))
    ∷ snapshot_end
    ∷ snapshot_reads true
    ∷ live_reads true
    ∷ live_ends saved
    ∷ snapshot_ends saved
    ∷ []

end_of_run : run events started ≡ record {
  writer = record {
    seen_keys = text "city:a:seq:8" ∷ text "city:a:seq:6" ∷ [];
    rows = numbered 6 ∷ numbered 8 ∷ [];
  };
  cursor = record { last_event_id = none; last_seq = some 6 };
  backfill = none;
  live_call = none;
  snapshot_call = none;
}
unfolding run step append event_row_key next_cursor restart digits text_eq
end_of_run = refl

run_once_example :
    count_key (text "city:a:seq:8") (run events started).writer.rows
    ≤ count_key (text "city:a:seq:8") started.writer.rows + 1
unfolding restart
run_once_example =
    run_once events started (text "city:a:seq:8") (tt, (tt, (tt, (tt, (tt, (tt, (tt, tt))))))) refl

run-Brought_example :
    ((run (restarted true ∷ events) stopped).cursor.last_seq ≡ none)
    ⊎ (((run (restarted true ∷ events) stopped).cursor.last_seq ≡ stopped.cursor.last_seq)
        ⊎ Brought (run (restarted true ∷ events) stopped).cursor.last_seq (restarted true ∷ events))
run-Brought_example = run-Brought (restarted true ∷ events) stopped refl refl refl
