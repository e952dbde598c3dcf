-- ===== src/Outbox/Rows.antt =====
-- The lines on disk under the methods of src/gateway/outbox_sink.js, and a sound outbox.
use collectivus.Prelude.{
  ℕ, ◌+◌, ◌<◌, ◌≡◌, ◌≢◌, refl, false, Option, none, some, [], ◌∷◌, ◌++◌, ◌==◌, Text, arith,
}
use collectivus.Prelude.Maps.{Map, lookup, IsMap, IsMap-insert, IsMap-remove}
use collectivus.Outbox.{
  Options, Outbox, Line, Batch, batch_of, unique_path, append_to, write_line, open_batch,
  ensure_path, finish_batch, rotate_path, rotate_open,
}
use collectivus.Outbox.Paths.{unique_path-free}
use collectivus.Outbox.Files.{count, count-append, rows, rows-insert, rows-move_to, rows-touch}

-- A line of a given content, wherever it is on disk.
abbrev pub stored : Line → Outbox → ℕ
stored x s = rows x s.opened + rows x s.ready + rows x s.sending + rows x s.failed

-- The directories name no file twice, and the file that is open for writing is there and was
-- written to.
pub record IsSound (s : Outbox) : Type 0 where
  pub opened : IsMap s.opened
  pub ready : IsMap s.ready
  pub sending : IsMap s.sending
  pub failed : IsMap s.failed
  pub written : s.open_path ≢ none → 0 < s.open_rows

-- What a method does to the lines on disk.
pub record Adds (x : Line) (n : ℕ) (s s' : Outbox) : Type 0 where
  pub sound : IsSound s'
  pub lines : stored x s' ≡ stored x s + n

finish_batch-Adds :
    (x : Line) (path : Text) (s : Outbox)
    → IsSound s
    → 0 < s.open_rows
    → Adds x 0 s (finish_batch path s)
unfolding finish_batch
finish_batch-Adds x path s h pos =
    let to = unique_path s.ready path in
    let free = unique_path-free s.ready path in
    let full : (s.open_rows == 0) ≡ false = ground arith in
    rw full (record {
      sound = record {
        opened = IsMap-remove path s.opened h.opened;
        ready = IsMap-insert to (batch_of (lookup path s.opened)) s.ready h.ready;
        sending = h.sending;
        failed = h.failed;
        written = λ n. absurd (n refl);
      };
      lines = omega (arith, rows-move_to x path to s.opened s.ready h.opened free);
    })

rotate_path-Adds :
    (x : Line) (path : Option Text) (s : Outbox)
    → IsSound s
    → (path ≢ none → 0 < s.open_rows)
    → Adds x 0 s (rotate_path path s)
rotate_path-Adds x none s h open' = record {
  sound = record {
    opened = h.opened;
    ready = h.ready;
    sending = h.sending;
    failed = h.failed;
    written = h.written;
  };
  lines = omega arith;
}
rotate_path-Adds x (some path) s h open' = finish_batch-Adds x path s h (open' (λ e. cc))

-- Rotating the open file keeps every line and the outbox sound.
pub rotate_open-Adds : (x : Line) (s : Outbox) → IsSound s → Adds x 0 s (rotate_open s)
unfolding rotate_open
rotate_open-Adds x s h = rotate_path-Adds x s.open_path s h h.written

open_batch-rows : (x : Line) (base : Text) (s : Outbox) → stored x (open_batch base s) ≡ stored x s
unfolding open_batch
open_batch-rows x base s = omega (arith, rows-touch x base s.opened)

-- After `ensureOpen` a file is open.
pub ensure_path-some :
    (o : Options) (stamp : Text) (path : Option Text) (s : Outbox)
    → s.open_path ≡ path
    → (base : Text) × ((ensure_path o stamp path s).open_path ≡ some base)
unfolding open_batch
ensure_path-some o stamp none s e = (_, refl)
ensure_path-some o stamp (some path) s e = (path, e)

pub ensure_path-rows :
    (x : Line) (o : Options) (stamp : Text) (path : Option Text) (s : Outbox)
    → stored x (ensure_path o stamp path s) ≡ stored x s
ensure_path-rows x o stamp none s = open_batch-rows x _ s
ensure_path-rows x o stamp (some path) s = refl

pub record HasMaps (s : Outbox) : Type 0 where
  opened : IsMap s.opened
  ready : IsMap s.ready
  sending : IsMap s.sending
  failed : IsMap s.failed

pub ensure_path-HasMaps :
    (o : Options) (stamp : Text) (path : Option Text) (s : Outbox)
    → IsSound s
    → HasMaps (ensure_path o stamp path s)
unfolding open_batch
ensure_path-HasMaps o stamp none s h = record {
  opened = IsMap-insert _ _ s.opened h.opened;
  ready = h.ready;
  sending = h.sending;
  failed = h.failed;
}
ensure_path-HasMaps o stamp (some path) s h = record {
  opened = h.opened;
  ready = h.ready;
  sending = h.sending;
  failed = h.failed;
}

append_to-IsMap :
    (path : Option Text) (line : Line) (dir : Map Batch)
    → IsMap dir
    → IsMap (append_to path line dir)
append_to-IsMap none line dir h = h
append_to-IsMap (some path) line dir h = IsMap-insert path _ dir h

pub write_line-rows :
    (x line : Line) (s : Outbox) (base : Text)
    → s.open_path ≡ some base
    → stored x (write_line line s) ≡ stored x s + count x (line ∷ [])
unfolding write_line
write_line-rows x line s base e =
    let old = batch_of (lookup base s.opened) in
    rw e (
      omega (arith, rows-insert x base (old ++ line ∷ []) s.opened, count-append x old (line ∷ [])))

pub write_line-IsSound : (line : Line) (s : Outbox) → HasMaps s → IsSound (write_line line s)
unfolding write_line
write_line-IsSound line s h = record {
  opened = append_to-IsMap s.open_path line s.opened h.opened;
  ready = h.ready;
  sending = h.sending;
  failed = h.failed;
  written = λ n. omega arith;
}
