-- ===== src/Outbox/Methods.antt =====
-- The methods of src/gateway/outbox_sink.js as a whole: what each adds to the lines on disk.
use collectivus.Prelude.{
  ◌+◌, ◌≡◌, refl, subst, Bool, true, false, ◌||◌, Option, none, some, [], ◌∷◌, leb, if◌then◌else◌,
  Text, arith, Bool-cases, inl, inr,
}
use collectivus.Prelude.Maps.{lookup, IsMap-insert, IsMap-remove}
use collectivus.Outbox.{
  Line, Batch, batch_of, Options, Outbox, Line, restore, unique_path, ensure_open, write_line,
  ensure_path, rotate_open, append_line, close, claim_target, claim_name, claim_next, least,
  move_to_failed, recover,
}
use collectivus.Outbox.Paths.{unique_path-free}
use collectivus.Outbox.Files.{
  rows-insert, rows-remove, count, count, rows-move_to, rows-restore, IsMap-restore,
}
use collectivus.Outbox.Rows.{
  stored, IsSound, Adds, rotate_open-Adds, ensure_path-some, ensure_path-rows, ensure_path-HasMaps,
  write_line-rows, write_line-IsSound,
}

either {ℓ} :
    (P : Outbox → Type ℓ) (closed full : Bool) (a b : Outbox) {c : Outbox}
    → (if closed then none else if full then some a else some b) ≡ some c
    → P a
    → P b
    → P c
either P true full a b e pa pb = cc
either P false true a b {c} e pa pb = let q : a ≡ c = cc in subst P q pa
either P false false a b {c} e pa pb = let q : b ≡ c = cc in subst P q pb

-- A line that was accepted is on disk, once more than before.
pub append_line-Adds :
    (x line : Line) (o : Options) (stamp : Text) (s : Outbox) {s' : Outbox}
    → IsSound s
    → append_line o stamp line s ≡ some s'
    → Adds x (count x (line ∷ [])) s s'
unfolding append_line ensure_open
append_line-Adds x line o stamp s {s'} h e =
    let ready = ensure_path o stamp s.open_path s in
    let (base, opened) = ensure_path-some o stamp s.open_path s refl in
    let w = write_line line ready in
    let sound = write_line-IsSound line ready (ensure_path-HasMaps o stamp s.open_path s h) in
    let grown = write_line-rows x line ready base opened in
    let same = ensure_path-rows x o stamp s.open_path s in
    let turned = rotate_open-Adds x w sound in
    either (Adds x (count x (line ∷ [])) s) s.closed
      (leb o.max_rows w.open_rows || leb o.max_bytes w.open_bytes) (rotate_open w) w e
      (record { sound = turned.sound; lines = omega (arith, turned.lines, grown, same) })
      (record { sound = sound; lines = omega (arith, grown, same) })

-- Closing keeps every line.
pub close-Adds : (x : Line) (s : Outbox) → IsSound s → Adds x 0 s (close s)
unfolding close
close-Adds x s h = elim (Bool-cases s.closed) [
  | inl e ↦ simp e (record { sound = h; lines = omega arith })
  | inr e ↦
      let shut : IsSound (record s { closed = true }) = record {
        opened = h.opened;
        ready = h.ready;
        sending = h.sending;
        failed = h.failed;
        written = h.written;
      } in
      let done = rotate_open-Adds x (record s { closed = true }) shut in
      simp e (record { sound = done.sound; lines = done.lines })
]

claim_target-free :
    (o : Options) (s : Outbox) (name : Text)
    → o.exclusive ≡ true
    → lookup (claim_target o s.sending name) s.sending ≡ none
unfolding claim_target
claim_target-free o s name e = ground (arith, unique_path-free s.sending name)

-- The lines of the `.sending` batch that the rename of a claim replaces.
abbrev replaced : Options → Option Text → Outbox → Batch
replaced o none s = []
replaced o (some name) s = batch_of (lookup (claim_target o s.sending name) s.sending)

abbrev pub claim_replaces : Options → Outbox → Batch
claim_replaces o s = replaced o (least s.ready) s

replaced-exclusive :
    (o : Options) (name : Option Text) (s : Outbox) → o.exclusive ≡ true → replaced o name s ≡ []
replaced-exclusive o none s e = refl
replaced-exclusive o (some name) s e = rw (claim_target-free o s name e) refl

pub claim_replaces-exclusive :
    (o : Options) (s : Outbox) → o.exclusive ≡ true → claim_replaces o s ≡ []
claim_replaces-exclusive o s e = replaced-exclusive o (least s.ready) s e

-- A step that takes some lines off the disk.
pub record Drops (x : Line) (lines : Batch) (s s' : Outbox) : Type 0 where
  pub sound : IsSound s'
  pub even : stored x s' + count x lines ≡ stored x s

claim_name-Drops :
    (x : Line) (o : Options) (name : Option Text) (s : Outbox)
    → IsSound s
    → Drops x (replaced o name s) s (claim_name o name s).1
claim_name-Drops x o none s h = record { sound = h; even = omega arith }
claim_name-Drops x o (some name) s h =
    let to = claim_target o s.sending name in
    record {
      sound = record {
        opened = h.opened;
        ready = IsMap-remove name s.ready h.ready;
        sending = IsMap-insert to _ s.sending h.sending;
        failed = h.failed;
        written = h.written;
      };
      even = omega (
        arith,
        rows-insert x to (batch_of (lookup name s.ready)) s.sending,
        rows-remove x name s.ready h.ready,
      );
    }

pub claim_next-Drops :
    (x : Line) (o : Options) (s : Outbox)
    → IsSound s
    → Drops x (claim_replaces o s) s (claim_next o s).1
unfolding claim_next
claim_next-Drops x o s h = claim_name-Drops x o (least s.ready) s h

pub move_to_failed-Adds :
    (x : Line) (path : Text) (s : Outbox) → IsSound s → Adds x 0 s (move_to_failed path s)
unfolding move_to_failed
move_to_failed-Adds x path s h =
    let to = unique_path s.failed path in
    record {
      sound = record {
        opened = h.opened;
        ready = h.ready;
        sending = IsMap-remove path s.sending h.sending;
        failed = IsMap-insert to _ s.failed h.failed;
        written = h.written;
      };
      lines = omega (
        arith,
        rows-move_to x path to s.sending s.failed h.sending (unique_path-free s.failed path),
      );
    }

-- A restart makes every file ready again, and loses no line.
pub recover-Adds : (x : Line) (s : Outbox) → IsSound s → Adds x 0 s (recover s)
unfolding recover
recover-Adds x s h = record {
  sound = record {
    opened = tt;
    ready = IsMap-restore _ s.sending (IsMap-restore s.ready s.opened h.ready);
    sending = tt;
    failed = h.failed;
    written = λ n. absurd (n refl);
  };
  lines =
      omega (
        arith,
        rows-restore x s.ready s.opened,
        rows-restore x (restore s.ready s.opened) s.sending,
      );
}
