-- ===== src/Outbox/Steps.antt =====
-- The life of the outbox of src/gateway/outbox_sink.js as steps of its methods and of the world,
-- restarts included.
use collectivus.Prelude.{
  ◌+◌, ◌≡◌, ◌⊎◌, inl, inr, Bool-cases, refl, false, none, some, [], ◌∷◌, ◌++◌, Text, arith,
}
use collectivus.Prelude.Maps.{lookup, IsMap-remove}
use collectivus.Outbox.{
  Options, Outbox, Line, Batch, batch_of, append_line, rotate_open, close, claim_next, recover,
}
use collectivus.Outbox.Delivery.{settle, delivered, poisoned}
use collectivus.Outbox.Files.{count, count-append, rows-remove}
use collectivus.Outbox.Rows.{stored, IsSound, rotate_open-Adds}
use collectivus.Outbox.Methods.{
  append_line-Adds, close-Adds, claim_replaces, claim_replaces-exclusive, claim_next-Drops,
  move_to_failed-Adds, recover-Adds,
}

-- The outbox with its past: the lines that `writeRow` accepted, those that Central took, those
-- that Central took without the file being unlinked (a lost answer, a crash), which it will be sent
-- again, and those whose batch a claim replaced with another one of the same name.
pub record World : Type 0 where
  pub outbox : Outbox
  pub written : Batch
  pub taken : Batch
  pub again : Batch
  pub lost : Batch

pub data Step (o : Options) : World → World → Type 0 where
  write :
      (w : World) (stamp : Text) (line : Line) (s : Outbox)
      → append_line o stamp line w.outbox ≡ some s
      → Step o w (record w { outbox = s; written = w.written ++ line ∷ [] })
  rotate : (w : World) → Step o w (record w { outbox = rotate_open w.outbox })
  shut : (w : World) → Step o w (record w { outbox = close w.outbox })
  claim :
      (w : World)
      → Step o w (record w {
        outbox = (claim_next o w.outbox).1;
        lost = w.lost ++ claim_replaces o w.outbox;
      })
  accept :
      (w : World) (path : Text)
      → Step o w (record w {
        outbox = settle delivered path w.outbox;
        taken = w.taken ++ batch_of (lookup path w.outbox.sending);
      })
  lose_answer :
      (w : World) (path : Text)
      → Step o w (record w {
        taken = w.taken ++ batch_of (lookup path w.outbox.sending);
        again = w.again ++ batch_of (lookup path w.outbox.sending);
      })
  reject :
      (w : World) (path : Text) → Step o w (record w { outbox = settle poisoned path w.outbox })
  restart : (w : World) → Step o w (record w { outbox = recover w.outbox })

pub data Reach (o : Options) (start : World) : World → Type 0 where
  here : Reach o start start
  next : {v w : World} → Reach o start v → Step o v w → Reach o start w

-- For one line: as often as it was written, or is to be sent again, it is on disk, was taken or was
-- replaced, the last only where a rename may replace a file.
record Balance (o : Options) (x : Line) (w : World) : Type 0 where
  sound : IsSound w.outbox
  even : count x w.written + count x w.again ≡ stored x w.outbox + count x w.taken + count x w.lost
  kept : (o.exclusive ≡ false) ⊎ (w.lost ≡ [])

lost-exclusive :
    (o : Options) (s : Outbox) (lines : Batch)
    → (o.exclusive ≡ false) ⊎ (lines ≡ [])
    → (o.exclusive ≡ false) ⊎ (lines ++ claim_replaces o s ≡ [])
lost-exclusive o s lines (inl e) = inl e
lost-exclusive o s lines (inr e) = elim (Bool-cases o.exclusive) [
  | inl only ↦ inr (rw (e, claim_replaces-exclusive o s only) refl)
  | inr free ↦ inl free
]

Step-Balance : {o : Options} {v w : World} (x : Line) → Step o v w → Balance o x v → Balance o x w
Step-Balance {o} x (write w stamp line s e) b =
    let a = append_line-Adds x line o stamp w.outbox b.sound e in
    record {
      sound = a.sound;
      even = omega (arith, a.lines, b.even, count-append x w.written (line ∷ []));
      kept = b.kept;
    }
Step-Balance x (rotate w) b =
    let a = rotate_open-Adds x w.outbox b.sound in
    record { sound = a.sound; even = omega (arith, a.lines, b.even); kept = b.kept }
Step-Balance x (shut w) b =
    let a = close-Adds x w.outbox b.sound in
    record { sound = a.sound; even = omega (arith, a.lines, b.even); kept = b.kept }
Step-Balance {o} x (claim w) b =
    let a = claim_next-Drops x o w.outbox b.sound in
    record {
      sound = a.sound;
      even = omega (arith, a.even, b.even, count-append x w.lost (claim_replaces o w.outbox));
      kept = lost-exclusive o w.outbox w.lost b.kept;
    }
Step-Balance x (accept w path) b =
    let gone = rows-remove x path w.outbox.sending b.sound.sending in
    record {
      sound = record {
        opened = b.sound.opened;
        ready = b.sound.ready;
        sending = IsMap-remove path w.outbox.sending b.sound.sending;
        failed = b.sound.failed;
        written = b.sound.written;
      };
      even =
          omega
            (arith, gone, b.even, count-append x w.taken (batch_of (lookup path w.outbox.sending)));
      kept = b.kept;
    }
Step-Balance x (lose_answer w path) b = record {
  sound = b.sound;
  even = omega (
    arith,
    b.even,
    count-append x w.taken (batch_of (lookup path w.outbox.sending)),
    count-append x w.again (batch_of (lookup path w.outbox.sending)),
  );
  kept = b.kept;
}
Step-Balance x (reject w path) b =
    let a = move_to_failed-Adds x path w.outbox b.sound in
    record { sound = a.sound; even = omega (arith, a.lines, b.even); kept = b.kept }
Step-Balance x (restart w) b =
    let a = recover-Adds x w.outbox b.sound in
    record { sound = a.sound; even = omega (arith, a.lines, b.even); kept = b.kept }

Reach-Balance : {o : Options} {v w : World} (x : Line) → Reach o v w → Balance o x v → Balance o x w
Reach-Balance x here b = b
Reach-Balance x (next r st) b = Step-Balance x st (Reach-Balance x r b)

abbrev pub empty : Outbox
empty = record {
  opened = [];
  ready = [];
  sending = [];
  failed = [];
  open_path = none;
  open_rows = 0;
  open_bytes = 0;
  timer = false;
  sequence = 0;
  closed = false;
}

abbrev pub start : World
start = record { outbox = empty; written = []; taken = []; again = []; lost = [] }

start-Balance : (o : Options) (x : Line) → Balance o x start
start-Balance o x = record {
  sound = record {
    opened = tt;
    ready = tt;
    sending = tt;
    failed = tt;
    written = λ n. absurd (n refl);
  };
  even = refl;
  kept = inr refl;
}

-- In every world reached from an empty outbox by writes, rotations, claims, answers, lost answers,
-- rejections, closings and restarts, in any order, a line is on disk, with Central or in a batch that
-- was replaced as often as it was written, plus as often as Central took it without the outbox
-- learning of that. A batch is replaced only by a claim that renames another one onto its name, and
-- none is where the platform refuses such a rename.
pub stored-balance :
    {o : Options} {w : World} (x : Line)
    → Reach o start w
    → (count x w.written + count x w.again ≡ stored x w.outbox + count x w.taken + count x w.lost)
      × ((o.exclusive ≡ false) ⊎ (w.lost ≡ []))
stored-balance {o} x r = let b = Reach-Balance x r (start-Balance o x) in (b.even, b.kept)
