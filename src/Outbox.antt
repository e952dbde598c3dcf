-- ===== src/Outbox.antt =====
-- src/gateway/outbox_sink.js: the gateway's durable outbox. The signal directory is three maps from
-- a file's name without its extension to the file's lines, for `.open`, `.ndjson` and `.sending`;
-- `failed/` is a fourth. Each function is what its method does between two suspensions that another
-- method can observe; the world's answers (the clock's stamp, the process id, Central's responses)
-- are arguments.
pub mod Delivery
pub mod Paths
pub mod Files
pub mod Rows
pub mod Methods
pub mod Steps
pub mod Stranded
pub mod Tests
use collectivus.Prelude.{
  ℕ, zero, suc, ◌+◌, ◌-◌, ◌*◌, ◌/◌, min, Bool, true, false, ◌&&◌, ◌||◌, Option, none, some, List,
  [], ◌∷◌, ◌++◌, map, ltb, leb, if◌then◌else◌, length, Text, text, ◌==◌,
}
use collectivus.Prelude.Decimals.{digits}
use collectivus.Prelude.Maps.{Map, lookup, insert, remove}

-- A line of a batch, as the bytes that are written.
abbrev pub Line : Type 0
Line = List ℕ

abbrev pub Batch : Type 0
Batch = List Line

pub record Options : Type 0 where
  pub max_rows : ℕ
  pub max_bytes : ℕ
  pub pid : Text
  -- whether a rename onto an existing file is refused with EEXIST
  pub exclusive : Bool

pub record Outbox : Type 0 where
  pub opened : Map Batch
  pub ready : Map Batch
  pub sending : Map Batch
  pub failed : Map Batch
  pub open_path : Option Text
  pub open_rows : ℕ
  pub open_bytes : ℕ
  pub timer : Bool
  pub sequence : ℕ
  pub closed : Bool

-- The candidates of `uniquePath`: the name, then the name with a number before the extension.
unfoldable pub candidate : Text → ℕ → Text
candidate stem zero = stem
candidate stem (suc i) = stem ++ (text "." ++ digits (suc i))

abbrev pub has : Map Batch → Text → Bool
has dir name = elim (lookup name dir) [ none ↦ false | some _ ↦ true ]

unfoldable pub find_free : ℕ → Map Batch → Text → ℕ → Option Text
find_free zero dir stem i = none
find_free (suc fuel) dir stem i =
    let later = find_free fuel dir stem (suc i) in
    if has dir (candidate stem i) then later else some (candidate stem i)

abbrev pub name_or : Text → Option Text → Text
name_or stem none = stem
name_or stem (some name) = name

-- `uniquePath`. With one candidate more than there are files, one is free.
unfoldable pub unique_path : Map Batch → Text → Text
unique_path dir stem = name_or stem (find_free (suc (length dir)) dir stem 0)

abbrev pub batch_of : Option Batch → Batch
batch_of none = []
batch_of (some lines) = lines

-- `nextBatchBase`, whose stamp is the clock's
unfoldable pub next_batch_base : Options → Text → ℕ → Text
next_batch_base o stamp seq = stamp ++ text "-" ++ o.pid ++ text "-" ++ digits seq

-- `fs.open(path, 'a')` makes the file where there is none.
abbrev pub touch : Text → Map Batch → Map Batch
touch name dir = insert name (batch_of (lookup name dir)) dir

unfoldable pub open_batch : Text → Outbox → Outbox
open_batch base s = record s {
  opened = touch base s.opened;
  open_path = some base;
  open_rows = 0;
  open_bytes = 0;
  sequence = suc s.sequence;
}

abbrev pub ensure_path : Options → Text → Option Text → Outbox → Outbox
ensure_path o stamp none s = open_batch (next_batch_base o stamp s.sequence) s
ensure_path o stamp (some path) s = s

-- `ensureOpen`
unfoldable pub ensure_open : Options → Text → Outbox → Outbox
ensure_open o stamp s = ensure_path o stamp s.open_path s

abbrev pub append_to : Option Text → Line → Map Batch → Map Batch
append_to none line dir = dir
append_to (some path) line dir = insert path (batch_of (lookup path dir) ++ line ∷ []) dir

-- The write and the counters of `appendLine`, up to the test for rotation.
unfoldable pub write_line : Line → Outbox → Outbox
write_line line s = record s {
  opened = append_to s.open_path line s.opened;
  open_rows = s.open_rows + 1;
  open_bytes = s.open_bytes + length line;
  timer = s.timer || (s.open_rows + 1 == 1);
}

-- A rename that takes the file out of one directory and puts it under a free name of another.
abbrev pub move_to : Text → Text → Map Batch → Map Batch → Map Batch × Map Batch
move_to from to source target =
    (remove from source, insert to (batch_of (lookup from source)) target)

abbrev pub close_batch : Outbox → Outbox
close_batch s = record s { open_path = none; open_rows = 0; open_bytes = 0; timer = false }

-- An empty file is unlinked, any other becomes ready.
unfoldable pub finish_batch : Text → Outbox → Outbox
finish_batch path s =
    if s.open_rows == 0
    then record (close_batch s) { opened = remove path s.opened }
    else let (opened, ready) = move_to path (unique_path s.ready path) s.opened s.ready in
      record (close_batch s) { opened = opened; ready = ready }

abbrev pub rotate_path : Option Text → Outbox → Outbox
rotate_path none s = record s { timer = false }
rotate_path (some path) s = finish_batch path s

-- `rotateOpen`
unfoldable pub rotate_open : Outbox → Outbox
rotate_open s = rotate_path s.open_path s

-- `appendLine`; `none` is the error for a sink that was closed.
unfoldable pub append_line : Options → Text → Line → Outbox → Option Outbox
append_line o stamp line s =
    if s.closed
    then none
    else let s' = write_line line (ensure_open o stamp s) in
      if leb o.max_rows s'.open_rows || leb o.max_bytes s'.open_bytes
      then some (rotate_open s')
      else some s'

-- `close`
unfoldable pub close : Outbox → Outbox
close s = if s.closed then s else rotate_open (record s { closed = true })

-- `<` on strings, as `sort` compares them
unfoldable pub text_lt : Text → Text → Bool
text_lt [] [] = false
text_lt [] (b ∷ t) = true
text_lt (a ∷ s) [] = false
text_lt (a ∷ s) (b ∷ t) =
    let rest = text_lt s t in if ltb a b then true else if ltb b a then false else rest

abbrev pub ready_name : Text → Text
ready_name stem = stem ++ text ".ndjson"

-- The first of the sorted names.
unfoldable pub least : Map Batch → Option Text
least [] = none
least ((name, lines) ∷ dir) = elim (least dir) [
  | none ↦ some name
  | some other ↦ if text_lt (ready_name other) (ready_name name) then some other else some name
]

-- The name under which `claimNextReadyFile` renames a ready file.
unfoldable pub claim_target : Options → Map Batch → Text → Text
claim_target o sending name =
    if o.exclusive && has sending name then unique_path sending name else name

abbrev pub claim_name : Options → Option Text → Outbox → Option Text × Outbox
claim_name o none s = (none, s)
claim_name o (some name) s =
    let to = claim_target o s.sending name in
    let (ready, sending) = move_to name to s.ready s.sending in
    (some to, record s { ready = ready; sending = sending })

-- `claimNextReadyFile`: the file that is now `.sending`, if any was ready.
unfoldable pub claim_next : Options → Outbox → Option Text × Outbox
claim_next o s = claim_name o (least s.ready) s

-- `moveToFailed`
unfoldable pub move_to_failed : Text → Outbox → Outbox
move_to_failed path s =
    let (sending, failed) = move_to path (unique_path s.failed path) s.sending s.failed in
    record s { sending = sending; failed = failed }

-- One file of `recover`, from `.open` or from `.sending`.
abbrev pub restore : Map Batch → List (Text × Batch) → Map Batch
restore ready [] = ready
restore ready ((name, lines) ∷ files) = restore (insert (unique_path ready name) lines ready) files

-- A new process: nothing is open, and `recover` makes all files ready again.
unfoldable pub recover : Outbox → Outbox
recover s = record s {
  opened = [];
  ready = restore (restore s.ready s.opened) s.sending;
  sending = [];
  open_path = none;
  open_rows = 0;
  open_bytes = 0;
  timer = false;
  sequence = 0;
  closed = false;
}
