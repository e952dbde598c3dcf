-- ===== src/Outbox/Files.antt =====
-- What the file operations of src/gateway/outbox_sink.js keep of the lines on disk.
use collectivus.Prelude.{
  ℕ, ◌+◌, ◌≡◌, refl, none, [], ◌∷◌, ◌++◌, if◌then◌else◌, Text, text_eq, arith, Option-cases, inl,
  inr,
}
use collectivus.Prelude.Maps.{
  Map, lookup, insert, remove, IsMap, IsMap-insert, total, total-insert_new, total-insert_old,
  total-remove,
}
use collectivus.Outbox.{Line, Batch, batch_of, touch, move_to, restore, unique_path}
use collectivus.Outbox.Paths.{unique_path-free}

-- How often a line stands in a batch.
abbrev pub count : Line → Batch → ℕ
count x [] = 0
count x (l ∷ ls) = (if text_eq l x then 1 else 0) + count x ls

pub count-append : (x : Line) (ls ms : Batch) → count x (ls ++ ms) ≡ count x ls + count x ms
count-append x [] ms = omega arith
count-append x (l ∷ ls) ms = omega (arith, count-append x ls ms)

-- The lines in a directory that are a given one.
abbrev pub rows : Line → Map Batch → ℕ
rows x dir = total (count x) dir

-- Writing over a name exchanges the lines that were there.
pub rows-insert :
    (x : Line) (name : Text) (lines : Batch) (dir : Map Batch)
    → rows x (insert name lines dir) + count x (batch_of (lookup name dir))
      ≡ rows x dir + count x lines
rows-insert x name lines dir = elim (Option-cases (lookup name dir)) [
  | inl e ↦ rw e (omega (arith, total-insert_new (count x) name lines dir e))
  | inr (old, e) ↦ rw e (total-insert_old (count x) name lines old dir e)
]

remove_absent-rows :
    (x : Line) (name : Text) (dir : Map Batch)
    → lookup name dir ≡ none
    → rows x (remove name dir) ≡ rows x dir
unfolding lookup remove
remove_absent-rows x name [] h = refl
remove_absent-rows x name ((j, w) ∷ dir) h = ground (arith, remove_absent-rows x name dir)

pub rows-remove :
    (x : Line) (name : Text) (dir : Map Batch)
    → IsMap dir
    → rows x (remove name dir) + count x (batch_of (lookup name dir)) ≡ rows x dir
rows-remove x name dir h = elim (Option-cases (lookup name dir)) [
  | inl e ↦ rw e (omega (arith, remove_absent-rows x name dir e))
  | inr (old, e) ↦ rw e (total-remove (count x) name old dir h e)
]

-- A rename to a free name loses no line and doubles none.
pub rows-move_to :
    (x : Line) (from to : Text) (source target : Map Batch)
    → IsMap source
    → lookup to target ≡ none
    → rows x (move_to from to source target).0 + rows x (move_to from to source target).1
      ≡ rows x source + rows x target
rows-move_to x from to source target h free =
    let put = rows-insert x to (batch_of (lookup from source)) target in
    let empty : count x (batch_of (lookup to target)) ≡ 0 = rw free in
    omega (arith, put, rows-remove x from source h, empty)

pub rows-touch : (x : Line) (name : Text) (dir : Map Batch) → rows x (touch name dir) ≡ rows x dir
rows-touch x name dir = omega (arith, rows-insert x name (batch_of (lookup name dir)) dir)

pub rows-restore :
    (x : Line) (ready files : Map Batch)
    → rows x (restore ready files) ≡ rows x ready + rows x files
rows-restore x ready [] = omega arith
rows-restore x ready ((name, lines) ∷ files) =
    let to = unique_path ready name in
    let put = rows-insert x to lines ready in
    let empty : count x (batch_of (lookup to ready)) ≡ 0 = rw (unique_path-free ready name) in
    omega (arith, rows-restore x (insert to lines ready) files, put, empty)

pub IsMap-restore : (ready files : Map Batch) → IsMap ready → IsMap (restore ready files)
IsMap-restore ready [] h = h
IsMap-restore ready ((name, lines) ∷ files) h =
    IsMap-restore (insert (unique_path ready name) lines ready) files
      (IsMap-insert (unique_path ready name) lines ready h)
