-- ===== src/Ingest/Places.antt =====
-- The rows and the paths of src/server/ingest.js name their gateway.
use collectivus.Prelude.{
  ℕ, ◌-◌, length, suc, ◌≡◌, refl, sym, ap, ◌∙◌, subst, Bool, true, false, Option, none, some, List,
  [], ◌∷◌, ◌++◌, ◌==◌, drop, All, All-append, append_cancel_left, Text, text, text_eq, text_eq_iff,
  arith, inl, inr, if_cases, Bool-cases,
}
use collectivus.Prelude.Maps.{Map, lookup, insert}
use collectivus.Enrollment.{is_id_char, all_id_chars, matches_pattern}
use collectivus.Json.{Json, object, Fields, no_fields, field, field_of}
use collectivus.Ingest.{
  IngestOptions, Formats, Write, Ingest, put_field, tag_json, join_path, Tagged, tag_value,
  tag_next, tag_rows, queue_rows, store_tagged, lines_in, put_back, pick, settle_picked, settle,
  append_lines, WriteEnd, done, lost, failed_after, spend, compute_batch_bytes,
}

-- The row is the text of an object whose tag names the gateway.
pub record IsOwn (f : Formats) (gateway row : Text) : Type 0 where
  pub fields : Fields
  pub at : Text
  pub written : row ≡ f.stringify (object fields)
  pub tag : field_of (text "_ingest") fields ≡ some (tag_json gateway at)

field_of-put_field : (k : Text) (v : Json) (fs : Fields) → field_of k (put_field k v fs) ≡ some v
unfolding field_of put_field
field_of-put_field k v no_fields = ground (arith, text_eq_iff k k)
field_of-put_field k v (field j w fs) = ground (arith, text_eq_iff j k, field_of-put_field k v fs)

module _ (f : Formats) where
  tag_next-IsOwn :
      (gateway at : Text) (n : ℕ) (v : Option Json) (rest : Tagged)
      → All (IsOwn f gateway) rest.rows
      → All (IsOwn f gateway) (tag_next f n (tag_value f gateway at v) rest).rows
  tag_next-IsOwn gateway at n (some (object fs)) rest h = (
    record {
      fields = put_field (text "_ingest") (tag_json gateway at) fs;
      at = at;
      written = refl;
      tag = field_of-put_field (text "_ingest") (tag_json gateway at) fs;
    },
    h,
  )
  tag_next-IsOwn gateway at n (some v) rest h = tt
  tag_next-IsOwn gateway at n none rest h = tt

  pub tag_rows-IsOwn :
      (gateway at : Text) (n : ℕ) (lines : List Text)
      → All (IsOwn f gateway) (tag_rows f gateway at n lines).rows
  unfolding tag_rows
  tag_rows-IsOwn gateway at n [] = tt
  tag_rows-IsOwn gateway at n ([] ∷ lines) = tag_rows-IsOwn gateway at (suc n) lines
  tag_rows-IsOwn gateway at n ((c ∷ line) ∷ lines) =
      tag_next-IsOwn gateway at n (f.parse (c ∷ line)) _ (tag_rows-IsOwn gateway at (suc n) lines)

-- A valid id has no slash, so a path under the sink names its gateway.
matches_pattern-slash : (c : ℕ) → is_id_char c ≡ true → (c == b'/') ≡ false
matches_pattern-slash c h = ground arith

id_prefix :
    (a b r s : Text)
    → all_id_chars a ≡ true
    → all_id_chars b ≡ true
    → join_path a r ≡ join_path b s
    → a ≡ b
unfolding all_id_chars
id_prefix [] [] r s h k e = refl
id_prefix [] (d ∷ b) r s h k e = ground arith
id_prefix (c ∷ a) [] r s h k e = ground arith
id_prefix (c ∷ a) (d ∷ b) r s h k e =
    ground (arith, id_prefix a b r s (ground arith) (ground arith) (ap (drop 1) e))

matches_pattern-all_id_chars : (a : Text) → matches_pattern a ≡ true → all_id_chars a ≡ true
unfolding matches_pattern all_id_chars
matches_pattern-all_id_chars [] h = refl
matches_pattern-all_id_chars (c ∷ a) h = ground arith

-- The lines of a path under the sink are those of the gateway that the path names.
pub record IsPlaced (f : Formats) (dir path : Text) (lines : List Text) : Type 0 where
  pub gateway : Text
  pub below : Text
  pub valid : matches_pattern gateway ≡ true
  pub place : path ≡ join_path dir (join_path gateway below)
  pub own : All (IsOwn f gateway) lines

pub same_gateway :
    (f : Formats) (dir path gateway below : Text) (lines : List Text)
    (p : IsPlaced f dir path lines)
    → matches_pattern gateway ≡ true
    → path ≡ join_path dir (join_path gateway below)
    → p.gateway ≡ gateway
same_gateway f dir path gateway below lines p v e =
    id_prefix p.gateway gateway p.below below (matches_pattern-all_id_chars p.gateway p.valid)
      (matches_pattern-all_id_chars gateway v)
      (ap (drop 1) (append_cancel_left dir _ _ (sym p.place ∙ e)))

IsPlaced-append :
    (f : Formats) (dir path : Text) (old new : List Text)
    → IsPlaced f dir path old
    → IsPlaced f dir path new
    → IsPlaced f dir path (old ++ new)
IsPlaced-append f dir path old new p q = record {
  gateway = q.gateway;
  below = q.below;
  valid = q.valid;
  place = q.place;
  own =
      All-append (IsOwn f q.gateway) old new
        (subst (λ g. All (IsOwn f g) old)
          (same_gateway f dir path q.gateway q.below old p q.valid q.place) p.own)
        q.own;
}

module _ (f : Formats) (o : IngestOptions) where
  abbrev pub PlacedFile : Text × List Text → Type 0
  PlacedFile (path, lines) = IsPlaced f o.sink_dir path lines

  abbrev pub PlacedWrite : Write → Type 0
  PlacedWrite w = IsPlaced f o.sink_dir w.file w.lines

  pub lookup-PlacedFile :
      (path : Text) (m : Map (List Text))
      → All PlacedFile m
      → (lines : List Text) → lookup path m ≡ some lines
      → IsPlaced f o.sink_dir path lines
  unfolding lookup
  lookup-PlacedFile path [] h lines e = cc
  lookup-PlacedFile path ((p, ls) ∷ m) (hp, h) lines e = elim (Bool-cases (text_eq p path)) [
    | inl k ↦
        subst (λ q. IsPlaced f o.sink_dir q lines) ((text_eq_iff p path).0 k)
          (subst (λ l. IsPlaced f o.sink_dir p l) (ground arith) hp)
    | inr k ↦ lookup-PlacedFile path m h lines (ground arith)
  ]

  insert-PlacedFile :
      (path : Text) (lines : List Text) (m : Map (List Text))
      → IsPlaced f o.sink_dir path lines
      → All PlacedFile m
      → All PlacedFile (insert path lines m)
  unfolding insert
  insert-PlacedFile path lines [] p h = (p, tt)
  insert-PlacedFile path lines ((q, ls) ∷ m) p (hq, h) =
      if_cases (All PlacedFile) (text_eq q path) _ _ (λ e. (p, h))
        λ e. (hq, insert-PlacedFile path lines m p h)

  -- Every file, and every batch that waits for its file, is the gateway's whose path it is.
  pub record IsAttributed (s : Ingest) : Type 0 where
    pub writes_placed : All PlacedWrite s.writes
    pub files_placed : All PlacedFile s.files

  lines_in-IsPlaced :
      (path : Text) (old : Option (List Text)) (new : List Text)
      → ((lines : List Text) → old ≡ some lines → IsPlaced f o.sink_dir path lines)
      → IsPlaced f o.sink_dir path new
      → IsPlaced f o.sink_dir path (lines_in old ++ new)
  lines_in-IsPlaced path none new h p = p
  lines_in-IsPlaced path (some old) new h p =
      IsPlaced-append f o.sink_dir path old new (h old refl) p

  abbrev PickedPlaced : Option (Write × List Write) → Type 0
  PickedPlaced none = Unit
  PickedPlaced (some (w, writes)) = PlacedWrite w × All PlacedWrite writes

  put_back-PickedPlaced :
      (w : Write) (p : Option (Write × List Write))
      → PlacedWrite w
      → PickedPlaced p
      → PickedPlaced (put_back w p)
  put_back-PickedPlaced w none h k = tt
  put_back-PickedPlaced w (some (v, rest)) h k = (k.0, (h, k.1))

  pick-PickedPlaced :
      (file : Text) (writes : List Write) → All PlacedWrite writes → PickedPlaced (pick file writes)
  unfolding pick
  pick-PickedPlaced file [] h = tt
  pick-PickedPlaced file (w ∷ writes) (hw, h) =
      if_cases PickedPlaced (text_eq w.file file) _ _ (λ e. (hw, h))
        λ e. put_back-PickedPlaced w (pick file writes) hw (pick-PickedPlaced file writes h)

  abbrev without : Write → List Write → Ingest → Ingest
  without w writes s = record s { pending_rows = s.pending_rows - length w.lines; writes = writes }

  append_lines-IsAttributed :
      (w : Write) (s : Ingest) → PlacedWrite w → IsAttributed s → IsAttributed (append_lines w s)
  append_lines-IsAttributed w s hw a = record {
    writes_placed = a.writes_placed;
    files_placed =
        insert-PlacedFile w.file _ s.files
          (lines_in-IsPlaced w.file (lookup w.file s.files) w.lines
            (lookup-PlacedFile w.file s.files a.files_placed) hw)
          a.files_placed;
  }

  settle_picked-IsAttributed :
      (end : WriteEnd) (p : Option (Write × List Write)) (s : Ingest)
      → PickedPlaced p
      → IsAttributed s
      → IsAttributed (settle_picked end p s).1
  settle_picked-IsAttributed end none s h a = a
  settle_picked-IsAttributed lost (some (w, writes)) s (hw, h) a = record {
    writes_placed = h;
    files_placed = a.files_placed;
  }
  settle_picked-IsAttributed done (some (w, writes)) s (hw, h) a =
      append_lines-IsAttributed w (without w writes s) hw
        (record { writes_placed = h; files_placed = a.files_placed })
  settle_picked-IsAttributed failed_after (some (w, writes)) s (hw, h) a =
      append_lines-IsAttributed w (without w writes s) hw
        (record { writes_placed = h; files_placed = a.files_placed })

  pub settle-IsAttributed :
      (end : WriteEnd) (file : Text) (s : Ingest)
      → IsAttributed s
      → IsAttributed (settle end file s).1
  unfolding settle
  settle-IsAttributed end file s a =
      settle_picked-IsAttributed end (pick file s.writes) s
        (pick-PickedPlaced file s.writes a.writes_placed) a

  queue_rows-IsAttributed :
      (gateway signal : Text) (now : ℕ) (t : Tagged) (rows : List Text) (paid : Bool) (s : Ingest)
      → matches_pattern gateway ≡ true
      → All (IsOwn f gateway) rows
      → IsAttributed s
      → IsAttributed (queue_rows f o gateway signal now t rows paid s).1
  queue_rows-IsAttributed gateway signal now t rows false s v h a = record {
    writes_placed = a.writes_placed;
    files_placed = a.files_placed;
  }
  queue_rows-IsAttributed gateway signal now t rows true s v h a = record {
    writes_placed =
        All-append PlacedWrite s.writes _ a.writes_placed
          (record { gateway = gateway; below = _; valid = v; place = refl; own = h }, tt);
    files_placed = a.files_placed;
  }

  pub store_tagged-IsAttributed :
      (gateway signal : Text) (now : ℕ) (t : Tagged) (rows : List Text) (s : Ingest)
      → matches_pattern gateway ≡ true
      → All (IsOwn f gateway) rows
      → IsAttributed s
      → IsAttributed (store_tagged f o gateway signal now t rows s).1
  store_tagged-IsAttributed gateway signal now t [] s v h a = a
  store_tagged-IsAttributed gateway signal now t (row ∷ rows) s v h a =
      let spent = spend now (compute_batch_bytes (row ∷ rows)) s.byte_budget in
      queue_rows-IsAttributed gateway signal now t (row ∷ rows) spent.0
        (record s { byte_budget = spent.1 }) v h
        (record { writes_placed = a.writes_placed; files_placed = a.files_placed })
