-- ===== src/Sse/Block.antt =====
-- What src/sse.js makes of one event block, against the lines that the block is written from.
use collectivus.Prelude.{
  ◌≡◌, ◌≢◌, refl, sym, ap, ◌∙◌, true, Option, none, some, List, [], ◌∷◌, ◌++◌, append_assoc,
  append-nil, All, All-append, Text, text, text_eq, arith,
}
use collectivus.Sse.{
  lf, cr, SseEvent, starts_with, index_of, split_lines, Fields, no_fields, join_data, set_field,
  parse_line, parse_lines, parse_block, dispatch,
}

-- No line terminator in it.
abbrev pub IsPlain : Text → Type 0
IsPlain s = All (λ c. (c ≢ lf) × (c ≢ cr)) s

-- Lines joined by LF.
abbrev pub join_lines : List Text → Text
join_lines [] = []
join_lines (l ∷ []) = l
join_lines (l ∷ m ∷ ls) = l ++ lf ∷ join_lines (m ∷ ls)

-- Lines joined by CR LF.
abbrev pub join_crlf : List Text → Text
join_crlf [] = []
join_crlf (l ∷ []) = l
join_crlf (l ∷ m ∷ ls) = l ++ cr ∷ lf ∷ join_crlf (m ∷ ls)

split_lines-plain :
    (cur l rest : Text) → IsPlain l → split_lines cur (l ++ rest) ≡ split_lines (cur ++ l) rest
unfolding split_lines
split_lines-plain cur [] rest h = rw (append-nil cur)
split_lines-plain cur (c ∷ l) rest (k, h) =
    ground (arith, split_lines-plain (cur ++ c ∷ []) l rest h, append_assoc cur (c ∷ []) l)

split_lines-lf : (cur rest : Text) → split_lines cur (lf ∷ rest) ≡ cur ∷ split_lines [] rest
unfolding split_lines
split_lines-lf cur rest = refl

split_lines-crlf : (cur rest : Text) → split_lines cur (cr ∷ lf ∷ rest) ≡ cur ∷ split_lines [] rest
unfolding split_lines starts_with
split_lines-crlf cur [] = refl
split_lines-crlf cur (c ∷ rest) = refl

split_lines-last : (l : Text) → IsPlain l → split_lines [] l ≡ l ∷ []
unfolding split_lines
split_lines-last l h = ap (split_lines []) (sym (append-nil l)) ∙ split_lines-plain [] l [] h

-- The lines of a block come back, whichever of LF and CR LF separates them.
pub split_lines-join_lines :
    (l : Text) (ls : List Text)
    → All IsPlain (l ∷ ls)
    → (split_lines [] (join_lines (l ∷ ls)) ≡ l ∷ ls)
      × (split_lines [] (join_crlf (l ∷ ls)) ≡ l ∷ ls)
split_lines-join_lines l [] h = (split_lines-last l h.0, split_lines-last l h.0)
split_lines-join_lines l (m ∷ ls) (h, hs) =
    let (unix, dos) = split_lines-join_lines m ls hs in
    (
      split_lines-plain [] l (lf ∷ join_lines (m ∷ ls)) h
          ∙ split_lines-lf l (join_lines (m ∷ ls))
          ∙ ap (λ (r : List Text). l ∷ r) unix,
      split_lines-plain [] l (cr ∷ lf ∷ join_crlf (m ∷ ls)) h
          ∙ split_lines-crlf l (join_crlf (m ∷ ls))
          ∙ ap (λ (r : List Text). l ∷ r) dos,
    )

-- The data lines as the parser keeps them: empty ones before the first that is not are lost, and
-- the others are joined by LF.
abbrev pub join_all : Text → List Text → Text
join_all acc [] = acc
join_all acc (v ∷ vs) = join_all (join_data acc v) vs

-- The lines of an event with the fields `event`, `data` (any number) and `id`.
abbrev pub data_lines : List Text → List Text → List Text
data_lines [] rest = rest
data_lines (v ∷ vs) rest = (text "data: " ++ v) ∷ data_lines vs rest

pub record Message : Type 0 where
  pub event : Text
  pub payload : List Text
  pub id : Text

abbrev pub message_lines : Message → List Text
message_lines m = (text "event: " ++ m.event) ∷ data_lines m.payload ((text "id: " ++ m.id) ∷ [])

abbrev pub event_of : Message → SseEvent
event_of m = record { event = m.event; payload = join_all [] m.payload; id = some m.id }

pub record IsPlainMessage (m : Message) : Type 0 where
  pub event : IsPlain m.event
  pub payload : All IsPlain m.payload
  pub id : IsPlain m.id

parse_line-data :
    (f : Fields) (v : Text)
    → parse_line f (text "data: " ++ v)
      ≡ record f { payload = join_data f.payload v; has_field = true }
unfolding parse_line index_of starts_with set_field text_eq
parse_line-data f v = refl

parse_line-event :
    (f : Fields) (v : Text)
    → parse_line f (text "event: " ++ v) ≡ record f { event = v; has_field = true }
unfolding parse_line index_of starts_with set_field text_eq
parse_line-event f v = refl

parse_line-id :
    (f : Fields) (v : Text)
    → parse_line f (text "id: " ++ v) ≡ record f { id = some v; has_field = true }
unfolding parse_line index_of starts_with set_field text_eq
parse_line-id f v = refl

abbrev seen : Text → Text → Option Text → Fields
seen e p i = record { event = e; payload = p; id = i; has_field = true }

parse_lines-data :
    (e p : Text) (i : Option Text) (vs rest : List Text)
    → parse_lines (seen e p i) (data_lines vs rest) ≡ parse_lines (seen e (join_all p vs) i) rest
unfolding parse_lines
parse_lines-data e p i [] rest = refl
parse_lines-data e p i (v ∷ vs) rest =
    ap (λ (g : Fields). parse_lines g (data_lines vs rest)) (parse_line-data (seen e p i) v)
    ∙ parse_lines-data e (join_data p v) i vs rest

parse_lines-message :
    (m : Message) → dispatch (parse_lines no_fields (message_lines m)) ≡ some (event_of m)
unfolding parse_lines
parse_lines-message m =
    let last = (text "id: " ++ m.id) ∷ [] in
    ap (λ (g : Fields). dispatch (parse_lines g (data_lines m.payload last)))
      (parse_line-event no_fields m.event)
    ∙ ap dispatch (parse_lines-data m.event [] none m.payload last)
    ∙ ap dispatch (parse_line-id (seen m.event (join_all [] m.payload) none) m.id)

IsPlain-prefix : (p : Text) (s : Text) → IsPlain p → IsPlain s → IsPlain (p ++ s)
IsPlain-prefix p s = All-append (λ c. (c ≢ lf) × (c ≢ cr)) p s

data_lines-IsPlain :
    (vs rest : List Text) → All IsPlain vs → All IsPlain rest → All IsPlain (data_lines vs rest)
data_lines-IsPlain [] rest h k = k
data_lines-IsPlain (v ∷ vs) rest (p, h) k =
    (IsPlain-prefix (text "data: ") v (omega arith) p, data_lines-IsPlain vs rest h k)

pub message_lines-IsPlain : {m : Message} → IsPlainMessage m → All IsPlain (message_lines m)
message_lines-IsPlain {m} h = (
  IsPlain-prefix (text "event: ") m.event (omega arith) h.event,
  data_lines-IsPlain m.payload _ h.payload
      (IsPlain-prefix (text "id: ") m.id (omega arith) h.id, tt),
)

-- A block written from an event name, data lines and an id, with no terminator inside any of them,
-- parses to that event: its data are the data lines joined by LF, those that are empty at the
-- front left out. The lines of the block may end in LF or in CR LF.
pub parse_block-message :
    (m : Message)
    → IsPlainMessage m
    → (parse_block (join_lines (message_lines m)) ≡ some (event_of m))
      × (parse_block (join_crlf (message_lines m)) ≡ some (event_of m))
unfolding parse_block
parse_block-message m h =
    let (unix, dos) = split_lines-join_lines _ _ (message_lines-IsPlain h) in
    (
      ap (λ (ls : List Text). dispatch (parse_lines no_fields ls)) unix ∙ parse_lines-message m,
      ap (λ (ls : List Text). dispatch (parse_lines no_fields ls)) dos ∙ parse_lines-message m,
    )
