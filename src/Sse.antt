-- ===== src/Sse.antt =====
-- src/sse.js: the streaming SSE parser. A parser is its `buffer`, and a chunk is the text that the
-- decoder made of it; the decoder itself (`TextDecoder`) is the interface `Decoder` below.
pub mod Scan
pub mod Chunks
pub mod Block
pub mod Stream
pub mod Tests
use mathlib.Core.Option
use collectivus.Prelude.{
  ℕ, zero, suc, ◌+◌, Bool, true, false, ◌&&◌, Option, none, some, List, [], ◌∷◌, ◌++◌, ltb, ◌==◌,
  if◌then◌else◌, length, take, drop, Text, text, text_eq,
}

abbrev pub lf : ℕ
lf = 10

abbrev pub cr : ℕ
cr = 13

pub record SseEvent : Type 0 where
  pub event : Text
  pub payload : Text
  pub id : Option Text

-- `s.startsWith(p)`
unfoldable pub starts_with : Text → Text → Bool
starts_with s [] = true
starts_with [] (p ∷ ps) = false
starts_with (c ∷ s) (p ∷ ps) = c == p && starts_with s ps

-- `s.indexOf(p)`, with `none` for -1
unfoldable pub index_of : Text → Text → Option ℕ
index_of [] p = if starts_with [] p then some 0 else none
index_of (c ∷ s) p =
    let later = Option.map suc (index_of s p) in if starts_with (c ∷ s) p then some 0 else later

abbrev pub nearer : Option ℕ → Option ℕ → Option (ℕ × ℕ)
nearer none none = none
nearer none (some b) = some (b, 4)
nearer (some a) none = some (a, 2)
nearer (some a) (some b) = if ltb a b then some (a, 2) else some (b, 4)

-- The offset and the length of the next terminator, LF LF or CR LF CR LF.
pub find_separator : Text → Option (ℕ × ℕ)
find_separator buf = nearer (index_of buf (lf ∷ lf ∷ [])) (index_of buf (cr ∷ lf ∷ cr ∷ lf ∷ []))

-- `block.split(/\r?\n/)`: a CR before a LF belongs to the terminator.
unfoldable pub split_lines : Text → Text → List Text
split_lines cur [] = cur ∷ []
split_lines cur (c ∷ s) =
    let closed = cur ∷ split_lines [] s in
    let dropped = split_lines cur s in
    let longer = split_lines (cur ++ c ∷ []) s in
    if c == lf then closed else if c == cr && starts_with s (lf ∷ []) then dropped else longer

-- The variables of the loop over the lines.
pub record Fields : Type 0 where
  pub event : Text
  pub payload : Text
  pub id : Option Text
  pub has_field : Bool

abbrev pub no_fields : Fields
no_fields = record { event = text "message"; payload = []; id = none; has_field = false }

abbrev pub field_of : Text → Option ℕ → Text
field_of line none = line
field_of line (some colon) = take colon line

abbrev pub value_of : Text → Option ℕ → Text
value_of line none = []
value_of line (some colon) = drop (colon + 1) line

abbrev pub trim_space : Text → Text
trim_space [] = []
trim_space (c ∷ s) = if c == b' ' then s else c ∷ s

abbrev pub join_data : Text → Text → Text
join_data [] value = value
join_data (c ∷ s) value = (c ∷ s) ++ lf ∷ value

unfoldable pub set_field : Text → Text → Fields → Fields
set_field field value f =
    if text_eq field (text "event")
    then record f { event = value; has_field = true }
    else if text_eq field (text "data")
    then record f { payload = join_data f.payload value; has_field = true }
    else if text_eq field (text "id")
    then record f { id = some value; has_field = true }
    else if text_eq field (text "retry")
    then record f { has_field = true }
    else f

unfoldable pub parse_line : Fields → Text → Fields
parse_line f [] = f
parse_line f (c ∷ s) =
    if c == b':'
    then f
    else let colon = index_of (c ∷ s) (text ":") in
      set_field (field_of (c ∷ s) colon) (trim_space (value_of (c ∷ s) colon)) f

unfoldable pub parse_lines : Fields → List Text → Fields
parse_lines f [] = f
parse_lines f (line ∷ lines) = parse_lines (parse_line f line) lines

abbrev pub dispatch : Fields → Option SseEvent
dispatch f =
    if f.has_field then some (record { event = f.event; payload = f.payload; id = f.id }) else none

pub parse_block : Text → Option SseEvent
parse_block block = dispatch (parse_lines no_fields (split_lines [] block))

abbrev pub push_event : Option SseEvent → List SseEvent → List SseEvent
push_event none events = events
push_event (some ev) events = ev ∷ events

-- The loop of `feed`. Each round takes two characters at least, so that fuel above the buffer's
-- length is never used up.
pub drain : ℕ → Text → List SseEvent × Text
drain zero buffer = ([], buffer)
drain (suc fuel) buffer = elim (find_separator buffer) [
  | none ↦ ([], buffer)
  | some (idx, len) ↦
      let rest = drain fuel (drop (idx + len) buffer) in
      (push_event (parse_block (take idx buffer)) rest.0, rest.1)
]

-- `feed`: the events that became complete, and the buffer that is left.
unfoldable pub feed : Text → Text → List SseEvent × Text
feed buffer chunk = drain (suc (length (buffer ++ chunk))) (buffer ++ chunk)

-- Successive calls of `feed` on one parser.
pub feed_all : Text → List Text → List SseEvent × Text
feed_all buffer [] = ([], buffer)
feed_all buffer (chunk ∷ chunks) =
    let (events, left) = feed buffer chunk in
    let (more, last) = feed_all left chunks in (events ++ more, last)

-- `TextDecoder`, in streaming mode, and the flush that `decode()` makes.
pub record Decoder : Type 1 where
  pub State : Type 0
  pub flush : State → Text × State
  pub decode : State → List ℕ → Text × State

pub data Chunk : Type 0 where
  string : Text → Chunk
  bytes : List ℕ → Chunk

module _ (d : Decoder) where
  pub record SseParser : Type 0 where
    pub buffer : Text
    pub decoder : d.State

  abbrev decode_chunk : d.State → Chunk → Text × d.State
  decode_chunk s (string t) = ((d.flush s).0 ++ t, (d.flush s).1)
  decode_chunk s (bytes b) = d.decode s b

  -- The method `feed`.
  pub feed_chunk : SseParser → Chunk → List SseEvent × SseParser
  feed_chunk p chunk =
      let (decoded, s) = decode_chunk p.decoder chunk in
      let (events, left) = feed p.buffer decoded in (events, record { buffer = left; decoder = s })
