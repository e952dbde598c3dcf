-- ===== src/Shipping.antt =====
-- src/gateway/shipping_sink.js: rows that are batched in memory and shipped to the central server.
-- A sink writes to its own signal only, so the maps `batches` and `shipChains` have one entry at
-- most. The chain of promises is the queue of the snapshots that have not settled. The identity
-- client and the responses of the server are parameters; a timer's handle is whether it is armed.
pub mod Order
pub mod Bounds
pub mod Ship
pub mod Tests
use collectivus.Prelude.{
  ℕ, zero, suc, ◌+◌, ◌<◌, Bool, true, false, ◌&&◌, ◌||◌, Option, none, some, List, [], ◌∷◌, ◌++◌,
  ltb, leb, ◌==◌, if◌then◌else◌, length, Text,
}

pub record Options : Type 0 where
  pub max_rows : ℕ
  pub max_bytes : ℕ

pub record Batch : Type 0 where
  pub lines : List Text
  pub bytes : ℕ
  pub timer : Bool

pub record ShippingSink : Type 0 where
  pub batch : Option Batch
  pub chain : List (List Text)
  pub closed : Bool

abbrev pub new_sink : ShippingSink
new_sink = record { batch = none; chain = []; closed = false }

abbrev pub in_range : ℕ → ℕ → ℕ → Bool
in_range lo hi c = leb lo c && leb c hi

-- `Buffer.byteLength(line, 'utf8')`: a pair of surrogates takes four bytes, a lone one three.
unfoldable pub utf8_length : Text → ℕ
utf8_length [] = 0
utf8_length (c ∷ []) = if ltb c 0x80 then 1 else if ltb c 0x800 then 2 else 3
utf8_length (c ∷ d ∷ s) =
    let after_two = utf8_length s in
    let after_one = utf8_length (d ∷ s) in
    if ltb c 0x80
    then 1 + after_one
    else if ltb c 0x800
    then 2 + after_one
    else if in_range 0xd800 0xdbff c && in_range 0xdc00 0xdfff d
    then 4 + after_two
    else 3 + after_one

abbrev pub empty_batch : Batch
empty_batch = record { lines = []; bytes = 0; timer = false }

-- `ensureBatch`
abbrev pub ensure_batch : Option Batch → Batch
ensure_batch none = empty_batch
ensure_batch (some b) = b

-- The snapshot of the lines is chained behind the ships in flight; the timer is cleared.
abbrev pub flush_lines : List Text → ShippingSink → ShippingSink
flush_lines [] s = s
flush_lines (line ∷ lines) s = record s {
  batch = some empty_batch;
  chain = s.chain ++ (line ∷ lines) ∷ [];
}

abbrev pub flush_batch : Option Batch → ShippingSink → ShippingSink
flush_batch none s = s
flush_batch (some b) s = flush_lines b.lines s

-- `scheduleFlush`
abbrev pub schedule_flush : ShippingSink → ShippingSink
schedule_flush s = flush_batch s.batch s

-- The first row of a batch arms the timer.
abbrev pub push_line : Text → Batch → Batch
push_line line b = record {
  lines = b.lines ++ line ∷ [];
  bytes = b.bytes + (utf8_length line + 1);
  timer = b.timer || length (b.lines ++ line ∷ []) == 1;
}

pub data Written : Type 0 where
  written after_close not_serializable : Written

abbrev pub is_full : Options → Batch → Bool
is_full o b = leb o.max_rows (length b.lines) || leb o.max_bytes b.bytes

abbrev pub flush_if : Bool → ShippingSink → ShippingSink
flush_if true s = schedule_flush s
flush_if false s = s

-- `writeRow`, of an open sink and the outcome of `JSON.stringify`, none where it is undefined
abbrev pub enqueue : Options → Option Text → ShippingSink → Written × ShippingSink
enqueue o none s = (not_serializable, s)
enqueue o (some line) s =
    let b = push_line line (ensure_batch s.batch) in
    (written, flush_if (is_full o b) (record s { batch = some b }))

-- `writeRow`
pub write_row : Options → Option Text → ShippingSink → Written × ShippingSink
write_row o row s = if s.closed then (after_close, s) else enqueue o row s

abbrev pub armed : Option Batch → Bool
armed none = false
armed (some b) = b.timer

abbrev pub disarm : Option Batch → Option Batch
disarm none = none
disarm (some b) = some (record b { timer = false })

-- The timer's handler, which runs while the timer is armed.
pub on_timer : ShippingSink → ShippingSink
on_timer s = if armed s.batch then schedule_flush (record s { batch = disarm s.batch }) else s

-- `close`, up to its wait for the ships in flight
pub close : ShippingSink → ShippingSink
close s = if s.closed then s else schedule_flush (record s { closed = true })

-- A response is its status; none stands for a promise that rejects.
pub record Answers : Type 0 where
  pub jwt : Option Text
  pub post : Text → Text → Option ℕ
  pub refreshes : Bool
  pub new_jwt : Option Text
  pub post_again : Text → Text → Option ℕ

-- What was posted, as tokens with bodies, and whether the promise resolved.
pub record Shipped : Type 0 where
  pub posts : List (Text × Text)
  pub resolved : Bool

-- `response.ok`
abbrev pub is_ok : Option ℕ → Bool
is_ok none = false
is_ok (some status) = leb 200 status && ltb status 300

-- `lines.join('\n') + '\n'`
unfoldable pub body_of : List Text → Text
body_of [] = []
body_of (line ∷ lines) = line ++ b'\n' ∷ body_of lines

abbrev pub with_second : Answers → Text → Text → Option Text → Shipped
with_second a body jwt none = record { posts = (jwt, body) ∷ []; resolved = false }
with_second a body jwt (some fresh) = record {
  posts = (jwt, body) ∷ (fresh, body) ∷ [];
  resolved = is_ok (a.post_again fresh body);
}

abbrev pub is_unauthorized : Option ℕ → Bool
is_unauthorized none = false
is_unauthorized (some status) = status == 401

abbrev pub with_first : Answers → Text → Text → Shipped
with_first a body jwt =
    if is_unauthorized (a.post jwt body)
    then (if a.refreshes
        then with_second a body jwt a.new_jwt
        else record { posts = (jwt, body) ∷ []; resolved = false })
    else record { posts = (jwt, body) ∷ []; resolved = is_ok (a.post jwt body) }

abbrev pub with_jwt : Answers → Text → Option Text → Shipped
with_jwt a body none = record { posts = []; resolved = false }
with_jwt a body (some jwt) = with_first a body jwt

-- `shipBatch`
pub ship_batch : Answers → List Text → Shipped
ship_batch a [] = record { posts = []; resolved = true }
ship_batch a (line ∷ lines) = with_jwt a (body_of (line ∷ lines)) a.jwt
