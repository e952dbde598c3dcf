-- ===== src/Sse/Stream.antt =====
-- A whole stream of messages through src/sse.js.
use mathlib.Core.List.{flatten}
use collectivus.Prelude.{
  ℕ, zero, suc, ◌+◌, ◌<◌, ◌≡◌, ◌≢◌, ◌⊎◌, refl, ap, ◌∙◌, some, List, [], ◌∷◌, ◌++◌, map,
  append_assoc, length, take, drop, All, Text, arith, inl, inr, length-append,
}
use collectivus.Sse.{lf, cr, SseEvent, starts_with, drain, feed, feed_all}
use collectivus.Sse.Scan.{head_sep, scan, find_separator-eq-scan}
use collectivus.Sse.Chunks.{drain_found, drain-none, feed_all-eq-feed}
use collectivus.Sse.Block.{
  IsPlain, join_lines, data_lines, Message, message_lines, event_of, IsPlainMessage,
  message_lines-IsPlain, parse_block-message,
}

-- No CR, no two LF side by side, and no LF at the end.
abbrev IsTight : Text → Type 0
IsTight [] = Unit
IsTight (c ∷ []) = (c ≢ lf) × (c ≢ cr)
IsTight (c ∷ d ∷ s) = (c ≢ cr) × ((c ≢ lf) ⊎ (d ≢ lf)) × IsTight (d ∷ s)

head_sep-tight : (c : ℕ) (s t : Text) → IsTight (c ∷ s) → head_sep (c ∷ s ++ lf ∷ lf ∷ t) ≡ 0
unfolding head_sep starts_with
head_sep-tight c [] t h = ground arith
head_sep-tight c (d ∷ s) t h = ground arith

head_sep-two : (t : Text) → head_sep (lf ∷ lf ∷ t) ≡ 2
unfolding head_sep starts_with
head_sep-two [] = refl
head_sep-two (c ∷ t) = refl

IsTight-tail : (c : ℕ) (s : Text) → IsTight (c ∷ s) → IsTight s
IsTight-tail c [] h = tt
IsTight-tail c (d ∷ s) h = h.2

-- The terminator behind a tight block is found where the block ends.
scan-tight : (s t : Text) → IsTight s → scan (s ++ lf ∷ lf ∷ t) ≡ some (length s, 2)
scan-tight [] t h = rw (head_sep-two t)
scan-tight (c ∷ s) t h = rw (head_sep-tight c s t h) (rw (scan-tight s t (IsTight-tail c s h)))

abbrev IsFilled : Text → Type 0
IsFilled s = s ≢ []

plain-IsTight : (l : Text) → IsPlain l → IsTight l
plain-IsTight [] h = tt
plain-IsTight (c ∷ []) h = h.0
plain-IsTight (c ∷ d ∷ l) (p, h) = (p.1, inl p.0, plain-IsTight (d ∷ l) h)

IsTight-glue :
    (l : Text) (d : ℕ) (r : Text)
    → IsPlain l
    → IsFilled l
    → d ≢ lf
    → IsTight (d ∷ r)
    → IsTight (l ++ lf ∷ d ∷ r)
IsTight-glue [] d r h f n t = absurd (f refl)
IsTight-glue (c ∷ []) d r h f n t = (h.0.1, inl h.0.0, (omega arith, inr n, t))
IsTight-glue (c ∷ e ∷ l) d r (p, h) f n t = (p.1, inl p.0, IsTight-glue (e ∷ l) d r h (λ q. cc) n t)

join_lines-IsTight :
    (l : Text) (ls : List Text)
    → All IsPlain (l ∷ ls)
    → All IsFilled (l ∷ ls)
    → IsTight (join_lines (l ∷ ls))
join_lines-IsTight l [] h k = plain-IsTight l h.0
join_lines-IsTight l ([] ∷ ls) h k = absurd (k.1.0 refl)
join_lines-IsTight l ((d ∷ m) ∷ []) h k =
    IsTight-glue l d m h.0 k.0 h.1.0.0.0 (join_lines-IsTight (d ∷ m) [] h.1 k.1)
join_lines-IsTight l ((d ∷ m) ∷ n ∷ ls) h k =
    IsTight-glue l d _ h.0 k.0 h.1.0.0.0 (join_lines-IsTight (d ∷ m) (n ∷ ls) h.1 k.1)

data_lines-IsFilled : (vs rest : List Text) → All IsFilled rest → All IsFilled (data_lines vs rest)
data_lines-IsFilled [] rest h = h
data_lines-IsFilled (v ∷ vs) rest h = ((λ q. cc), data_lines-IsFilled vs rest h)

message-IsTight : (m : Message) → IsPlainMessage m → IsTight (join_lines (message_lines m))
message-IsTight m h =
    join_lines-IsTight _ _ (message_lines-IsPlain h)
      ((λ q. cc), data_lines-IsFilled m.payload _ ((λ q. cc), tt))

-- A message on the wire: its lines, and the blank line that ends it.
abbrev pub wire : Message → Text
wire m = join_lines (message_lines m) ++ lf ∷ lf ∷ []

abbrev pub wires : List Message → Text
wires [] = []
wires (m ∷ ms) = wire m ++ wires ms

take-length : (s t : Text) → take (length s) (s ++ t) ≡ s
take-length [] t = refl
take-length (c ∷ s) t = ap (λ (r : Text). c ∷ r) (take-length s t)

drop-length_two : (s t : Text) (a b : ℕ) → drop (length s + 2) (s ++ a ∷ b ∷ t) ≡ t
drop-length_two [] t a b = refl
drop-length_two (c ∷ s) t a b =
    let e : suc (length s) + 2 ≡ suc (length s + 2) = omega arith in rw e (drop-length_two s t a b)

drain-wires :
    (f : ℕ) (ms : List Message)
    → All IsPlainMessage ms
    → length (wires ms) < f
    → drain f (wires ms) ≡ (map event_of ms, [])
drain-wires zero ms h p = absurd (omega arith)
drain-wires (suc f) [] h p = drain-none f [] (find_separator-eq-scan [])
drain-wires (suc f) (m ∷ ms) (plain, h) p =
    let block = join_lines (message_lines m) in
    let rest = wires ms in
    let cut = append_assoc block (lf ∷ lf ∷ []) rest in
    let found =
      find_separator-eq-scan (block ++ lf ∷ lf ∷ rest)
      ∙ scan-tight block rest (message-IsTight m plain) in
    let long = length-append (block ++ lf ∷ lf ∷ []) rest in
    let long' = length-append block (lf ∷ lf ∷ []) in
    ap (drain (suc f)) cut
    ∙ drain_found f (block ++ lf ∷ lf ∷ rest) found
    ∙ rw
        (
          take-length block (lf ∷ lf ∷ rest),
          drop-length_two block rest lf lf,
          (parse_block-message m plain).0,
        )
        (ap (λ (r : List SseEvent × Text). (event_of m ∷ r.0, r.1))
          (drain-wires f ms h (omega arith)))

feed-wires :
    (ms : List Message) → All IsPlainMessage ms → feed [] (wires ms) ≡ (map event_of ms, [])
unfolding feed
feed-wires ms h = drain-wires (suc (length (wires ms))) ms h (omega arith)

-- A stream of messages gives their events, in order and no others, and leaves the buffer empty,
-- however the stream is cut into chunks.
pub feed_all-wires :
    (ms : List Message) (chunks : List Text)
    → All IsPlainMessage ms
    → flatten chunks ≡ wires ms
    → feed_all [] chunks ≡ (map event_of ms, [])
feed_all-wires ms chunks h e =
    feed_all-eq-feed [] chunks (find_separator-eq-scan []) ∙ ap (feed []) e ∙ feed-wires ms h
