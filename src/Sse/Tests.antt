-- ===== src/Sse/Tests.antt =====
-- Runs of src/sse.js, and its theorems at concrete inputs.
use mathlib.Core.List.{flatten}
use collectivus.Prelude.{
  ◌≡◌, refl, none, some, List, [], ◌∷◌, ◌++◌, map, Text, text, arith, text_eq,
}
use collectivus.Sse.{
  lf, cr, Decoder, SseParser, find_separator, index_of, starts_with, parse_block, split_lines,
  parse_lines, parse_line, set_field, feed, feed_all,
}
use collectivus.Sse.Chunks.{feed_all-eq-feed}
use collectivus.Sse.Block.{
  Message, message_lines, join_lines, join_crlf, event_of, IsPlainMessage, parse_block-message,
}
use collectivus.Sse.Stream.{feed_all-wires}

abbrev hello : Message
hello = record { event = text "delta"; payload = text "" ∷ text "a" ∷ text "b" ∷ []; id = text "7" }

hello_plain : IsPlainMessage hello
hello_plain = omega arith

abbrev halves : List Text
halves =
    text "event: delta"
    ∷ (lf ∷ text "data: " ++ lf ∷ text "data: a" ++ lf ∷ text "data: b")
    ∷ (lf ∷ text "id: 7" ++ lf ∷ [])
    ∷ (lf ∷ [])
    ∷ []

parse_block_run :
    parse_block (text "data: x" ++ cr ∷ lf ∷ text ":c" ++ lf ∷ text "retry: 5")
    ≡ some (record { event = text "message"; payload = text "x"; id = none })
unfolding parse_block split_lines parse_lines parse_line set_field index_of starts_with text_eq
parse_block_run = refl

parse_block-message_example :
    (parse_block (join_lines (message_lines hello)) ≡ some (event_of hello))
    × (parse_block (join_crlf (message_lines hello)) ≡ some (event_of hello))
parse_block-message_example = parse_block-message hello hello_plain

feed_all-eq-feed_example : feed_all (text "d") halves ≡ feed (text "d") (flatten halves)
unfolding find_separator index_of starts_with
feed_all-eq-feed_example = feed_all-eq-feed (text "d") halves refl

feed_all-wires_example : feed_all [] halves ≡ (map event_of (hello ∷ []), [])
unfolding flatten
feed_all-wires_example = feed_all-wires (hello ∷ []) halves (hello_plain, tt) refl

-- A decoder of one byte to a code unit.
abbrev latin : Decoder
latin = record { State = Unit {0}; flush = λ s. ([], s); decode = λ s b. (b, s) }

abbrev fresh : SseParser latin
fresh = record { buffer = []; decoder = tt }
