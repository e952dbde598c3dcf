-- ===== src/RateLimit/Tests.antt =====
-- Runs of src/server/rate_limit.js, and its theorems at concrete inputs.
use collectivus.Prelude.{ℕ, ◌≡◌, refl, true, false, List, [], ◌∷◌, Text, text, text_eq, arith}
use collectivus.Prelude.Maps.{Map, lookup, insert}
use collectivus.RateLimit.{Limits, decide, check}
use collectivus.RateLimit.Window.{Call, run, reference, run-eq-reference}
use collectivus.RateLimit.Retry.{IsKept, stamps_at}

abbrev two_a_second : Limits
two_a_second = record { window_ms = 1000; max = 2 }

abbrev calls : List Call
calls = (text "a", 10) ∷ (text "a", 20) ∷ (text "b", 20) ∷ (text "a", 1009) ∷ (text "a", 1010) ∷ []

run-calls : run two_a_second [] calls ≡ true ∷ true ∷ true ∷ false ∷ true ∷ []
unfolding run check decide lookup insert text_eq
run-calls = refl

run-eq-reference_example : run two_a_second [] calls ≡ reference two_a_second (λ k. []) calls
run-eq-reference_example = run-eq-reference two_a_second calls (omega arith)

abbrev table : Map (List ℕ)
table = (text "a", 10 ∷ 20 ∷ []) ∷ []

table-IsKept : (k : Text) → IsKept two_a_second 20 (stamps_at k table)
unfolding lookup
table-IsKept k = ground arith
