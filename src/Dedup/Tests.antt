-- ===== src/Dedup/Tests.antt =====
-- The theorems on src/gascity/dedup.js at a concrete history.
use collectivus.Prelude.{◌≡◌, refl, true, not, List, [], ◌∷◌, take, Text, text, text_eq, arith}
use collectivus.Dedup.{has, observe}
use collectivus.Dedup.Recency.{rev, recent, observe-recent}

abbrev history : List Text
history = text "c" ∷ text "a" ∷ text "b" ∷ text "a" ∷ []

-- With a limit of 2, b has been evicted.
b_again : observe 2 (text "b") (rev (take 2 (recent history))) ≡ (true, text "c" ∷ text "b" ∷ [])
unfolding observe text_eq
b_again = refl

observe-recent_example :
    observe 2 (text "a") (rev (take 2 (recent history)))
    ≡ (not (has (text "a") (take 2 (recent history))), rev (take 2 (recent (text "a" ∷ history))))
observe-recent_example = observe-recent 2 (text "a") history (omega arith)
