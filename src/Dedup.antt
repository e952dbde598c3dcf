-- ===== src/Dedup.antt =====
-- src/gascity/dedup.js: the bounded set of the uuids that were seen, one for each session. A `Set`
-- is the list of its values in the order of insertion.
pub mod Recency
pub mod Tests
use collectivus.Prelude.{
  ℕ, zero, suc, Bool, true, false, not, ◌||◌, Option, none, some, List, [], ◌∷◌, ◌++◌, ltb,
  if◌then◌else◌, length, Text, text_eq,
}
use collectivus.Prelude.Maps.{Map, lookup, insert, remove}

-- `Set.has`
abbrev pub has : Text → List Text → Bool
has u [] = false
has u (v ∷ set) = text_eq v u || has u set

-- `Set.delete`
abbrev pub delete : Text → List Text → List Text
delete u [] = []
delete u (v ∷ set) = let rest = delete u set in if text_eq v u then rest else v ∷ rest

-- The loop over the oldest values.
abbrev pub evict : ℕ → List Text → List Text
evict limit [] = []
evict limit (v ∷ set) =
    let rest = evict limit set in if ltb limit (suc (length set)) then rest else v ∷ set

-- `UuidLruSet.observe`
pub observe : ℕ → Text → List Text → Bool × List Text
observe limit u set =
    if has u set then (false, delete u set ++ u ∷ []) else (true, evict limit (set ++ u ∷ []))

-- `UuidLruSet.seed`
abbrev pub seed : ℕ → List Text → List Text → List Text
seed limit [] set = set
seed limit (u ∷ us) set = seed limit us (observe limit u set).1

-- `keyFor`: the two parts around a NUL.
abbrev pub key_for : Text → Text → Text
key_for city session = city ++ 0 ∷ session

abbrev pub set_or_new : Option (List Text) → List Text
set_or_new none = []
set_or_new (some set) = set

-- `setFor`
abbrev pub set_for : Text → Text → Map (List Text) → List Text
set_for city session sessions = set_or_new (lookup (key_for city session) sessions)

-- `SessionDedup.observe`
pub observe_in : ℕ → Text → Text → Text → Map (List Text) → Bool × Map (List Text)
observe_in limit city session u sessions =
    let x = observe limit u (set_for city session sessions) in
    (x.0, insert (key_for city session) x.1 sessions)

-- `SessionDedup.seed`
abbrev pub seed_in : ℕ → Text → Text → List Text → Map (List Text) → Map (List Text)
seed_in limit city session us sessions =
    insert (key_for city session) (seed limit us (set_for city session sessions)) sessions

-- `SessionDedup.forget`
abbrev pub forget : Text → Text → Map (List Text) → Map (List Text)
forget city session sessions = remove (key_for city session) sessions
