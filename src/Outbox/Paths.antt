-- ===== src/Outbox/Paths.antt =====
-- The search for a free name: `uniquePath` of src/gateway/outbox_sink.js.
use mathlib.Core.Bool.{false≢true}
use collectivus.Prelude.{
  ℕ, zero, suc, ◌≤◌, ◌<◌, ◌≡◌, ◌≢◌, refl, sym, ◌∙◌, none, some, [], ◌∷◌, ◌++◌, length, Text, text,
  text_eq_iff, arith, Option-cases, inl, inr,
}
use collectivus.Prelude.Decimals.{digits, digits-injective}
use collectivus.Prelude.Maps.{Map, lookup, remove, lookup-remove}
use collectivus.Outbox.{Batch, candidate, has, find_free, unique_path}

append-cancel : (s t u : Text) → s ++ t ≡ s ++ u → t ≡ u
append-cancel [] t u e = e
append-cancel (c ∷ s) t u e = append-cancel s t u (cc e)

append-not_self : (s : Text) (c : ℕ) (t : Text) → s ++ c ∷ t ≢ s
append-not_self [] c t e = cc
append-not_self (d ∷ s) c t e = append-not_self s c t (cc e)

candidate-injective : (stem : Text) (i j : ℕ) → candidate stem i ≡ candidate stem j → i ≡ j
unfolding candidate
candidate-injective stem zero zero e = refl
candidate-injective stem zero (suc j) e =
    absurd (append-not_self stem b'.' (digits (suc j)) (sym e))
candidate-injective stem (suc i) zero e = absurd (append-not_self stem b'.' (digits (suc i)) e)
candidate-injective stem (suc i) (suc j) e =
    digits-injective (suc i) (suc j)
      (append-cancel (text ".") (digits (suc i)) (digits (suc j)) (append-cancel stem _ _ e))

length-remove_le : (k : Text) (m : Map Batch) → length (remove k m) ≤ length m
unfolding remove
length-remove_le k [] = omega arith
length-remove_le k ((j, w) ∷ m) = ground (arith, length-remove_le k m)

length-remove :
    (k : Text) (v : Batch) (m : Map Batch) → lookup k m ≡ some v → length (remove k m) < length m
unfolding lookup remove
length-remove k v [] h = cc
length-remove k v ((j, w) ∷ m) h = ground (arith, length-remove_le k m, length-remove k v m)

has-remove_ne : (k j : Text) (m : Map Batch) → j ≢ k → has (remove k m) j ≡ has m j
has-remove_ne k j m ne = ground (arith, lookup-remove k j m, text_eq_iff k j)

-- The search goes on as in a directory without the files that it has passed.
find_free_total :
    (fuel i : ℕ) (dir left : Map Batch) (stem : Text)
    → length left < fuel
    → ((j : ℕ) → i ≤ j → has dir (candidate stem j) ≡ has left (candidate stem j))
    → (name : Text) × (find_free fuel dir stem i ≡ some name) × (lookup name dir ≡ none)
unfolding find_free
find_free_total zero i dir left stem h same = absurd (omega arith)
find_free_total (suc fuel) i dir left stem h same =
    let name = candidate stem i in
    elim (Option-cases (lookup name dir)) [
      | inl free ↦ (name, rw (free, has) refl, free)
      | inr (lines, taken) ↦ elim (Option-cases (lookup name left)) [
        | inl gone ↦ absurd (false≢true (ground (arith, same i (omega arith))))
        | inr (lines', there) ↦
            let (found, e, free) =
              find_free_total fuel (suc i) dir (remove name left) stem
                (omega (arith, length-remove name lines' left there))
                (λ j le.
                  same j (omega arith)
                  ∙ sym (
                      has-remove_ne name (candidate stem j) left
                        (λ p. absurd (omega (arith, candidate-injective stem j i p))))) in
            (found, rw (taken, has) e, free)
      ]
    ]

-- The name that is found is free.
pub unique_path-free : (dir : Map Batch) (stem : Text) → lookup (unique_path dir stem) dir ≡ none
unfolding unique_path
unique_path-free dir stem =
    let (name, found, free) =
      find_free_total (suc (length dir)) 0 dir dir stem (omega arith) (λ j le. refl) in
    rw found free

-- A name that is free is kept.
pub unique_path-same :
    (dir : Map Batch) (stem : Text) → lookup stem dir ≡ none → unique_path dir stem ≡ stem
unfolding unique_path find_free candidate
unique_path-same dir stem h = rw (h, has)
