-- ===== src/Prelude/Maps.antt =====
-- A JavaScript `Map` with string keys: pairs in the order of insertion, one for each key.
use Prim.Native.Nat.{ℕ, ◌+◌}
use mathlib.Core.Path.{◌≡◌, refl, subst}
use mathlib.Core.Logic.{inl, inr}
use mathlib.Core.Option.{Option, none, some}
use mathlib.Core.List.{List, [], ◌∷◌}
use native.Mathlib.Omega.{arith}
use collectivus.Prelude.Tests.{if◌then◌else◌, Bool-cases}
use collectivus.Prelude.Texts.{Text, text_eq, text_eq_iff}

abbrev pub Map {ℓ} : Type ℓ → Type ℓ
Map V = List (Text × V)

module _ {ℓ} {V : Type ℓ} where
  -- `m.get(k)`
  unfoldable pub lookup : Text → Map V → Option V
  lookup k [] = none
  lookup k ((j, v) ∷ m) = let rest = lookup k m in if text_eq j k then some v else rest

  -- `m.set(k, v)`
  unfoldable pub insert : Text → V → Map V → Map V
  insert k v [] = (k, v) ∷ []
  insert k v ((j, w) ∷ m) =
      let rest = insert k v m in if text_eq j k then (k, v) ∷ m else (j, w) ∷ rest

  -- `m.delete(k)`
  unfoldable pub remove : Text → Map V → Map V
  remove k [] = []
  remove k ((j, w) ∷ m) = let rest = remove k m in if text_eq j k then rest else (j, w) ∷ rest

  pub lookup-insert :
      (k j : Text) (v : V) (m : Map V)
      → lookup j (insert k v m) ≡ (if text_eq k j then some v else lookup j m)
  unfolding lookup insert
  lookup-insert k j v [] = refl
  lookup-insert k j v ((i, w) ∷ m) =
      ground (arith, text_eq_iff k j, text_eq_iff i k, text_eq_iff i j, lookup-insert k j v m)

  pub lookup-remove :
      (k j : Text) (m : Map V) → lookup j (remove k m) ≡ (if text_eq k j then none else lookup j m)
  unfolding lookup remove
  lookup-remove k j [] = ground arith
  lookup-remove k j ((i, w) ∷ m) =
      ground (arith, text_eq_iff k j, text_eq_iff i k, text_eq_iff i j, lookup-remove k j m)

  -- No key stands twice.
  abbrev pub IsMap : Map V → Type ℓ
  IsMap [] = Unit
  IsMap ((k, v) ∷ m) = (lookup k m ≡ none) × IsMap m

  pub IsMap-insert : (k : Text) (v : V) (m : Map V) → IsMap m → IsMap (insert k v m)
  unfolding insert
  IsMap-insert k v [] h = (unfold lookup in refl, tt)
  IsMap-insert k v ((j, w) ∷ m) (out, h) = elim (Bool-cases (text_eq j k)) [
    | inl e ↦ rw e (subst (λ i. lookup i m ≡ none) ((text_eq_iff j k).0 e) out, h)
    | inr e ↦ rw e (
      ground (arith, lookup-insert k j v m, text_eq_iff j k, text_eq_iff k j),
      IsMap-insert k v m h,
    )
  ]

  pub IsMap-remove : (k : Text) (m : Map V) → IsMap m → IsMap (remove k m)
  unfolding remove
  IsMap-remove k [] h = tt
  IsMap-remove k ((j, w) ∷ m) (out, h) = elim (Bool-cases (text_eq j k)) [
    | inl e ↦ rw e (IsMap-remove k m h)
    | inr e ↦
        rw e (
          ground (arith, lookup-remove k j m, text_eq_iff j k, text_eq_iff k j),
          IsMap-remove k m h,
        )
  ]

  -- A sum over the values.
  abbrev pub total : (V → ℕ) → Map V → ℕ
  total f [] = 0
  total f ((k, v) ∷ m) = f v + total f m

  pub total-insert_new :
      (f : V → ℕ) (k : Text) (v : V) (m : Map V)
      → lookup k m ≡ none
      → total f (insert k v m) ≡ total f m + f v
  unfolding lookup insert
  total-insert_new f k v [] h = omega arith
  total-insert_new f k v ((j, w) ∷ m) h = ground (arith, total-insert_new f k v m)

  pub total-insert_old :
      (f : V → ℕ) (k : Text) (v w : V) (m : Map V)
      → lookup k m ≡ some w
      → total f (insert k v m) + f w ≡ total f m + f v
  unfolding lookup insert
  total-insert_old f k v w [] h = cc
  total-insert_old f k v w ((j, u) ∷ m) h = ground (arith, total-insert_old f k v w m)

  remove-absent : (k : Text) (m : Map V) → lookup k m ≡ none → remove k m ≡ m
  unfolding lookup remove
  remove-absent k [] h = refl
  remove-absent k ((j, w) ∷ m) h = ground (arith, remove-absent k m)

  pub total-remove :
      (f : V → ℕ) (k : Text) (v : V) (m : Map V)
      → IsMap m
      → lookup k m ≡ some v
      → total f (remove k m) + f v ≡ total f m
  unfolding lookup remove
  total-remove f k v [] h e = cc
  total-remove f k v ((j, w) ∷ m) (out, h) e =
      ground (arith, text_eq_iff j k, remove-absent k m, total-remove f k v m h)
