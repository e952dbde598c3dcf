-- ===== src/Json/Paths.antt =====
-- The contents, path by path, of two values that `deepEqual` of src/gateway/hot_reload.js accepts.
use collectivus.Prelude.{
  ℕ, zero, suc, ◌≡◌, refl, sym, ap, subst, Bool, true, false, Option, none, some, List, [], ◌∷◌,
  Text, text_eq, arith, Bool-cases, Option-cases, inl, inr, ◌⊎◌,
}
use collectivus.Json.{
  Json, null, boolean, number, string, array, object, Items, no_items, item, Fields, no_fields,
  field, same_boolean, count_fields, field_of, deep_equal, equal_items, equal_fields, IsJson,
  AreJson, IsObject,
}
use collectivus.Json.Equal.{
  Alike, alike_null, alike_boolean, alike_number, alike_string, alike_array, alike_object,
  deep_equal-Alike,
}
use collectivus.Json.Objects.{and_true, nth-equal, field-equal, count-missing, item_of}

pub data Step : Type 0 where
  index : ℕ → Step
  key : Text → Step

-- The outermost layer of a value.
pub data Layer : Type 0 where
  a_null : Layer
  a_boolean : Bool → Layer
  a_number : ℕ → Layer
  a_string : Text → Layer
  an_array : ℕ → Layer
  an_object : ℕ → Layer

abbrev count_items : Items → ℕ
count_items no_items = 0
count_items (item x xs) = suc (count_items xs)

abbrev layer : Json → Layer
layer null = a_null
layer (boolean b) = a_boolean b
layer (number n) = a_number n
layer (string s) = a_string s
layer (array xs) = an_array (count_items xs)
layer (object fs) = an_object (count_fields fs)

abbrev child : Step → Json → Option Json
child (index n) (array xs) = item_of n xs
child (key k) (object fs) = field_of k fs
child _ _ = none

abbrev at_child : (Json → Option Layer) → Option Json → Option Layer
at_child f none = none
at_child f (some a) = f a

-- What stands at the end of a path into the value.
abbrev pub layer_at : List Step → Json → Option Layer
layer_at [] a = some (layer a)
layer_at (s ∷ path) a = at_child (λ b. layer_at path b) (child s a)

count_items-equal : (as' bs : Items) → equal_items as' bs ≡ true → count_items as' ≡ count_items bs
unfolding equal_items
count_items-equal no_items no_items e = refl
count_items-equal no_items (item b bs) e = cc
count_items-equal (item a as') no_items e = cc
count_items-equal (item a as') (item b bs) e =
    ap (λ n. suc n) (count_items-equal as' bs (and_true (deep_equal a b) (equal_items as' bs) e).1)

item_of-IsJson : (n : ℕ) (a : Json) (as' : Items) → AreJson as' → item_of n as' ≡ some a → IsJson a
unfolding IsJson
item_of-IsJson n a no_items w e = cc
item_of-IsJson zero a (item b bs) (v, w) e = subst (λ x. IsJson x) (ground (arith, e)) v
item_of-IsJson (suc n) a (item b bs) (v, w) e = item_of-IsJson n a bs w e

pub field_of-IsJson :
    (k : Text) (a : Json) (as' : Fields) → IsObject as' → field_of k as' ≡ some a → IsJson a
unfolding IsJson field_of
field_of-IsJson k a no_fields w e = cc
field_of-IsJson k a (field j b bs) (fresh, v, w) e = elim (Bool-cases (text_eq j k)) [
  | inl same ↦ subst (λ x. IsJson x) (ground (arith, e, same)) v
  | inr other ↦ field_of-IsJson k a bs w (ground (arith, e, other))
]

item_of-missing :
    (n : ℕ) (as' bs : Items)
    → count_items as' ≡ count_items bs
    → item_of n as' ≡ none
    → item_of n bs ≡ none
item_of-missing n no_items no_items c e = refl
item_of-missing n no_items (item b bs) c e = absurd (omega (arith, c))
item_of-missing n (item a as') no_items c e = refl
item_of-missing zero (item a as') (item b bs) c e = cc
item_of-missing (suc n) (item a as') (item b bs) c e = item_of-missing n as' bs (omega (arith, c)) e

-- The children that two equal values have at one step.
abbrev Paired : Option Json → Option Json → Type 0
Paired o u =
    ((o ≡ none) × (u ≡ none))
    ⊎ ((a b : Json) × (o ≡ some a) × (u ≡ some b) × IsJson a × (deep_equal a b ≡ true))

item_of-Paired :
    (n : ℕ) (as' bs : Items)
    → AreJson as'
    → equal_items as' bs ≡ true
    → Paired (item_of n as') (item_of n bs)
item_of-Paired n as' bs w e = elim (Option-cases (item_of n as')) [
  | inl missing ↦ inl (missing, item_of-missing n as' bs (count_items-equal as' bs e) missing)
  | inr (a, there) ↦
      let (b, there', eq) = nth-equal n a as' bs e there in
      inr (a, b, there, there', item_of-IsJson n a as' w there, eq)
]

field_of-Paired :
    (k : Text) (as' bs : Fields)
    → IsObject as'
    → count_fields as' ≡ count_fields bs
    → equal_fields as' bs ≡ true
    → Paired (field_of k as') (field_of k bs)
field_of-Paired k as' bs w c e = elim (Option-cases (field_of k as')) [
  | inl missing ↦ elim (Option-cases (field_of k bs)) [
    | inl missing' ↦ inl (missing, missing')
    | inr (b, there) ↦ absurd (omega (arith, c, count-missing k b as' bs w e missing there))
  ]
  | inr (a, there) ↦
      let (b, there', eq) = field-equal k a as' bs e there in
      inr (a, b, there, there', field_of-IsJson k a as' w there, eq)
]

child-Paired : (s : Step) (a b : Json) → IsJson a → Alike a b → Paired (child s a) (child s b)
unfolding IsJson
child-Paired (index n) _ _ w alike_null = inl (refl, refl)
child-Paired (index n) _ _ w (alike_boolean a b e) = inl (refl, refl)
child-Paired (index n) _ _ w (alike_number a b e) = inl (refl, refl)
child-Paired (index n) _ _ w (alike_string a b e) = inl (refl, refl)
child-Paired (index n) _ _ w (alike_array a b e) = item_of-Paired n a b w e
child-Paired (index n) _ _ w (alike_object a b c e) = inl (refl, refl)
child-Paired (key k) _ _ w alike_null = inl (refl, refl)
child-Paired (key k) _ _ w (alike_boolean a b e) = inl (refl, refl)
child-Paired (key k) _ _ w (alike_number a b e) = inl (refl, refl)
child-Paired (key k) _ _ w (alike_string a b e) = inl (refl, refl)
child-Paired (key k) _ _ w (alike_array a b e) = inl (refl, refl)
child-Paired (key k) _ _ w (alike_object a b c e) = field_of-Paired k a b w c e

layer-equal : (a b : Json) → Alike a b → layer a ≡ layer b
unfolding same_boolean
layer-equal _ _ alike_null = refl
layer-equal _ _ (alike_boolean true b e) = ap a_boolean (sym e)
layer-equal _ _ (alike_boolean false true e) = cc
layer-equal _ _ (alike_boolean false false e) = refl
layer-equal _ _ (alike_number a b e) = ap a_number e
layer-equal _ _ (alike_string a b e) = ap a_string e
layer-equal _ _ (alike_array a b e) = ap an_array (count_items-equal a b e)
layer-equal _ _ (alike_object a b c e) = ap an_object c

-- Two values that `deepEqual` accepts hold the same at the end of every path of keys and indices:
-- the same scalar, an array of the same length, an object with as many keys, or nothing. The order
-- of the keys may differ. No object of the first value has a key twice.
pub layer_at-deep_equal :
    (path : List Step) (a b : Json)
    → IsJson a
    → deep_equal a b ≡ true
    → layer_at path a ≡ layer_at path b
layer_at-deep_equal [] a b w e = ap some (layer-equal a b (deep_equal-Alike a b e))
layer_at-deep_equal (s ∷ path) a b w e = elim (child-Paired s a b w (deep_equal-Alike a b e)) [
  | inl (no_a, no_b) ↦ rw (no_a, no_b) refl
  | inr (x, y, is_x, is_y, v, eq) ↦ rw (is_x, is_y) (layer_at-deep_equal path x y v eq)
]
