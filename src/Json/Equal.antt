-- ===== src/Json/Equal.antt =====
-- The equality `deepEqual` of src/gateway/hot_reload.js, layer by layer.
use collectivus.Prelude.{
  ℕ, ◌≡◌, refl, Bool, true, false, none, some, Text, text_eq, text_eq_iff, text_eq_refl, arith,
  Bool-cases, inl, inr,
}
use collectivus.Json.{
  Json, null, boolean, number, string, array, object, Items, no_items, item, Fields, no_fields,
  field, same_boolean, count_fields, field_of, deep_equal, equal_items, equal_fields, IsJson,
  AreJson, IsObject,
}

-- What the equality of two values says of their outermost layer.
pub data Alike : Json → Json → Type 0 where
  alike_null : Alike null null
  alike_boolean : (a b : Bool) → same_boolean a b ≡ true → Alike (boolean a) (boolean b)
  alike_number : (a b : ℕ) → a ≡ b → Alike (number a) (number b)
  alike_string : (a b : Text) → a ≡ b → Alike (string a) (string b)
  alike_array : (a b : Items) → equal_items a b ≡ true → Alike (array a) (array b)
  alike_object :
      (a b : Fields)
      → count_fields a ≡ count_fields b
      → equal_fields a b ≡ true
      → Alike (object a) (object b)

pub deep_equal-Alike : (a b : Json) → deep_equal a b ≡ true → Alike a b
unfolding deep_equal
deep_equal-Alike null null e = alike_null
deep_equal-Alike null (boolean q) e = absurd (ground arith)
deep_equal-Alike null (number q) e = absurd (ground arith)
deep_equal-Alike null (string q) e = absurd (ground arith)
deep_equal-Alike null (array q) e = absurd (ground arith)
deep_equal-Alike null (object q) e = absurd (ground arith)
deep_equal-Alike (boolean p) null e = absurd (ground arith)
deep_equal-Alike (boolean p) (boolean q) e = alike_boolean p q e
deep_equal-Alike (boolean p) (number q) e = absurd (ground arith)
deep_equal-Alike (boolean p) (string q) e = absurd (ground arith)
deep_equal-Alike (boolean p) (array q) e = absurd (ground arith)
deep_equal-Alike (boolean p) (object q) e = absurd (ground arith)
deep_equal-Alike (number p) null e = absurd (ground arith)
deep_equal-Alike (number p) (boolean q) e = absurd (ground arith)
deep_equal-Alike (number p) (number q) e = alike_number p q (ground arith)
deep_equal-Alike (number p) (string q) e = absurd (ground arith)
deep_equal-Alike (number p) (array q) e = absurd (ground arith)
deep_equal-Alike (number p) (object q) e = absurd (ground arith)
deep_equal-Alike (string p) null e = absurd (ground arith)
deep_equal-Alike (string p) (boolean q) e = absurd (ground arith)
deep_equal-Alike (string p) (number q) e = absurd (ground arith)
deep_equal-Alike (string p) (string q) e = alike_string p q ((text_eq_iff p q).0 e)
deep_equal-Alike (string p) (array q) e = absurd (ground arith)
deep_equal-Alike (string p) (object q) e = absurd (ground arith)
deep_equal-Alike (array p) null e = absurd (ground arith)
deep_equal-Alike (array p) (boolean q) e = absurd (ground arith)
deep_equal-Alike (array p) (number q) e = absurd (ground arith)
deep_equal-Alike (array p) (string q) e = absurd (ground arith)
deep_equal-Alike (array p) (array q) e = alike_array p q e
deep_equal-Alike (array p) (object q) e = absurd (ground arith)
deep_equal-Alike (object p) null e = absurd (ground arith)
deep_equal-Alike (object p) (boolean q) e = absurd (ground arith)
deep_equal-Alike (object p) (number q) e = absurd (ground arith)
deep_equal-Alike (object p) (string q) e = absurd (ground arith)
deep_equal-Alike (object p) (array q) e = absurd (ground arith)
deep_equal-Alike (object p) (object q) e = alike_object p q (ground arith) (ground arith)

-- Every field of the first object stands in the second.
abbrev Within : Fields → Fields → Type 0
Within no_fields bs = Unit
Within (field k v as') bs = (field_of k bs ≡ some v) × Within as' bs

Within-field :
    (k : Text) (v : Json) (as' bs : Fields)
    → field_of k as' ≡ none
    → Within as' bs
    → Within as' (field k v bs)
unfolding field_of
Within-field k v no_fields bs e w = tt
Within-field k v (field j u as') bs e (there, w) = elim (Bool-cases (text_eq j k)) [
  | inl same ↦ absurd (ground (arith, e, same))
  | inr other ↦ (
    ground (arith, there, other, text_eq_iff j k, text_eq_iff k j),
    Within-field k v as' bs (ground (arith, e, other)) w,
  )
]

Within-refl : (as' : Fields) → IsObject as' → Within as' as'
unfolding field_of IsJson
Within-refl no_fields w = tt
Within-refl (field k v as') (fresh, u, w) =
    (ground (arith, text_eq_refl k), Within-field k v as' as' fresh (Within-refl as' w))

same_boolean_refl : (b : Bool) → same_boolean b b ≡ true
unfolding same_boolean
same_boolean_refl true = refl
same_boolean_refl false = refl

mutual
  unfolding deep_equal IsJson

  pub deep_equal_refl : (a : Json) → IsJson a → deep_equal a a ≡ true
  deep_equal_refl null w = refl
  deep_equal_refl (boolean b) w = same_boolean_refl b
  deep_equal_refl (number n) w = ground arith
  deep_equal_refl (string s) w = text_eq_refl s
  deep_equal_refl (array as') w = equal_items_refl as' w
  deep_equal_refl (object as') w = ground (arith, equal_fields_refl as' as' w (Within-refl as' w))

  equal_items_refl : (as' : Items) → AreJson as' → equal_items as' as' ≡ true
  equal_items_refl no_items w = refl
  equal_items_refl (item a as') (v, w) = rw (deep_equal_refl a v, equal_items_refl as' w) refl

  equal_fields_refl : (as' bs : Fields) → IsObject as' → Within as' bs → equal_fields as' bs ≡ true
  equal_fields_refl no_fields bs w h = refl
  equal_fields_refl (field k v as') bs (fresh, u, w) (there, h) =
      rw (there, deep_equal_refl v u, equal_fields_refl as' bs w h) refl
