-- ===== src/Json/Objects.antt =====
-- The fields of two objects that `deepEqual` of src/gateway/hot_reload.js accepts.
use collectivus.Prelude.{
  ℕ, zero, suc, ◌<◌, ◌≡◌, ◌≢◌, refl, sym, ap, ◌∙◌, Bool, true, false, ◌&&◌, Option, none, some,
  if◌then◌else◌, Text, text_eq, text_eq_iff, arith, Bool-cases, inl, inr,
}
use collectivus.Json.{
  Json, Items, no_items, item, Fields, no_fields, field, count_fields, field_of, passes, deep_equal,
  equal_items, equal_fields, IsObject,
}

pub and_true : (a b : Bool) → a && b ≡ true → (a ≡ true) × (b ≡ true)
and_true true b e = (refl, e)
and_true false b e = cc

passes-some :
    (p : Json → Bool) (o : Option Json)
    → passes p o ≡ true
    → (b : Json) × (o ≡ some b) × (p b ≡ true)
passes-some p none e = cc
passes-some p (some b) e = (b, refl, e)

pub equal_fields-parts :
    (k : Text) (a : Json) (as' bs : Fields)
    → equal_fields (field k a as') bs ≡ true
    → ((b : Json) × (field_of k bs ≡ some b) × (deep_equal a b ≡ true))
      × (equal_fields as' bs ≡ true)
unfolding equal_fields
equal_fields-parts k a as' bs e =
    let (first, rest) =
      and_true (passes (λ b. deep_equal a b) (field_of k bs)) (equal_fields as' bs) e in
    (passes-some (λ b. deep_equal a b) (field_of k bs) first, rest)

equal_fields-join :
    (k : Text) (a b : Json) (as' bs : Fields)
    → field_of k bs ≡ some b
    → deep_equal a b ≡ true
    → equal_fields as' bs ≡ true
    → equal_fields (field k a as') bs ≡ true
unfolding equal_fields
equal_fields-join k a b as' bs e f g = rw (e, f, g) refl

field_of-count : (k : Text) (b : Json) (fs : Fields) → field_of k fs ≡ some b → 0 < count_fields fs
unfolding field_of
field_of-count k b no_fields e = cc
field_of-count k b (field j v fs) e = omega arith

-- The fields without the first of a key.
abbrev drop_field : Text → Fields → Fields
drop_field k no_fields = no_fields
drop_field k (field j v fs) =
    let rest = drop_field k fs in if text_eq j k then fs else field j v rest

count-drop_field :
    (k : Text) (v : Json) (fs : Fields)
    → field_of k fs ≡ some v
    → suc (count_fields (drop_field k fs)) ≡ count_fields fs
unfolding field_of
count-drop_field k v no_fields e = cc
count-drop_field k v (field j w fs) e = ground (arith, count-drop_field k v fs)

field_of-drop_field :
    (k j : Text) (fs : Fields) → j ≢ k → field_of j (drop_field k fs) ≡ field_of j fs
unfolding field_of
field_of-drop_field k j no_fields ne = refl
field_of-drop_field k j (field i w fs) ne =
    ground (arith, field_of-drop_field k j fs ne, text_eq_iff i k, text_eq_iff i j)

equal_fields-drop_field :
    (k : Text) (as' bs : Fields)
    → field_of k as' ≡ none
    → equal_fields as' bs ≡ true
    → equal_fields as' (drop_field k bs) ≡ true
unfolding field_of
equal_fields-drop_field k no_fields bs e h = unfold equal_fields in refl
equal_fields-drop_field k (field j a as') bs e h = elim (Bool-cases (text_eq j k)) [
  | inl same ↦ absurd (ground (arith, e, same))
  | inr other ↦
      let ((b, there, eq), rest) = equal_fields-parts j a as' bs h in
      let ne : j ≢ k = ground (arith, other, text_eq_iff j k) in
      equal_fields-join j a b as' (drop_field k bs) (field_of-drop_field k j bs ne ∙ there) eq
        (equal_fields-drop_field k as' bs (ground (arith, e, other)) rest)
]

-- Where a key is missing, the equal fields of the others do not fill an object that has it.
pub count-missing :
    (k : Text) (b : Json) (as' bs : Fields)
    → IsObject as'
    → equal_fields as' bs ≡ true
    → field_of k as' ≡ none
    → field_of k bs ≡ some b
    → count_fields as' < count_fields bs
unfolding field_of IsObject
count-missing k b no_fields bs w h e f = field_of-count k b bs f
count-missing k b (field j a as') bs (fresh, v, w) h e f = elim (Bool-cases (text_eq j k)) [
  | inl same ↦ absurd (ground (arith, e, same))
  | inr other ↦
      let ((c, there, eq), rest) = equal_fields-parts j a as' bs h in
      let ne : k ≢ j = ground (arith, other, text_eq_iff j k) in
      omega (
        arith,
        count-drop_field j c bs there,
        count-missing k b as' (drop_field j bs) w (equal_fields-drop_field j as' bs fresh rest)
            (ground (arith, e, other)) (field_of-drop_field j k bs ne ∙ f),
      )
]

abbrev pub item_of : ℕ → Items → Option Json
item_of n no_items = none
item_of zero (item x xs) = some x
item_of (suc n) (item x xs) = item_of n xs

pub nth-equal :
    (n : ℕ) (a : Json) (as' bs : Items)
    → equal_items as' bs ≡ true
    → item_of n as' ≡ some a
    → (b : Json) × (item_of n bs ≡ some b) × (deep_equal a b ≡ true)
unfolding equal_items
nth-equal n a no_items bs e f = cc
nth-equal n a (item c as') no_items e f = cc
nth-equal zero a (item c as') (item d bs) e f =
    let ca : c ≡ a = ground (arith, f) in
    (
      d,
      refl,
      ap (λ x. deep_equal x d) (sym ca) ∙ (and_true (deep_equal c d) (equal_items as' bs) e).0,
    )
nth-equal (suc n) a (item c as') (item d bs) e f =
    nth-equal n a as' bs (and_true (deep_equal c d) (equal_items as' bs) e).1 f

pub field-equal :
    (k : Text) (a : Json) (as' bs : Fields)
    → equal_fields as' bs ≡ true
    → field_of k as' ≡ some a
    → (b : Json) × (field_of k bs ≡ some b) × (deep_equal a b ≡ true)
unfolding field_of
field-equal k a no_fields bs e f = cc
field-equal k a (field j c as') bs e f =
    let ((b, there, eq), rest) = equal_fields-parts j c as' bs e in
    elim (Bool-cases (text_eq j k)) [
      | inl same ↦
          let jk : j ≡ k = (text_eq_iff j k).0 same in
          let ca : c ≡ a = ground (arith, f, same) in
          (b, ap (λ i. field_of i bs) (sym jk) ∙ there, ap (λ x. deep_equal x b) (sym ca) ∙ eq)
      | inr other ↦ field-equal k a as' bs rest (ground (arith, f, other))
    ]
