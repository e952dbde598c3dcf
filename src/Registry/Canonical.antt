-- ===== src/Registry/Canonical.antt =====
-- The canonical JSON of src/server/config_registry.js, against `deepEqual` of
-- src/gateway/hot_reload.js.
use mathlib.Core.Option
use collectivus.Prelude.{
  ◌≡◌, refl, sym, ap, ap₂, ◌∙◌, subst, inl, inr, Bool, true, false, Option, none, some,
  if◌then◌else◌, Text, text, text_eq, text_eq_iff, arith, Bool-cases, Option-cases, if_cases,
}
use collectivus.Json.{
  Json, null, boolean, number, string, array, object, Items, no_items, item, Fields, no_fields,
  field, same_boolean, count_fields, field_of, deep_equal, equal_items, equal_fields, IsJson,
  AreJson, IsObject,
}
use collectivus.Json.Equal.{
  Alike, alike_null, alike_boolean, alike_number, alike_string, alike_array, alike_object,
  deep_equal-Alike,
}
use collectivus.Json.Objects.{and_true, equal_fields-parts, field-equal, count-missing}
use collectivus.Json.Paths.{field_of-IsJson}
use collectivus.Registry.{
  put_sorted, canonicalize, canonical_items, canonical_fields, Platform, canonical_json_string,
  compute_etag,
}
use collectivus.Registry.Sorted.{
  IsSorted, insert_sorted-IsSorted, field_of-insert_sorted, IsSorted-ext,
}

-- What the canonical object has at a key.
abbrev pub canonical_at : Text → Option Json → Option Json
canonical_at k o = if text_eq k (text "__proto__") then none else Option.map canonicalize o

pub canonical_at-none : (k : Text) → canonical_at k none ≡ none
canonical_at-none k = ground arith

put_sorted-IsSorted :
    (k : Text) (v : Json) (fs : Fields)
    → field_of k fs ≡ none
    → IsSorted fs
    → IsSorted (put_sorted k v fs)
put_sorted-IsSorted k v fs n s =
    if_cases IsSorted (text_eq k (text "__proto__")) _ _ (λ e. s)
      λ e. insert_sorted-IsSorted k v fs n s

field_of-put_sorted :
    (i k : Text) (v : Json) (fs : Fields) (rest : Fields)
    → field_of k rest ≡ none
    → field_of k fs ≡ canonical_at k (field_of k rest)
    → field_of i fs ≡ canonical_at i (field_of i rest)
    → field_of i (put_sorted k (canonicalize v) fs) ≡ canonical_at i (field_of i (field k v rest))
unfolding field_of
field_of-put_sorted i k v fs rest n hk hi = elim (Bool-cases (text_eq k (text "__proto__"))) [
  | inl e ↦ elim (Bool-cases (text_eq k i)) [
    | inl ki ↦ ground (arith, hi, e, ki, (text_eq_iff k i).0 ki)
    | inr ki ↦ ground (arith, hi, e, ki)
  ]
  | inr e ↦
      let fresh : field_of k fs ≡ none = hk ∙ ap (canonical_at k) n ∙ canonical_at-none k in
      let put = field_of-insert_sorted i k (canonicalize v) fs fresh in
      elim (Bool-cases (text_eq k i)) [
        | inl ki ↦ ground (arith, put, e, ki, (text_eq_iff k i).0 ki)
        | inr ki ↦ ground (arith, put, hi, e, ki)
      ]
]

pub field_of-canonical_fields :
    (i : Text) (fs : Fields)
    → IsObject fs
    → field_of i (canonical_fields fs) ≡ canonical_at i (field_of i fs)
unfolding canonicalize IsObject
field_of-canonical_fields i no_fields w = unfold field_of in ground arith
field_of-canonical_fields i (field k v fs) (fresh, u, w) =
    field_of-put_sorted i k v (canonical_fields fs) fs fresh (field_of-canonical_fields k fs w)
      (field_of-canonical_fields i fs w)

canonical_fields-IsSorted : (fs : Fields) → IsObject fs → IsSorted (canonical_fields fs)
unfolding canonicalize IsObject
canonical_fields-IsSorted no_fields w = tt
canonical_fields-IsSorted (field k v fs) (fresh, u, w) =
    put_sorted-IsSorted k (canonicalize v) (canonical_fields fs)
      (field_of-canonical_fields k fs w ∙ ap (canonical_at k) fresh ∙ canonical_at-none k)
      (canonical_fields-IsSorted fs w)

-- What is known of two objects whose values at equal keys are already compared.
canonical_at-equal :
    (as' bs : Fields)
    → IsObject as'
    → IsObject bs
    → count_fields as' ≡ count_fields bs
    → equal_fields as' bs ≡ true
    → ((i : Text) (a b : Json)
        → field_of i as' ≡ some a
        → field_of i bs ≡ some b
        → canonicalize a ≡ canonicalize b)
    → (i : Text)
    → Option.map canonicalize (field_of i as') ≡ Option.map canonicalize (field_of i bs)
canonical_at-equal as' bs u w c e same i = elim (Option-cases (field_of i as')) [
  | inl none_a ↦ elim (Option-cases (field_of i bs)) [
    | inl none_b ↦ ap (Option.map canonicalize) (none_a ∙ sym none_b)
    | inr (b, some_b) ↦ absurd (omega (arith, c, count-missing i b as' bs u e none_a some_b))
  ]
  | inr (a, some_a) ↦
      let (b, some_b, eq) = field-equal i a as' bs e some_a in
      ap (Option.map canonicalize) some_a
      ∙ ap some (same i a b some_a some_b)
      ∙ sym (ap (Option.map canonicalize) some_b)
]

canonical_fields-equal :
    (as' bs : Fields)
    → IsObject as'
    → IsObject bs
    → ((i : Text)
        → Option.map canonicalize (field_of i as') ≡ Option.map canonicalize (field_of i bs))
    → canonical_fields as' ≡ canonical_fields bs
canonical_fields-equal as' bs u w h =
    IsSorted-ext (canonical_fields as') (canonical_fields bs) (canonical_fields-IsSorted as' u)
      (canonical_fields-IsSorted bs w)
      λ i.
        field_of-canonical_fields i as' u
        ∙ ap (λ o. if text_eq i (text "__proto__") then none else o) (h i)
        ∙ sym (field_of-canonical_fields i bs w)

same_boolean-eq : (p q : Bool) → same_boolean p q ≡ true → p ≡ q
unfolding same_boolean
same_boolean-eq true q e = sym e
same_boolean-eq false true e = cc
same_boolean-eq false false e = refl

-- The shape of a value that equals a scalar, an array or an object.
Shape : Json → Json → Type 0
Shape (array as') b = (bs : Items) × (b ≡ array bs) × (equal_items as' bs ≡ true)
Shape (object as') b =
    (bs : Fields) × (b ≡ object bs)
    × (count_fields as' ≡ count_fields bs)
    × (equal_fields as' bs ≡ true)
Shape a b = a ≡ b

Alike-Shape : (a b : Json) → Alike a b → Shape a b
unfolding Shape
Alike-Shape _ _ alike_null = refl
Alike-Shape _ _ (alike_boolean p q e) = ap boolean (same_boolean-eq p q e)
Alike-Shape _ _ (alike_number p q e) = ap number e
Alike-Shape _ _ (alike_string p q e) = ap string e
Alike-Shape _ _ (alike_array p q e) = (q, refl, e)
Alike-Shape _ _ (alike_object p q c e) = (q, refl, c, e)

deep_equal-Shape : (a b : Json) → deep_equal a b ≡ true → Shape a b
deep_equal-Shape a b e = Alike-Shape a b (deep_equal-Alike a b e)

pub field_of-no_fields : (i : Text) (a : Json) → field_of i no_fields ≡ some a → ⊥
unfolding field_of
field_of-no_fields i a f = cc

field_of-head :
    (k i : Text) (v a : Json) (as' : Fields)
    → text_eq k i ≡ true
    → field_of i (field k v as') ≡ some a
    → v ≡ a
unfolding field_of
field_of-head k i v a as' same f = ground (arith, f, same)

field_of-tail :
    (k i : Text) (v a : Json) (as' : Fields)
    → text_eq k i ≡ false
    → field_of i (field k v as') ≡ some a
    → field_of i as' ≡ some a
unfolding field_of
field_of-tail k i v a as' other f = ground (arith, f, other)

field_of_unique :
    (k i : Text) (c b : Json) (bs : Fields)
    → k ≡ i
    → field_of k bs ≡ some c
    → field_of i bs ≡ some b
    → c ≡ b
field_of_unique k i c b bs ki f g = cc

mutual
  unfolding canonicalize deep_equal IsJson Shape

  pub canonicalize-equal :
      (a b : Json) → IsJson a → IsJson b → deep_equal a b ≡ true → canonicalize a ≡ canonicalize b
  canonicalize-equal null b u w e = ap canonicalize (deep_equal-Shape null b e)
  canonicalize-equal (boolean p) b u w e = ap canonicalize (deep_equal-Shape (boolean p) b e)
  canonicalize-equal (number p) b u w e = ap canonicalize (deep_equal-Shape (number p) b e)
  canonicalize-equal (string p) b u w e = ap canonicalize (deep_equal-Shape (string p) b e)
  canonicalize-equal (array as') b u w e =
      let (bs, shape, es) = deep_equal-Shape (array as') b e in
      ap array (canonical_items-equal as' bs u (subst (λ j. IsJson j) shape w) es)
      ∙ sym (ap canonicalize shape)
  canonicalize-equal (object as') b u w e =
      let (bs, shape, c, es) = deep_equal-Shape (object as') b e in
      let w' : IsObject bs = subst (λ j. IsJson j) shape w in
      ap object (
        canonical_fields-equal as' bs u w'
          (canonical_at-equal as' bs u w' c es (canonical_field-equal as' bs u w' es)))
      ∙ sym (ap canonicalize shape)

  canonical_items-equal :
      (as' bs : Items)
      → AreJson as'
      → AreJson bs
      → equal_items as' bs ≡ true
      → canonical_items as' ≡ canonical_items bs
  canonical_items-equal no_items no_items u w e = refl
  canonical_items-equal no_items (item b bs) u w e = cc
  canonical_items-equal (item a as') no_items u w e = cc
  canonical_items-equal (item a as') (item b bs) (u, us) (w, ws) e =
      let (h, t) = and_true (deep_equal a b) (equal_items as' bs) e in
      ap₂ item (canonicalize-equal a b u w h) (canonical_items-equal as' bs us ws t)

  canonical_field-equal :
      (as' bs : Fields)
      → IsObject as'
      → IsObject bs
      → equal_fields as' bs ≡ true
      → (i : Text) (a b : Json) → field_of i as' ≡ some a
      → field_of i bs ≡ some b
      → canonicalize a ≡ canonicalize b
  canonical_field-equal no_fields bs u w e i a b f g = absurd (field_of-no_fields i a f)
  canonical_field-equal (field k v as') bs (fresh, v', u) w e i a b f g =
      let ((c, there, eq), rest) = equal_fields-parts k v as' bs e in
      elim (Bool-cases (text_eq k i)) [
        | inl same ↦
            ap canonicalize (sym (field_of-head k i v a as' same f))
            ∙ canonicalize-equal v c v' (field_of-IsJson k c bs w there) eq
            ∙ ap canonicalize (field_of_unique k i c b bs ((text_eq_iff k i).0 same) there g)
        | inr other ↦
            canonical_field-equal as' bs u w rest i a b (field_of-tail k i v a as' other f) g
      ]

-- Two configurations that `deepEqual` takes for equal have the same ETag.
pub compute_etag-deep_equal :
    (p : Platform) (a b : Json)
    → IsJson a
    → IsJson b
    → deep_equal a b ≡ true
    → compute_etag p a ≡ compute_etag p b
unfolding compute_etag canonical_json_string
compute_etag-deep_equal p a b u w e =
    ap (λ j. p.sha256 (p.stringify j)) (canonicalize-equal a b u w e)
