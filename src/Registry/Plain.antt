-- ===== src/Registry/Plain.antt =====
-- Configurations without a key `__proto__`: the canonical JSON of src/server/config_registry.js
-- keeps all of them.
use collectivus.Prelude.{
  suc, ◌≡◌, refl, ap, ◌∙◌, subst, inl, inr, Bool, true, false, none, some, Text, text, text_eq,
  text_eq_iff, text_eq_refl, arith, Bool-cases, if_cases,
}
use collectivus.Json.{
  Json, null, boolean, number, string, array, object, Items, no_items, item, Fields, no_fields,
  field, same_boolean, count_fields, field_of, deep_equal, equal_items, equal_fields, IsJson,
  AreJson, IsObject,
}
use collectivus.Registry.{
  text_lt, insert_sorted, put_sorted, canonicalize, canonical_items, canonical_fields,
}
use collectivus.Registry.Sorted.{field_of-fresh, field_of-insert_sorted}
use collectivus.Registry.Canonical.{canonical_at, canonical_at-none, field_of-canonical_fields}

-- No object has the key `__proto__`.
unfoldable mutual
  pub IsPlain : Json → Type 0
  IsPlain (array xs) = ArePlain xs
  IsPlain (object fs) = IsPlainObject fs
  IsPlain _ = Unit

  pub ArePlain : Items → Type 0
  ArePlain no_items = Unit
  ArePlain (item x xs) = IsPlain x × ArePlain xs

  pub IsPlainObject : Fields → Type 0
  IsPlainObject no_fields = Unit
  IsPlainObject (field k v fs) =
      (text_eq k (text "__proto__") ≡ false) × IsPlain v × IsPlainObject fs

count-insert_sorted :
    (k : Text) (v : Json) (fs : Fields)
    → count_fields (insert_sorted k v fs) ≡ suc (count_fields fs)
unfolding insert_sorted
count-insert_sorted k v no_fields = refl
count-insert_sorted k v (field j w fs) = ground (arith, count-insert_sorted k v fs)

count-canonical_fields :
    (fs : Fields) → IsPlainObject fs → count_fields (canonical_fields fs) ≡ count_fields fs
unfolding canonicalize IsPlain
count-canonical_fields no_fields h = refl
count-canonical_fields (field k v fs) (e, p, h) = ground (
  arith,
  e,
  count-insert_sorted k (canonicalize v) (canonical_fields fs),
  count-canonical_fields fs h,
)

-- The object has the canonical form of each value of the first.
Kept : Fields → Fields → Type 0
Kept fs cs = (k : Text) (v : Json) → field_of k fs ≡ some v → field_of k cs ≡ some (canonicalize v)

Kept-tail :
    (j : Text) (u : Json) (fs cs : Fields)
    → field_of j fs ≡ none
    → Kept (field j u fs) cs
    → Kept fs cs
unfolding Kept field_of
Kept-tail j u fs cs fresh h k v e = elim (Bool-cases (text_eq j k)) [
  | inl same ↦ absurd (ground (arith, e, fresh, same, (text_eq_iff j k).0 same))
  | inr other ↦ h k v (ground (arith, e, other))
]

plain_key :
    (k : Text) (v : Json) (fs : Fields)
    → IsPlainObject fs
    → field_of k fs ≡ some v
    → text_eq k (text "__proto__") ≡ false
unfolding field_of IsPlain
plain_key k v no_fields p e = cc
plain_key k v (field j u fs) (n, q, p) e = elim (Bool-cases (text_eq j k)) [
  | inl same ↦ subst (λ t. text_eq t (text "__proto__") ≡ false) ((text_eq_iff j k).0 same) n
  | inr other ↦ plain_key k v fs p (ground (arith, e, other))
]

canonical_at_plain :
    (k : Text) (v : Json)
    → text_eq k (text "__proto__") ≡ false
    → canonical_at k (some v) ≡ some (canonicalize v)
canonical_at_plain k v e = rw e refl

canonical_fields-Kept :
    (fs : Fields) → IsObject fs → IsPlainObject fs → Kept fs (canonical_fields fs)
unfolding Kept
canonical_fields-Kept fs w p k v e =
    field_of-canonical_fields k fs w
    ∙ ap (canonical_at k) e
    ∙ canonical_at_plain k v (plain_key k v fs p e)

Kept-head :
    (k : Text) (v : Json) (fs cs : Fields)
    → Kept (field k v fs) cs
    → field_of k cs ≡ some (canonicalize v)
unfolding Kept field_of
Kept-head k v fs cs h = h k v (ground (arith, text_eq_refl k))

same_boolean_refl : (b : Bool) → same_boolean b b ≡ true
unfolding same_boolean
same_boolean_refl true = refl
same_boolean_refl false = refl

mutual
  unfolding canonicalize deep_equal IsJson IsPlain

  -- A configuration equals its canonical form.
  pub deep_equal-canonicalize :
      (a : Json) → IsJson a → IsPlain a → deep_equal a (canonicalize a) ≡ true
  deep_equal-canonicalize null w p = refl
  deep_equal-canonicalize (boolean b) w p = same_boolean_refl b
  deep_equal-canonicalize (number n) w p = ground arith
  deep_equal-canonicalize (string s) w p = text_eq_refl s
  deep_equal-canonicalize (array xs) w p = equal_items-canonical xs w p
  deep_equal-canonicalize (object fs) w p =
      rw
        (
          count-canonical_fields fs p,
          equal_fields-canonical fs (canonical_fields fs) w p (canonical_fields-Kept fs w p),
        )
        (ground arith)

  equal_items-canonical :
      (xs : Items) → AreJson xs → ArePlain xs → equal_items xs (canonical_items xs) ≡ true
  equal_items-canonical no_items w p = refl
  equal_items-canonical (item x xs) (w, ws) (p, ps) =
      rw (deep_equal-canonicalize x w p, equal_items-canonical xs ws ps) refl

  equal_fields-canonical :
      (fs cs : Fields) → IsObject fs → IsPlainObject fs → Kept fs cs → equal_fields fs cs ≡ true
  equal_fields-canonical no_fields cs w p h = refl
  equal_fields-canonical (field k v fs) cs (fresh, u, w) (n, q, p) h =
      rw
        (
          Kept-head k v fs cs h,
          deep_equal-canonicalize v u q,
          equal_fields-canonical fs cs w p (Kept-tail k v fs cs fresh h),
        )
        refl

insert_sorted-IsObject :
    (k : Text) (v : Json) (fs : Fields)
    → field_of k fs ≡ none
    → IsJson v
    → IsObject fs
    → IsObject (insert_sorted k v fs)
unfolding insert_sorted IsJson
insert_sorted-IsObject k v no_fields n u w = (unfold field_of in refl, u, tt)
insert_sorted-IsObject k v (field j x fs) n u (fresh, ux, w) =
    if_cases IsObject (text_lt k j) _ _ (λ e. (n, u, (fresh, ux, w)))
      λ e.
        let (apart, other) = field_of-fresh k j x fs n in
        (
          unfold field_of in
              ground (arith, fresh, apart, text_eq_iff k j, field_of-insert_sorted j k v fs other),
          ux,
          insert_sorted-IsObject k v fs other u w,
        )

put_sorted-IsObject :
    (k : Text) (v : Json) (fs : Fields)
    → field_of k fs ≡ none
    → IsJson v
    → IsObject fs
    → IsObject (put_sorted k v fs)
put_sorted-IsObject k v fs n u w =
    if_cases IsObject (text_eq k (text "__proto__")) _ _ (λ e. w)
      λ e. insert_sorted-IsObject k v fs n u w

mutual
  unfolding canonicalize IsJson

  pub canonicalize-IsJson : (a : Json) → IsJson a → IsJson (canonicalize a)
  canonicalize-IsJson null w = tt
  canonicalize-IsJson (boolean b) w = tt
  canonicalize-IsJson (number n) w = tt
  canonicalize-IsJson (string s) w = tt
  canonicalize-IsJson (array xs) w = canonical_items-AreJson xs w
  canonicalize-IsJson (object fs) w = canonical_fields-IsObject fs w

  canonical_items-AreJson : (xs : Items) → AreJson xs → AreJson (canonical_items xs)
  canonical_items-AreJson no_items w = tt
  canonical_items-AreJson (item x xs) (w, ws) =
      (canonicalize-IsJson x w, canonical_items-AreJson xs ws)

  canonical_fields-IsObject : (fs : Fields) → IsObject fs → IsObject (canonical_fields fs)
  canonical_fields-IsObject no_fields w = tt
  canonical_fields-IsObject (field k v fs) (fresh, u, w) =
      put_sorted-IsObject k (canonicalize v) (canonical_fields fs)
        (field_of-canonical_fields k fs w ∙ ap (canonical_at k) fresh ∙ canonical_at-none k)
        (canonicalize-IsJson v u) (canonical_fields-IsObject fs w)
