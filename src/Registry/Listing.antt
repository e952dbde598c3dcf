-- ===== src/Registry/Listing.antt =====
-- What `listGateways` of src/server/config_registry.js lists.
use collectivus.Prelude.{
  ◌≡◌, refl, ap, ◌∙◌, subst, inl, inr, Bool, true, false, ◌&&◌, ◌||◌, none, some, List, [], ◌∷◌,
  ◌++◌, Text, text, text_eq, text_eq_iff, arith, Bool-cases, Option-cases, if_cases, length,
  length-append, All,
}
use collectivus.Prelude.Maps.{lookup}
use collectivus.Enrollment.{is_valid_gateway_id}
use collectivus.Registry.{
  text_lt, Registry, config_file_for, is_there, strip_json, gateways_in, insert_text, sort_texts,
  list_gateways,
}
use collectivus.Registry.Sorted.{text_lt_irrefl, text_lt_trans, text_lt_total}

strip_json-suffix : strip_json (text ".json") ≡ some []
unfolding strip_json text_eq
strip_json-suffix = refl

pub strip_json-file : (g : Text) → strip_json (g ++ text ".json") ≡ some g
unfolding strip_json
strip_json-file [] = strip_json-suffix
strip_json-file (c ∷ g) = elim (Bool-cases (text_eq (c ∷ (g ++ text ".json")) (text ".json"))) [
  | inl e ↦ absurd (too_long ((text_eq_iff (c ∷ (g ++ text ".json")) (text ".json")).0 e))
  | inr e ↦ rw (e, strip_json-file g) refl
]
  where
    too_long : c ∷ (g ++ text ".json") ≡ text ".json" → ⊥
    too_long e = absurd (omega (arith, ap length e, length-append g (text ".json")))

strip_json-some : (name g : Text) → strip_json name ≡ some g → name ≡ g ++ text ".json"
unfolding strip_json
strip_json-some [] g e = cc
strip_json-some (c ∷ cs) g e = elim (Bool-cases (text_eq (c ∷ cs) (text ".json"))) [
  | inl same ↦
      let empty : [] ≡ g = ground (arith, e, same) in
      (text_eq_iff (c ∷ cs) (text ".json")).0 same ∙ ap (λ t. t ++ text ".json") empty
  | inr other ↦ elim (Option-cases (strip_json cs)) [
    | inl gone ↦ absurd (ground (arith, e, other, gone))
    | inr (h, found) ↦
        let longer : c ∷ h ≡ g = ground (arith, e, other, found) in
        ap (λ t. c ∷ t) (strip_json-some cs h found) ∙ ap (λ t. t ++ text ".json") longer
  ]
]

abbrev pub is_listed : Text → List Text → Bool
is_listed g [] = false
is_listed g (t ∷ ts) = text_eq t g || is_listed g ts

is_listed-insert_text :
    (g t : Text) (ts : List Text) → is_listed g (insert_text t ts) ≡ (text_eq t g || is_listed g ts)
unfolding insert_text
is_listed-insert_text g t [] = refl
is_listed-insert_text g t (s ∷ ss) = ground (arith, is_listed-insert_text g t ss)

is_listed-sort_texts : (g : Text) (ts : List Text) → is_listed g (sort_texts ts) ≡ is_listed g ts
unfolding sort_texts
is_listed-sort_texts g [] = refl
is_listed-sort_texts g (t ∷ ts) =
    is_listed-insert_text g t (sort_texts ts)
    ∙ ap (λ b. text_eq t g || b) (is_listed-sort_texts g ts)

-- The names of two files agree as their gateways do.
text_eq-file :
    (name g h : Text) → strip_json name ≡ some h → text_eq name (config_file_for g) ≡ text_eq h g
text_eq-file name g h found =
    ground (arith, text_eq_iff name (config_file_for g), text_eq_iff h g, there, back)
  where
    there : name ≡ config_file_for g → h ≡ g
    there e = ground (arith, found, strip_json-file g, ap strip_json e)

    back : h ≡ g → name ≡ config_file_for g
    back e = strip_json-some name h found ∙ ap config_file_for e

text_eq-no_file :
    (name g : Text) → strip_json name ≡ none → text_eq name (config_file_for g) ≡ false
text_eq-no_file name g gone =
    ground (arith, gone, text_eq_iff name (config_file_for g), strip_json-file g)

is_listed-gateways_in :
    (g : Text) (r : Registry)
    → is_listed g (gateways_in r)
      ≡ (is_valid_gateway_id g && is_there (lookup (config_file_for g) r))
unfolding gateways_in lookup
is_listed-gateways_in g [] = ground arith
is_listed-gateways_in g ((name, raw) ∷ r) = elim (Option-cases (strip_json name)) [
  | inl gone ↦ rw (gone, text_eq-no_file name g gone) (is_listed-gateways_in g r)
  | inr (h, found) ↦
      rw (found, text_eq-file name g h found)
        (ground (arith, text_eq_iff h g, is_listed-gateways_in g r))
]

text_lt_asym : (s t : Text) → text_lt s t ≡ true → text_lt t s ≡ false
text_lt_asym s t e = elim (Bool-cases (text_lt t s)) [
  | inl back ↦ absurd (ground (arith, text_lt_trans s t s e back, text_lt_irrefl s))
  | inr below ↦ below
]

text_lt_cotrans : (s t u : Text) → text_lt u s ≡ false → text_lt s t ≡ false → text_lt u t ≡ false
text_lt_cotrans s t u a b = elim (Bool-cases (text_lt u t)) [
  | inr below ↦ below
  | inl ut ↦ elim (Bool-cases (text_eq s t)) [
    | inl same ↦ subst (λ x. text_lt u x ≡ false) ((text_eq_iff s t).0 same) a
    | inr other ↦
        let ts = text_lt_total s t b (λ e. absurd (ground (arith, other, e, text_eq_iff s t))) in
        absurd (ground (arith, a, text_lt_trans u t s ut ts))
  ]
]

-- No text is above one behind it.
abbrev pub IsOrdered : List Text → Type 0
IsOrdered [] = Unit
IsOrdered (t ∷ ts) = All (λ s. text_lt s t ≡ false) ts × IsOrdered ts

All-insert_text :
    (s t : Text) (ts : List Text)
    → text_lt t s ≡ false
    → All (λ u. text_lt u s ≡ false) ts
    → All (λ u. text_lt u s ≡ false) (insert_text t ts)
unfolding insert_text
All-insert_text s t [] h a = (h, tt)
All-insert_text s t (u ∷ us) h (k, a) =
    if_cases (All (λ x. text_lt x s ≡ false)) (text_lt u t) _ _
      (λ e. (k, All-insert_text s t us h a)) λ e. (h, (k, a))

All-below :
    (s t : Text) (ts : List Text)
    → text_lt s t ≡ false
    → All (λ u. text_lt u s ≡ false) ts
    → All (λ u. text_lt u t ≡ false) ts
All-below s t [] h a = tt
All-below s t (u ∷ us) h (k, a) = (text_lt_cotrans s t u k h, All-below s t us h a)

IsOrdered-insert_text : (t : Text) (ts : List Text) → IsOrdered ts → IsOrdered (insert_text t ts)
unfolding insert_text
IsOrdered-insert_text t [] h = (tt, tt)
IsOrdered-insert_text t (s ∷ ss) (a, h) =
    if_cases IsOrdered (text_lt s t) _ _
      (λ e. (All-insert_text s t ss (text_lt_asym s t e) a, IsOrdered-insert_text t ss h))
      λ e. ((e, All-below s t ss e a), (a, h))

IsOrdered-sort_texts : (ts : List Text) → IsOrdered (sort_texts ts)
unfolding sort_texts
IsOrdered-sort_texts [] = tt
IsOrdered-sort_texts (t ∷ ts) = IsOrdered-insert_text t (sort_texts ts) (IsOrdered-sort_texts ts)

-- A gateway is listed if and only if its id is valid and its file is there, and the list is sorted.
pub list_gateways-IsOrdered :
    (r : Registry)
    → IsOrdered (list_gateways r)
      × ((g : Text)
          → is_listed g (list_gateways r)
            ≡ (is_valid_gateway_id g && is_there (lookup (config_file_for g) r)))
unfolding list_gateways
list_gateways-IsOrdered r = (
  IsOrdered-sort_texts (gateways_in r),
  λ g. is_listed-sort_texts g (gateways_in r) ∙ is_listed-gateways_in g r,
)
