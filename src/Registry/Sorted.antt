-- ===== src/Registry/Sorted.antt =====
-- Objects whose keys are sorted, for the canonical JSON of src/server/config_registry.js.
use collectivus.Prelude.{
  ◌≡◌, ◌≢◌, refl, sym, ap, ap₂, ◌∙◌, inl, inr, true, false, none, some, [], ◌∷◌, ◌==◌,
  if◌then◌else◌, Text, text_eq, text_eq_iff, text_eq_refl, arith, Bool-cases, if_cases, subst,
}
use collectivus.Json.{Json, Fields, no_fields, field, field_of}
use collectivus.Registry.{text_lt, insert_sorted}

pub text_lt_irrefl : (a : Text) → text_lt a a ≡ false
unfolding text_lt
text_lt_irrefl [] = refl
text_lt_irrefl (c ∷ a) = ground (arith, text_lt_irrefl a)

pub text_lt_trans : (a b c : Text) → text_lt a b ≡ true → text_lt b c ≡ true → text_lt a c ≡ true
unfolding text_lt
text_lt_trans [] [] c h k = cc
text_lt_trans [] (y ∷ b) [] h k = cc
text_lt_trans [] (y ∷ b) (z ∷ c) h k = refl
text_lt_trans (x ∷ a) [] c h k = cc
text_lt_trans (x ∷ a) (y ∷ b) [] h k = cc
text_lt_trans (x ∷ a) (y ∷ b) (z ∷ c) h k = ground (arith, text_lt_trans a b c)

-- Of two different texts the one that is not below is above.
pub text_lt_total : (a b : Text) → text_lt a b ≡ false → a ≢ b → text_lt b a ≡ true
unfolding text_lt
text_lt_total [] [] h n = absurd (n refl)
text_lt_total [] (y ∷ b) h n = cc
text_lt_total (x ∷ a) [] h n = refl
text_lt_total (x ∷ a) (y ∷ b) h n = elim (Bool-cases (x == y)) [
  | inl e ↦
      let xy : x ≡ y = ground arith in
      ground (arith, text_lt_total a b (ground arith) (λ s. n (ap₂ ◌∷◌ xy s)))
  | inr e ↦ ground arith
]

-- The key is below all of an object's.
abbrev pub IsBelow : Text → Fields → Type 0
IsBelow k no_fields = Unit
IsBelow k (field j v fs) = (text_lt k j ≡ true) × IsBelow k fs

abbrev pub IsSorted : Fields → Type 0
IsSorted no_fields = Unit
IsSorted (field k v fs) = IsBelow k fs × IsSorted fs

IsBelow-trans : (k j : Text) (fs : Fields) → text_lt k j ≡ true → IsBelow j fs → IsBelow k fs
IsBelow-trans k j no_fields h b = tt
IsBelow-trans k j (field i v fs) h (hi, b) = (text_lt_trans k j i h hi, IsBelow-trans k j fs h b)

field_of-IsBelow : (k : Text) (fs : Fields) → IsBelow k fs → field_of k fs ≡ none
unfolding field_of
field_of-IsBelow k no_fields b = refl
field_of-IsBelow k (field j v fs) (h, b) = elim (Bool-cases (text_eq j k)) [
  | inl e ↦
      let same = (text_eq_iff j k).0 e in
      absurd (true-ne-false (subst (λ t. text_lt k t ≡ true) same h) (text_lt_irrefl k))
  | inr e ↦ rw e (field_of-IsBelow k fs b)
]
  where
    true-ne-false : text_lt k k ≡ true → text_lt k k ≡ false → ⊥
    true-ne-false p q = cc

pub field_of-fresh :
    (k j : Text) (w : Json) (fs : Fields)
    → field_of k (field j w fs) ≡ none
    → (k ≢ j) × (field_of k fs ≡ none)
unfolding field_of
field_of-fresh k j w fs n = elim (Bool-cases (text_eq j k)) [
  | inl e ↦ absurd (none-ne-some (rw e at n))
  | inr e ↦ ((λ s. absurd (ground (arith, text_eq_iff j k, e, s))), ground arith)
]
  where
    none-ne-some : some w ≡ none → ⊥
    none-ne-some q = cc

insert_sorted-IsBelow :
    (i k : Text) (v : Json) (fs : Fields)
    → text_lt i k ≡ true
    → IsBelow i fs
    → IsBelow i (insert_sorted k v fs)
unfolding insert_sorted
insert_sorted-IsBelow i k v no_fields h b = (h, tt)
insert_sorted-IsBelow i k v (field j w fs) h (hj, b) =
    if_cases (IsBelow i) (text_lt k j) _ _ (λ e. (h, (hj, b)))
      λ e. (hj, insert_sorted-IsBelow i k v fs h b)

pub insert_sorted-IsSorted :
    (k : Text) (v : Json) (fs : Fields)
    → field_of k fs ≡ none
    → IsSorted fs
    → IsSorted (insert_sorted k v fs)
unfolding insert_sorted
insert_sorted-IsSorted k v no_fields n s = (tt, tt)
insert_sorted-IsSorted k v (field j w fs) n (b, s) =
    if_cases IsSorted (text_lt k j) _ _ (λ e. ((e, IsBelow-trans k j fs e b), (b, s)))
      λ e.
        let (apart, fresh) = field_of-fresh k j w fs n in
        (
          insert_sorted-IsBelow j k v fs (text_lt_total k j e apart) b,
          insert_sorted-IsSorted k v fs fresh s,
        )

-- Reading a key of an object in which another was put.
pub field_of-insert_sorted :
    (i k : Text) (v : Json) (fs : Fields)
    → field_of k fs ≡ none
    → field_of i (insert_sorted k v fs) ≡ (if text_eq k i then some v else field_of i fs)
unfolding field_of insert_sorted
field_of-insert_sorted i k v no_fields n = refl
field_of-insert_sorted i k v (field j w fs) n =
    ground
      (arith, n, text_eq_iff j k, text_eq_iff j i, text_eq_iff k i, field_of-insert_sorted i k v fs)

-- Sorted objects with the same value at every key are equal.
head_eq :
    (k j : Text) (v w : Json) (as' bs : Fields)
    → IsBelow k as'
    → IsBelow j bs
    → ((i : Text) → field_of i (field k v as') ≡ field_of i (field j w bs))
    → k ≡ j
unfolding field_of
head_eq k j v w as' bs ha hb h = elim (Bool-cases (text_eq k j)) [
  | inl e ↦ (text_eq_iff k j).0 e
  | inr e ↦ elim (Bool-cases (text_lt k j)) [
    | inl lt ↦ absurd (
        ground (
          arith,
          h k,
          e,
          text_eq_refl k,
          text_eq_iff j k,
          text_eq_iff k j,
          field_of-IsBelow k bs (IsBelow-trans k j bs lt hb),
        ))
    | inr ge ↦
        let gt = text_lt_total k j ge (λ s. absurd (ground (arith, e, s, text_eq_iff k j))) in
        absurd (
          ground (
            arith,
            h j,
            e,
            text_eq_refl j,
            text_eq_iff j k,
            text_eq_iff k j,
            field_of-IsBelow j as' (IsBelow-trans j k as' gt ha),
          ))
  ]
]

pub IsSorted-ext :
    (as' bs : Fields)
    → IsSorted as'
    → IsSorted bs
    → ((i : Text) → field_of i as' ≡ field_of i bs)
    → as' ≡ bs
unfolding field_of
IsSorted-ext no_fields no_fields sa sb h = refl
IsSorted-ext no_fields (field j w bs) sa sb h = absurd (ground (arith, h j, text_eq_refl j))
IsSorted-ext (field k v as') no_fields sa sb h = absurd (ground (arith, h k, text_eq_refl k))
IsSorted-ext (field k v as') (field j w bs) (ha, sa) (hb, sb) h =
    let kj : k ≡ j = head_eq k j v w as' bs ha hb h in
    let vw : v ≡ w = ground (arith, h k, kj, text_eq_refl k) in
    let tails : (i : Text) → field_of i as' ≡ field_of i bs = λ i. tail_eq i kj in
    ap₂ (λ t r. field t v r) kj (IsSorted-ext as' bs sa sb tails) ∙ ap (λ u. field j u bs) vw
  where
    tail_eq : (i : Text) → k ≡ j → field_of i as' ≡ field_of i bs
    tail_eq i kj = elim (Bool-cases (text_eq k i)) [
      | inl e ↦
          let ki = (text_eq_iff k i).0 e in
          subst (λ t. field_of t as' ≡ none) ki (field_of-IsBelow k as' ha)
          ∙ sym (subst (λ t. field_of t bs ≡ none) (sym kj ∙ ki) (field_of-IsBelow j bs hb))
      | inr e ↦ ground (arith, h i, e, kj)
    ]
