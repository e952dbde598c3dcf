-- ===== src/Dedup/Recency.antt =====
-- The bounded set of src/gascity/dedup.js against the history of what was seen.
use collectivus.Prelude.{
  ℕ, zero, suc, ◌-◌, ◌≤◌, ◌≡◌, refl, sym, ap, ◌∙◌, true, false, not, ◌||◌, List, [], ◌∷◌, ◌++◌, ltb,
  length, length-append, take, drop, Text, text_eq, text_eq_iff, arith, Bool-cases, inl, inr,
}
use collectivus.Dedup.{has, delete, evict, observe}

abbrev pub rev : List Text → List Text
rev [] = []
rev (x ∷ xs) = rev xs ++ x ∷ []

-- The uuids of a history without repetition, the one seen last first; the history begins with the
-- last one too.
abbrev pub recent : List Text → List Text
recent [] = []
recent (u ∷ history) = u ∷ delete u (recent history)

has-append : (u : Text) (xs ys : List Text) → has u (xs ++ ys) ≡ (has u xs || has u ys)
has-append u [] ys = refl
has-append u (x ∷ xs) ys = ground (arith, has-append u xs ys)

has-rev : (u : Text) (xs : List Text) → has u (rev xs) ≡ has u xs
has-rev u [] = refl
has-rev u (x ∷ xs) = ground (arith, has-append u (rev xs) (x ∷ []), has-rev u xs)

delete-append : (u : Text) (xs ys : List Text) → delete u (xs ++ ys) ≡ delete u xs ++ delete u ys
delete-append u [] ys = refl
delete-append u (x ∷ xs) ys = elim (Bool-cases (text_eq x u)) [
  | inl e ↦ rw e (delete-append u xs ys)
  | inr e ↦ rw e (ap (λ r. x ∷ r) (delete-append u xs ys))
]

append_nil : (xs : List Text) → xs ++ [] ≡ xs
append_nil [] = refl
append_nil (x ∷ xs) = ap (λ r. x ∷ r) (append_nil xs)

delete-rev : (u : Text) (xs : List Text) → delete u (rev xs) ≡ rev (delete u xs)
delete-rev u [] = refl
delete-rev u (x ∷ xs) = elim (Bool-cases (text_eq x u)) [
  | inl e ↦
      rw e (
        delete-append u (rev xs) (x ∷ []) ∙ rw e (append_nil (delete u (rev xs)) ∙ delete-rev u xs))
  | inr e ↦
      rw e (delete-append u (rev xs) (x ∷ []) ∙ rw e (ap (λ r. r ++ x ∷ []) (delete-rev u xs)))
]

length-rev : (xs : List Text) → length (rev xs) ≡ length xs
length-rev [] = refl
length-rev (x ∷ xs) = omega (arith, length-append (rev xs) (x ∷ []), length-rev xs)

evict-drop : (limit : ℕ) (xs : List Text) → evict limit xs ≡ drop (length xs - limit) xs
evict-drop limit [] = ground arith
evict-drop limit (x ∷ xs) = elim (Bool-cases (ltb limit (suc (length xs)))) [
  | inl e ↦
      let one : suc (length xs) - limit ≡ suc (length xs - limit) = ground (arith, e) in
      rw (e, one) (evict-drop limit xs)
  | inr e ↦ let none' : suc (length xs) - limit ≡ 0 = ground (arith, e) in rw (e, none') refl
]

drop-append : (n : ℕ) (xs ys : List Text) → n ≤ length xs → drop n (xs ++ ys) ≡ drop n xs ++ ys
drop-append zero xs ys h = refl
drop-append (suc n) [] ys h = absurd (omega (arith, h))
drop-append (suc n) (x ∷ xs) ys h = drop-append n xs ys (omega (arith, h))

drop-all : (xs : List Text) → drop (length xs) xs ≡ []
drop-all [] = refl
drop-all (x ∷ xs) = drop-all xs

drop-rev : (limit : ℕ) (xs : List Text) → drop (length xs - limit) (rev xs) ≡ rev (take limit xs)
drop-rev zero xs =
    let same : length xs - 0 ≡ length (rev xs) = omega (arith, length-rev xs) in
    rw same (drop-all (rev xs))
drop-rev (suc m) [] = ground arith
drop-rev (suc m) (x ∷ xs) =
    let same : suc (length xs) - suc m ≡ length xs - m = omega arith in
    rw same (
      drop-append (length xs - m) (rev xs) (x ∷ []) (omega (arith, length-rev xs))
      ∙ ap (λ r. r ++ x ∷ []) (drop-rev m xs))

evict-rev : (limit : ℕ) (xs : List Text) → evict limit (rev xs) ≡ rev (take limit xs)
evict-rev limit xs =
    evict-drop limit (rev xs)
    ∙ ap (λ n. drop (n - limit) (rev xs)) (length-rev xs)
    ∙ drop-rev limit xs

has-delete : (u : Text) (xs : List Text) → has u (delete u xs) ≡ false
has-delete u [] = refl
has-delete u (x ∷ xs) = ground (arith, has-delete u xs)

delete-absent : (u : Text) (xs : List Text) → has u xs ≡ false → delete u xs ≡ xs
delete-absent u [] e = refl
delete-absent u (x ∷ xs) e = ground (arith, delete-absent u xs)

has-delete_other : (u v : Text) (xs : List Text) → has v xs ≡ false → has v (delete u xs) ≡ false
has-delete_other u v [] e = refl
has-delete_other u v (x ∷ xs) e = ground (arith, has-delete_other u v xs)

-- No uuid stands twice.
abbrev Once : List Text → Type 0
Once [] = Unit
Once (x ∷ xs) = (has x xs ≡ false) × Once xs

delete-Once : (u : Text) (xs : List Text) → Once xs → Once (delete u xs)
delete-Once u [] h = tt
delete-Once u (x ∷ xs) (e, h) = elim (Bool-cases (text_eq x u)) [
  | inl k ↦ rw k (delete-Once u xs h)
  | inr k ↦ rw k (has-delete_other u x xs e, delete-Once u xs h)
]

recent-Once : (history : List Text) → Once (recent history)
recent-Once [] = tt
recent-Once (u ∷ history) =
    (has-delete u (recent history), delete-Once u (recent history) (recent-Once history))

has-take : (u : Text) (n : ℕ) (xs : List Text) → has u xs ≡ false → has u (take n xs) ≡ false
has-take u zero xs e = refl
has-take u (suc n) [] e = refl
has-take u (suc n) (x ∷ xs) e = ground (arith, has-take u n xs)

further :
    (u x : Text) (n : ℕ) (xs : List Text)
    → ((m : ℕ) → has u (take (suc m) xs) ≡ true → take m (delete u xs) ≡ delete u (take (suc m) xs))
    → has u (take n xs) ≡ true
    → take n (x ∷ delete u xs) ≡ x ∷ delete u (take n xs)
further u x zero xs ih e = cc
further u x (suc m) xs ih e = ap (λ r. x ∷ r) (ih m e)

-- Deleting a uuid that is among the first makes room for none.
take-delete_present :
    (u : Text) (n : ℕ) (xs : List Text)
    → Once xs
    → has u (take (suc n) xs) ≡ true
    → take n (delete u xs) ≡ delete u (take (suc n) xs)
take-delete_present u n [] h e = cc
take-delete_present u n (x ∷ xs) (out, h) e = elim (Bool-cases (text_eq x u)) [
  | inl k ↦
      let fresh : has u xs ≡ false = ap (λ v. has v xs) (sym ((text_eq_iff x u).0 k)) ∙ out in
      rw k (
        ap (take n) (delete-absent u xs fresh)
        ∙ sym (delete-absent u (take n xs) (has-take u n xs fresh)))
  | inr k ↦ rw k (further u x n xs (λ m i. take-delete_present u m xs h i) (rw k at e))
]

take-delete_absent :
    (u : Text) (n : ℕ) (xs : List Text)
    → has u (take n xs) ≡ false
    → take n (delete u xs) ≡ take n xs
take-delete_absent u zero xs e = refl
take-delete_absent u (suc n) [] e = refl
take-delete_absent u (suc n) (x ∷ xs) e = elim (Bool-cases (text_eq x u)) [
  | inl k ↦ absurd (ground (arith, e, k))
  | inr k ↦ rw k (ap (λ r. x ∷ r) (take-delete_absent u n xs (rw k at e)))
]

take-take : (n : ℕ) (xs : List Text) → take n (take (suc n) xs) ≡ take n xs
take-take zero xs = refl
take-take (suc n) [] = refl
take-take (suc n) (x ∷ xs) = ap (λ r. x ∷ r) (take-take n xs)

has-take_less :
    (u : Text) (n : ℕ) (xs : List Text)
    → has u (take (suc n) xs) ≡ false
    → has u (take n xs) ≡ false
has-take_less u zero xs e = refl
has-take_less u (suc n) [] e = refl
has-take_less u (suc n) (x ∷ xs) e = ground (arith, has-take_less u n xs)

-- The set is the most recent uuids of the history, as many as the limit allows, the oldest first;
-- so an observation is new exactly if its uuid is none of those, and the set is then that of the
-- longer history. In particular the set never outgrows the limit, which is not 0.
pub observe-recent :
    (limit : ℕ) (u : Text) (history : List Text)
    → 1 ≤ limit
    → observe limit u (rev (take limit (recent history)))
      ≡ (not (has u (take limit (recent history))), rev (take limit (recent (u ∷ history))))
unfolding observe
observe-recent zero u history h = absurd (omega (arith, h))
observe-recent (suc n) u history h =
    let known = take (suc n) (recent history) in
    elim (Bool-cases (has u known)) [
      | inl e ↦
          let same : has u (rev known) ≡ true = has-rev u known ∙ e in
          rw (same, e, take-delete_present u n (recent history) (recent-Once history) e)
            (ap (λ r. (false, r ++ u ∷ [])) (delete-rev u known))
      | inr e ↦
          let same : has u (rev known) ≡ false = has-rev u known ∙ e in
          let rest : take n known ≡ take n (delete u (recent history)) =
            take-take n (recent history)
            ∙ sym
                (take-delete_absent u n (recent history) (has-take_less u n (recent history) e)) in
          rw (same, e)
            (ap (λ r. (true, r)) (evict-rev (suc n) (u ∷ known) ∙ ap (λ r. rev (u ∷ r)) rest))
    ]
