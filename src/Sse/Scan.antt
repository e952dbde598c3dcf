-- ===== src/Sse/Scan.antt =====
-- The separator search of src/sse.js as one scan, and its locality.
use mathlib.Core.Option
use collectivus.Prelude.{
  ℕ, suc, ◌+◌, ◌≤◌, ◌<◌, ◌≡◌, true, false, Option, none, some, [], ◌∷◌, ◌++◌, ◌==◌, if◌then◌else◌,
  length, Text, arith, refl, Option-cases, inl, inr, Bool-cases, ap, ◌∙◌, ◌≢◌,
}
use collectivus.Sse.{lf, cr, starts_with, index_of, nearer, find_separator}

-- The length of the terminator that a text begins with, or 0.
unfoldable pub head_sep : Text → ℕ
head_sep s =
    if starts_with s (lf ∷ lf ∷ [])
    then 2
    else if starts_with s (cr ∷ lf ∷ cr ∷ lf ∷ [])
    then 4
    else 0

abbrev pub shift : Option (ℕ × ℕ) → Option (ℕ × ℕ)
shift none = none
shift (some (i, l)) = some (suc i, l)

abbrev pub scan : Text → Option (ℕ × ℕ)
scan [] = none
scan (c ∷ s) =
    let later = shift (scan s) in
    if head_sep (c ∷ s) == 0 then later else some (0, head_sep (c ∷ s))

nearer-suc : (a b : Option ℕ) → nearer (Option.map suc a) (Option.map suc b) ≡ shift (nearer a b)
nearer-suc none none = refl
nearer-suc none (some b) = refl
nearer-suc (some a) none = refl
nearer-suc (some a) (some b) = ground arith

nearer_zero_left : (b : Option ℕ) → nearer (some 0) (Option.map suc b) ≡ some (0, 2)
nearer_zero_left none = refl
nearer_zero_left (some b) = ground arith

nearer_zero_right : (a : Option ℕ) → nearer (Option.map suc a) (some 0) ≡ some (0, 4)
nearer_zero_right none = refl
nearer_zero_right (some a) = ground arith

starts_exclusive :
    (s : Text)
    → starts_with s (lf ∷ lf ∷ []) ≡ true
    → starts_with s (cr ∷ lf ∷ cr ∷ lf ∷ []) ≡ false
unfolding starts_with
starts_exclusive [] h = ground arith
starts_exclusive (c ∷ s) h = ground arith

-- Two searches by `indexOf` find what one scan finds.
pub find_separator-eq-scan : (s : Text) → find_separator s ≡ scan s
unfolding find_separator index_of head_sep
find_separator-eq-scan [] = unfold starts_with in refl
find_separator-eq-scan (c ∷ s) =
    let a = index_of s (lf ∷ lf ∷ []) in
    let b = index_of s (cr ∷ lf ∷ cr ∷ lf ∷ []) in
    let ih = find_separator-eq-scan s in
    elim (Bool-cases (starts_with (c ∷ s) (lf ∷ lf ∷ []))) [
      | inl t ↦ rw (t, starts_exclusive (c ∷ s) t) (nearer_zero_left b)
      | inr n ↦ elim (Bool-cases (starts_with (c ∷ s) (cr ∷ lf ∷ cr ∷ lf ∷ []))) [
        | inl t ↦ rw (n, t) (nearer_zero_right a)
        | inr m ↦ rw (n, m) (nearer-suc a b ∙ ap shift ih)
      ]
    ]

length-starts_with : (s p : Text) → starts_with s p ≡ true → length p ≤ length s
unfolding starts_with
length-starts_with [] [] h = omega arith
length-starts_with (c ∷ s) [] h = omega arith
length-starts_with [] (q ∷ p) h = cc
length-starts_with (c ∷ s) (q ∷ p) h = ground (arith, length-starts_with s p)

head_sep-le-length : (s : Text) → head_sep s ≤ length s
unfolding head_sep
head_sep-le-length s =
    ground
      (arith, length-starts_with s (lf ∷ lf ∷ []), length-starts_with s (cr ∷ lf ∷ cr ∷ lf ∷ []))

-- What a scan finds is not empty and lies within the text.
pub scan_bounds : (s : Text) {i l : ℕ} → scan s ≡ some (i, l) → (0 < l) × (i + l ≤ length s)
scan_bounds [] h = ground arith
scan_bounds (c ∷ s) {i} {l} h = elim (Option-cases (scan s)) [
  | inl e ↦ ground (arith, head_sep-le-length (c ∷ s))
  | inr ((j, k), e) ↦ ground (arith, head_sep-le-length (c ∷ s), scan_bounds s e)
]

starts_with-append : (s t p : Text) → starts_with s p ≡ true → starts_with (s ++ t) p ≡ true
unfolding starts_with
starts_with-append [] t [] h = ground arith
starts_with-append [] t (q ∷ p) h = cc
starts_with-append (c ∷ s) t [] h = refl
starts_with-append (c ∷ s) t (q ∷ p) h = ground (arith, starts_with-append s t p)

head_sep-append_pos : (s t : Text) → head_sep s ≢ 0 → head_sep (s ++ t) ≡ head_sep s
unfolding head_sep
head_sep-append_pos s t h = ground (
  arith,
  starts_with-append s t (lf ∷ lf ∷ []),
  starts_with-append s t (cr ∷ lf ∷ cr ∷ lf ∷ []),
  starts_exclusive (s ++ t),
)

-- A text before a complete terminator begins none, whatever follows.
head_sep-append_zero :
    (c : ℕ) (s t : Text) (r : ℕ × ℕ)
    → head_sep (c ∷ s) ≡ 0
    → scan s ≡ some r
    → head_sep (c ∷ s ++ t) ≡ 0
unfolding head_sep starts_with
head_sep-append_zero c [] t r h e = cc
head_sep-append_zero c (x ∷ []) t r h e = ground arith
head_sep-append_zero c (x ∷ y ∷ []) t r h e = ground arith
head_sep-append_zero c (x ∷ y ∷ z ∷ s) t r h e = ground arith

-- More text behind a complete terminator does not move it.
pub scan-append : (s t : Text) {r : ℕ × ℕ} → scan s ≡ some r → scan (s ++ t) ≡ some r
scan-append [] t h = cc
scan-append (c ∷ s) t h = elim (Option-cases (scan s)) [
  | inl e ↦ ground (arith, head_sep-append_pos (c ∷ s) t)
  | inr (q, e) ↦
      ground (arith, head_sep-append_pos (c ∷ s) t, head_sep-append_zero c s t q, scan-append s t e)
]
