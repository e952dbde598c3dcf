-- ===== src/Enrollment/Ids.antt =====
-- The gateway ids that src/server/enrollment.js hands out, against src/gateway_id.js.
use collectivus.Prelude.{
  ℕ, ◌≤◌, ◌≡◌, refl, true, [], ◌∷◌, ◌++◌, ◌==◌, length-append, Text, text, arith, Bool-cases, inl,
  inr, All,
}
use collectivus.Prelude.Decimals.{digits, length-digits_mono, digits-IsDigit, IsDigit}
use collectivus.Enrollment.{
  all_id_chars, matches_pattern, is_valid_gateway_id, EnrollmentRecord, gateway_id_for_use,
  has_capacity,
}

all_id_chars-append :
    (s t : Text) → all_id_chars s ≡ true → all_id_chars t ≡ true → all_id_chars (s ++ t) ≡ true
unfolding all_id_chars
all_id_chars-append [] t h k = k
all_id_chars-append (c ∷ s) t h k = ground (arith, all_id_chars-append s t)

all_id_chars-digits : (s : Text) → All IsDigit s → all_id_chars s ≡ true
unfolding all_id_chars
all_id_chars-digits [] h = refl
all_id_chars-digits (c ∷ s) (d, h) = ground (arith, all_id_chars-digits s h)

matches_pattern-append :
    (s t : Text)
    → matches_pattern s ≡ true
    → all_id_chars t ≡ true
    → matches_pattern (s ++ t) ≡ true
unfolding matches_pattern
matches_pattern-append [] t h k = cc
matches_pattern-append (c ∷ s) t h k = ground (arith, all_id_chars-append s t)

all_id_chars-dash : (n : ℕ) → all_id_chars (text "-" ++ digits n) ≡ true
unfolding all_id_chars
all_id_chars-dash n = all_id_chars-digits (digits n) (digits-IsDigit n)

-- If registration found room for the suffix of the last use, the id of every use is valid.
pub gateway_id_for_use-IsValid :
    (r : EnrollmentRecord) (n : ℕ)
    → is_valid_gateway_id r.gateway_id ≡ true
    → has_capacity r.gateway_id r.max_uses ≡ true
    → n ≤ r.max_uses
    → is_valid_gateway_id (gateway_id_for_use r n) ≡ true
unfolding is_valid_gateway_id has_capacity gateway_id_for_use
gateway_id_for_use-IsValid r n valid room le = elim (Bool-cases (r.max_uses == 1)) [
  | inl e ↦ rw e valid
  | inr e ↦ ground (
    arith,
    length-append r.gateway_id (text "-" ++ digits n),
    length-append r.gateway_id (text "-" ++ digits r.max_uses),
    length-digits_mono n r.max_uses le,
    matches_pattern-append r.gateway_id (text "-" ++ digits n),
    all_id_chars-dash n,
  )
]
