-- ===== src/Prelude/Decimals.antt =====
-- A whole number in a JavaScript template, `${n}`: its decimal digits.
use Prim.Native.Nat.{ℕ, zero, suc, ◌+◌, ◌-◌, ◌*◌, ◌/◌, ◌%◌, ◌<◌, ◌≤◌}
use mathlib.Core.Path.{◌≡◌, refl, sym, ap, ◌∙◌}
use mathlib.Core.Logic.{inl, inr}
use mathlib.Core.List.{[], ◌∷◌, ◌++◌}
use native.Mathlib.Omega.{arith}
use collectivus.Prelude.Tests.{ltb, if◌then◌else◌, Bool-cases}
use collectivus.Prelude.Lists.{length, length-append, All, All-append}
use collectivus.Prelude.Texts.{Text}

-- Fuel above the number is never used up.
digits_fuel : ℕ → ℕ → Text
digits_fuel zero n = []
digits_fuel (suc f) n =
    let rest = digits_fuel f (n / 10) in
    if ltb n 10 then (b'0' + n) ∷ [] else rest ++ (b'0' + n % 10) ∷ []

unfoldable pub digits : ℕ → Text
unfolding digits_fuel
digits n = digits_fuel (suc n) n

value_from : ℕ → Text → ℕ
value_from acc [] = acc
value_from acc (c ∷ s) = value_from (acc * 10 + (c - b'0')) s

value_from-append :
    (acc : ℕ) (s : Text) (c : ℕ) → value_from acc (s ++ c ∷ []) ≡ value_from acc s * 10 + (c - b'0')
unfolding value_from
value_from-append acc [] c = refl
value_from-append acc (d ∷ s) c = value_from-append (acc * 10 + (d - b'0')) s c

value_from-digits : (f n : ℕ) → n < f → value_from 0 (digits_fuel f n) ≡ n
unfolding digits_fuel
value_from-digits zero n h = absurd (omega arith)
value_from-digits (suc f) n h = elim (Bool-cases (ltb n 10)) [
  | inl e ↦ rw e (unfold value_from in omega arith)
  | inr e ↦ rw e (
      value_from-append 0 (digits_fuel f (n / 10)) (b'0' + n % 10)
      ∙ ground (arith, value_from-digits f (n / 10)))
]

-- Different numbers have different digits.
pub digits-injective : (m n : ℕ) → digits m ≡ digits n → m ≡ n
unfolding digits
digits-injective m n e =
    sym (value_from-digits (suc m) m (omega arith))
    ∙ ap (value_from 0) e
    ∙ value_from-digits (suc n) n (omega arith)

fuel-length_mono :
    (f g m n : ℕ) → m ≤ n → m < f → n < g → length (digits_fuel f m) ≤ length (digits_fuel g n)
unfolding digits_fuel
fuel-length_mono zero g m n le hm hn = absurd (omega arith)
fuel-length_mono (suc f) zero m n le hm hn = absurd (omega arith)
fuel-length_mono (suc f) (suc g) m n le hm hn = elim (Bool-cases (ltb n 10)) [
  | inl e ↦ ground arith
  | inr e ↦ elim (Bool-cases (ltb m 10)) [
    | inl k ↦
        rw (e, k) (omega (arith, length-append (digits_fuel g (n / 10)) ((b'0' + n % 10) ∷ [])))
    | inr k ↦
        rw (e, k)
          (ground (
            arith,
            length-append (digits_fuel g (n / 10)) ((b'0' + n % 10) ∷ []),
            length-append (digits_fuel f (m / 10)) ((b'0' + m % 10) ∷ []),
            fuel-length_mono f g (m / 10) (n / 10) (omega arith),
          ))
  ]
]

-- A smaller number has no more digits.
pub length-digits_mono : (m n : ℕ) → m ≤ n → length (digits m) ≤ length (digits n)
unfolding digits
length-digits_mono m n h = fuel-length_mono (suc m) (suc n) m n h (omega arith) (omega arith)

abbrev pub IsDigit : ℕ → Type 0
IsDigit c = (b'0' ≤ c) × (c ≤ b'9')

fuel-IsDigit : (f n : ℕ) → All IsDigit (digits_fuel f n)
unfolding digits_fuel
fuel-IsDigit zero n = tt
fuel-IsDigit (suc f) n = elim (Bool-cases (ltb n 10)) [
  | inl e ↦ rw e ((omega arith, ground arith), tt)
  | inr e ↦ rw e (
      All-append IsDigit (digits_fuel f (n / 10)) ((b'0' + n % 10) ∷ []) (fuel-IsDigit f (n / 10))
        ((omega arith, omega arith), tt))
]

pub digits-IsDigit : (n : ℕ) → All IsDigit (digits n)
unfolding digits
digits-IsDigit n = fuel-IsDigit (suc n) n
