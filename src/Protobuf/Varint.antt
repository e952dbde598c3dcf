-- ===== src/Protobuf/Varint.antt =====
-- The varints of src/protobuf.js against the encoding of the protobuf wire format.
use collectivus.Prelude.{
  ℕ, zero, suc, ◌+◌, ◌*◌, ◌/◌, ◌%◌, ◌^◌, ◌<◌, ◌≡◌, refl, ap, ◌∙◌, true, false, some, List, [], ◌∷◌,
  ◌++◌, ltb, if◌then◌else◌, length, arith, Bool-cases, inl, inr,
}
use native.Mathlib.Nat.{add-mul, mul_assoc, pow-suc}
use collectivus.Protobuf.{Reader, advance, ahead, one_more, varint_loop, read_varint}

-- Base 128, the lowest digit first, with 128 added to every byte but the last. Fuel above the
-- number is never used up.
encode_fuel : ℕ → ℕ → List ℕ
encode_fuel zero n = []
encode_fuel (suc f) n =
    let rest = encode_fuel f (n / 128) in if ltb n 128 then n ∷ [] else (128 + n % 128) ∷ rest

unfoldable pub encode : ℕ → List ℕ
unfolding encode_fuel
encode n = encode_fuel (suc n) n

one_bit : (i j : ℕ) → i ≡ suc j → 2 ^ i ≡ 2 ^ j * 2
one_bit i j e = ap (λ k. 2 ^ k) e ∙ pow-suc 2 j

seven_bits : (s : ℕ) → 2 ^ (s + 7) ≡ 128 * 2 ^ s
seven_bits s =
    let p1 = one_bit (s + 1) s (omega arith) in
    let p2 = one_bit (s + 2) (s + 1) (omega arith) in
    let p3 = one_bit (s + 3) (s + 2) (omega arith) in
    let p4 = one_bit (s + 4) (s + 3) (omega arith) in
    let p5 = one_bit (s + 5) (s + 4) (omega arith) in
    let p6 = one_bit (s + 6) (s + 5) (omega arith) in
    let p7 = one_bit (s + 7) (s + 6) (omega arith) in omega arith

split_digit : (n p : ℕ) → n % 128 * p + n / 128 * (128 * p) ≡ n * p
split_digit n p =
    let parts : n ≡ n / 128 * 128 + n % 128 = omega arith in
    omega
      (arith, ap (λ k. k * p) parts, add-mul (n / 128 * 128) (n % 128) p, mul_assoc (n / 128) 128 p)

last_byte : (n : ℕ) → ltb n 128 ≡ true → n % 128 ≡ n
last_byte n e = ground arith

more_byte : (n : ℕ) → (ltb (128 + n % 128) 128 ≡ false) × ((128 + n % 128) % 128 ≡ n % 128)
more_byte n = (ground arith, omega arith)

carried :
    (result n shift : ℕ)
    → result + n % 128 * 2 ^ shift + n / 128 * 2 ^ (shift + 7) ≡ result + n * 2 ^ shift
carried result n shift = rw (seven_bits shift) (omega (arith, split_digit n (2 ^ shift)))

loop-encode :
    (f n result shift : ℕ) (rest : List ℕ)
    → n < f
    → varint_loop result shift (encode_fuel f n ++ rest)
      ≡ some (result + n * 2 ^ shift, length (encode_fuel f n))
unfolding encode_fuel varint_loop
loop-encode zero n result shift rest h = absurd (omega (arith, h))
loop-encode (suc f) n result shift rest h = elim (Bool-cases (ltb n 128)) [
  | inl e ↦ rw (e, e, last_byte n e) refl
  | inr e ↦
      rw (e, (more_byte n).0, (more_byte n).1)
        (ap one_more (
            loop-encode f (n / 128) (result + n % 128 * 2 ^ shift) (shift + 7) rest
              (ground (arith, e)))
          ∙ ap (λ v. some (v, suc (length (encode_fuel f (n / 128))))) (carried result n shift))
]

-- A varint that was encoded of a number below 2 ^ 53 is read as its number, whatever follows it, and
-- the reader stops behind its last byte. The reader stands at the encoding.
pub read_varint-encode :
    (r : Reader) (n : ℕ) (rest : List ℕ)
    → n < 9_007_199_254_740_992
    → ahead r ≡ encode n ++ rest
    → read_varint r ≡ some (n, advance (length (encode n)) r)
unfolding read_varint encode
read_varint-encode r n rest exact e =
    rw (e, loop-encode (suc n) n 0 0 rest (omega arith))
      (ap (λ v. some (v, advance (length (encode_fuel (suc n) n)) r)) (omega arith))
