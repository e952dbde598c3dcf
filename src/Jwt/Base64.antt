-- ===== src/Jwt/Base64.antt =====
-- The base64url of src/server/identity.js: decoding undoes encoding.
use collectivus.Prelude.{
  ℕ, zero, suc, ◌<◌, ◌≡◌, refl, ap, ap₂, ◌∙◌, false, some, List, [], ◌∷◌, ◌++◌, map, ◌==◌, take,
  All, Text, text, arith,
}
use collectivus.Jwt.{
  char_of, value_of, sextets, padding, to_base64, values, bytes_of, from_base64, strip_padding,
  to_url_char, from_url_char, base64_url_encode, base64_url_decode,
}

abbrev pub IsByte : ℕ → Type 0
IsByte b = b < 256

abbrev IsSextet : ℕ → Type 0
IsSextet n = n < 64

sextets-IsSextet : (bytes : List ℕ) → All IsByte bytes → All IsSextet (sextets bytes)
unfolding sextets
sextets-IsSextet [] h = tt
sextets-IsSextet (a ∷ []) (ha, h) = (omega arith, (omega arith, tt))
sextets-IsSextet (a ∷ b ∷ []) (ha, (hb, h)) = (omega arith, (omega arith, (omega arith, tt)))
sextets-IsSextet (a ∷ b ∷ c ∷ bytes) (ha, (hb, (hc, h))) =
    (omega arith, (omega arith, (omega arith, (omega arith, sextets-IsSextet bytes h))))

bytes_of-sextets : (bytes : List ℕ) → All IsByte bytes → bytes_of (sextets bytes) ≡ bytes
unfolding sextets bytes_of
bytes_of-sextets [] h = refl
bytes_of-sextets (a ∷ []) (ha, h) = ap (λ x. x ∷ []) (omega arith)
bytes_of-sextets (a ∷ b ∷ []) (ha, (hb, h)) = ap₂ (λ x y. x ∷ y ∷ []) (omega arith) (omega arith)
bytes_of-sextets (a ∷ b ∷ c ∷ bytes) (ha, (hb, (hc, h))) =
    ap₂ (λ x r. x ∷ r) (omega arith)
      (ap₂ (λ y r. y ∷ r) (omega arith)
        (ap₂ (λ z r. z ∷ r) (omega arith) (bytes_of-sextets bytes h)))

value_of-char_of : (n : ℕ) → IsSextet n → value_of (char_of n) ≡ some n
value_of-char_of n h = ground arith

char_of-ne-padding : (n : ℕ) → IsSextet n → (char_of n == b'=') ≡ false
char_of-ne-padding n h = ground arith

from_url_char-to_url_char :
    (n : ℕ) → IsSextet n → from_url_char (to_url_char (char_of n)) ≡ char_of n
from_url_char-to_url_char n h = ground arith

strip_padding-padding : (bytes : List ℕ) → strip_padding (padding bytes) ≡ []
unfolding strip_padding padding
strip_padding-padding [] = refl
strip_padding-padding (a ∷ []) = refl
strip_padding-padding (a ∷ b ∷ []) = refl
strip_padding-padding (a ∷ b ∷ c ∷ bytes) = strip_padding-padding bytes

strip_padding-cons :
    (c : ℕ) (s t : Text) → strip_padding s ≡ t → (c == b'=') ≡ false → strip_padding (c ∷ s) ≡ c ∷ t
unfolding strip_padding
strip_padding-cons c s [] e h = ground arith
strip_padding-cons c s (d ∷ t) e h = ground arith

strip_padding-append :
    (xs : List ℕ) (pad : Text)
    → All IsSextet xs
    → strip_padding pad ≡ []
    → strip_padding (map char_of xs ++ pad) ≡ map char_of xs
strip_padding-append [] pad h e = e
strip_padding-append (x ∷ xs) pad (hx, h) e =
    strip_padding-cons (char_of x) _ _ (strip_padding-append xs pad h e) (char_of-ne-padding x hx)

-- An encoding is its groups of six bits, each as a character.
pub base64_url_encode-sextets :
    (bytes : List ℕ)
    → All IsByte bytes
    → base64_url_encode bytes ≡ map to_url_char (map char_of (sextets bytes))
unfolding base64_url_encode to_base64
base64_url_encode-sextets bytes h = ap (map to_url_char) (
    strip_padding-append (sextets bytes) (padding bytes) (sextets-IsSextet bytes h)
      (strip_padding-padding bytes))

map-from_url_char :
    (xs : List ℕ)
    → All IsSextet xs
    → map from_url_char (map to_url_char (map char_of xs)) ≡ map char_of xs
map-from_url_char [] h = refl
map-from_url_char (x ∷ xs) (hx, h) =
    ap₂ (λ c r. c ∷ r) (from_url_char-to_url_char x hx) (map-from_url_char xs h)

values-padding : (k : ℕ) → values (take k (text "==")) ≡ []
unfolding values
values-padding zero = refl
values-padding (suc k) = refl

values-append :
    (xs : List ℕ) (pad : Text)
    → All IsSextet xs
    → values pad ≡ []
    → values (map char_of xs ++ pad) ≡ xs
unfolding values
values-append [] pad h e = e
values-append (x ∷ xs) pad (hx, h) e =
    rw (char_of-ne-padding x hx, value_of-char_of x hx) (ap (λ r. x ∷ r) (values-append xs pad h e))

-- Decoding undoes the base64url encoding, on every list of bytes.
pub base64_url_decode-encode :
    (bytes : List ℕ) → All IsByte bytes → base64_url_decode (base64_url_encode bytes) ≡ bytes
unfolding base64_url_decode from_base64
base64_url_decode-encode bytes h = rw (base64_url_encode-sextets bytes h) (
    rw (map-from_url_char (sextets bytes) (sextets-IsSextet bytes h)) (
      ap bytes_of (values-append (sextets bytes) _ (sextets-IsSextet bytes h) (values-padding _))
      ∙ bytes_of-sextets bytes h))

abbrev pub IsNotDot : ℕ → Type 0
IsNotDot c = (c == b'.') ≡ false

to_url_char-IsNotDot : (n : ℕ) → IsSextet n → IsNotDot (to_url_char (char_of n))
to_url_char-IsNotDot n h = ground arith

map-IsNotDot : (xs : List ℕ) → All IsSextet xs → All IsNotDot (map to_url_char (map char_of xs))
map-IsNotDot [] h = tt
map-IsNotDot (x ∷ xs) (hx, h) = (to_url_char-IsNotDot x hx, map-IsNotDot xs h)

-- An encoding has no dot.
pub base64_url_encode-IsNotDot :
    (bytes : List ℕ) → All IsByte bytes → All IsNotDot (base64_url_encode bytes)
base64_url_encode-IsNotDot bytes h =
    rw (base64_url_encode-sextets bytes h) (map-IsNotDot (sextets bytes) (sextets-IsSextet bytes h))
