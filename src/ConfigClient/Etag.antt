-- ===== src/ConfigClient/Etag.antt =====
-- How src/gateway/config_client.js reads an ETag header.
use collectivus.Prelude.{
  ℕ, suc, ◌+◌, ◌-◌, ◌≡◌, ◌≢◌, refl, ap, true, some, List, [], ◌∷◌, ◌++◌, leb, length, length-append,
  take, Text, arith,
}
use collectivus.ConfigClient.{read_etag_header, non_empty, last_is, without_quotes}

abbrev pub quoted : Text → Text
quoted t = b'"' ∷ t ++ b'"' ∷ []

abbrev pub weak : Text → Text
weak t = b'W' ∷ b'/' ∷ t

last_is-append : (c : ℕ) (t : Text) → last_is c (t ++ c ∷ []) ≡ true
last_is-append c [] = ground arith
last_is-append c (d ∷ []) = ground arith
last_is-append c (d ∷ e ∷ t) = last_is-append c (e ∷ t)

take-append {ℓ} : {A : Type ℓ} (xs ys : List A) → take (length xs) (xs ++ ys) ≡ xs
take-append [] ys = refl
take-append (x ∷ xs) ys = ap (λ r. x ∷ r) (take-append xs ys)

without_quotes-quoted : (c : ℕ) (t : Text) → without_quotes (quoted (c ∷ t)) ≡ c ∷ t
without_quotes-quoted c t =
    rw (last_is-append b'"' (c ∷ t), length-append (c ∷ t) (b'"' ∷ []))
      (rw (fits, inner) (take-append (c ∷ t) (b'"' ∷ [])))
  where
    fits : leb 2 (suc (length (c ∷ t) + 1)) ≡ true
    fits = ground arith

    inner : suc (length (c ∷ t) + 1) - 2 ≡ length (c ∷ t)
    inner = omega arith

-- A quoted ETag that is not empty is read as what stands between the quotes, whatever that is, and
-- so is a weak one.
pub read_etag_header-quoted :
    (t : Text)
    → t ≢ []
    → (read_etag_header (some (quoted t)) ≡ some t)
      × (read_etag_header (some (weak (quoted t))) ≡ some t)
unfolding read_etag_header
read_etag_header-quoted [] ne = absurd (ne refl)
read_etag_header-quoted (c ∷ t) ne =
    (ap non_empty (without_quotes-quoted c t), ap non_empty (without_quotes-quoted c t))
