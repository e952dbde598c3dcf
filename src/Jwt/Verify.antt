-- ===== src/Jwt/Verify.antt =====
-- What a JWT that src/server/identity.js accepts must be.
use collectivus.Prelude.{
  false, ℕ, ◌+◌, ◌/◌, ◌≤◌, ◌<◌, ◌≡◌, ◌≢◌, refl, sym, ap, ◌∙◌, inl, inr, true, Option, none, some,
  List, [], ◌∷◌, ◌++◌, append-nil, append_assoc, ◌==◌, Text, text_eq_iff, arith, Bool-cases,
}
use collectivus.Prelude.Splits.{split_on}
use collectivus.Bootstrap.{is_empty}
use collectivus.Jwt.{
  base64_url_decode, Runtime, Claims, verified, same_bytes, constant_time_equal_b64, is_header,
  read_claims, check_times, signature, read_part, verify_parts, verify_jwt,
}
use collectivus.Jwt.Base64.{base64_url_decode-encode}
use collectivus.Jwt.RoundTrip.{IsLawful}

abbrev join_dots : List Text → Text
join_dots [] = []
join_dots (p ∷ []) = p
join_dots (p ∷ q ∷ parts) = p ++ b'.' ∷ join_dots (q ∷ parts)

join_dots-cons :
    (p : Text) (parts : List Text) (s : Text)
    → parts ≢ []
    → join_dots parts ≡ s
    → join_dots (p ∷ parts) ≡ p ++ b'.' ∷ s
join_dots-cons p [] s h e = absurd (h refl)
join_dots-cons p (q ∷ parts) s h e = ap (λ r. p ++ b'.' ∷ r) e

split_on-ne-nil : (cur s : Text) → split_on b'.' cur s ≢ []
unfolding split_on
split_on-ne-nil cur [] = λ e. cc
split_on-ne-nil cur (c ∷ s) = elim (Bool-cases (c == b'.')) [
  | inl e ↦ rw e (λ k. cc)
  | inr e ↦ rw e (split_on-ne-nil (cur ++ c ∷ []) s)
]

join_dots-split_on : (cur s : Text) → join_dots (split_on b'.' cur s) ≡ cur ++ s
unfolding split_on
join_dots-split_on cur [] = sym (append-nil cur)
join_dots-split_on cur (c ∷ s) = elim (Bool-cases (c == b'.')) [
  | inl e ↦ rw e (
      join_dots-cons cur (split_on b'.' [] s) s (split_on-ne-nil [] s) (join_dots-split_on [] s)
      ∙ ap (λ d. cur ++ d ∷ s) (ground arith))
  | inr e ↦ rw e (join_dots-split_on (cur ++ c ∷ []) s ∙ append_assoc cur (c ∷ []) s)
]

same_bytes-eq : (as' bs : List ℕ) → same_bytes as' bs ≡ true → as' ≡ bs
unfolding same_bytes
same_bytes-eq as' bs e = ground (arith, text_eq_iff as' bs)

-- What an accepted token is: three parts, of which the last decodes to the HMAC of the first two,
-- the first to the fixed header, the second to the claims; and the clock lies in their window.
pub record IsSigned (rt : Runtime) (now : ℕ) (token secret : Text) (c : Claims) : Type 0 where
  pub header : Text
  pub payload : Text
  pub sig : Text
  pub parts : token ≡ header ++ (b'.' ∷ (payload ++ b'.' ∷ sig))
  pub signed : base64_url_decode sig ≡ rt.hmac secret (header ++ b'.' ∷ payload)
  pub header_accepted : is_header (read_part rt header) ≡ true
  pub claims_read : read_claims (read_part rt payload) ≡ some c
  pub issued : c.iat ≤ now / 1000 + 5
  pub unexpired : now / 1000 < c.exp

check_times-verified :
    (now : ℕ) (o : Option Claims) (c : Claims)
    → check_times now o ≡ verified c
    → (o ≡ some c) × (c.iat ≤ now / 1000 + 5) × (now / 1000 < c.exp)
check_times-verified now none c e = cc
check_times-verified now (some d) c e = ground arith

-- A token that verifies is not empty.
pub verify_jwt-full :
    (rt : Runtime) (now : ℕ) (token secret : Text) (c : Claims)
    → verify_jwt rt now token secret ≡ verified c
    → is_empty token ≡ false
unfolding verify_jwt
verify_jwt-full rt now [] secret c e = cc
verify_jwt-full rt now (t ∷ token) secret c e = refl

module _ (rt : Runtime) (law : IsLawful rt) (now : ℕ) (token secret : Text) (c : Claims) where
  payload-IsSigned :
      (header payload sig : Text)
      → token ≡ header ++ (b'.' ∷ (payload ++ b'.' ∷ sig))
      → constant_time_equal_b64 (signature rt secret (header ++ b'.' ∷ payload)) sig ≡ true
      → is_header (read_part rt header) ≡ true
      → check_times now (read_claims (read_part rt payload)) ≡ verified c
      → IsSigned rt now token secret c
  unfolding constant_time_equal_b64
  payload-IsSigned header payload sig e k h t =
      let (claims_read, issued, unexpired) = check_times-verified now _ c t in
      record {
        header = header;
        payload = payload;
        sig = sig;
        parts = e;
        signed =
            sym (same_bytes-eq _ _ k)
            ∙ base64_url_decode-encode (rt.hmac secret _) (law.hmac_bytes secret _);
        header_accepted = h;
        claims_read = claims_read;
        issued = issued;
        unexpired = unexpired;
      }

  parts-IsSigned :
      (parts : List Text)
      → join_dots parts ≡ token
      → verify_parts rt now secret parts ≡ verified c
      → IsSigned rt now token secret c
  parts-IsSigned [] e v = cc
  parts-IsSigned (h ∷ []) e v = cc
  parts-IsSigned (h ∷ p ∷ []) e v = cc
  parts-IsSigned (h ∷ p ∷ s ∷ q ∷ parts) e v = cc
  parts-IsSigned (h ∷ p ∷ s ∷ []) e v =
      elim (Bool-cases (constant_time_equal_b64 (signature rt secret (h ++ b'.' ∷ p)) s)) [
        | inr k ↦ ground arith
        | inl k ↦ elim (Bool-cases (is_header (read_part rt h))) [
          | inr n ↦ ground arith
          | inl n ↦ payload-IsSigned h p s (sym e) k n (ground arith)
        ]
      ]

  -- A token that verifies is one that the holder of the secret signed, up to the spelling of the
  -- signature: its last part decodes to the HMAC, under the secret, of the two others, which are
  -- the fixed header and the claims that are returned; it was issued at most five seconds after
  -- the clock, and it expires after it. HMAC gives bytes.
  pub verify_jwt-IsSigned :
      verify_jwt rt now token secret ≡ verified c → IsSigned rt now token secret c
  unfolding verify_jwt
  verify_jwt-IsSigned e = elim (Bool-cases (is_empty token)) [
    | inl k ↦ ground arith
    | inr k ↦ elim (Bool-cases (is_empty secret)) [
      | inl m ↦ ground arith
      | inr m ↦ parts-IsSigned (split_on b'.' [] token) (join_dots-split_on [] token) (ground arith)
    ]
  ]
