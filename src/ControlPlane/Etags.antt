-- ===== src/ControlPlane/Etags.antt =====
-- `etagMatches` of src/server/control_plane.js.
use mathlib.Core.Option
use collectivus.Prelude.{
  ℕ, ◌≡◌, refl, ap, ◌∙◌, Bool, true, false, ◌&&◌, ◌||◌, Option, none, some, List, [], ◌∷◌, ◌++◌,
  ◌==◌, if◌then◌else◌, Text, text, text_eq, All, All-append, arith,
}
use collectivus.Prelude.Splits.{split_on, Avoids, split_on-last}
use collectivus.Bootstrap.{is_empty}
use collectivus.Enrollment.{is_hex, all_hex}
use collectivus.Json.Objects.{and_true}
use collectivus.BearerAuth.{is_white, trim_start, trim_end, keep_end, trim}

-- `t.startsWith('W/')`
abbrev pub strip_weak : Text → Text
strip_weak (a ∷ b ∷ t) = if a == b'W' && b == b'/' then t else a ∷ b ∷ t
strip_weak t = t

-- The text before a last quote, none where the last character is another.
unfoldable pub before_quote : Text → Option Text
before_quote [] = none
before_quote (c ∷ []) = if c == b'"' then some [] else none
before_quote (c ∷ d ∷ t) = Option.map (λ s. c ∷ s) (before_quote (d ∷ t))

abbrev pub or_quoted : Text → Option Text → Text
or_quoted t none = t
or_quoted t (some s) = s

abbrev pub strip_quotes : Text → Text
strip_quotes [] = []
strip_quotes (c ∷ t) = if c == b'"' then or_quoted (c ∷ t) (before_quote t) else c ∷ t

-- `stripEtagWrapping`
pub strip_etag_wrapping : Text → Text
strip_etag_wrapping tag = strip_quotes (strip_weak tag)

-- The loop of `etagMatches`.
pub any_matches : Text → List Text → Bool
any_matches etag [] = false
any_matches etag (raw ∷ raws) =
    let tag = strip_etag_wrapping (trim raw) in
    let rest = any_matches etag raws in
    if is_empty tag then rest else text_eq tag (text "*") || text_eq tag etag || rest

-- `etagMatches`
pub etag_matches : Text → Text → Bool
etag_matches header etag = any_matches etag (split_on b',' [] header)

-- A tag as a client may write it: bare, quoted, or quoted as a weak one.
pub data Spelling : Type 0 where
  bare quoted weak : Spelling

unfoldable pub spell : Spelling → Text → Text
spell bare e = e
spell quoted e = b'"' ∷ (e ++ b'"' ∷ [])
spell weak e = b'W' ∷ b'/' ∷ b'"' ∷ (e ++ b'"' ∷ [])

abbrev IsInk : ℕ → Type 0
IsInk c = (is_white c ≡ false) × Avoids b',' c

trim_start-IsInk : (s : Text) → All IsInk s → trim_start s ≡ s
unfolding trim_start
trim_start-IsInk [] h = refl
trim_start-IsInk (c ∷ s) ((w, n), h) = rw w refl

keep_end_dark : (c : ℕ) (s : Text) → is_white c ≡ false → keep_end c s ≡ c ∷ s
keep_end_dark c [] w = rw w refl
keep_end_dark c (d ∷ s) w = refl

trim_end-IsInk : (s : Text) → All IsInk s → trim_end s ≡ s
unfolding trim_end
trim_end-IsInk [] h = refl
trim_end-IsInk (c ∷ s) ((w, n), h) = rw (trim_end-IsInk s h) (keep_end_dark c s w)

hex-IsInk : (c : ℕ) → is_hex c ≡ true → IsInk c
hex-IsInk c h = (ground arith, ground arith)

all_hex-IsInk : (s : Text) → all_hex s ≡ true → All IsInk s
unfolding all_hex
all_hex-IsInk [] h = tt
all_hex-IsInk (c ∷ s) h =
    let (hc, hs) = and_true (is_hex c) (all_hex s) h in (hex-IsInk c hc, all_hex-IsInk s hs)

before_quote-quoted : (s : Text) → before_quote (s ++ b'"' ∷ []) ≡ some s
unfolding before_quote
before_quote-quoted [] = refl
before_quote-quoted (c ∷ []) = refl
before_quote-quoted (c ∷ d ∷ s) = ap (Option.map (λ t. c ∷ t)) (before_quote-quoted (d ∷ s))

not_weak : (c : ℕ) → is_hex c ≡ true → (c == b'W') ≡ false
not_weak c h = ground arith

not_star : (c : ℕ) → is_hex c ≡ true → (c == b'*') ≡ false
not_star c h = ground arith

not_quote : (c : ℕ) (e : Text) → is_hex c ≡ true → strip_quotes (c ∷ e) ≡ c ∷ e
not_quote c e h = ground arith

strip-spell :
    (sp : Spelling) (c : ℕ) (e : Text)
    → is_hex c ≡ true
    → strip_etag_wrapping (spell sp (c ∷ e)) ≡ c ∷ e
unfolding strip_etag_wrapping spell
strip-spell bare c [] h = not_quote c [] h
strip-spell bare c (d ∷ e) h = rw (not_weak c h) (not_quote c (d ∷ e) h)
strip-spell quoted c e h = rw (before_quote-quoted (c ∷ e)) refl
strip-spell weak c e h = rw (before_quote-quoted (c ∷ e)) refl

spell-IsInk : (sp : Spelling) (e : Text) → All IsInk e → All IsInk (spell sp e)
unfolding spell
spell-IsInk bare e h = h
spell-IsInk quoted e h = ((refl, refl), All-append IsInk e (b'"' ∷ []) h ((refl, refl), tt))
spell-IsInk weak e h = (
  (refl, refl),
  ((refl, refl), ((refl, refl), All-append IsInk e (b'"' ∷ []) h ((refl, refl), tt))),
)

IsInk-Avoids : (s : Text) → All IsInk s → All (Avoids b',') s
IsInk-Avoids [] h = tt
IsInk-Avoids (c ∷ s) ((w, a), h) = (a, IsInk-Avoids s h)

any_matches-one :
    (etag raw : Text) (c : ℕ) (e : Text)
    → is_hex c ≡ true
    → strip_etag_wrapping (trim raw) ≡ c ∷ e
    → any_matches etag (raw ∷ []) ≡ text_eq (c ∷ e) etag
unfolding any_matches text_eq
any_matches-one etag raw c e h k = rw (k, not_star c h) (or_false (text_eq (c ∷ e) etag))
  where
    or_false : (b : Bool) → (b || false) ≡ b
    or_false true = refl
    or_false false = refl

-- The tag of a configuration, as `etagMatches` reads it back from a client: a header with one
-- hexadecimal tag, in any spelling, matches that tag and no other.
pub etag_matches-spell :
    (sp : Spelling) (c : ℕ) (e etag : Text)
    → all_hex (c ∷ e) ≡ true
    → etag_matches (spell sp (c ∷ e)) etag ≡ text_eq (c ∷ e) etag
unfolding etag_matches all_hex
etag_matches-spell sp c e etag h =
    let ink = spell-IsInk sp (c ∷ e) (all_hex-IsInk (c ∷ e) h) in
    let hc = (and_true (is_hex c) (all_hex e) h).0 in
    let trimmed : trim (spell sp (c ∷ e)) ≡ spell sp (c ∷ e) =
      ap trim_end (trim_start-IsInk (spell sp (c ∷ e)) ink)
      ∙ trim_end-IsInk (spell sp (c ∷ e)) ink in
    ap (any_matches etag) (split_on-last b',' [] (spell sp (c ∷ e)) (IsInk-Avoids _ ink))
    ∙ any_matches-one etag (spell sp (c ∷ e)) c e hc
        (ap strip_etag_wrapping trimmed ∙ strip-spell sp c e hc)
