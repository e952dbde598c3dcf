-- ===== src/Prelude/Splits.antt =====
-- `s.split(sep)` for a separator of one character.
use Prim.Native.Nat.{ℕ}
use mathlib.Core.Path.{◌≡◌, sym, ap, ◌∙◌}
use mathlib.Core.Bool.{true, false}
use mathlib.Core.List.{List, [], ◌∷◌, ◌++◌, append_assoc, append-nil}
use collectivus.Prelude.Tests.{◌==◌, if◌then◌else◌}
use collectivus.Prelude.Lists.{All}
use collectivus.Prelude.Texts.{Text}

-- `cur` is the part that was begun.
unfoldable pub split_on : ℕ → Text → Text → List Text
split_on sep cur [] = cur ∷ []
split_on sep cur (c ∷ s) =
    let closed = cur ∷ split_on sep [] s in
    let longer = split_on sep (cur ++ c ∷ []) s in if c == sep then closed else longer

abbrev pub Avoids : ℕ → ℕ → Type 0
Avoids sep c = (c == sep) ≡ false

pub split_on-append :
    (sep : ℕ) (cur part rest : Text)
    → All (Avoids sep) part
    → (sep == sep) ≡ true
    → split_on sep cur (part ++ sep ∷ rest) ≡ (cur ++ part) ∷ split_on sep [] rest
unfolding split_on
split_on-append sep cur [] rest h e =
    rw e (ap (λ r. r ∷ split_on sep [] rest) (sym (append-nil cur)))
split_on-append sep cur (c ∷ part) rest (hc, h) e = rw hc (
    split_on-append sep (cur ++ c ∷ []) part rest h e
    ∙ ap (λ r. r ∷ split_on sep [] rest) (append_assoc cur (c ∷ []) part))

pub split_on-last :
    (sep : ℕ) (cur part : Text) → All (Avoids sep) part → split_on sep cur part ≡ (cur ++ part) ∷ []
unfolding split_on
split_on-last sep cur [] h = ap (λ r. r ∷ []) (sym (append-nil cur))
split_on-last sep cur (c ∷ part) (hc, h) =
    rw hc
      (split_on-last sep (cur ++ c ∷ []) part h ∙ ap (λ r. r ∷ []) (append_assoc cur (c ∷ []) part))
