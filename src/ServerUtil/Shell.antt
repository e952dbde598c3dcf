-- ===== src/ServerUtil/Shell.antt =====
-- The quoting of src/server/util.js, against how a POSIX shell reads a word.
use collectivus.Prelude.{
  ℕ, ◌≡◌, refl, ap, ◌∙◌, true, [], ◌∷◌, ◌++◌, append_assoc, ◌==◌, if◌then◌else◌, Text, arith,
  Bool-cases, inl, inr,
}
use collectivus.ServerUtil.{quote, escape, shell_single_quote}

-- Outside quotes, between single quotes, after a backslash.
pub data Mode : Type 0 where
  plain quoting escaped : Mode

pub data Act : Type 0 where
  stop : Act
  skip : Mode → Act
  put : ℕ → Mode → Act

-- What one character does; a blank outside quotes ends the word.
abbrev pub act : Mode → ℕ → Act
act plain c =
    if c == quote
    then skip quoting
    else if c == b'\\'
    then skip escaped
    else if c == b' '
    then stop
    else put c plain
act quoting c = if c == quote then skip plain else put c quoting
act escaped c = put c plain

abbrev mode_after : Act → Mode
mode_after stop = plain
mode_after (skip m) = m
mode_after (put c m) = m

abbrev output : Act → Text × Text → Text → Text × Text
output stop next s = ([], s)
output (skip m) next s = next
output (put c m) next s = (c ∷ next.0, next.1)

-- The word that the text begins with, and what is left of the text.
abbrev pub word : Mode → Text → Text × Text
word m [] = ([], [])
word m (c ∷ s) = output (act m c) (word (mode_after (act m c)) s) (c ∷ s)

eq_of : (a b : ℕ) → (a == b) ≡ true → a ≡ b
eq_of a b e = ground (arith, e)

word-escape :
    (s rest : Text)
    → word quoting (escape s ++ quote ∷ rest) ≡ (s ++ (word plain rest).0, (word plain rest).1)
unfolding escape
word-escape [] rest = refl
word-escape (c ∷ s) rest = elim (Bool-cases (c == quote)) [
  | inl e ↦ rw e (rw ((eq_of c quote e)) (ap (λ x. (quote ∷ x.0, x.1)) (word-escape s rest)))
  | inr e ↦ rw (e, e) (ap (λ x. (c ∷ x.0, x.1)) (word-escape s rest))
]

-- A shell reads the quoted text as one word, the text itself whatever characters it has, joined
-- with what the rest begins with; so nothing in it is run.
pub word-shell_single_quote :
    (s rest : Text)
    → word plain (shell_single_quote s ++ rest) ≡ (s ++ (word plain rest).0, (word plain rest).1)
unfolding shell_single_quote
word-shell_single_quote s rest =
    ap (word quoting) (append_assoc (escape s) (quote ∷ []) rest) ∙ word-escape s rest
