-- ===== src/ServerUtil.antt =====
-- The helpers of src/server/util.js, and src/server/secret_resolver.js.
pub mod Shell
pub mod Tests
use collectivus.Prelude.{
  ℕ, zero, suc, Option, none, some, List, [], ◌∷◌, ◌++◌, leb, ◌==◌, if◌then◌else◌, length, Text,
}

abbrev pub quote : ℕ
quote = 39

pub escape : Text → Text
escape [] = []
escape (c ∷ s) =
    let rest = escape s in if c == quote then quote ∷ b'\\' ∷ quote ∷ quote ∷ rest else c ∷ rest

-- `shellSingleQuote`
pub shell_single_quote : Text → Text
shell_single_quote s = quote ∷ escape s ++ quote ∷ []

abbrev pub unless_slash : ℕ → Text → Text
unless_slash c [] = if c == b'/' then [] else c ∷ []
unless_slash c (d ∷ s) = c ∷ d ∷ s

-- `stripTrailingSlashes`
unfoldable pub strip_trailing_slashes : Text → Text
strip_trailing_slashes [] = []
strip_trailing_slashes (c ∷ s) = unless_slash c (strip_trailing_slashes s)

abbrev pub long_enough : ℕ → Option Text → Option Text
long_enough n none = none
long_enough n (some []) = none
long_enough n (some (c ∷ s)) = if leb n (length (c ∷ s)) then some (c ∷ s) else none

-- `resolveSecret`, of at least one byte; none where it throws.
pub resolve_secret : (Text → Option Text) → ℕ → Option Text → Option Text → Option Text
resolve_secret env n none none = none
resolve_secret env n (some direct) none = long_enough n (some direct)
resolve_secret env n none (some env_var) = long_enough n (env env_var)
resolve_secret env n (some direct) (some env_var) = none
