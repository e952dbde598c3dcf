-- ===== src/ServerUtil/Tests.antt =====
-- The quoting of src/server/util.js at a concrete text.
use collectivus.Prelude.{◌≡◌, ◌++◌, text}
use collectivus.ServerUtil.{shell_single_quote}
use collectivus.ServerUtil.Shell.{word, plain, word-shell_single_quote}

word-shell_single_quote_example :
    word plain (shell_single_quote (text "it's; $x") ++ text " --y")
    ≡ (text "it's; $x" ++ (word plain (text " --y")).0, (word plain (text " --y")).1)
word-shell_single_quote_example = word-shell_single_quote (text "it's; $x") (text " --y")
