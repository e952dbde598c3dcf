-- ===== src/HotReload/Tests.antt =====
-- The theorems on src/gateway/hot_reload.js at a concrete reload: the proxy moves to another
-- address, its new listener does not start, and otel is removed.
use collectivus.Prelude.{
  ℕ, refl, Bool, Option, none, some, [], ◌∷◌, ◌==◌, Text, text, text_eq, arith,
}
use collectivus.Prelude.Maps.{Map, lookup}
use collectivus.Json.{Json, string, object, no_fields, field}
use collectivus.HotReload.{
  Config, diff_config, sections_to_restart, Gateway, Factory, fails, apply_diff,
}
use collectivus.HotReload.Registry.{IsTidy, apply_diff-IsTidy}
use collectivus.HotReload.Sections.{member}
use collectivus.HotReload.Listeners.{Reloaded, apply_diff-Settled}

abbrev at : Text → Json
at address = object (field (text "listen") (string address) no_fields)

abbrev before : Config
before = record {
  otel = some (at (text ":1"));
  proxy = some (at (text ":2"));
  sink = none;
  upload = none;
}

abbrev after : Config
after = record { otel = none; proxy = some (at (text ":3")); sink = none; upload = none }

abbrev gateway : Gateway
gateway = record {
  registry = (text "otel", 0) ∷ (text "proxy", 1) ∷ [];
  running = 0 ∷ 1 ∷ [];
  next = 2;
  log = [];
}

abbrev failing : Config → Option (Map Factory)
failing c = some ((text "proxy", fails) ∷ [])

abbrev odd_throws : ℕ → Bool
odd_throws n = n == 0

abbrev gateway-IsTidy : IsTidy gateway
gateway-IsTidy = record {
  keys = (unfold lookup text_eq in refl, (unfold lookup in refl, tt));
  counted = λ n. omega arith;
}

apply_diff-IsTidy_example :
    IsTidy (apply_diff odd_throws failing (diff_config before after) before after gateway)
apply_diff-IsTidy_example =
    apply_diff-IsTidy odd_throws failing (diff_config before after) before after gateway
      gateway-IsTidy

apply_diff-Settled_example :
    Reloaded
      (text "proxy")
      before
      after
      (member (text "proxy") (sections_to_restart (diff_config before after) before after))
      (lookup (text "proxy") ((text "proxy", fails) ∷ []))
      2
      (lookup (text "proxy") gateway.registry)
      (lookup
        (text "proxy")
        (apply_diff odd_throws failing (diff_config before after) before after gateway).registry)
apply_diff-Settled_example =
    apply_diff-Settled odd_throws failing ((text "proxy", fails) ∷ []) (diff_config before after)
      before after (text "proxy") gateway refl
