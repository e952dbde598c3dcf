-- ===== src/Bootstrap/Tests.antt =====
-- The theorems on src/server/identity.js at concrete inputs, with the identity for SHA-256.
use collectivus.Prelude.{◌≢◌, refl, false, List, [], ◌∷◌, Text, text, text_eq}
use collectivus.Prelude.Maps.{lookup}
use collectivus.Bootstrap.{Records, ok, try_consume, look_up}
use collectivus.Bootstrap.OneShot.{
  Operation, registering, consuming, revoking, perform_all, try_consume_once,
}

abbrev pub plain : Text → Text
plain t = t

abbrev pub long : Text
long = text "0123456789abcdef0123456789abcdef"

abbrev stored : Records
stored = (long, record { gateway_id = text "gw"; expires_at = 60; used = false }) ∷ []

abbrev later_ops : List Operation
later_ops =
    revoking (text "gw")
    ∷ consuming 3000 long
    ∷ registering 4000 (text "gw2") 9 (text "X123456789abcdef0123456789abcdef")
    ∷ []

try_consume_once_example :
    (try_consume plain 5000 long
      (perform_all plain later_ops (try_consume plain 1000 long stored).1)).0
    ≢ ok (text "gw")
unfolding try_consume look_up lookup text_eq
try_consume_once_example =
    try_consume_once plain 1000 5000 long (text "gw") (text "gw") later_ops stored refl
      (tt, (tt, ((λ e. cc), tt)))
