-- ===== src/ConfigClient/Tests.antt =====
-- The theorems on src/gateway/config_client.js at concrete inputs: two configurations, true and
-- false, with the ETags a and bb.
use collectivus.Prelude.{
  ◌≡◌, refl, ap, Bool, true, false, none, some, [], ◌∷◌, length, map, Text, text, text_eq, arith,
  inl, inr,
}
use collectivus.ConfigClient.{Client, World, run_tick, read_etag_header}
use collectivus.ConfigClient.Backoff.{run_ticks}
use collectivus.ConfigClient.Sync.{serving, last_event, run_tick-converges, run_ticks-lost}
use collectivus.ConfigClient.Loop.{
  Loop, start, stop, fire, settle, handle_all, IsAlive, handle_all-IsAlive,
}

abbrev tag : Bool → Text
tag true = text "a"
tag false = text "bb"

tag-true : (u : Bool) → tag u ≡ tag true → u ≡ true
tag-true true e = refl
tag-true false e = absurd (omega (arith, ap (λ t. length t) e))

abbrev client : Client Bool
client = record {
  etag = some (text "bb");
  etag_file = none;
  backoff_index = 2;
  not_registered_logged = false;
  events = (false, text "bb") ∷ [];
  log = [];
}

abbrev every : Bool → Bool
every b = true

abbrev down : World Bool
down = record {
  jwt = some [];
  fetch = λ jwt etag. some (record { status = 503; etag_header = none; json = none });
  refreshes = false;
  new_jwt = none;
  fetch_again = λ jwt etag. none;
  writes = true;
}

run_tick-converges_example :
    (last_event (run_tick 30 every (serving tag true true) client).1.events ≡ some (true, text "a"))
    × ((run_tick 30 every (serving tag true true) client).1.etag ≡ some (text "a"))
run_tick-converges_example =
    run_tick-converges tag 30 every true client tag-true (unfold read_etag_header in refl) refl
      (inr (false, refl, refl))

run_ticks-lost_example :
    (run_ticks 30 every
      (map (λ b. serving tag true b) (true ∷ true ∷ []))
      (run_tick 30 every (serving tag true false) client).1).1.events
    ≡ (false, text "bb") ∷ []
run_ticks-lost_example =
    run_ticks-lost tag 30 every true (true ∷ true ∷ []) client (unfold read_etag_header in refl)
      refl (unfold text_eq in refl)

abbrev idle : Loop Bool
idle = record { client = client; timer = none; stopped = true; in_flight = 0 }

abbrev busy : Loop Bool
busy = record { client = client; timer = none; stopped = false; in_flight = 1 }

handle_all-IsAlive_example :
    IsAlive (handle_all 30 every (start ∷ fire ∷ stop ∷ start ∷ settle down ∷ fire ∷ []) idle)
handle_all-IsAlive_example =
    handle_all-IsAlive 30 every (start ∷ fire ∷ stop ∷ start ∷ settle down ∷ fire ∷ []) idle
      (inl (refl, refl))
