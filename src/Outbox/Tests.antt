-- ===== src/Outbox/Tests.antt =====
-- Runs of src/gateway/outbox_sink.js, and its theorems at concrete inputs.
use collectivus.Prelude.{
  ℕ, ◌+◌, ◌≤◌, ◌<◌, ◌≡◌, ◌⊎◌, ◌≢◌, ◌↔◌, refl, false, some, [], ◌∷◌, text, text_eq,
}
use collectivus.Prelude.Maps.{Map, lookup, insert, remove}
use collectivus.Prelude.Decimals.{digits}
use collectivus.Outbox.{
  Batch, least, Options, Outbox, unique_path, append_line, candidate, find_free, ensure_open,
  open_batch, write_line, rotate_open, finish_batch, next_batch_base, claim_next, claim_target,
}
use collectivus.Outbox.Delivery.{
  answered, missing, no_token, unreachable, post_body, classify, rejected, accepted, send_loop,
  send_claimed, stranded,
}
use collectivus.Outbox.Delivery
use collectivus.Outbox.Files.{count}
use collectivus.Outbox.Rows.{stored}
use collectivus.Outbox.Steps.{World, write, here, next, empty, start, stored-balance}
use collectivus.Outbox.Stranded.{send_rounds, stranded_forever}

abbrev options : Options
options = record { max_rows = 1; max_bytes = 1000; pid = text "7"; exclusive = false }

-- One row fills a batch, which becomes ready.
abbrev one_ready : Outbox
one_ready = record empty { ready = (text "t-7-0", text "row" ∷ []) ∷ []; sequence = 1 }

append_run : append_line options (text "t") (text "row") empty ≡ some one_ready
unfolding append_line ensure_open open_batch write_line rotate_open finish_batch next_batch_base
    digits unique_path find_free candidate lookup insert remove text_eq
append_run = refl

abbrev one_sending : Outbox
one_sending = record empty { sending = (text "t-7-0", text "row" ∷ []) ∷ []; sequence = 1 }

abbrev after : World
after = record { outbox = one_ready; written = text "row" ∷ []; taken = []; again = []; lost = [] }

claim_run : (claim_next options one_ready).1 ≡ one_sending
unfolding claim_next claim_target least lookup insert remove text_eq
claim_run = refl

stored-balance_example :
    (count (text "row") after.written + count (text "row") after.again
      ≡ stored (text "row") after.outbox
        + count (text "row") after.taken
        + count (text "row") after.lost)
    × ((options.exclusive ≡ false) ⊎ (after.lost ≡ []))
stored-balance_example =
    stored-balance {o = options} (text "row")
      (next here (write start (text "t") (text "row") one_ready append_run))

abbrev taken_names : Map Batch
taken_names = (text "a", []) ∷ (text "a.1", []) ∷ []

post_body_fates_example :
    ((post_body 0 (
          answered
            (record { status = 401; retry_after = missing })
            (some (record { status = 403; retry_after = missing })))
        ≡ rejected 403)
      ↔ ((400 ≤ 403) × (403 < 500) × (◌≢◌ {A = ℕ} 403 429)))
    × ((post_body 0 (
            answered
              (record { status = 401; retry_after = missing })
              (some (record { status = 403; retry_after = missing })))
          ≡ accepted)
        ↔ ((200 ≤ 403) × (403 < 300)))
post_body_fates_example =
    Delivery.post_body_fates 0
      (answered (record { status = 401; retry_after = missing })
        (some (record { status = 403; retry_after = missing })))
      (record { status = 403; retry_after = missing }) refl

stranded_forever_example :
    ((send_claimed 0 (text "t-7-0") (no_token ∷ []) one_sending).0 ≡ stranded)
    × (lookup
          (text "t-7-0")
          (send_rounds options 0
            ([] ∷ [])
            (send_claimed 0 (text "t-7-0") (no_token ∷ []) one_sending).1).sending
        ≡ some (text "row" ∷ []))
unfolding lookup text_eq
stranded_forever_example =
    stranded_forever options 0 (text "t-7-0") [] ([] ∷ []) one_sending (text "row") [] refl refl
