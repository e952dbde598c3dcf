-- ===== src/Shipping/Tests.antt =====
-- The theorems on src/gateway/shipping_sink.js at concrete inputs.
use collectivus.Prelude.{◌≡◌, refl, true, none, some, List, [], ◌∷◌, ◌++◌, All, Text, text, arith}
use collectivus.Shipping.{Options, Answers, Shipped, write_row, on_timer, close, utf8_length}
use collectivus.Shipping.Order.{
  Event, writing, closing, settling, new_world, handle, handle_all, settled_rows, in_sink,
  handle_all-order,
}
use collectivus.Shipping.Bounds.{Fits, IsSink, handle_all-Fits}

abbrev two_rows : Options
two_rows = record { max_rows = 2; max_bytes = 100 }

abbrev renewed : Answers
renewed = record {
  jwt = some (text "old");
  post = λ jwt body. some 401;
  refreshes = true;
  new_jwt = some (text "new");
  post_again = λ jwt body. some 202;
}

abbrev calls : List Event
calls =
    writing (some (text "a"))
    ∷ writing none
    ∷ writing (some (text "b"))
    ∷ writing (some (text "c"))
    ∷ settling renewed
    ∷ closing
    ∷ writing (some (text "d"))
    ∷ []

-- Two batches, the first settled, and no row after the close.
run_batches : (handle_all two_rows calls new_world).sink.chain ≡ (text "c" ∷ []) ∷ []
unfolding handle_all handle write_row on_timer close utf8_length
run_batches = refl

utf8_pair : utf8_length (0xd83d ∷ 0xde00 ∷ 0xd83d ∷ 0xe9 ∷ []) ≡ 9
unfolding utf8_length
utf8_pair = refl

handle_all-order_example :
    (handle_all two_rows calls new_world).accepted
    ≡ settled_rows (handle_all two_rows calls new_world).settled
      ++ in_sink (handle_all two_rows calls new_world).sink
handle_all-order_example = handle_all-order two_rows calls

handle_all-Fits_example :
    All
      (λ (p : List Text × Shipped). Fits two_rows p.0)
      (handle_all two_rows calls new_world).settled
    × IsSink two_rows (handle_all two_rows calls new_world).sink
handle_all-Fits_example = handle_all-Fits two_rows calls (omega arith) (omega arith)
