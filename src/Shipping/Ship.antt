-- ===== src/Shipping/Ship.antt =====
-- The posts of one batch, in src/gateway/shipping_sink.js.
use collectivus.Prelude.{
  ℕ, ◌≤◌, ◌≡◌, refl, true, false, Option, none, some, List, [], ◌∷◌, length, All, Text, arith,
  if_cases,
}
use collectivus.Shipping.{
  Answers, Shipped, is_ok, is_unauthorized, body_of, with_second, with_first, with_jwt, ship_batch,
}

-- The answer to the last post.
abbrev pub answer_to : Answers → List (Text × Text) → Option ℕ
answer_to a [] = none
answer_to a ((jwt, body) ∷ []) = a.post jwt body
answer_to a (first ∷ (jwt, body) ∷ rest) = a.post_again jwt body

-- The second post was made because the first was answered by 401.
abbrev pub Justified : Answers → List (Text × Text) → Type 0
Justified a [] = Unit
Justified a (first ∷ []) = Unit
Justified a ((jwt, body) ∷ second ∷ rest) = a.post jwt body ≡ some 401

pub record IsShipment (a : Answers) (body : Text) (r : Shipped) : Type 0 where
  pub same_body : All (λ (p : Text × Text). p.1 ≡ body) r.posts
  pub two_posts : length r.posts ≤ 2
  pub justified : Justified a r.posts
  pub outcome : r.resolved ≡ is_ok (answer_to a r.posts)

unauthorized-not-ok : (o : Option ℕ) → is_unauthorized o ≡ true → is_ok o ≡ false
unauthorized-not-ok none e = refl
unauthorized-not-ok (some n) e = ground arith

unauthorized-eq : (o : Option ℕ) → is_unauthorized o ≡ true → o ≡ some 401
unauthorized-eq none e = cc
unauthorized-eq (some n) e = ground arith

with_second-IsShipment :
    (a : Answers) (body jwt : Text) (fresh : Option Text)
    → is_unauthorized (a.post jwt body) ≡ true
    → IsShipment a body (with_second a body jwt fresh)
with_second-IsShipment a body jwt none e = record {
  same_body = (refl, tt);
  two_posts = omega arith;
  justified = tt;
  outcome = ground (arith, unauthorized-not-ok (a.post jwt body));
}
with_second-IsShipment a body jwt (some fresh) e = record {
  same_body = (refl, (refl, tt));
  two_posts = omega arith;
  justified = unauthorized-eq (a.post jwt body) e;
  outcome = refl;
}

with_first-IsShipment : (a : Answers) (body jwt : Text) → IsShipment a body (with_first a body jwt)
with_first-IsShipment a body jwt =
    if_cases (IsShipment a body) (is_unauthorized (a.post jwt body)) _ _
      (λ e.
        if_cases (IsShipment a body) a.refreshes _ _
          (λ k. with_second-IsShipment a body jwt a.new_jwt e)
          λ k. record {
            same_body = (refl, tt);
            two_posts = omega arith;
            justified = tt;
            outcome = ground (arith, unauthorized-not-ok (a.post jwt body));
          })
      λ e. record {
        same_body = (refl, tt);
        two_posts = omega arith;
        justified = tt;
        outcome = refl;
      }

with_jwt-IsShipment :
    (a : Answers) (body : Text) (jwt : Option Text) → IsShipment a body (with_jwt a body jwt)
with_jwt-IsShipment a body none = record {
  same_body = tt;
  two_posts = omega arith;
  justified = tt;
  outcome = refl;
}
with_jwt-IsShipment a body (some jwt) = with_first-IsShipment a body jwt

-- A batch with a row is posted at most twice, with its whole body each time, and a second time
-- only after the first was answered by 401; it counts as shipped exactly if the answer to the last
-- post has a status of 200 to 299.
pub ship_batch-IsShipment :
    (a : Answers) (line : Text) (lines : List Text)
    → IsShipment a (body_of (line ∷ lines)) (ship_batch a (line ∷ lines))
unfolding ship_batch
ship_batch-IsShipment a line lines = with_jwt-IsShipment a (body_of (line ∷ lines)) a.jwt
