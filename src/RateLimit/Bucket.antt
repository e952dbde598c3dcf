-- ===== src/RateLimit/Bucket.antt =====
-- The ceiling that the token bucket of src/server/rate_limit.js puts on what is taken.
use collectivus.Prelude.{
  ℕ, ◌+◌, ◌-◌, ◌*◌, ◌≤◌, ◌≡◌, refl, Bool, true, false, List, [], ◌∷◌, if◌then◌else◌, arith, ap, ◌∙◌,
}
use collectivus.RateLimit.{TokenBucket, new_bucket, refill, try_consume}

-- A call of `tryConsume`: the clock's value, and the cost.
abbrev pub Take : Type 0
Take = ℕ × ℕ

-- The bucket after the calls, and the sum of the costs that were granted.
unfoldable pub take_all : TokenBucket → List Take → ℕ × TokenBucket
take_all b [] = (0, b)
take_all b ((now, cost) ∷ takes) =
    let (ok, b') = try_consume now cost b in
    let (total, last) = take_all b' takes in ((if ok then cost + total else total), last)

pub record IsWithin (b : TokenBucket) : Type 0 where
  pub full : b.tokens ≤ b.capacity * 1000

refill-IsWithin : (now : ℕ) (b : TokenBucket) → IsWithin b → IsWithin (refill now b)
unfolding refill
refill-IsWithin now b h = ground arith

pub try_consume-IsWithin :
    (now cost : ℕ) (b : TokenBucket) → IsWithin b → IsWithin (try_consume now cost b).1
unfolding try_consume
try_consume-IsWithin now cost b h = ground (arith, refill-IsWithin now b h)

-- One call takes no more than was there and what time accrued.
record Step (cost : ℕ) (b : TokenBucket) (ok : Bool) (b' : TokenBucket) : Type 0 where
  rate : b'.refill_per_second ≡ b.refill_per_second
  size : b'.capacity ≡ b.capacity
  later : b.last_refill_ms ≤ b'.last_refill_ms
  spent :
      (if ok then cost * 1000 else 0) + b'.tokens
      ≤ b.tokens + (b'.last_refill_ms - b.last_refill_ms) * b.refill_per_second

try_consume-Step :
    (now cost : ℕ) (b : TokenBucket)
    → Step cost b (try_consume now cost b).0 (try_consume now cost b).1
unfolding try_consume refill
try_consume-Step now cost b = ground arith

pub capacity-try_consume :
    (now cost : ℕ) (b : TokenBucket) → (try_consume now cost b).1.capacity ≡ b.capacity
capacity-try_consume now cost b = (try_consume-Step now cost b).size

-- Two intervals one after the other accrue what their sum accrues.
accrue-add : (a b c r : ℕ) → a ≤ b → b ≤ c → (b - a) * r + (c - b) * r ≡ (c - a) * r
accrue-add a b c r h k =
    let e : (b - a) + (c - b) ≡ c - a = omega arith in omega (arith, ap (λ (t : ℕ). t * r) e)

abbrev Balance : TokenBucket → ℕ × TokenBucket → Type 0
Balance b r =
    (b.last_refill_ms ≤ r.1.last_refill_ms)
    × (r.0 * 1000 + r.1.tokens
        ≤ b.tokens + (r.1.last_refill_ms - b.last_refill_ms) * b.refill_per_second)

join-Balance :
    (cost : ℕ) (b : TokenBucket) (ok : Bool) (b' : TokenBucket) (r : ℕ × TokenBucket)
    → Step cost b ok b'
    → Balance b' r
    → Balance b ((if ok then cost + r.0 else r.0), r.1)
join-Balance cost b true b' r s (le, fits) =
    let sum =
      accrue-add b.last_refill_ms b'.last_refill_ms r.1.last_refill_ms b.refill_per_second s.later
        le in
    let same = ap (λ (t : ℕ). (r.1.last_refill_ms - b'.last_refill_ms) * t) s.rate in
    (omega (arith, s.later), omega (arith, s.spent, sum, same))
join-Balance cost b false b' r s (le, fits) =
    let sum =
      accrue-add b.last_refill_ms b'.last_refill_ms r.1.last_refill_ms b.refill_per_second s.later
        le in
    let same = ap (λ (t : ℕ). (r.1.last_refill_ms - b'.last_refill_ms) * t) s.rate in
    (omega (arith, s.later), omega (arith, s.spent, sum, same))

take_all-IsWithin :
    (b : TokenBucket) (takes : List Take)
    → IsWithin b
    → ((take_all b takes).1.capacity ≡ b.capacity) × IsWithin (take_all b takes).1
unfolding take_all
take_all-IsWithin b [] h = (refl, h)
take_all-IsWithin b ((now, cost) ∷ takes) h =
    let (same, fits) =
      take_all-IsWithin (try_consume now cost b).1 takes (try_consume-IsWithin now cost b h) in
    (same ∙ (try_consume-Step now cost b).size, fits)

take_all-Balance : (b : TokenBucket) (takes : List Take) → Balance b (take_all b takes)
unfolding take_all
take_all-Balance b [] = (omega arith, omega arith)
take_all-Balance b ((now, cost) ∷ takes) =
    let (ok, b') = try_consume now cost b in
    join-Balance cost b ok b' (take_all b' takes) (try_consume-Step now cost b)
      (take_all-Balance b' takes)

-- Whatever calls are made, and also where the clock runs back, the tokens that were granted since
-- the bucket was made are no more than its capacity and what accrued up to the last refill.
pub take_all-ceiling :
    (capacity rate start : ℕ) (takes : List Take)
    → (take_all (new_bucket capacity rate start) takes).0 * 1000
      ≤ capacity * 1000
        + ((take_all (new_bucket capacity rate start) takes).1.last_refill_ms - start) * rate
unfolding new_bucket
take_all-ceiling capacity rate start takes =
    omega (arith, (take_all-Balance (new_bucket capacity rate start) takes).1)

pub granted-le :
    (now cost : ℕ) (b : TokenBucket)
    → IsWithin b
    → (try_consume now cost b).0 ≡ true
    → (try_consume now cost b).1.tokens + cost * 1000 ≤ b.capacity * 1000
unfolding try_consume refill
granted-le now cost b h ok = ground arith

-- A call that is granted, whenever it is made and whatever was taken before, costs no more than the
-- capacity, and leaves no more tokens than the capacity less its cost.
pub try_consume-capacity :
    (capacity rate start now cost : ℕ) (takes : List Take)
    → (try_consume now cost (take_all (new_bucket capacity rate start) takes).1).0 ≡ true
    → (try_consume now cost (take_all (new_bucket capacity rate start) takes).1).1.tokens
        + cost * 1000
      ≤ capacity * 1000
unfolding new_bucket
try_consume-capacity capacity rate start now cost takes ok =
    let new = new_bucket capacity rate start in
    let (same, fits) = take_all-IsWithin new takes (omega arith) in
    rw same at (granted-le now cost (take_all new takes).1 fits ok)
