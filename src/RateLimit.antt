-- ===== src/RateLimit.antt =====
-- src/server/rate_limit.js: the sliding window and the token bucket. The clock is an argument of
-- each call. Times are whole milliseconds; tokens are counted in thousandths, in which what a
-- millisecond accrues is a whole number (the source has doubles, whose rounding is left out).
pub mod Window
pub mod Retry
pub mod Bucket
pub mod Tests
use collectivus.Prelude.{
  ℕ, zero, suc, ◌+◌, ◌-◌, ◌*◌, min, Bool, true, false, Option, none, some, List, [], ◌∷◌, ◌++◌, ltb,
  leb, if◌then◌else◌, length, keep, Text,
}
use collectivus.Prelude.Maps.{Map, lookup, insert}

pub record Limits : Type 0 where
  pub window_ms : ℕ
  pub max : ℕ

pub record Verdict : Type 0 where
  pub allowed : Bool
  pub retry_after_ms : ℕ

-- `t > nowMs - windowMs`, where the difference may be negative
abbrev pub is_fresh : Limits → ℕ → ℕ → Bool
is_fresh o now t = ltb now (t + o.window_ms)

abbrev pub stamps_of : Option (List ℕ) → List ℕ
stamps_of none = []
stamps_of (some stamps) = stamps

abbrev pub oldest_of : List ℕ → ℕ
oldest_of [] = 0
oldest_of (t ∷ ts) = t

-- `check` on the time stamps of one key, those that are still fresh: the answer, and the stamps
-- that are stored.
unfoldable pub decide : Limits → ℕ → List ℕ → Verdict × List ℕ
decide o now fresh =
    if leb o.max (length fresh)
    then (record { allowed = false; retry_after_ms = oldest_of fresh + o.window_ms - now }, fresh)
    else (record { allowed = true; retry_after_ms = 0 }, fresh ++ now ∷ [])

-- The method `check` of `SlidingWindowRateLimiter`.
unfoldable pub check : Limits → ℕ → Text → Map (List ℕ) → Verdict × Map (List ℕ)
check o now key events =
    let (verdict, stored) = decide o now (keep (is_fresh o now) (stamps_of (lookup key events))) in
    (verdict, insert key stored events)

pub record TokenBucket : Type 0 where
  pub capacity : ℕ
  pub refill_per_second : ℕ
  pub tokens : ℕ
  pub last_refill_ms : ℕ

-- The constructor: a full bucket.
unfoldable pub new_bucket : ℕ → ℕ → ℕ → TokenBucket
new_bucket capacity rate now = record {
  capacity = capacity;
  refill_per_second = rate;
  tokens = capacity * 1000;
  last_refill_ms = now;
}

unfoldable pub refill : ℕ → TokenBucket → TokenBucket
refill now b = if leb now b.last_refill_ms then b else record b {
  tokens = min (b.capacity * 1000) (b.tokens + (now - b.last_refill_ms) * b.refill_per_second);
  last_refill_ms = now;
}

abbrev pub debit : ℕ → TokenBucket → Bool × TokenBucket
debit cost b =
    if ltb b.tokens (cost * 1000)
    then (false, b)
    else (true, record b { tokens = b.tokens - cost * 1000 })

unfoldable pub try_consume : ℕ → ℕ → TokenBucket → Bool × TokenBucket
try_consume now cost b = debit cost (refill now b)

unfoldable pub available : ℕ → TokenBucket → ℕ × TokenBucket
available now b = let b' = refill now b in (b'.tokens, b')
