-- ===== src/RateLimit/Retry.antt =====
-- The delay that src/server/rate_limit.js gives with a refusal.
use collectivus.Prelude.{
  ℕ, ◌+◌, ◌≤◌, ◌<◌, ◌≡◌, refl, Bool, true, false, List, [], ◌∷◌, ◌++◌, ltb, leb, length,
  length-append, keep, Text, text_eq, text_eq_refl, arith, Bool-cases, inl, inr, All, All-keep,
  All-append, tests,
}
use collectivus.Prelude.Maps.{Map, lookup, lookup-insert}
use collectivus.RateLimit.{Limits, is_fresh, stamps_of, decide, check}

-- The stamps of a key: in the order of time, none after `last`, no more than `max`.
abbrev pub IsAscending : List ℕ → Type 0
IsAscending [] = Unit
IsAscending (t ∷ ts) = All (λ u. t ≤ u) ts × IsAscending ts

pub record IsKept (o : Limits) (last : ℕ) (stamps : List ℕ) : Type 0 where
  pub ascending : IsAscending stamps
  pub past : All (λ t. t ≤ last) stamps
  pub few : length stamps ≤ o.max

keep-IsAscending : (p : ℕ → Bool) (xs : List ℕ) → IsAscending xs → IsAscending (keep p xs)
keep-IsAscending p [] h = tt
keep-IsAscending p (x ∷ xs) (k, h) =
    elim (p x) as (λ b. IsAscending (elim b [ true ↦ x ∷ keep p xs | false ↦ keep p xs ])) [
      | true ↦ (All-keep (λ u. x ≤ u) p xs k, keep-IsAscending p xs h)
      | false ↦ keep-IsAscending p xs h
    ]

length-keep : (p : ℕ → Bool) (xs : List ℕ) → length (keep p xs) ≤ length xs
length-keep p [] = omega arith
length-keep p (x ∷ xs) = ground (arith, length-keep p xs)

IsAscending-concat :
    (ts : List ℕ) (now : ℕ) → IsAscending ts → All (λ t. t ≤ now) ts → IsAscending (ts ++ now ∷ [])
IsAscending-concat [] now h k = (tt, tt)
IsAscending-concat (t ∷ ts) now (a, h) (p, k) =
    (All-append (λ u. t ≤ u) ts (now ∷ []) a (p, tt), IsAscending-concat ts now h k)

All-le_trans : (ts : List ℕ) (m n : ℕ) → m ≤ n → All (λ t. t ≤ m) ts → All (λ t. t ≤ n) ts
All-le_trans [] m n h k = tt
All-le_trans (t ∷ ts) m n h (p, k) = (omega arith, All-le_trans ts m n h k)

-- The stamps that a call stores are kept in order, and are no more than `max`.
decide-IsKept :
    (o : Limits) (last now : ℕ) (stamps : List ℕ)
    → last ≤ now
    → IsKept o last stamps
    → IsKept o now (decide o now (keep (is_fresh o now) stamps)).1
unfolding decide
decide-IsKept o last now stamps h k =
    let fresh = keep (is_fresh o now) stamps in
    let sorted = keep-IsAscending (is_fresh o now) stamps k.ascending in
    let old =
      All-keep (λ t. t ≤ now) (is_fresh o now) stamps (All-le_trans stamps last now h k.past) in
    elim (Bool-cases (leb o.max (length fresh))) [
      | inl e ↦ rw e (record {
        ascending = sorted;
        past = old;
        few = omega (arith, length-keep (is_fresh o now) stamps, k.few);
      })
      | inr e ↦ rw e (record {
        ascending = IsAscending-concat fresh now sorted old;
        past = All-append (λ t. t ≤ now) fresh (now ∷ []) old (omega arith, tt);
        few = ground (arith, length-append fresh (now ∷ []));
      })
    ]

-- While the oldest stamp is fresh, all are.
keep-All :
    (o : Limits) (later t : ℕ) (ts : List ℕ)
    → later < t + o.window_ms
    → All (λ u. t ≤ u) ts
    → keep (is_fresh o later) ts ≡ ts
keep-All o later t [] h k = refl
keep-All o later t (u ∷ ts) h (p, k) = ground (arith, keep-All o later t ts h k)

decide_again :
    (o : Limits) (now later : ℕ) (fresh : List ℕ)
    → 0 < o.max
    → IsAscending fresh
    → All (λ t. now < t + o.window_ms) fresh
    → length fresh ≤ o.max
    → now ≤ later
    → (decide o now fresh).0.allowed ≡ false
    → (decide o later (keep (is_fresh o later) (decide o now fresh).1)).0.allowed
      ≡ leb (now + (decide o now fresh).0.retry_after_ms) later
unfolding decide
decide_again o now later [] pos a f few le no' = ground arith
decide_again o now later (t ∷ ts) pos (a, as') (f, fs) few le no' =
    elim (Bool-cases (ltb later (t + o.window_ms))) [
      | inl early ↦ ground (arith, keep-All o later t ts (omega tests) a)
      | inr late ↦ ground (arith, length-keep (is_fresh o later) ts)
    ]

-- What was kept as fresh is fresh.
keep-fresh :
    (o : Limits) (now : ℕ) (xs : List ℕ)
    → All (λ t. now < t + o.window_ms) (keep (is_fresh o now) xs)
keep-fresh o now [] = tt
keep-fresh o now (x ∷ xs) = ground (arith, keep-fresh o now xs)

IsKept-later :
    (o : Limits) (last now : ℕ) (stamps : List ℕ)
    → last ≤ now
    → IsKept o last stamps
    → IsKept o now stamps
IsKept-later o last now stamps h k = record {
  ascending = k.ascending;
  past = All-le_trans stamps last now h k.past;
  few = k.few;
}

abbrev pub stamps_at : Text → Map (List ℕ) → List ℕ
stamps_at key events = stamps_of (lookup key events)

-- So for every key.
pub record IsOrderly (o : Limits) (last : ℕ) (events : Map (List ℕ)) : Type 0 where
  pub at : (k : Text) → IsKept o last (stamps_at k events)

-- On a call that is not earlier than the one before, every key's stamps stay in order, none of
-- them after the call, and no more than `max`.
pub check-IsOrderly :
    (o : Limits) (last now : ℕ) (key : Text) (events : Map (List ℕ))
    → last ≤ now
    → IsOrderly o last events
    → IsOrderly o now (check o now key events).1
unfolding check
check-IsOrderly o last now key events h kept = record {
  at = λ k. rw lookup-insert (elim (Bool-cases (text_eq key k)) [
    | inl e ↦ rw e (decide-IsKept o last now (stamps_at key events) h (kept.at key))
    | inr e ↦ rw e (IsKept-later o last now (stamps_at k events) h (kept.at k))
  ]);
}

-- The delay of a refusal is exact: a later call for the key, with none between, is let through if
-- and only if that delay has passed. (For stamps that are kept in order and no more than `max`.)
pub check_again :
    (o : Limits) (now later : ℕ) (key : Text) (events : Map (List ℕ))
    → 0 < o.max
    → IsKept o now (stamps_at key events)
    → now ≤ later
    → (check o now key events).0.allowed ≡ false
    → (check o later key (check o now key events).1).0.allowed
      ≡ leb (now + (check o now key events).0.retry_after_ms) later
unfolding check
check_again o now later key events pos k le no' =
    let fresh = keep (is_fresh o now) (stamps_at key events) in
    rw (lookup-insert, text_eq_refl key)
      (decide_again o now later fresh pos
        (keep-IsAscending (is_fresh o now) (stamps_at key events) k.ascending)
        (keep-fresh o now (stamps_at key events))
        (omega (arith, length-keep (is_fresh o now) (stamps_at key events), k.few)) le no')
