-- ===== src/Outbox/Delivery.antt =====
-- Posting a claimed file: `postBody`, `retryAfterSeconds` and the loop of `sendClaimedFile` of
-- src/gateway/outbox_sink.js. The answers of the network are the argument.
use collectivus.Prelude.{
  ℕ, zero, suc, ◌+◌, ◌-◌, ◌*◌, ◌/◌, ◌^◌, ◌≤◌, ◌<◌, min, ◌≡◌, ◌≢◌, refl, ap, Bool-cases, get_elem?,
  ◌↔◌, inl, inr, ◌&&◌, ◌||◌, Option, none, some, List, [], ◌∷◌, ltb, leb, ◌==◌, if◌then◌else◌,
  length, Text, All, arith,
}
use native.Mathlib.Nat.{pow-suc}
use collectivus.Prelude.Maps.{lookup, remove}
use collectivus.Outbox.{Outbox, Batch, batch_of, move_to_failed}

abbrev pub max_retry_seconds : ℕ
max_retry_seconds = 300

abbrev pub initial_retry_seconds : ℕ
initial_retry_seconds = 1

-- The header `retry-after`, by what `Number.parseInt` and `Date.parse` make of it.
pub data RetryAfter : Type 0 where
  missing : RetryAfter
  whole : ℕ → RetryAfter
  date : ℕ → RetryAfter
  unreadable : RetryAfter

unfoldable pub retry_after_seconds : ℕ → RetryAfter → ℕ
retry_after_seconds now missing = initial_retry_seconds
retry_after_seconds now (whole seconds) = seconds
retry_after_seconds now (date ms) = (ms - now + 999) / 1000
retry_after_seconds now unreadable = initial_retry_seconds

pub record Response : Type 0 where
  pub status : ℕ
  pub retry_after : RetryAfter

-- What one round meets: no token for the first post (`getCurrentJwt` throws), a first post that
-- throws, or its response, with what the refresh and the second post give, if they are made.
pub data Network : Type 0 where
  no_token : Network
  unreachable : Network
  answered : Response → Option Response → Network

pub data PostResult : Type 0 where
  accepted : PostResult
  rejected : ℕ → PostResult
  retry : Option ℕ → PostResult
  threw : PostResult

-- The tests on the last response.
unfoldable pub classify : ℕ → Response → PostResult
classify now r =
    if r.status == 202 || (leb 200 r.status && ltb r.status 300)
    then accepted
    else if r.status == 429 || r.status == 503
    then retry (some (retry_after_seconds now r.retry_after))
    else if leb 500 r.status
    then retry none
    else if leb 400 r.status
    then rejected r.status
    else retry none

abbrev pub classify_second : ℕ → Option Response → PostResult
classify_second now none = retry none
classify_second now (some r) = classify now r

-- `postBody`
unfoldable pub post_body : ℕ → Network → PostResult
post_body now no_token = threw
post_body now unreachable = retry none
post_body now (answered first second) =
    if first.status == 401 then classify_second now second else classify now first

-- What becomes of the claimed file, with the delays that were slept before.
pub data Fate : Type 0 where
  delivered : Fate
  poisoned : Fate
  stranded : Fate
  unfinished : Fate

abbrev pub next_retry : Option ℕ → ℕ → ℕ
next_retry none seconds = min (seconds * 2) max_retry_seconds
next_retry (some given) seconds = seconds

abbrev pub delay_of : Option ℕ → ℕ → ℕ
delay_of none seconds = seconds
delay_of (some given) seconds = given

-- The loop, over the answers of its rounds; `unfinished` when the answers end (the process stops,
-- or the sink is closed, while the batch is still to be sent).
unfoldable pub send_loop : ℕ → ℕ → List Network → Fate × List ℕ
send_loop now seconds [] = (unfinished, [])
send_loop now seconds (net ∷ nets) = elim (post_body now net) [
  | accepted ↦ (delivered, [])
  | rejected status ↦ (poisoned, [])
  | threw ↦ (stranded, [])
  | retry given ↦
      let rest = send_loop now (next_retry given seconds) nets in
      (rest.0, delay_of given seconds ∷ rest.1)
]

abbrev pub settle : Fate → Text → Outbox → Outbox
settle delivered path s = record s { sending = remove path s.sending }
settle poisoned path s = move_to_failed path s
settle stranded path s = s
settle unfinished path s = s

abbrev pub fate_of : Batch → Fate → Fate
fate_of [] fate = delivered
fate_of (line ∷ lines) fate = fate

-- `sendClaimedFile`: the fate of the file, and the outbox after it. An empty file is unlinked.
unfoldable pub send_claimed : ℕ → Text → List Network → Outbox → Fate × Outbox
send_claimed now path nets s =
    let fate =
      fate_of (batch_of (lookup path s.sending)) (send_loop now initial_retry_seconds nets).0 in
    (fate, settle fate path s)

-- The last response that `postBody` looks at.
abbrev pub last_response : Network → Option Response
last_response no_token = none
last_response unreachable = none
last_response (answered first second) = if first.status == 401 then second else some first

classify-rejected :
    (now : ℕ) (r : Response)
    → (classify now r ≡ rejected r.status)
      ↔ ((400 ≤ r.status) × (r.status < 500) × (r.status ≢ 429))
unfolding classify
classify-rejected now r = ground arith

classify-accepted :
    (now : ℕ) (r : Response) → (classify now r ≡ accepted) ↔ ((200 ≤ r.status) × (r.status < 300))
unfolding classify
classify-accepted now r = ground arith

post_body-last :
    (now : ℕ) (net : Network) (r : Response)
    → last_response net ≡ some r
    → post_body now net ≡ classify now r
unfolding post_body
post_body-last now no_token r h = cc
post_body-last now unreachable r h = cc
post_body-last now (answered first second) r h = elim (Bool-cases (first.status == 401)) [
  | inl e ↦ rw e (ap (classify_second now) (rw e at h))
  | inr e ↦ rw e (ap (classify_second now) (rw e at h))
]

-- Of the last response, which is the second one after a 401: a batch is given up exactly when its
-- status is 400 to 499 and not 429, and is taken for delivered exactly when it is 200 to 299.
pub post_body_fates :
    (now : ℕ) (net : Network) (r : Response)
    → last_response net ≡ some r
    → ((post_body now net ≡ rejected r.status)
        ↔ ((400 ≤ r.status) × (r.status < 500) × (r.status ≢ 429)))
      × ((post_body now net ≡ accepted) ↔ ((200 ≤ r.status) × (r.status < 300)))
post_body_fates now net r h =
    rw (post_body-last now net r h) (classify-rejected now r, classify-accepted now r)

abbrev pub backoff : ℕ → ℕ
backoff i = min (2 ^ i) max_retry_seconds

backoff-suc : (i : ℕ) → min (backoff i * 2) max_retry_seconds ≡ backoff (suc i)
backoff-suc i = omega (arith, pow-suc 2 i)

send_loop-retry :
    (now seconds : ℕ) (given : Option ℕ) (net : Network) (nets : List Network)
    → post_body now net ≡ retry given
    → send_loop now seconds (net ∷ nets) ≡ (
      (send_loop now (next_retry given seconds) nets).0,
      delay_of given seconds ∷ (send_loop now (next_retry given seconds) nets).1,
    )
unfolding send_loop
send_loop-retry now seconds given net nets e = rw (e, send_loop)

delays_from :
    (now k : ℕ) (nets : List Network) (i : ℕ)
    → All (λ net. post_body now net ≡ retry none) nets
    → i < length nets
    → get_elem? (send_loop now (backoff k) nets).1 i ≡ some (backoff (k + i))
delays_from now k [] i h lt = absurd (omega arith)
delays_from now k (net ∷ nets) zero (e, h) lt =
    let z : k + 0 ≡ k = omega arith in rw (send_loop-retry now (backoff k) none net nets e, z) refl
delays_from now k (net ∷ nets) (suc i) (e, h) lt =
    let z : k + suc i ≡ suc k + i = omega arith in
    rw (send_loop-retry now (backoff k) none net nets e, z, backoff-suc k)
      (delays_from now (suc k) nets i h (omega arith))

-- While Central gives no delay of its own, the delay before round i + 1 is 2 ^ i seconds, and 300
-- from where that is more.
pub send_loop-delays :
    (now : ℕ) (nets : List Network) (i : ℕ)
    → All (λ net. post_body now net ≡ retry none) nets
    → i < length nets
    → get_elem? (send_loop now initial_retry_seconds nets).1 i
      ≡ some (min (2 ^ i) max_retry_seconds)
send_loop-delays now nets i h lt =
    let z : 0 + i ≡ i = omega arith in rw z at (delays_from now 0 nets i h lt)
