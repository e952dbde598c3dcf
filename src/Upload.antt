-- ===== src/Upload.antt =====
-- src/upload/uploader.js with src/upload/ledger.js: the upload of a day's file as one object, and
-- the retries of the calls to the store. What each attempt of a call meets is a function of its
-- number; a call that fails may have had its effect. The encoding of a file is an argument, with
-- the count of its rows. The entries of the ledger are what its lines say.
pub mod Retry
pub mod Objects
pub mod Tests
use collectivus.Prelude.{
  ℕ, zero, suc, ◌+◌, ◌*◌, ◌^◌, Bool, true, false, ◌&&◌, ◌||◌, Option, none, some, List, [], ◌∷◌,
  ◌++◌, ltb, leb, ◌==◌, if◌then◌else◌, Text, text, text_eq,
}
use collectivus.Prelude.Maps.{Map, lookup, insert}
use collectivus.Bootstrap.{is_empty}

pub record UploadJob : Type 0 where
  pub service : Text
  pub signal : Text
  pub date : Text

pub record LedgerEntry : Type 0 where
  pub service : Text
  pub signal : Text
  pub date : Text
  pub key : Text

-- `ledgerKey`
abbrev pub ledger_key : Text → Text → Text → Text
ledger_key service signal date = service ++ 0 ∷ (signal ++ 0 ∷ date)

-- `readLedger`
unfoldable pub read_ledger : List LedgerEntry → List Text
read_ledger [] = []
read_ledger (e ∷ es) = ledger_key e.service e.signal e.date ∷ read_ledger es

abbrev pub has : Text → List Text → Bool
has k [] = false
has k (j ∷ keys) = text_eq j k || has k keys

-- `isCommitted`
abbrev pub is_committed : List Text → UploadJob → Bool
is_committed committed j = has (ledger_key j.service j.signal j.date) committed

-- What the uploader adds to the set in memory.
abbrev pub added_key : UploadJob → Text
added_key j = j.service ++ 32 ∷ (j.signal ++ 32 ∷ j.date)

-- One attempt of a call; a failure has a status, unless the network failed.
pub data Attempt : Type 0 where
  works : Attempt
  fails fails_late : Option ℕ → Attempt

-- `isTransient`
abbrev pub is_transient : Option ℕ → Bool
is_transient none = true
is_transient (some status) = status == 429 || (leb 500 status && ltb status 600)

pub data Ended : Type 0 where
  succeeded : Ended
  failed_for_good exhausted : Ended

pub record RetryDeps : Type 0 where
  pub max_attempts : ℕ
  pub initial_backoff_ms : ℕ

-- How a call with its retries ended, the delays before its retries, and the state.
pub record Tried (S : Type 0) : Type 0 where
  pub ended : Ended
  pub delays : List ℕ
  pub state : S

module _ {S : Type 0} (initial : ℕ) (attempts : ℕ → Attempt) (op : S → S) where
  -- `attempt === maxAttempts - 1`, or a delay before the next attempt
  abbrev pub or_retry : ℕ → ℕ → Tried S → S → Tried S
  or_retry zero k rest s = record { ended = exhausted; delays = []; state = s }
  or_retry (suc n) k rest s = record rest { delays = initial * 4 ^ k ∷ rest.delays }

  abbrev pub if_transient : Bool → Tried S → S → Tried S
  if_transient true next s = next
  if_transient false next s = record { ended = failed_for_good; delays = []; state = s }

  -- What follows one attempt: `early` goes on where it had no effect, `late` where it had.
  abbrev pub after_attempt : Attempt → ℕ → ℕ → Tried S → Tried S → S → Tried S
  after_attempt works n k early late s = record { ended = succeeded; delays = []; state = op s }
  after_attempt (fails status) n k early late s =
      if_transient (is_transient status) (or_retry n k early s) s
  after_attempt (fails_late status) n k early late s =
      if_transient (is_transient status) (or_retry n k late (op s)) (op s)

  -- The loop of `withRetry`: the attempts from number `k` on, of which `n` are left. Without any, it
  -- throws undefined, which is not marked as transient.
  unfoldable pub retry_from : ℕ → ℕ → S → Tried S
  retry_from zero k s = record { ended = failed_for_good; delays = []; state = s }
  retry_from (suc n) k s =
      let early = retry_from n (suc k) s in
      let late = retry_from n (suc k) (op s) in after_attempt (attempts k) n k early late s

-- `withRetry`
abbrev pub with_retry : {S : Type 0} → RetryDeps → (ℕ → Attempt) → (S → S) → S → Tried S
with_retry d attempts op s = retry_from d.initial_backoff_ms attempts op d.max_attempts 0 s

-- What a job's calls meet, and what its file was encoded to: the count of rows and the object,
-- none where that throws.
pub record JobWorld : Type 0 where
  pub head : ℕ → Attempt
  pub put : ℕ → Attempt
  pub encoded : Option (ℕ × Text)

pub record Store : Type 0 where
  pub committed : List Text
  pub ledger : List LedgerEntry
  pub objects : Map Text

pub data Uploaded : Type 0 where
  uploaded : ℕ → Uploaded
  skipped : Uploaded
  upload_failed : Bool → Uploaded

-- `prefix.replace(/^\/+|\/+$/g, '')` is done; `objectKey`
abbrev pub object_key : Text → UploadJob → Text
object_key head j =
    let signal = if text_eq j.signal (text "proxy") then text "proxy_messages" else j.signal in
    let name = j.service ++ b'/' ∷ (signal ++ text "/date=" ++ j.date ++ text "/data.parquet") in
    if is_empty head then name else head ++ b'/' ∷ name

-- `appendLedger`, with the key that is added in memory
abbrev pub commit : Text → UploadJob → Store → Store
commit key j s = record s {
  ledger =
      s.ledger ++ record { service = j.service; signal = j.signal; date = j.date; key = key } ∷ [];
  committed = added_key j ∷ s.committed;
}

abbrev pub failed_call : Ended → Uploaded
failed_call succeeded = skipped
failed_call failed_for_good = upload_failed false
failed_call exhausted = upload_failed true

-- What follows the put.
abbrev pub finish_put : Text → UploadJob → ℕ → Ended → Store → Uploaded × Store
finish_put key j rows succeeded s = (uploaded rows, commit key j s)
finish_put key j rows e s = (failed_call e, s)

abbrev pub after_put : Text → UploadJob → ℕ → Tried Store → Uploaded × Store
after_put key j rows t = finish_put key j rows t.ended t.state

abbrev pub put_object : Text → Text → Store → Store
put_object key parquet s = record s { objects = insert key parquet s.objects }

abbrev pub store_encoded :
    RetryDeps → JobWorld → Text → UploadJob → Option (ℕ × Text) → Store → Uploaded × Store
store_encoded d w key j none s = (upload_failed false, s)
store_encoded d w key j (some (zero, parquet)) s = (skipped, s)
store_encoded d w key j (some (suc n, parquet)) s =
    after_put key j (suc n) (with_retry d w.put (put_object key parquet) s)

-- What follows the answer of the store on the object.
abbrev pub after_head :
    RetryDeps → JobWorld → Text → UploadJob → Option Text → Store → Uploaded × Store
after_head d w key j (some parquet) s = (skipped, commit key j s)
after_head d w key j none s = store_encoded d w key j w.encoded s

abbrev pub if_asked : RetryDeps → JobWorld → Text → UploadJob → Ended → Store → Uploaded × Store
if_asked d w key j succeeded s = after_head d w key j (lookup key s.objects) s
if_asked d w key j e s = (failed_call e, s)

-- `uploadJob`, with what `uploadPending` makes of its errors
unfoldable pub upload_job : RetryDeps → Text → JobWorld → UploadJob → Store → Uploaded × Store
upload_job d head w j s =
    if is_committed s.committed j
    then (skipped, s)
    else if_asked d w (object_key head j) j (with_retry d w.head (λ (u : Store). u) s).ended s

-- The loop of `uploadPending`
unfoldable pub upload_jobs : RetryDeps → Text → List (UploadJob × JobWorld) → Store → Store
upload_jobs d head [] s = s
upload_jobs d head ((j, w) ∷ jobs) s = upload_jobs d head jobs (upload_job d head w j s).1

-- `uploadPending`, of the jobs that were found: it reads the ledger first
unfoldable pub upload_pending : RetryDeps → Text → List (UploadJob × JobWorld) → Store → Store
upload_pending d head jobs s =
    upload_jobs d head jobs (record s { committed = read_ledger s.ledger })
