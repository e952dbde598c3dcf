-- ===== src/Upload/Objects.antt =====
-- The objects of src/upload/uploader.js against its ledger.
use collectivus.Prelude.{
  ℕ, zero, suc, ◌≡◌, ◌⊎◌, refl, inl, inr, Bool, true, false, Option, none, some, List, [], ◌∷◌,
  Text, text_eq, text_eq_iff, text_eq_refl, arith, if_cases, All, All-append, Bool-cases,
  Option-cases,
}
use collectivus.Prelude.Maps.{Map, lookup, lookup-insert}
use collectivus.Upload.{
  UploadJob, LedgerEntry, is_committed, Attempt, works, fails, fails_late, is_transient, Ended,
  succeeded, failed_for_good, exhausted, RetryDeps, Tried, or_retry, if_transient, after_attempt,
  retry_from, with_retry, JobWorld, Store, Uploaded, object_key, commit, finish_put, put_object,
  store_encoded, after_head, if_asked, upload_job, upload_jobs, upload_pending, read_ledger,
}

-- A property that one effect of a call keeps, over all of its attempts.
module _ {S : Type 0} (initial : ℕ) (attempts : ℕ → Attempt) (op : S → S) (P : S → Type 0)
    (keeps : (s : S) → P s → P (op s)) where
  or_retry-holds :
      (n k : ℕ) (rest : Tried S) (s : S)
      → P rest.state
      → P s
      → P (or_retry initial attempts op n k rest s).state
  or_retry-holds zero k rest s h g = g
  or_retry-holds (suc n) k rest s h g = h

  if_transient-holds :
      (b : Bool) (next : Tried S) (s : S)
      → P next.state
      → P s
      → P (if_transient initial attempts op b next s).state
  if_transient-holds true next s h g = h
  if_transient-holds false next s h g = g

  after_attempt-holds :
      (a : Attempt) (n k : ℕ) (early late : Tried S) (s : S)
      → P early.state
      → P late.state
      → P s
      → P (after_attempt initial attempts op a n k early late s).state
  after_attempt-holds works n k early late s h l g = keeps s g
  after_attempt-holds (fails status) n k early late s h l g =
      if_transient-holds (is_transient status) (or_retry initial attempts op n k early s) s
        (or_retry-holds n k early s h g) g
  after_attempt-holds (fails_late status) n k early late s h l g =
      if_transient-holds (is_transient status) (or_retry initial attempts op n k late (op s)) (op s)
        (or_retry-holds n k late (op s) l (keeps s g)) (keeps s g)

  pub retry_from-holds : (n k : ℕ) (s : S) → P s → P (retry_from initial attempts op n k s).state
  unfolding retry_from
  retry_from-holds zero k s h = h
  retry_from-holds (suc n) k s h =
      after_attempt-holds (attempts k) n k (retry_from initial attempts op n (suc k) s)
        (retry_from initial attempts op n (suc k) (op s)) s (retry_from-holds n (suc k) s h)
        (retry_from-holds n (suc k) (op s) (keeps s h)) h

-- A call that succeeded had its effect.
module _ {S : Type 0} (initial : ℕ) (attempts : ℕ → Attempt) (op : S → S) (P : S → Type 0)
    (done : (s : S) → P (op s)) where
  Fine : Tried S → Type 0
  Fine t = t.ended ≡ succeeded → P t.state

  or_retry-Fine :
      (n k : ℕ) (rest : Tried S) (s : S)
      → Fine rest
      → Fine (or_retry initial attempts op n k rest s)
  unfolding Fine
  or_retry-Fine zero k rest s h = λ e. cc
  or_retry-Fine (suc n) k rest s h = h

  if_transient-Fine :
      (b : Bool) (next : Tried S) (s : S)
      → Fine next
      → Fine (if_transient initial attempts op b next s)
  unfolding Fine
  if_transient-Fine true next s h = h
  if_transient-Fine false next s h = λ e. cc

  after_attempt-Fine :
      (a : Attempt) (n k : ℕ) (early late : Tried S) (s : S)
      → Fine early
      → Fine late
      → Fine (after_attempt initial attempts op a n k early late s)
  after_attempt-Fine works n k early late s h l = unfold Fine in λ e. done s
  after_attempt-Fine (fails status) n k early late s h l =
      if_transient-Fine (is_transient status) (or_retry initial attempts op n k early s) s
        (or_retry-Fine n k early s h)
  after_attempt-Fine (fails_late status) n k early late s h l =
      if_transient-Fine (is_transient status) (or_retry initial attempts op n k late (op s)) (op s)
        (or_retry-Fine n k late (op s) l)

  retry_from-Fine : (n k : ℕ) (s : S) → Fine (retry_from initial attempts op n k s)
  unfolding retry_from
  retry_from-Fine zero k s = unfold Fine in λ e. cc
  retry_from-Fine (suc n) k s =
      after_attempt-Fine (attempts k) n k (retry_from initial attempts op n (suc k) s)
        (retry_from initial attempts op n (suc k) (op s)) s (retry_from-Fine n (suc k) s)
        (retry_from-Fine n (suc k) (op s))

  retry_from-done :
      (n k : ℕ) (s : S)
      → (retry_from initial attempts op n k s).ended ≡ succeeded
      → P (retry_from initial attempts op n k s).state
  unfolding Fine
  retry_from-done n k s = retry_from-Fine n k s

abbrev pub Stored : Text → Store → Type 0
Stored k s = (v : Text) × (lookup k s.objects ≡ some v)

-- The objects of `base` are unchanged, and each entry of the ledger names an object.
pub record Steady (base : Map Text) (s : Store) : Type 0 where
  pub kept : (k v : Text) → lookup k base ≡ some v → lookup k s.objects ≡ some v
  pub backed : All (λ (e : LedgerEntry). Stored e.key s) s.ledger

Stored-put_object : (key p k : Text) (s : Store) → Stored k s → Stored k (put_object key p s)
Stored-put_object key p k s (v, h) = elim (Bool-cases (text_eq key k)) [
  | inl e ↦ (p, ground (arith, e, lookup-insert key k p s.objects))
  | inr e ↦ (v, ground (arith, e, h, lookup-insert key k p s.objects))
]

All-put_object :
    (key p : Text) (s : Store) (es : List LedgerEntry)
    → All (λ (e : LedgerEntry). Stored e.key s) es
    → All (λ (e : LedgerEntry). Stored e.key (put_object key p s)) es
All-put_object key p s [] h = tt
All-put_object key p s (e ∷ es) (h, hs) =
    (Stored-put_object key p e.key s h, All-put_object key p s es hs)

put_object-Steady :
    (base : Map Text) (key p : Text) (s : Store)
    → lookup key base ≡ none
    → Steady base s
    → Steady base (put_object key p s)
put_object-Steady base key p s new h = record {
  kept = λ k v e.
      ground (arith, e, new, h.kept k v e, text_eq_iff key k, lookup-insert key k p s.objects);
  backed = All-put_object key p s s.ledger h.backed;
}

commit-Steady :
    (base : Map Text) (key : Text) (j : UploadJob) (s : Store)
    → Stored key s
    → Steady base s
    → Steady base (commit key j s)
commit-Steady base key j s there h = record {
  kept = h.kept;
  backed = All-append (λ (e : LedgerEntry). Stored e.key s) s.ledger _ h.backed (there, tt);
}

finish_put-Steady :
    (base : Map Text) (key : Text) (j : UploadJob) (rows : ℕ) (e : Ended) (s : Store)
    → (e ≡ succeeded → Stored key s)
    → Steady base s
    → Steady base (finish_put key j rows e s).1
finish_put-Steady base key j rows succeeded s f h = commit-Steady base key j s (f refl) h
finish_put-Steady base key j rows failed_for_good s f h = h
finish_put-Steady base key j rows exhausted s f h = h

module _ (base : Map Text) (d : RetryDeps) (w : JobWorld) (key : Text) (j : UploadJob) where
  store_encoded-Steady :
      (encoded : Option (ℕ × Text)) (s : Store)
      → lookup key base ≡ none
      → Steady base s
      → Steady base (store_encoded d w key j encoded s).1
  store_encoded-Steady none s new h = h
  store_encoded-Steady (some (zero, parquet)) s new h = h
  store_encoded-Steady (some (suc n, parquet)) s new h =
      let t : Tried Store = with_retry d w.put (put_object key parquet) s in
      finish_put-Steady base key j (suc n) t.ended t.state
        (retry_from-done d.initial_backoff_ms w.put (put_object key parquet) (Stored key)
          (λ u. (parquet, rw (lookup-insert key key parquet u.objects, text_eq_refl key) refl))
          d.max_attempts 0 s)
        (retry_from-holds d.initial_backoff_ms w.put (put_object key parquet) (Steady base)
          (λ t. put_object-Steady base key parquet t new) d.max_attempts 0 s h)

  after_head-Steady :
      (found : Option Text) (s : Store)
      → lookup key s.objects ≡ found
      → Steady base s
      → Steady base (after_head d w key j found s).1
  after_head-Steady (some v) s e h = commit-Steady base key j s (v, e) h
  after_head-Steady none s e h =
      store_encoded-Steady w.encoded s (absent (Option-cases (lookup key base))) h
    where
      absent :
          ((lookup key base ≡ none) ⊎ ((v : Text) × (lookup key base ≡ some v)))
          → lookup key base ≡ none
      absent (inl n) = n
      absent (inr (v, there)) = absurd (ground (arith, e, h.kept key v there))

  if_asked-Steady : (a : Ended) (s : Store) → Steady base s → Steady base (if_asked d w key j a s).1
  if_asked-Steady succeeded s h = after_head-Steady (lookup key s.objects) s refl h
  if_asked-Steady failed_for_good s h = h
  if_asked-Steady exhausted s h = h

upload_job-Steady :
    (base : Map Text) (d : RetryDeps) (head : Text) (w : JobWorld) (j : UploadJob) (s : Store)
    → Steady base s
    → Steady base (upload_job d head w j s).1
unfolding upload_job
upload_job-Steady base d head w j s h =
    if_cases (λ (r : Uploaded × Store). Steady base r.1) (is_committed s.committed j) _ _ (λ e. h)
      λ e. if_asked-Steady base d w (object_key head j) j _ s h

upload_jobs-Steady :
    (base : Map Text) (d : RetryDeps) (head : Text) (jobs : List (UploadJob × JobWorld)) (s : Store)
    → Steady base s
    → Steady base (upload_jobs d head jobs s)
unfolding upload_jobs
upload_jobs-Steady base d head [] s h = h
upload_jobs-Steady base d head ((j, w) ∷ jobs) s h =
    upload_jobs-Steady base d head jobs (upload_job d head w j s).1
      (upload_job-Steady base d head w j s h)

-- A run of the uploader, whatever its calls meet, replaces no object that is stored, and each entry
-- of the ledger, from before or of this run, names an object that is stored. The entries from
-- before did so.
pub upload_pending-Steady :
    (d : RetryDeps) (head : Text) (jobs : List (UploadJob × JobWorld)) (s : Store)
    → All (λ (e : LedgerEntry). Stored e.key s) s.ledger
    → Steady s.objects (upload_pending d head jobs s)
unfolding upload_pending
upload_pending-Steady d head jobs s backed =
    upload_jobs-Steady s.objects d head jobs (record s { committed = read_ledger s.ledger })
      (record { kept = λ k v e. e; backed = backed })
