-- ===== src/Upload/Tests.antt =====
-- The theorems on src/upload/uploader.js at concrete inputs.
use collectivus.Prelude.{
  ℕ, zero, suc, ◌+◌, ◌≡◌, refl, none, some, [], ◌∷◌, Text, text, text_eq, arith,
}
use collectivus.Prelude.Maps.{lookup, insert}
use collectivus.Upload.{
  UploadJob, Attempt, works, fails, fails_late, RetryDeps, retry_from, JobWorld, Store, upload_job,
  upload_jobs, upload_pending, read_ledger,
}
use collectivus.Upload.Retry.{end_of, backoff, retry_from-ended}
use collectivus.Upload.Objects.{Steady, upload_pending-Steady}

-- The network fails, then the store is busy behind its effect, then a call works.
abbrev shaky : ℕ → Attempt
shaky zero = fails none
shaky (suc zero) = fails_late (some 503)
shaky (suc (suc n)) = works

abbrev deps : RetryDeps
deps = record { max_attempts = 3; initial_backoff_ms = 1000 }

abbrev job : UploadJob
job = record { service = text "gw"; signal = text "logs"; date = text "2026-01-02" }

abbrev world : JobWorld
world = record { head = λ n. works; put = shaky; encoded = some (2, text "rows") }

-- The object of the entry that is there, as a day before.
abbrev old_key : Text
old_key = text "p/gw/logs/date=2026-01-01/data.parquet"

abbrev store : Store
store = record {
  committed = [];
  ledger =
      record { service = text "gw"; signal = text "logs"; date = text "2026-01-01"; key = old_key }
      ∷ [];
  objects = (old_key, text "old") ∷ [];
}

uploads :
    (upload_pending deps (text "p") ((job, world) ∷ []) store).objects
    ≡ (old_key, text "old") ∷ (text "p/gw/logs/date=2026-01-02/data.parquet", text "rows") ∷ []
unfolding upload_pending upload_jobs upload_job retry_from read_ledger text_eq lookup insert
uploads = refl

upload_pending-Steady_example :
    Steady store.objects (upload_pending deps (text "p") ((job, world) ∷ []) store)
unfolding lookup text_eq
upload_pending-Steady_example =
    upload_pending-Steady deps (text "p") ((job, world) ∷ []) store ((text "old", refl), tt)

retry_from-ended_example :
    ((retry_from 1000 shaky (λ n. n + 1) 3 0 7).ended ≡ end_of (shaky (0 + 2)))
    × ((retry_from 1000 shaky (λ n. n + 1) 3 0 7).delays ≡ backoff 1000 0 2)
retry_from-ended_example =
    retry_from-ended 1000 shaky (λ n. n + 1) 2 2 0 7 (omega arith) (refl, (refl, tt)) refl
