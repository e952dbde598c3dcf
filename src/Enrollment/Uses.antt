-- ===== src/Enrollment/Uses.antt =====
-- How often a join code of src/server/enrollment.js admits a gateway, and under which ids.
use collectivus.Prelude.{
  ℕ, zero, suc, ◌+◌, ◌/◌, ◌≤◌, ◌<◌, max, ◌≡◌, ◌≢◌, refl, sym, ap, ◌∙◌, Bool, true, Option, none,
  some, List, [], ◌∷◌, ◌++◌, leb, ◌==◌, if◌then◌else◌, length, Text, text, text_eq, text_eq_iff,
  append_cancel_left, Distinct, keep-same, keep-passes, arith, Bool-cases, inl, inr, ◌⊎◌, All,
}
use collectivus.Prelude.Decimals.{digits, digits-injective}
use collectivus.Bootstrap.{Records, Registered, issued, bad_gateway, bad_ttl, short_token}
use collectivus.Enrollment.{
  EnrollmentRecord, is_record, load_records, find_record, gateway_id_for_use, set_used, Stores,
  IssueResult, granted, count_use, issue_for, issue_bootstrap,
}

set_used-passes :
    (hash : Text) (n : ℕ) (records : List EnrollmentRecord)
    → All (λ r. is_record r ≡ true) records
    → All (λ r. is_record r ≡ true) (set_used hash n records)
unfolding set_used is_record
set_used-passes hash n [] h = tt
set_used-passes hash n (r ∷ records) (e, h) = elim (Bool-cases (text_eq r.join_code_hash hash)) [
  | inl k ↦ rw k (e, h)
  | inr k ↦ rw k (e, set_used-passes hash n records h)
]

abbrev with_used : ℕ → Option EnrollmentRecord → Option EnrollmentRecord
with_used n none = none
with_used n (some r) = some (record r { used_count = n })

find-set_used :
    (hash other : Text) (n : ℕ) (records : List EnrollmentRecord)
    → find_record hash (set_used other n records) ≡ (
        if text_eq other hash
        then with_used n (find_record hash records)
        else find_record hash records)
unfolding find_record set_used
find-set_used hash other n [] = ground arith
find-set_used hash other n (r ∷ records) = ground (
  arith,
  find-set_used hash other n records,
  text_eq_iff r.join_code_hash other,
  text_eq_iff r.join_code_hash hash,
  text_eq_iff other hash,
)

load-set_used :
    (hash : Text) (n : ℕ) (file : List EnrollmentRecord)
    → load_records (set_used hash n (load_records file)) ≡ set_used hash n (load_records file)
unfolding load_records
load-set_used hash n file =
    keep-same is_record _ (set_used-passes hash n _ (keep-passes is_record file))

-- The records with this hash as `loadRecords` reads them.
abbrev pub record_of : Text → Stores → Option EnrollmentRecord
record_of hash s = find_record hash (load_records s.enrollments)

abbrev pub id_if : Bool → IssueResult → List Text
id_if b (granted token id expires) = if b then id ∷ [] else []
id_if b _ = []

-- One call either grants nothing for the hash, or the id of its record's next use.
abbrev Step : Text → EnrollmentRecord → List Text → Stores → Type 0
Step hash r ids s =
    ((ids ≡ []) × (record_of hash s ≡ some r))
    ⊎ ((ids ≡ gateway_id_for_use r (r.used_count + 1) ∷ [])
        × (r.used_count < r.max_uses)
        × (record_of hash s ≡ some (record r { used_count = r.used_count + 1 })))

record_of-set_used :
    (hash other : Text) (n : ℕ) (bootstrap : Records) (s : Stores)
    → record_of hash (record {
      enrollments = set_used other n (load_records s.enrollments);
      bootstrap = bootstrap;
    })
      ≡ (if text_eq other hash then with_used n (record_of hash s) else record_of hash s)
record_of-set_used hash other n bootstrap s =
    ap (find_record hash) (load-set_used other n s.enrollments)
    ∙ find-set_used hash other n (load_records s.enrollments)

same_record :
    (hash other : Text) (q r : EnrollmentRecord) (s : Stores)
    → text_eq other hash ≡ true
    → record_of other s ≡ some q
    → record_of hash s ≡ some r
    → q ≡ r
same_record hash other q r s k f e = let eq : other ≡ hash = (text_eq_iff other hash).0 k in cc

module _ (sha256 : Text → Text) where
  count-Step :
      (hash other : Text) (r q : EnrollmentRecord) (reg : Registered × Records) (s : Stores)
      → record_of hash s ≡ some r
      → record_of other s ≡ some q
      → q.used_count < q.max_uses
      → Step hash r
          (id_if
            (text_eq other hash)
            (count_use sha256 other
              (gateway_id_for_use q (q.used_count + 1))
              (q.used_count + 1)
              (load_records s.enrollments)
              reg
              s).0)
          (count_use sha256 other
            (gateway_id_for_use q (q.used_count + 1))
            (q.used_count + 1)
            (load_records s.enrollments)
            reg
            s).1
  count-Step hash other r q (issued token expires, bootstrap) s e f lt =
      elim (Bool-cases (text_eq other hash)) [
        | inl k ↦
            let same : q ≡ r = same_record hash other q r s k f e in
            inr (
              rw (k, same) refl,
              rw (sym same) lt,
              record_of-set_used hash other (q.used_count + 1) bootstrap s ∙ rw (k, e, same) refl,
            )
        | inr k ↦
            inl (rw k refl, record_of-set_used hash other (q.used_count + 1) bootstrap s ∙ rw k e)
      ]
  count-Step hash other r q (bad_gateway, bootstrap) s e f lt = inl (refl, e)
  count-Step hash other r q (bad_ttl, bootstrap) s e f lt = inl (refl, e)
  count-Step hash other r q (short_token, bootstrap) s e f lt = inl (refl, e)

  issue_for-Step :
      (now : ℕ) (token other hash : Text) (r : EnrollmentRecord) (s : Stores)
      (o : Option EnrollmentRecord)
      → o ≡ record_of other s
      → record_of hash s ≡ some r
      → Step hash r
          (id_if
            (text_eq other hash)
            (issue_for sha256 now token other o (load_records s.enrollments) s).0)
          (issue_for sha256 now token other o (load_records s.enrollments) s).1
  issue_for-Step now token other hash r s none f e = inl (refl, e)
  issue_for-Step now token other hash r s (some q) f e =
      elim (Bool-cases (leb q.expires_at (now / 1000))) [
        | inl k ↦ rw k (inl (refl, e))
        | inr k ↦ elim (Bool-cases (leb q.max_uses q.used_count)) [
          | inl l ↦ rw (k, l) (inl (refl, e))
          | inr l ↦ rw (k, l) (count-Step hash other r q _ s e (sym f) (ground arith))
        ]
      ]

  issue-Step :
      (now : ℕ) (token code hash : Text) (r : EnrollmentRecord) (s : Stores)
      → record_of hash s ≡ some r
      → Step hash r
          (id_if (text_eq (sha256 code) hash) (issue_bootstrap sha256 now token code s).0)
          (issue_bootstrap sha256 now token code s).1
  unfolding issue_bootstrap
  issue-Step now token code hash r s e =
      issue_for-Step now token (sha256 code) hash r s (record_of (sha256 code) s) refl e

-- The ids of the k uses that follow the n-th.
abbrev pub uses_after : EnrollmentRecord → ℕ → ℕ → List Text
uses_after r n zero = []
uses_after r n (suc k) = gateway_id_for_use r (n + 1) ∷ uses_after r (n + 1) k

uses_after-record :
    (r : EnrollmentRecord) (m n k : ℕ)
    → uses_after (record r { used_count = m }) n k ≡ uses_after r n k
unfolding gateway_id_for_use
uses_after-record r m n zero = refl
uses_after-record r m n (suc k) =
    ap (λ ids. gateway_id_for_use r (n + 1) ∷ ids) (uses_after-record r m (n + 1) k)

gateway_id_for_use-injective :
    (r : EnrollmentRecord) (m n : ℕ)
    → 1 < r.max_uses
    → gateway_id_for_use r m ≡ gateway_id_for_use r n
    → m ≡ n
unfolding gateway_id_for_use
gateway_id_for_use-injective r m n h e = digits-injective m n (
    append_cancel_left (text "-") _ _
      (append_cancel_left r.gateway_id _ _ (suffixed m ∙ e ∙ sym (suffixed n))))
  where
    suffixed :
        (k : ℕ)
        → r.gateway_id ++ (text "-" ++ digits k)
          ≡ (if r.max_uses == 1 then r.gateway_id else r.gateway_id ++ (text "-" ++ digits k))
    suffixed k = ground arith

uses_after-fresh :
    (r : EnrollmentRecord) (m n k : ℕ)
    → 1 < r.max_uses
    → m ≤ n
    → All (λ id. gateway_id_for_use r m ≢ id) (uses_after r n k)
uses_after-fresh r m n zero h le = tt
uses_after-fresh r m n (suc k) h le = (
  λ e. absurd (omega (arith, gateway_id_for_use-injective r m (n + 1) h e)),
  uses_after-fresh r m (n + 1) k h (omega arith),
)

uses_after-Distinct :
    (r : EnrollmentRecord) (n k : ℕ) → n + k ≤ max n r.max_uses → Distinct (uses_after r n k)
uses_after-Distinct r n zero le = tt
uses_after-Distinct r n (suc zero) le = (tt, tt)
uses_after-Distinct r n (suc (suc k)) le = (
  uses_after-fresh r (n + 1) (n + 1) (suc k) (omega arith) (omega arith),
  uses_after-Distinct r (n + 1) (suc k) (omega arith),
)

module _ (sha256 : Text → Text) where
  -- The ids that calls with these clock values, random tokens and join codes are granted under the
  -- join codes with one hash, in their order.
  abbrev pub ids_granted : Text → List (ℕ × Text × Text) → Stores → List Text
  ids_granted hash [] s = []
  ids_granted hash ((now, token, code) ∷ calls) s =
      id_if (text_eq (sha256 code) hash) (issue_bootstrap sha256 now token code s).0
      ++ ids_granted hash calls (issue_bootstrap sha256 now token code s).1

  -- Whatever join codes are exchanged, and however often, the ids granted under one of them are those
  -- of the uses that follow the recorded count, none left out, and they stop at the code's limit.
  pub ids_granted-uses :
      (hash : Text) (calls : List (ℕ × Text × Text)) (s : Stores) (r : EnrollmentRecord)
      → record_of hash s ≡ some r
      → (ids_granted hash calls s ≡ uses_after r r.used_count (length (ids_granted hash calls s)))
        × (r.used_count + length (ids_granted hash calls s) ≤ max r.used_count r.max_uses)
  ids_granted-uses hash [] s r e = (refl, omega arith)
  ids_granted-uses hash ((now, token, code) ∷ calls) s r e =
      let next = (issue_bootstrap sha256 now token code s).1 in
      elim (issue-Step sha256 now token code hash r s e) [
        | inl (nil, e') ↦ rw nil (ids_granted-uses hash calls next r e')
        | inr (one, lt, e') ↦
            let r' : EnrollmentRecord = record r { used_count = r.used_count + 1 } in
            let (ids, le) = ids_granted-uses hash calls next r' e' in
            rw one (
              ap (λ ids. gateway_id_for_use r (r.used_count + 1) ∷ ids)
                  (ids ∙ uses_after-record r _ _ _),
              omega arith,
            )
      ]

  -- No two gateways are admitted under one id by the same join code, whatever join codes are
  -- exchanged in between.
  pub ids_granted-Distinct :
      (hash : Text) (calls : List (ℕ × Text × Text)) (s : Stores) (r : EnrollmentRecord)
      → record_of hash s ≡ some r
      → Distinct (ids_granted hash calls s)
  ids_granted-Distinct hash calls s r e =
      let (ids, le) = ids_granted-uses hash calls s r e in
      rw ids (uses_after-Distinct r r.used_count _ le)
