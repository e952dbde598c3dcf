-- ===== src/Enrollment/Store.antt =====
-- What src/server/enrollment.js finds after a registration and after a deletion.
use collectivus.Prelude.{
  ℕ, ◌≡◌, refl, sym, ap, ◌∙◌, true, false, not, none, some, List, [], ◌∷◌, ◌++◌, ◌==◌,
  if◌then◌else◌, length, Text, text_eq, text_eq_iff, text_eq_refl, arith, Bool-cases, inl, inr,
  All-append, All-keep, keep-same, keep-passes, keep-length,
}
use collectivus.Enrollment.{
  EnrollmentRecord, is_record, load_records, find_record, RegisterInput, registered, failed,
  active_exists, check_input, is_taken, without, new_record, register_enrollment, delete_enrollment,
}

find-without :
    (hash other : Text) (records : List EnrollmentRecord)
    → find_record other (without hash records)
      ≡ (if text_eq hash other then none else find_record other records)
unfolding find_record
find-without hash other [] = ground arith
find-without hash other (r ∷ records) = elim (Bool-cases (text_eq r.join_code_hash hash)) [
  | inl k ↦ ground (
    arith,
    find-without hash other records,
    text_eq_iff r.join_code_hash hash,
    text_eq_iff r.join_code_hash other,
    text_eq_iff hash other,
  )
  | inr k ↦ ground (
    arith,
    find-without hash other records,
    text_eq_iff r.join_code_hash hash,
    text_eq_iff r.join_code_hash other,
    text_eq_iff hash other,
  )
]

find-append :
    (hash : Text) (records : List EnrollmentRecord) (new : EnrollmentRecord)
    → find_record new.join_code_hash records ≡ none
    → find_record hash (records ++ new ∷ [])
      ≡ (if text_eq new.join_code_hash hash then some new else find_record hash records)
unfolding find_record
find-append hash [] new e = refl
find-append hash (r ∷ records) new e = ground (
  arith,
  find-append hash records new,
  text_eq_iff r.join_code_hash hash,
  text_eq_iff r.join_code_hash new.join_code_hash,
  text_eq_iff new.join_code_hash hash,
)

load-without :
    (hash : Text) (file : List EnrollmentRecord)
    → load_records (without hash (load_records file)) ≡ without hash (load_records file)
unfolding load_records
load-without hash file =
    keep-same is_record _ (All-keep (λ r. is_record r ≡ true) _ _ (keep-passes is_record file))

-- A deletion takes every record of its join code out of the file and leaves the others as they
-- were, whether it found a record or not.
pub delete_enrollment-find :
    (hash other : Text) (file : List EnrollmentRecord)
    → find_record other (load_records (delete_enrollment hash file).1)
      ≡ (if text_eq hash other then none else find_record other (load_records file))
unfolding delete_enrollment
delete_enrollment-find hash other file =
    elim (Bool-cases (length (without hash (load_records file)) == length (load_records file))) [
      | inl k ↦
          let same =
            keep-length (λ r. not (text_eq r.join_code_hash hash)) (load_records file)
              (ground arith) in
          rw k (ap (find_record other) (sym same) ∙ find-without hash other (load_records file))
      | inr k ↦ rw k (
          ap (find_record other) (load-without hash file)
          ∙ find-without hash other (load_records file))
    ]

new_record-is_record :
    (now : ℕ) (i : RegisterInput) → check_input i ≡ none → is_record (new_record now i) ≡ true
unfolding check_input is_record
new_record-is_record now i e = ground arith

load-register :
    (now : ℕ) (i : RegisterInput) (file : List EnrollmentRecord)
    → check_input i ≡ none
    → load_records (without i.join_code_hash (load_records file) ++ new_record now i ∷ [])
      ≡ without i.join_code_hash (load_records file) ++ new_record now i ∷ []
unfolding load_records
load-register now i file e = keep-same is_record _ (
    All-append (λ r. is_record r ≡ true) _ _
      (All-keep (λ r. is_record r ≡ true) _ _ (keep-passes is_record file))
      (new_record-is_record now i e, tt))

pub find-register :
    (now : ℕ) (i : RegisterInput) (hash : Text) (file : List EnrollmentRecord)
    → check_input i ≡ none
    → find_record hash
        (load_records (without i.join_code_hash (load_records file) ++ new_record now i ∷ []))
      ≡ (if text_eq i.join_code_hash hash
          then some (new_record now i)
          else find_record hash (load_records file))
find-register now i hash file e =
    ap (find_record hash) (load-register now i file e)
    ∙ find-append hash _ (new_record now i) (
        find-without i.join_code_hash i.join_code_hash (load_records file)
        ∙ rw (text_eq_refl i.join_code_hash) refl)
    ∙ ground (arith, find-without i.join_code_hash hash (load_records file))

-- A registration whose input passes the checks is refused, and changes nothing, exactly while the
-- join code has a record that is neither expired nor used up; otherwise its record replaces every
-- earlier one of the join code. The records of other join codes stay as they were.
pub register_enrollment-find :
    (now : ℕ) (i : RegisterInput) (hash : Text) (file : List EnrollmentRecord)
    → check_input i ≡ none
    → ((register_enrollment now i file).0 ≡ (
        if is_taken now (find_record i.join_code_hash (load_records file))
        then failed active_exists
        else registered (new_record now i)))
      × (find_record hash (load_records (register_enrollment now i file).1) ≡ (
          if text_eq i.join_code_hash hash
          then (if is_taken now (find_record i.join_code_hash (load_records file))
              then find_record hash (load_records file)
              else some (new_record now i))
          else find_record hash (load_records file)))
unfolding register_enrollment
register_enrollment-find now i hash file e =
    elim (Bool-cases (is_taken now (find_record i.join_code_hash (load_records file)))) [
      | inl k ↦ rw (e, k) (refl, ground arith)
      | inr k ↦ rw (e, k) (refl, find-register now i hash file e)
    ]

-- The rollback of a registration: after one that passed the checks and was not refused, the
-- deletion of its join code leaves no record of it, and every other join code finds what it found
-- before the registration.
pub delete_enrollment-register :
    (now : ℕ) (i : RegisterInput) (hash : Text) (file : List EnrollmentRecord)
    → check_input i ≡ none
    → is_taken now (find_record i.join_code_hash (load_records file)) ≡ false
    → find_record hash
        (load_records (delete_enrollment i.join_code_hash (register_enrollment now i file).1).1)
      ≡ (if text_eq i.join_code_hash hash then none else find_record hash (load_records file))
delete_enrollment-register now i hash file e k =
    delete_enrollment-find i.join_code_hash hash _
    ∙ ground (arith, (register_enrollment-find now i hash file e).1)
