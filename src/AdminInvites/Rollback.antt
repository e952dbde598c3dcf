-- ===== src/AdminInvites/Rollback.antt =====
-- The registrations of src/server/admin_invites.js and their rollback.
use collectivus.Prelude.{
  ℕ, ◌≡◌, refl, sym, ap, ◌∙◌, Bool, true, false, Option, none, some, List, if◌then◌else◌, Text,
  text_eq, text_eq_iff, text_eq_refl, arith, Bool-cases, inl, inr, ◌⊎◌, ◌*◌, ◌<◌, ltb, if_cases,
}
use collectivus.Enrollment.{
  EnrollmentRecord, load_records, find_record, RegisterInput, RegisterResult, RegisterError,
  registered, failed, check_input, register_checked, register_enrollment, delete_enrollment,
}
use collectivus.Enrollment.Store.{find-register, delete_enrollment-find}
use collectivus.AdminInvites.{
  ServerConfig, Answer, error, created, Body, Check, reject, accept, not_enrolled, bad_expiry,
  rendezvous_failed, max_date_ms, Created, created_of, check_request, Invite, Posted, input_of,
  posted_of, publish_invite, create_invite, handle_invite,
}

abbrev pub is_created : Answer → Bool
is_created (error status p) = false
is_created (created c) = true

abbrev pub is_some : Option EnrollmentRecord → Bool
is_some none = false
is_some (some r) = true

-- A registration either changes nothing or adds its record.
abbrev Registers : Text → List EnrollmentRecord → RegisterResult × List EnrollmentRecord → Type 0
Registers code_hash file (failed e, next) = next ≡ file
Registers code_hash file (registered r, next) =
    (hash : Text)
    → find_record hash (load_records next)
      ≡ (if text_eq code_hash hash then some r else find_record hash (load_records file))

register_checked-Registers :
    (o : Option RegisterError) (now : ℕ) (i : RegisterInput) (file : List EnrollmentRecord)
    → check_input i ≡ o
    → find_record i.join_code_hash (load_records file) ≡ none
    → Registers i.join_code_hash file (register_checked o now i file)
register_checked-Registers (some e) now i file h f = refl
register_checked-Registers none now i file h f = rw f (λ hash. find-register now i hash file h)

-- The answer after the throw of `toISOString`, with the enrollment that is left.
abbrev pub IsStranded : Text → Answer × List EnrollmentRecord → Type 0
IsStranded code_hash x =
    (x.0 ≡ error 500 bad_expiry)
    × ((r : EnrollmentRecord) × (find_record code_hash (load_records x.1) ≡ some r)
        × (8_640_000_000_000_000 < r.expires_at * 1000))

-- What is found after the handler, under the code's hash and under any other one.
abbrev pub Outcome : Text → Text → List EnrollmentRecord → Answer × List EnrollmentRecord → Type 0
Outcome code_hash hash file x =
    ((is_some (find_record code_hash (load_records x.1)) ≡ is_created x.0) ⊎ IsStranded code_hash x)
    × (find_record hash (load_records x.1) ≡ (
        if text_eq code_hash hash
        then find_record code_hash (load_records x.1)
        else find_record hash (load_records file)))

same-Outcome :
    (code_hash hash : Text) (file : List EnrollmentRecord) (a : Answer)
    → is_created a ≡ false
    → find_record code_hash (load_records file) ≡ none
    → Outcome code_hash hash file (a, file)
same-Outcome code_hash hash file a e f =
    (inl (ap is_some f ∙ sym e), ground (arith, text_eq_iff code_hash hash))

elsewhere :
    (code_hash hash : Text) (now was : Text → Option EnrollmentRecord)
    → (text_eq code_hash hash ≡ false → now hash ≡ was hash)
    → now hash ≡ (if text_eq code_hash hash then now code_hash else was hash)
elsewhere code_hash hash now was h = elim (Bool-cases (text_eq code_hash hash)) [
  | inl e ↦ rw e (ap now (sym ((text_eq_iff code_hash hash).0 e)))
  | inr e ↦ rw e (h e)
]

module _ (sha256 : Text → Text) where
  Added : Text → EnrollmentRecord → List EnrollmentRecord → List EnrollmentRecord → Type 0
  Added code r file next = Registers (sha256 code) file (registered r, next)

  others :
      (code hash : Text) (r : EnrollmentRecord) (file next : List EnrollmentRecord)
      → Added code r file next
      → find_record hash (load_records next) ≡ (
          if text_eq (sha256 code) hash
          then find_record (sha256 code) (load_records next)
          else find_record hash (load_records file))
  unfolding Added
  others code hash r file next h =
      elsewhere (sha256 code) hash (λ k. find_record k (load_records next))
        (λ k. find_record k (load_records file)) (λ ne. h hash ∙ rw ne refl)

  own_record :
      (code : Text) (r : EnrollmentRecord) (file next : List EnrollmentRecord)
      → Added code r file next
      → find_record (sha256 code) (load_records next) ≡ some r
  unfolding Added
  own_record code r file next h = h (sha256 code) ∙ rw (text_eq_refl (sha256 code)) refl

  stranded-Outcome :
      (code hash : Text) (r : EnrollmentRecord) (file next : List EnrollmentRecord)
      → ltb max_date_ms (r.expires_at * 1000) ≡ true
      → Added code r file next
      → Outcome (sha256 code) hash file (error 500 bad_expiry, next)
  stranded-Outcome code hash r file next late h = (
    inr (refl, (r, own_record code r file next h, ground (arith, late))),
    others code hash r file next h,
  )

  kept-Outcome :
      (code hash : Text) (c : Created) (r : EnrollmentRecord) (file next : List EnrollmentRecord)
      → Added code r file next
      → Outcome (sha256 code) hash file (created c, next)
  kept-Outcome code hash c r file next h =
      (inl (ap is_some (own_record code r file next h)), others code hash r file next h)

  rolled_back-Outcome :
      (code hash : Text) (r : EnrollmentRecord) (file next : List EnrollmentRecord)
      → Added code r file next
      → Outcome
          (sha256 code)
          hash
          file
          (error 502 rendezvous_failed, (delete_enrollment (sha256 code) next).1)
  unfolding Added
  rolled_back-Outcome code hash r file next h =
      let own = sha256 code in
      let after_delete = λ (k : Text). delete_enrollment-find own k next in
      (
        inl (ap is_some (after_delete own) ∙ rw (text_eq_refl own) refl),
        elsewhere own hash (λ k. find_record k (load_records (delete_enrollment own next).1))
            (λ k. find_record k (load_records file))
            (λ ne. after_delete hash ∙ rw ne (h hash ∙ rw ne refl)),
      )

  publish_invite-Outcome :
      (accepts : Posted → Bool) (code hash : Text) (i : Invite) (file : List EnrollmentRecord)
      (x : RegisterResult × List EnrollmentRecord)
      → find_record (sha256 code) (load_records file) ≡ none
      → Registers (sha256 code) file x
      → Outcome (sha256 code) hash file (publish_invite sha256 accepts code i x)
  unfolding Added
  publish_invite-Outcome accepts code hash i file (failed e, next) f h =
      rw h (same-Outcome (sha256 code) hash file (error 400 not_enrolled) refl f)
  publish_invite-Outcome accepts code hash i file (registered r, next) f h =
      if_cases (Outcome (sha256 code) hash file) (ltb max_date_ms (r.expires_at * 1000)) _ _
        (λ late. stranded-Outcome code hash r file next late h)
        λ e.
          if_cases (Outcome (sha256 code) hash file) (accepts (posted_of sha256 code i r)) _ _
            (λ k. kept-Outcome code hash (created_of sha256 code i r) r file next h)
            λ k. rolled_back-Outcome code hash r file next h

  -- After a request for an invite whose fresh join code was not in use, the code has an enrollment
  -- exactly if the answer is that it was created, so that a request that is refused, or whose
  -- registration with the rendezvous service fails, leaves none behind, with one exception: a
  -- lifetime that ends after the last date is answered with 500 and leaves the enrollment. No other
  -- join code is affected.
  pub handle_invite-Outcome :
      (env : Text → Option Text) (config : ServerConfig) (accepts : Posted → Bool) (now : ℕ)
      (code : Text) (body : Body) (hash : Text) (file : List EnrollmentRecord)
      → find_record (sha256 code) (load_records file) ≡ none
      → Outcome (sha256 code) hash file (handle_invite sha256 env config accepts now code body file)
  unfolding handle_invite
  handle_invite-Outcome env config accepts now code body hash file f =
      checked (check_request env config body)
    where
      checked :
          (c : Check Invite)
          → Outcome (sha256 code) hash file (create_invite sha256 accepts now code c file)
      checked (reject status p) = same-Outcome (sha256 code) hash file (error status p) refl f
      checked (accept i) =
          publish_invite-Outcome accepts code hash i file
            (register_enrollment now (input_of sha256 code i) file) f
            (unfold register_enrollment in
              register_checked-Registers _ now (input_of sha256 code i) file refl f)
