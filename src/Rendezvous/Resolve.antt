-- ===== src/Rendezvous/Resolve.antt =====
-- What src/rendezvous/store.js resolves after a registration.
use collectivus.Prelude.{
  ℕ, ◌≡◌, ◌≢◌, refl, sym, ap, subst, Option, some, [], ◌∷◌, if◌then◌else◌, Text, text_eq_refl,
  arith, Bool-cases, inl, inr,
}
use collectivus.Prelude.Maps.{Map, insert, lookup-insert}
use collectivus.Json.{Fields}
use collectivus.Rendezvous.{
  InviteRecord, Result, ok, thrown, ErrorCode, expired, File, json, Platform, to_json, check_invite,
  is_expired, is_active, read_invite_by_hash, write_unless_active, write_checked, register_invite,
  resolve_invite,
}
use collectivus.Rendezvous.Records.{IsRecord, validate_record-to_json}
use collectivus.Rendezvous.Checks.{IsPlatform, ok_injective, check_invite-IsRecord}

module _ (p : Platform) where
  -- The file that a successful registration writes.
  abbrev Written : InviteRecord → Map File → Result InviteRecord × Map File → Type 0
  Written r files x = IsRecord p r × (x.1 ≡ insert r.join_code_hash (json (to_json r)) files)

  unless_active-Written :
      (now : ℕ) (r r' : InviteRecord) (o : Result (Option InviteRecord)) (files : Map File)
      → IsRecord p r
      → (write_unless_active p now r o files).0 ≡ ok r'
      → Written r' files (write_unless_active p now r o files)
  unless_active-Written now r r' (thrown e) files h k = cc
  unless_active-Written now r r' (ok existing) files h k =
      elim (Bool-cases (is_active p now existing)) [
        | inl a ↦ absurd (ground (arith, k, a))
        | inr a ↦
            let same : r ≡ r' = ok_injective (rw a at k) in
            rw a (
              subst (λ x. IsRecord p x) same h,
              ap (λ x. insert x.join_code_hash (json (to_json x)) files) same,
            )
      ]

  read-written :
      (r : InviteRecord) (files : Map File)
      → IsRecord p r
      → read_invite_by_hash p r.join_code_hash (insert r.join_code_hash (json (to_json r)) files)
        ≡ ok (some r)
  unfolding read_invite_by_hash
  read-written r files h =
      rw
        (
          h.hash,
          lookup-insert r.join_code_hash r.join_code_hash (json (to_json r)) files,
          text_eq_refl r.join_code_hash,
          validate_record-to_json p r h,
        )
        refl

  module _ (law : IsPlatform p) where
    write_checked-Written :
        (now : ℕ) (input : Fields) (c : Result InviteRecord) (r : InviteRecord) (files : Map File)
        → check_invite p now input ≡ c
        → (write_checked p now c files).0 ≡ ok r
        → Written r files (write_checked p now c files)
    write_checked-Written now input (thrown e) r files h k = cc
    write_checked-Written now input (ok r0) r files h k =
        unless_active-Written now r0 r _ files (check_invite-IsRecord p law now input r0 h).0 k

    -- A join code whose invite was registered resolves, at any later time, to the record that the
    -- registration returned, until that record expires; from then on it is refused as expired. The
    -- code's hash is the one that was registered, and the code is not empty.
    pub resolve_invite-register :
        (sha256 : Text → Text) (now later : ℕ) (input : Fields) (code : Text) (r : InviteRecord)
        (files : Map File)
        → (register_invite p now input files).0 ≡ ok r
        → r.join_code_hash ≡ sha256 code
        → code ≢ []
        → resolve_invite p sha256 later code (register_invite p now input files).1
          ≡ (if is_expired p r later then thrown expired else ok r)
    unfolding register_invite resolve_invite
    resolve_invite-register sha256 now later input [] r files e h ne = absurd (ne refl)
    resolve_invite-register sha256 now later input (c ∷ code) r files e h ne =
        let (valid, written) = write_checked-Written now input _ r files refl e in
        rw (sym h, written, read-written r files valid) refl

  -- A registration that throws leaves the files as they were.
  pub register_invite-thrown :
      (now : ℕ) (input : Fields) (e : ErrorCode) (files : Map File)
      → (register_invite p now input files).0 ≡ thrown e
      → (register_invite p now input files).1 ≡ files
  unfolding register_invite
  register_invite-thrown now input e files h = checked (check_invite p now input) h
    where
      written :
          (r : InviteRecord) (o : Result (Option InviteRecord))
          → (write_unless_active p now r o files).0 ≡ thrown e
          → (write_unless_active p now r o files).1 ≡ files
      written r (thrown x) k = refl
      written r (ok existing) k = elim (Bool-cases (is_active p now existing)) [
        | inl a ↦ rw a refl
        | inr a ↦ absurd (ground (arith, k, a))
      ]

      checked :
          (c : Result InviteRecord)
          → (write_checked p now c files).0 ≡ thrown e
          → (write_checked p now c files).1 ≡ files
      checked (thrown x) k = refl
      checked (ok r) k = written r (read_invite_by_hash p r.join_code_hash files) k
