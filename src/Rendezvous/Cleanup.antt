-- ===== src/Rendezvous/Cleanup.antt =====
-- The cleanup of expired invites in src/rendezvous/store.js.
use collectivus.Prelude.{
  ℕ, ◌≡◌, refl, sym, ap, ◌∙◌, Bool, true, false, ◌&&◌, ◌||◌, Option, none, List, [], ◌∷◌,
  if◌then◌else◌, Text, text_eq, text_eq_iff, arith, Bool-cases, inl, inr,
}
use collectivus.Prelude.Maps.{Map, lookup, remove, lookup-remove}
use collectivus.Enrollment.{is_hash}
use collectivus.Rendezvous.{
  InviteRecord, Result, ok, thrown, File, Platform, is_stale, read_file, read_invite_by_hash,
  continue, count_of, clean_one, clean_name, clean_names, names_of, cleanup_expired_invites,
}

abbrev member : Text → List Text → Bool
member h [] = false
member h (k ∷ ks) = text_eq k h || member h ks

member-names_of :
    (h : Text) (files : Map File) → member h (names_of files) ≡ false → lookup h files ≡ none
unfolding lookup
member-names_of h [] e = refl
member-names_of h ((k, f) ∷ files) e = ground (arith, member-names_of h files)

abbrev pub is_ok {ℓ} : {A : Type ℓ} → Result A → Bool
is_ok (ok a) = true
is_ok (thrown e) = false

nothing : (b : Bool) → none ≡ (if◌then◌else◌ {A = Option File} (b && false) none none)
nothing true = refl
nothing false = refl

sweep_again :
    (n t b v : Bool) (f : Option File → Bool) (o : Option File)
    → f none ≡ false
    → (t ≡ true → n ≡ v)
    → (if b && (v && f (if n && (t && f o) then none else o))
        then none
        else (if n && (t && f o) then none else o))
      ≡ (if (t || b) && (v && f o) then none else o)
sweep_again false false b v f o e h = refl
sweep_again true false b v f o e h = refl
sweep_again false true false false f o e h = refl
sweep_again false true true false f o e h = refl
sweep_again false true b true f o e h = absurd (ground (arith, h refl))
sweep_again true true b false f o e h = absurd (ground (arith, h refl))
sweep_again true true false true f o e h = refl
sweep_again true true true true f o e h = elim (Bool-cases (f o)) [
  | inl k ↦ rw (k, e) refl
  | inr k ↦ rw (k, k) refl
]

module _ (p : Platform) where
  abbrev stale_read : ℕ → Result (Option InviteRecord) → Bool
  stale_read now (thrown e) = false
  stale_read now (ok r) = is_stale p now r

  -- The file holds an invite that has expired.
  abbrev pub is_stale_file : ℕ → Option File → Bool
  is_stale_file now o = stale_read now (read_file p o)

  -- Every invite in the store can be read.
  abbrev pub IsReadable : Map File → Type 0
  IsReadable files = (h : Text) → is_ok (read_file p (lookup h files)) ≡ true

  IsReadable-remove : (h : Text) (files : Map File) → IsReadable files → IsReadable (remove h files)
  IsReadable-remove h files r k = elim (Bool-cases (text_eq h k)) [
    | inl e ↦ rw (lookup-remove h k files, e) refl
    | inr e ↦ rw (lookup-remove h k files, e) (r k)
  ]

  stale_at :
      (name h : Text) (now : ℕ) (b : Bool) (files : Map File)
      → text_eq name h ≡ true
      → is_stale_file now (lookup name files) ≡ b
      → is_stale_file now (lookup h files) ≡ b
  stale_at name h now b files e s =
      ap (λ x. is_stale_file now (lookup x files)) (sym ((text_eq_iff name h).0 e)) ∙ s

  removed_at :
      (name h : Text) (now : ℕ) (files : Map File)
      → is_stale_file now (lookup name files) ≡ true
      → lookup h (remove name files)
        ≡ (if text_eq name h && is_stale_file now (lookup h files) then none else lookup h files)
  removed_at name h now files s = elim (Bool-cases (text_eq name h)) [
    | inl e ↦ rw (lookup-remove name h files, e, stale_at name h now true files e s) refl
    | inr e ↦ rw (lookup-remove name h files, e) refl
  ]

  kept_at :
      (name h : Text) (now : ℕ) (files : Map File)
      → is_stale_file now (lookup name files) ≡ false
      → lookup h files
        ≡ (if text_eq name h && is_stale_file now (lookup h files) then none else lookup h files)
  kept_at name h now files s = elim (Bool-cases (text_eq name h)) [
    | inl e ↦ rw (e, stale_at name h now false files e s) refl
    | inr e ↦ rw e refl
  ]

  -- One name: it goes on, and its file is removed exactly if it is stale.
  abbrev Cleaned : ℕ → Bool → Text → Text → Map File → Result ℕ × Map File → Type 0
  Cleaned now b name h files x =
      (is_ok x.0 ≡ true)
      × (lookup h x.1 ≡ (
          if b && (text_eq name h && is_stale_file now (lookup h files))
          then none
          else lookup h files))
      × (IsReadable x.1)

  clean_one-Cleaned :
      (now : ℕ) (name h : Text) (o : Result (Option InviteRecord)) (removed : ℕ) (files : Map File)
      → read_file p (lookup name files) ≡ o
      → IsReadable files
      → Cleaned now true name h files (clean_one p now name o removed files)
  clean_one-Cleaned now name h (thrown e) removed files k r = absurd (ground (arith, r name, k))
  clean_one-Cleaned now name h (ok o) removed files k r = elim (Bool-cases (is_stale p now o)) [
    | inl s ↦ rw s (
      refl,
      removed_at name h now files (ap (λ x. stale_read now x) k ∙ s),
      IsReadable-remove name files r,
    )
    | inr s ↦ rw s (refl, kept_at name h now files (ap (λ x. stale_read now x) k ∙ s), r)
  ]

  clean_name-Cleaned :
      (now : ℕ) (name h : Text) (removed : ℕ) (files : Map File)
      → IsReadable files
      → Cleaned now (is_hash name) name h files (clean_name p now name removed files)
  unfolding read_invite_by_hash
  clean_name-Cleaned now name h removed files r = elim (Bool-cases (is_hash name)) [
    | inl e ↦
        rw e (clean_one-Cleaned now name h (read_file p (lookup name files)) removed files refl r)
    | inr e ↦ rw e (refl, refl, r)
  ]

  -- What stands under a name after the cleanup of some names.
  abbrev swept : ℕ → Text → Bool → Option File → Option File
  swept now h b o = if b && (is_hash h && is_stale_file now o) then none else o

  swept-twice :
      (now : ℕ) (name h : Text) (b : Bool) (o : Option File)
      → swept now h b (if is_hash name && (text_eq name h && is_stale_file now o) then none else o)
        ≡ swept now h (text_eq name h || b) o
  swept-twice now name h b o =
      sweep_again (is_hash name) (text_eq name h) b (is_hash h) (is_stale_file now) o refl
        (λ e. ap is_hash ((text_eq_iff name h).0 e))

  abbrev Swept : ℕ → List Text → Text → ℕ → Map File → Type 0
  Swept now names h removed files =
      (is_ok (clean_names p now names removed files).0 ≡ true)
      × (lookup h (clean_names p now names removed files).1
          ≡ swept now h (member h names) (lookup h files))

  step-Swept :
      (now : ℕ) (name : Text) (names : List Text) (h : Text) (files : Map File)
      (step : Result ℕ × Map File)
      → Cleaned now (is_hash name) name h files step
      → ((m : ℕ) (next : Map File) → IsReadable next → Swept now names h m next)
      → (is_ok (continue step (clean_names p now names (count_of step.0) step.1)).0 ≡ true)
        × (lookup h (continue step (clean_names p now names (count_of step.0) step.1)).1
            ≡ swept now h (text_eq name h || member h names) (lookup h files))
  step-Swept now name names h files (thrown e, next) (good, found, r) ih = cc
  step-Swept now name names h files (ok m, next) (good, found, r) ih =
      let (fine, rest) = ih m next r in
      (
        fine,
        rest
            ∙ ap (swept now h (member h names)) found
            ∙ swept-twice now name h (member h names) (lookup h files),
      )

  clean_names-Swept :
      (now : ℕ) (names : List Text) (h : Text) (removed : ℕ) (files : Map File)
      → IsReadable files
      → Swept now names h removed files
  unfolding clean_names
  clean_names-Swept now [] h removed files r = (refl, refl)
  clean_names-Swept now (name ∷ names) h removed files r =
      step-Swept now name names h files (clean_name p now name removed files)
        (clean_name-Cleaned now name h removed files r)
        (λ m next r'. clean_names-Swept now names h m next r')

  -- A cleanup of a store whose invites can all be read succeeds; it removes every file, named by a
  -- hash, whose invite has expired, and leaves every other file as it was.
  pub cleanup_expired_invites-swept :
      (now : ℕ) (h : Text) (files : Map File)
      → IsReadable files
      → (is_ok (cleanup_expired_invites p now files).0 ≡ true)
        × (lookup h (cleanup_expired_invites p now files).1
            ≡ (if is_hash h && is_stale_file now (lookup h files) then none else lookup h files))
  unfolding cleanup_expired_invites
  cleanup_expired_invites-swept now h files r =
      let (fine, found) = clean_names-Swept now (names_of files) h 0 files r in
      (
        fine,
        found ∙ elim (Bool-cases (member h (names_of files))) [
          | inl e ↦ rw e refl
          | inr e ↦ rw (e, member-names_of h files e) (nothing (is_hash h))
        ],
      )
