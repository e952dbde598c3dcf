-- ===== src/Upload/Retry.antt =====
-- The retries of `withRetry` in src/upload/uploader.js.
use collectivus.Prelude.{
  ℕ, zero, suc, ◌+◌, ◌*◌, ◌^◌, ◌≤◌, ◌≡◌, refl, sym, ap, ◌∙◌, subst, Bool, true, false, List, [],
  ◌∷◌, arith,
}
use collectivus.Upload.{
  Attempt, works, fails, fails_late, is_transient, Ended, succeeded, failed_for_good, exhausted,
  Tried, after_attempt, retry_from,
}

-- The delays of `n` retries, from the attempt `k` on.
abbrev pub backoff : ℕ → ℕ → ℕ → List ℕ
backoff initial k zero = []
backoff initial k (suc n) = initial * 4 ^ k ∷ backoff initial (suc k) n

abbrev pub is_passing : Attempt → Bool
is_passing works = false
is_passing (fails status) = is_transient status
is_passing (fails_late status) = is_transient status

-- The `m` attempts from number `k` on fail, and may be tried again.
abbrev pub Passes : (ℕ → Attempt) → ℕ → ℕ → Type 0
Passes attempts k zero = Unit
Passes attempts k (suc m) = (is_passing (attempts k) ≡ true) × Passes attempts (suc k) m

-- How the loop ends at an attempt that does not pass.
abbrev pub end_of : Attempt → Ended
end_of works = succeeded
end_of _ = failed_for_good

module _ {S : Type 0} (initial : ℕ) (attempts : ℕ → Attempt) (op : S → S) where
  abbrev Ends : Tried S → Ended → List ℕ → Type 0
  Ends t e delays = (t.ended ≡ e) × (t.delays ≡ delays)

  after-passing :
      (a : Attempt) (n k : ℕ) (early late : Tried S) (s : S) (e : Ended) (delays : List ℕ)
      → is_passing a ≡ true
      → Ends early e delays
      → Ends late e delays
      → Ends
          (after_attempt initial attempts op a (suc n) k early late s)
          e
          (initial * 4 ^ k ∷ delays)
  after-passing works n k early late s e delays p h l = cc
  after-passing (fails status) n k early late s e delays p (he, hd) l =
      rw p (he, ap (λ ds. initial * 4 ^ k ∷ ds) hd)
  after-passing (fails_late status) n k early late s e delays p h (le, ld) =
      rw p (le, ap (λ ds. initial * 4 ^ k ∷ ds) ld)

  after-last :
      (a : Attempt) (k : ℕ) (early late : Tried S) (s : S)
      → is_passing a ≡ true
      → Ends (after_attempt initial attempts op a zero k early late s) exhausted []
  after-last works k early late s p = cc
  after-last (fails status) k early late s p = rw p (refl, refl)
  after-last (fails_late status) k early late s p = rw p (refl, refl)

  after-final :
      (a : Attempt) (n k : ℕ) (early late : Tried S) (s : S)
      → is_passing a ≡ false
      → Ends (after_attempt initial attempts op a n k early late s) (end_of a) []
  after-final works n k early late s p = (refl, refl)
  after-final (fails status) n k early late s p = rw p (refl, refl)
  after-final (fails_late status) n k early late s p = rw p (refl, refl)

  -- Where `m` attempts pass and the next one succeeds or fails for good, and there are that many,
  -- the call ends as that one does, after `m` delays, each four times the one before.
  pub retry_from-ended :
      (m r k : ℕ) (s : S)
      → m ≤ r
      → Passes attempts k m
      → is_passing (attempts (k + m)) ≡ false
      → Ends
          (retry_from initial attempts op (suc r) k s)
          (end_of (attempts (k + m)))
          (backoff initial k m)
  unfolding retry_from
  retry_from-ended zero r k s le h p =
      let stay : k + 0 ≡ k = omega arith in
      subst (λ i. Ends (retry_from initial attempts op (suc r) k s) (end_of (attempts i)) [])
        (sym stay)
        (after-final (attempts k) r k _ _ s (ap (λ i. is_passing (attempts i)) (sym stay) ∙ p))
  retry_from-ended (suc m) zero k s le h p = absurd (omega (arith, le))
  retry_from-ended (suc m) (suc r) k s le (h, hs) p =
      let shift : k + suc m ≡ suc k + m = omega arith in
      let p' : is_passing (attempts (suc k + m)) ≡ false =
        ap (λ i. is_passing (attempts i)) (sym shift) ∙ p in
      let rest : (u : S)
          → Ends (retry_from initial attempts op (suc r) (suc k) u) (end_of (attempts (k + suc m)))
              (backoff initial (suc k) m) =
        λ u.
          subst
            (λ i.
              Ends (retry_from initial attempts op (suc r) (suc k) u) (end_of (attempts i))
                (backoff initial (suc k) m))
            (sym shift) (retry_from-ended m r (suc k) u (omega (arith, le)) hs p') in
      after-passing (attempts k) r k _ _ s _ _ h (rest s) (rest (op s))

  -- Where all attempts pass, the call is given up after the last of them.
  pub retry_from-exhausted :
      (r k : ℕ) (s : S)
      → Passes attempts k (suc r)
      → Ends (retry_from initial attempts op (suc r) k s) exhausted (backoff initial k r)
  unfolding retry_from
  retry_from-exhausted zero k s (h, hs) = after-last (attempts k) k _ _ s h
  retry_from-exhausted (suc r) k s (h, hs) =
      after-passing (attempts k) r k _ _ s _ _ h (retry_from-exhausted r (suc k) s hs)
        (retry_from-exhausted r (suc k) (op s) hs)
