-- ===== src/HotReload/Registry.antt =====
-- The listeners that run, against the registry of src/gateway/hot_reload.js.
use collectivus.Prelude.{
  ℕ, ◌+◌, ◌≤◌, ◌≡◌, refl, ◌∙◌, Bool, true, false, Option, none, some, List, [], ◌∷◌, ◌++◌, ◌==◌,
  if◌then◌else◌, Text, text_eq_refl, arith, Bool-cases, inl, inr,
}
use collectivus.Prelude.Maps.{
  Map, lookup, lookup-remove, IsMap, IsMap-insert, IsMap-remove, total, total-insert_new,
  total-insert_old, total-remove,
}
use collectivus.HotReload.{
  Config, ConfigDiff, Line, stop_error, Gateway, Factory, starts, fails, erase, write, set_listener,
  delete_listener, launch, safe_stop, restart_with, restart_section, restart_all, apply_built,
  apply_sections, apply_diff, can_swap, sections_to_restart,
}

abbrev pub hit : ℕ → ℕ → ℕ
hit n m = if m == n then 1 else 0

-- How often the listener runs.
abbrev pub copies : ℕ → List ℕ → ℕ
copies n [] = 0
copies n (m ∷ ms) = hit n m + copies n ms

abbrev error_of : ℕ → Line → ℕ
error_of n (stop_error section m) = hit n m
error_of n _ = 0

-- How often the log says that its `stop` threw.
abbrev pub errors : ℕ → List Line → ℕ
errors n [] = 0
errors n (line ∷ log) = error_of n line + errors n log

-- A listener runs as often as it is registered and its `stop` threw.
pub record IsTidy (g : Gateway) : Type 0 where
  pub keys : IsMap g.registry
  pub counted : (n : ℕ) → copies n g.running ≡ total (hit n) g.registry + errors n g.log

errors-append :
    (n : ℕ) (log : List Line) (line : Line)
    → errors n (log ++ line ∷ []) ≡ errors n log + error_of n line
errors-append n [] line = omega arith
errors-append n (l ∷ log) line = omega (arith, errors-append n log line)

copies-erase :
    (n m : ℕ) (ms : List ℕ) → 1 ≤ copies m ms → copies n (erase m ms) + hit n m ≡ copies n ms
copies-erase n m [] h = absurd (omega (arith, h))
copies-erase n m (k ∷ ms) h = ground (arith, copies-erase n m ms)

-- What a stop changes.
module _ (stops : ℕ → Bool) where
  pub safe_stop-registry :
      (section : Text) (m : ℕ) (g : Gateway) → (safe_stop stops section m g).registry ≡ g.registry
  unfolding safe_stop
  safe_stop-registry section m g = elim (Bool-cases (stops m)) [
    | inl e ↦ rw e refl
    | inr e ↦ rw e refl
  ]

  pub safe_stop-next :
      (section : Text) (m : ℕ) (g : Gateway) → (safe_stop stops section m g).next ≡ g.next
  unfolding safe_stop
  safe_stop-next section m g = elim (Bool-cases (stops m)) [ inl e ↦ rw e refl | inr e ↦ rw e refl ]

  safe_stop-balance :
      (section : Text) (m n : ℕ) (g : Gateway)
      → 1 ≤ copies m g.running
      → copies n (safe_stop stops section m g).running + hit n m + errors n g.log
        ≡ copies n g.running + errors n (safe_stop stops section m g).log
  unfolding safe_stop
  safe_stop-balance section m n g h = elim (Bool-cases (stops m)) [
    | inl e ↦ rw e (omega (arith, copies-erase n m g.running h))
    | inr e ↦ rw e (omega (arith, errors-append n g.log (stop_error section m)))
  ]

registered-runs :
    (section : Text) (m : ℕ) (g : Gateway)
    → IsTidy g
    → lookup section g.registry ≡ some m
    → 1 ≤ copies m g.running
registered-runs section m g t e =
    let hit_self : hit m m ≡ 1 = ground arith in
    omega (arith, hit_self, t.counted m, total-remove (hit m) section m g.registry t.keys e)

write-IsTidy :
    (line : Line) (g : Gateway) → ((n : ℕ) → error_of n line ≡ 0) → IsTidy g → IsTidy (write line g)
write-IsTidy line g quiet t = record {
  keys = t.keys;
  counted = λ n. omega (arith, t.counted n, errors-append n g.log line, quiet n);
}

launch-IsTidy :
    (section : Text) (g : Gateway)
    → lookup section g.registry ≡ none
    → IsTidy g
    → IsTidy (set_listener section g.next (launch g))
launch-IsTidy section g e t = record {
  keys = IsMap-insert section g.next g.registry t.keys;
  counted = λ n. omega (arith, t.counted n, total-insert_new (hit n) section g.next g.registry e);
}

module _ (stops : ℕ → Bool) where
  delete-IsTidy :
      (section : Text) (m : ℕ) (g : Gateway)
      → lookup section g.registry ≡ some m
      → IsTidy g
      → IsTidy (delete_listener section (safe_stop stops section m g))
  delete-IsTidy section m g e t = record {
    keys = rw (safe_stop-registry stops section m g) (IsMap-remove section g.registry t.keys);
    counted = λ n. rw (safe_stop-registry stops section m g) (
        omega (
          arith,
          t.counted n,
          safe_stop-balance stops section m n g (registered-runs section m g t e),
          total-remove (hit n) section m g.registry t.keys e,
        ));
  }

  replace-IsTidy :
      (section : Text) (m : ℕ) (g : Gateway)
      → lookup section g.registry ≡ some m
      → IsTidy g
      → IsTidy (set_listener section g.next (safe_stop stops section m (launch g)))
  replace-IsTidy section m g e t =
      let same : (safe_stop stops section m (launch g)).registry ≡ g.registry =
        safe_stop-registry stops section m (launch g) in
      record {
        keys = rw same (IsMap-insert section g.next g.registry t.keys);
        counted = λ n. rw same (
            omega (
              arith,
              t.counted n,
              safe_stop-balance stops section m n (launch g)
                  (omega (arith, registered-runs section m g t e)),
              total-insert_old (hit n) section g.next m g.registry e,
            ));
      }

  pub deleted-none :
      (section : Text) (m : ℕ) (g : Gateway)
      → lookup section (delete_listener section (safe_stop stops section m g)).registry ≡ none
  deleted-none section m g =
      lookup-remove section section (safe_stop stops section m g).registry
      ∙ rw (text_eq_refl section) refl

  restart_with-IsTidy :
      (swaps : Bool) (f : Option Factory) (o : Option ℕ) (section : Text) (g : Gateway)
      → lookup section g.registry ≡ o
      → IsTidy g
      → IsTidy (restart_with stops swaps f o section g)
  restart_with-IsTidy swaps none none section g e t = t
  restart_with-IsTidy swaps none (some m) section g e t =
      write-IsTidy _ _ (λ n. refl) (delete-IsTidy section m g e t)
  restart_with-IsTidy swaps (some starts) none section g e t =
      write-IsTidy _ _ (λ n. refl) (launch-IsTidy section g e t)
  restart_with-IsTidy swaps (some fails) none section g e t = write-IsTidy _ _ (λ n. refl) t
  restart_with-IsTidy true (some starts) (some m) section g e t =
      write-IsTidy _ _ (λ n. refl) (replace-IsTidy section m g e t)
  restart_with-IsTidy true (some fails) (some m) section g e t = write-IsTidy _ _ (λ n. refl) t
  restart_with-IsTidy false (some starts) (some m) section g e t =
      write-IsTidy _ _ (λ n. refl)
        (launch-IsTidy section _ (deleted-none section m g) (delete-IsTidy section m g e t))
  restart_with-IsTidy false (some fails) (some m) section g e t =
      write-IsTidy _ _ (λ n. refl) (delete-IsTidy section m g e t)

  restart_all-IsTidy :
      (sections : List Text) (old new : Config) (factories : Map Factory) (g : Gateway)
      → IsTidy g
      → IsTidy (restart_all stops sections old new factories g)
  unfolding restart_section
  restart_all-IsTidy [] old new factories g t = t
  restart_all-IsTidy (section ∷ sections) old new factories g t =
      restart_all-IsTidy sections old new factories _ (
        restart_with-IsTidy (can_swap section old new) (lookup section factories)
          (lookup section g.registry) section g refl t)

  apply_built-IsTidy :
      (sections : List Text) (old new : Config) (o : Option (Map Factory)) (g : Gateway)
      → IsTidy g
      → IsTidy (apply_built stops sections old new o g)
  apply_built-IsTidy sections old new none g t = write-IsTidy _ _ (λ n. refl) t
  apply_built-IsTidy sections old new (some factories) g t =
      restart_all-IsTidy sections old new factories g t

  -- A hot reload leaks no listener and loses none: if each one ran as often as it is registered or
  -- its `stop` threw, by the log, then it still does after a reload, whichever factories fail to
  -- start and whichever listeners fail to stop.
  pub apply_diff-IsTidy :
      (build : Config → Option (Map Factory)) (diff : ConfigDiff) (old new : Config) (g : Gateway)
      → IsTidy g
      → IsTidy (apply_diff stops build diff old new g)
  unfolding apply_diff
  apply_diff-IsTidy build diff old new g t = applied (sections_to_restart diff old new)
    where
      applied : (sections : List Text) → IsTidy (apply_sections stops build sections old new g)
      applied [] = t
      applied (s ∷ sections) = apply_built-IsTidy (s ∷ sections) old new (build new) g t
