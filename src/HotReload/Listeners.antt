-- ===== src/HotReload/Listeners.antt =====
-- What each section listens with after a reload by src/gateway/hot_reload.js.
use collectivus.Prelude.{
  ℕ, ◌≤◌, ◌≡◌, refl, sym, ap, ◌∙◌, ◌≢◌, not, text, Bool, true, false, ◌||◌, Option, none, some,
  List, [], ◌∷◌, if◌then◌else◌, Text, text_eq, text_eq_iff, text_eq_refl, arith, Bool-cases, inl,
  inr,
}
use collectivus.Prelude.Maps.{Map, lookup, insert, remove, lookup-insert, lookup-remove}
use collectivus.HotReload.{
  Config, ConfigDiff, sections_to_restart, Gateway, Factory, starts, fails, launch, safe_stop,
  restart_with, restart_section, restart_all, apply_sections, apply_diff, can_swap, strict_equal,
  listen_of,
}
use collectivus.HotReload.Registry.{safe_stop-registry, safe_stop-next, deleted-none}
use collectivus.HotReload.Sections.{member}

-- The listener r of a section after a reload, by whether the section is restarted, whether its
-- listen address differs, its new factory, the next listener's number and the old listener o.
abbrev Settled : Bool → Bool → Option Factory → ℕ → Option ℕ → Option ℕ → Type 0
Settled false swaps f next o r = r ≡ o
Settled true swaps none next o r = r ≡ none
Settled true swaps (some starts) next o r = (n : ℕ) × (r ≡ some n) × (next ≤ n)
Settled true swaps (some fails) next o r = r ≡ (if swaps then o else none)

inserted-some : (k : Text) (n : ℕ) (m : Map ℕ) → lookup k (insert k n m) ≡ some n
inserted-some k n m = lookup-insert k k n m ∙ rw (text_eq_refl k) refl

inserted-other :
    (s k : Text) (n : ℕ) (m : Map ℕ) → text_eq s k ≡ false → lookup k (insert s n m) ≡ lookup k m
inserted-other s k n m e = lookup-insert s k n m ∙ rw e refl

removed-other : (s k : Text) (m : Map ℕ) → text_eq s k ≡ false → lookup k (remove s m) ≡ lookup k m
removed-other s k m e = lookup-remove s k m ∙ rw e refl

module _ (stops : ℕ → Bool) where
  restart_with_self :
      (swaps : Bool) (f : Option Factory) (o : Option ℕ) (k : Text) (g : Gateway)
      → lookup k g.registry ≡ o
      → Settled true swaps f g.next o (lookup k (restart_with stops swaps f o k g).registry)
  restart_with_self swaps none none k g e = e
  restart_with_self swaps none (some m) k g e = deleted-none stops k m g
  restart_with_self swaps (some starts) none k g e =
      (g.next, inserted-some k g.next g.registry, omega arith)
  restart_with_self swaps (some fails) none k g e = elim (Bool-cases swaps) [
    | inl w ↦ rw w e
    | inr w ↦ rw w e
  ]
  restart_with_self true (some starts) (some m) k g e =
      (g.next, inserted-some k g.next _, omega arith)
  restart_with_self true (some fails) (some m) k g e = e
  restart_with_self false (some starts) (some m) k g e = (
    (safe_stop stops k m g).next,
    inserted-some k _ _,
    rw (safe_stop-next stops k m g) (omega arith),
  )
  restart_with_self false (some fails) (some m) k g e = deleted-none stops k m g

  removed-stop :
      (s k : Text) (m : ℕ) (g : Gateway)
      → text_eq s k ≡ false
      → lookup k (remove s (safe_stop stops s m g).registry) ≡ lookup k g.registry
  removed-stop s k m g ne = removed-other s k _ ne ∙ ap (lookup k) (safe_stop-registry stops s m g)

  restart_with-other :
      (swaps : Bool) (f : Option Factory) (o : Option ℕ) (s k : Text) (g : Gateway)
      → text_eq s k ≡ false
      → lookup k (restart_with stops swaps f o s g).registry ≡ lookup k g.registry
  restart_with-other swaps none none s k g ne = refl
  restart_with-other swaps none (some m) s k g ne = removed-stop s k m g ne
  restart_with-other swaps (some starts) none s k g ne = inserted-other s k g.next g.registry ne
  restart_with-other swaps (some fails) none s k g ne = refl
  restart_with-other true (some starts) (some m) s k g ne =
      inserted-other s k g.next _ ne ∙ ap (lookup k) (safe_stop-registry stops s m (launch g))
  restart_with-other true (some fails) (some m) s k g ne = refl
  restart_with-other false (some starts) (some m) s k g ne =
      inserted-other s k _ _ ne ∙ removed-stop s k m g ne
  restart_with-other false (some fails) (some m) s k g ne = removed-stop s k m g ne

  restart_with-next :
      (swaps : Bool) (f : Option Factory) (o : Option ℕ) (section : Text) (g : Gateway)
      → g.next ≤ (restart_with stops swaps f o section g).next
  restart_with-next swaps none none section g = omega arith
  restart_with-next swaps none (some m) section g =
      rw (safe_stop-next stops section m g) (omega arith)
  restart_with-next swaps (some starts) none section g = omega arith
  restart_with-next swaps (some fails) none section g = omega arith
  restart_with-next true (some starts) (some m) section g =
      rw (safe_stop-next stops section m (launch g)) (omega arith)
  restart_with-next true (some fails) (some m) section g = omega arith
  restart_with-next false (some starts) (some m) section g =
      rw (safe_stop-next stops section m g) (omega arith)
  restart_with-next false (some fails) (some m) section g =
      rw (safe_stop-next stops section m g) (omega arith)

Settled-trans :
    (b c swaps : Bool) (f : Option Factory) (m n : ℕ) (o p q : Option ℕ)
    → m ≤ n
    → Settled b swaps f m o p
    → Settled c swaps f n p q
    → Settled (b || c) swaps f m o q
Settled-trans false false swaps f m n o p q le h k = k ∙ h
Settled-trans true false swaps none m n o p q le h k = k ∙ h
Settled-trans true false swaps (some starts) m n o p q le (i, e, l) k = (i, k ∙ e, l)
Settled-trans true false swaps (some fails) m n o p q le h k = k ∙ h
Settled-trans false true swaps none m n o p q le h k = k
Settled-trans false true swaps (some starts) m n o p q le h (i, e, l) = (i, e, omega (arith, l, le))
Settled-trans false true swaps (some fails) m n o p q le h k = rw (sym h) k
Settled-trans true true swaps none m n o p q le h k = k
Settled-trans true true swaps (some starts) m n o p q le h (i, e, l) = (i, e, omega (arith, l, le))
Settled-trans true true true (some fails) m n o p q le h k = k ∙ h
Settled-trans true true false (some fails) m n o p q le h k = k

module _ (stops : ℕ → Bool) where
  restart_section-lookup :
      (s : Text) (old new : Config) (factories : Map Factory) (k : Text) (g : Gateway)
      → Settled
          (text_eq s k)
          (can_swap k old new)
          (lookup k factories)
          g.next
          (lookup k g.registry)
          (lookup k (restart_section stops s old new factories g).registry)
  unfolding restart_section
  restart_section-lookup s old new factories k g = elim (Bool-cases (text_eq s k)) [
    | inl same ↦
        rw (same, (text_eq_iff s k).0 same)
          (restart_with_self stops (can_swap k old new) (lookup k factories) (lookup k g.registry) k
            g refl)
    | inr other ↦ rw other (restart_with-other stops _ _ _ s k g other)
  ]

  restart_all-lookup :
      (sections : List Text) (old new : Config) (factories : Map Factory) (k : Text) (g : Gateway)
      → Settled
          (member k sections)
          (can_swap k old new)
          (lookup k factories)
          g.next
          (lookup k g.registry)
          (lookup k (restart_all stops sections old new factories g).registry)
  restart_all-lookup [] old new factories k g = refl
  restart_all-lookup (s ∷ sections) old new factories k g =
      let g' = restart_section stops s old new factories g in
      Settled-trans (text_eq s k) (member k sections) (can_swap k old new) (lookup k factories)
        g.next g'.next (lookup k g.registry) (lookup k g'.registry) _
        (unfold restart_section in restart_with-next stops _ _ _ s g)
        (restart_section-lookup s old new factories k g)
        (restart_all-lookup sections old new factories k g')

  built-Settled :
      (build : Config → Option (Map Factory)) (factories : Map Factory) (diff : ConfigDiff)
      (old new : Config) (k : Text) (g : Gateway)
      → build new ≡ some factories
      → Settled
          (member k (sections_to_restart diff old new))
          (can_swap k old new)
          (lookup k factories)
          g.next
          (lookup k g.registry)
          (lookup k (apply_diff stops build diff old new g).registry)
  unfolding apply_diff
  built-Settled build factories diff old new k g e = applied (sections_to_restart diff old new)
    where
      applied :
          (sections : List Text)
          → Settled
              (member k sections)
              (can_swap k old new)
              (lookup k factories)
              g.next
              (lookup k g.registry)
              (lookup k (apply_sections stops build sections old new g).registry)
      applied [] = refl
      applied (s ∷ sections) = rw e (restart_all-lookup (s ∷ sections) old new factories k g)

-- What is left of a section k that had the listener o and whose new factory fails: `otel` and `proxy`
-- keep it where their listen address differs and have none where it is the same, and every other
-- section keeps it.
pub data AfterFailure (k : Text) (old new : Config) (o r : Option ℕ) : Type 0 where
  otel_moves :
      k ≡ text "otel"
      → strict_equal (listen_of old.otel) (listen_of new.otel) ≡ false
      → r ≡ o
      → AfterFailure k old new o r
  otel_stays :
      k ≡ text "otel"
      → strict_equal (listen_of old.otel) (listen_of new.otel) ≡ true
      → r ≡ none
      → AfterFailure k old new o r
  proxy_moves :
      k ≡ text "proxy"
      → strict_equal (listen_of old.proxy) (listen_of new.proxy) ≡ false
      → r ≡ o
      → AfterFailure k old new o r
  proxy_stays :
      k ≡ text "proxy"
      → strict_equal (listen_of old.proxy) (listen_of new.proxy) ≡ true
      → r ≡ none
      → AfterFailure k old new o r
  no_server : k ≢ text "otel" → k ≢ text "proxy" → r ≡ o → AfterFailure k old new o r

-- The listener r of a section k after a reload, by whether the section is restarted and its new
-- factory.
abbrev pub Reloaded :
    Text → Config → Config → Bool → Option Factory → ℕ → Option ℕ → Option ℕ → Type 0
Reloaded k old new false f next o r = r ≡ o
Reloaded k old new true none next o r = r ≡ none
Reloaded k old new true (some starts) next o r = (n : ℕ) × (r ≡ some n) × (next ≤ n)
Reloaded k old new true (some fails) next o r = AfterFailure k old new o r

other_name : (k name : Text) → text_eq k name ≡ false → k ≢ name
other_name k name e p = refute (sym e ∙ (text_eq_iff k name).1 p)
  where
    refute : false ≡ true → ⊥
    refute q = cc

module _ (k : Text) (old new : Config) (o r : Option ℕ) where
  by_address :
      (a b s p : Bool)
      → text_eq k (text "otel") ≡ a
      → text_eq k (text "proxy") ≡ b
      → strict_equal (listen_of old.otel) (listen_of new.otel) ≡ s
      → strict_equal (listen_of old.proxy) (listen_of new.proxy) ≡ p
      → r ≡ (if (if a then not s else if b then not p else true) then o else none)
      → AfterFailure k old new o r
  by_address true b true p ea eb es ep h = otel_stays ((text_eq_iff k _).0 ea) es h
  by_address true b false p ea eb es ep h = otel_moves ((text_eq_iff k _).0 ea) es h
  by_address false true s true ea eb es ep h = proxy_stays ((text_eq_iff k _).0 eb) ep h
  by_address false true s false ea eb es ep h = proxy_moves ((text_eq_iff k _).0 eb) ep h
  by_address false false s p ea eb es ep h = no_server (other_name k _ ea) (other_name k _ eb) h

  Settled-Reloaded :
      (b : Bool) (f : Option Factory) (next : ℕ)
      → Settled b (can_swap k old new) f next o r
      → Reloaded k old new b f next o r
  unfolding can_swap
  Settled-Reloaded false f next h = h
  Settled-Reloaded true none next h = h
  Settled-Reloaded true (some starts) next h = h
  Settled-Reloaded true (some fails) next h = by_address _ _ _ _ refl refl refl refl h

-- After a reload whose factories were built: a section that is not restarted keeps its listener; one
-- that is has none if the new configuration has no factory for it and a new listener if its factory
-- starts. If its factory fails, `otel` and `proxy` keep the old listener exactly where their listen
-- address differs and have none otherwise, and the upload keeps what it had.
pub apply_diff-Settled :
    (stops : ℕ → Bool) (build : Config → Option (Map Factory)) (factories : Map Factory)
    (diff : ConfigDiff) (old new : Config) (k : Text) (g : Gateway)
    → build new ≡ some factories
    → Reloaded k old new
        (member k (sections_to_restart diff old new))
        (lookup k factories)
        g.next
        (lookup k g.registry)
        (lookup k (apply_diff stops build diff old new g).registry)
apply_diff-Settled stops build factories diff old new k g e =
    Settled-Reloaded k old new _ _ _ _ _ (built-Settled stops build factories diff old new k g e)
