-- ===== src/HotReload/Sections.antt =====
-- Which sections src/gateway/hot_reload.js restarts.
use collectivus.Prelude.{
  ℕ, ◌≡◌, refl, ap, ◌∙◌, Bool, true, false, ◌&&◌, ◌||◌, Option, none, some, List, [], ◌∷◌, Text,
  text, text_eq, text_eq_iff, arith, Bool-cases, inl, inr,
}
use collectivus.Prelude.Maps.{Map}
use collectivus.Json.{Json, IsJson}
use collectivus.Json.Equal.{deep_equal_refl}
use collectivus.HotReload.{
  Config, ConfigDiff, SectionStatus, unchanged, section_status, diff_config, is_changed, is_there,
  add, add_if, sections_to_restart, Gateway, Factory, apply_diff,
}

abbrev pub member : Text → List Text → Bool
member k [] = false
member k (s ∷ out) = text_eq s k || member k out

member-add : (k s : Text) (out : List Text) → member k (add s out) ≡ (text_eq s k || member k out)
unfolding add
member-add k s [] = refl
member-add k s (t ∷ out) =
    ground (arith, member-add k s out, text_eq_iff t s, text_eq_iff t k, text_eq_iff s k)

member-add_if :
    (b : Bool) (k s : Text) (out : List Text)
    → member k (add_if b s out) ≡ ((b && text_eq s k) || member k out)
member-add_if true k s out = member-add k s out
member-add_if false k s out = refl

-- Whether a section is restarted for its own change or for that of the sink, which it uses.
abbrev pub due : SectionStatus → SectionStatus → Option Json → Option Json → Bool
due own sink old new = is_changed own || (is_changed sink && (is_there old || is_there new))

member-three :
    (k s t u : Text) (a b c : Bool) (out : List Text)
    → member k (add_if c u (add_if b t (add_if a s out)))
      ≡ ((c && text_eq u k) || ((b && text_eq t k) || ((a && text_eq s k) || member k out)))
member-three k s t u a b c out =
    member-add_if c k u _
    ∙ ap (λ r. (c && text_eq u k) || r)
        (member-add_if b k t _ ∙ ap (λ r. (b && text_eq t k) || r) (member-add_if a k s out))

-- The two orders in which the tests of three sections are joined.
join_four :
    (p q r a b c x y z : Bool)
    → ((z && r) || ((y && q) || ((x && p) || ((c && r) || ((b && q) || ((a && p) || false))))))
      ≡ ((p && (a || x)) || (q && (b || y)) || (r && (c || z)))
join_four p q r a b c x y z = ground arith

join_two :
    (p q r a b c : Bool)
    → ((c && r) || ((b && q) || ((a && p) || false)))
      ≡ ((p && (a || false)) || (q && (b || false)) || (r && (c || false)))
join_two p q r a b c = ground arith

module _ (k : Text) (a b c : Bool) where
  abbrev own_sections : List Text
  own_sections = add_if c (text "upload") (add_if b (text "proxy") (add_if a (text "otel") []))

  member-own : member k own_sections ≡ (
      (text_eq (text "otel") k && (a || false))
      || (text_eq (text "proxy") k && (b || false))
      || (text_eq (text "upload") k && (c || false)))
  member-own =
      member-three k (text "otel") (text "proxy") (text "upload") a b c []
      ∙ join_two (text_eq (text "otel") k) (text_eq (text "proxy") k) (text_eq (text "upload") k) a
          b c

  member-both :
      (x y z : Bool)
      → member k
          (add_if z (text "upload") (add_if y (text "proxy") (add_if x (text "otel") own_sections)))
        ≡ ((text_eq (text "otel") k && (a || x))
            || (text_eq (text "proxy") k && (b || y))
            || (text_eq (text "upload") k && (c || z)))
  member-both x y z =
      member-three k (text "otel") (text "proxy") (text "upload") x y z own_sections
      ∙ ap
          (λ o.
            (z && text_eq (text "upload") k)
            || ((y && text_eq (text "proxy") k) || ((x && text_eq (text "otel") k) || o)))
          (member-three k (text "otel") (text "proxy") (text "upload") a b c [])
      ∙ join_four (text_eq (text "otel") k) (text_eq (text "proxy") k) (text_eq (text "upload") k) a
          b c x y z

-- The sections that a reload restarts: otel, proxy and upload, each if its own status is not
-- unchanged, or that of the sink is not and the old or the new configuration has the section.
pub member-sections_to_restart :
    (diff : ConfigDiff) (old new : Config) (k : Text)
    → member k (sections_to_restart diff old new) ≡ (
        (text_eq (text "otel") k && due diff.otel diff.sink old.otel new.otel)
        || (text_eq (text "proxy") k && due diff.proxy diff.sink old.proxy new.proxy)
        || (text_eq (text "upload") k && due diff.upload diff.sink old.upload new.upload))
unfolding sections_to_restart
member-sections_to_restart diff old new k =
    let a = is_changed diff.otel in
    let b = is_changed diff.proxy in
    let c = is_changed diff.upload in
    elim (Bool-cases (is_changed diff.sink)) [
      | inl e ↦ rw e (
          member-both k a b c (is_there old.otel || is_there new.otel)
            (is_there old.proxy || is_there new.proxy) (is_there old.upload || is_there new.upload))
      | inr e ↦ rw e (member-own k a b c)
    ]

abbrev pub IsConfigJson : Option Json → Type 0
IsConfigJson none = Unit
IsConfigJson (some v) = IsJson v

section_status-same : (v : Option Json) → IsConfigJson v → section_status v v ≡ unchanged
unfolding section_status
section_status-same none w = refl
section_status-same (some v) w = rw (deep_equal_refl v w) refl

module _ (stops : ℕ → Bool) where
  -- A configuration that is pulled again unchanged, whose JSON objects have no key twice, restarts
  -- nothing and does not even build the factories.
  pub apply_diff-same :
      (build : Config → Option (Map Factory)) (c : Config) (g : Gateway)
      → IsConfigJson c.otel
      → IsConfigJson c.proxy
      → IsConfigJson c.sink
      → IsConfigJson c.upload
      → apply_diff stops build (diff_config c c) c c g ≡ g
  unfolding apply_diff diff_config sections_to_restart
  apply_diff-same build c g o p s u =
      rw
        (
          section_status-same c.otel o,
          section_status-same c.proxy p,
          section_status-same c.sink s,
          section_status-same c.upload u,
        )
        refl
