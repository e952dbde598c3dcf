-- ===== src/Registry/Files.antt =====
-- The operations of src/server/config_registry.js on the files of the gateways.
use collectivus.Prelude.{
  ◌≡◌, ◌≢◌, refl, sym, ap, ◌∙◌, inl, inr, true, false, none, some, Text, text_eq, text_eq_iff,
  text_eq_refl, arith, Bool-cases,
}
use collectivus.Prelude.Maps.{lookup, insert, lookup-insert, lookup-remove}
use collectivus.Enrollment.{is_valid_gateway_id}
use collectivus.Json.{Json, IsJson, deep_equal}
use collectivus.Registry.{
  canonicalize, Platform, Failure, ok, failed, Registry, config_file_for, is_there, strip_json,
  canonical_json_string, compute_etag, get_config, set_config, delete_config,
}
use collectivus.Registry.Canonical.{canonicalize-equal}
use collectivus.Registry.Plain.{IsPlain, canonicalize-IsJson, deep_equal-canonicalize}
use collectivus.Registry.Listing.{strip_json-file}

-- The text of a value is parsed to an equal value; the order of its keys may differ.
abbrev pub Parses : Platform → Json → Type 0
Parses p v = (w : Json) × (p.parse (p.stringify v) ≡ some w) × IsJson w × (deep_equal w v ≡ true)

-- The validation does not depend on the order of keys.
abbrev pub Validates : Platform → Type 0
Validates p =
    (v w : Json) → IsJson v → IsJson w → deep_equal v w ≡ true → p.validate v ≡ p.validate w

config_file_for-injective : (g h : Text) → config_file_for g ≡ config_file_for h → g ≡ h
config_file_for-injective g h e =
    ground (arith, ap strip_json e, strip_json-file g, strip_json-file h)

set_config-stored :
    (p : Platform) (g : Text) (c : Json) (r : Registry)
    → is_valid_gateway_id g ≡ true
    → p.validate c ≡ true
    → set_config p g c r
      ≡ (ok (compute_etag p c), insert (config_file_for g) (canonical_json_string p c) r)
unfolding set_config compute_etag
set_config-stored p g c r gateway valid = rw (gateway, valid) refl

get_config-stored :
    (p : Platform) (g : Text) (w : Json) (raw : Text) (r : Registry)
    → is_valid_gateway_id g ≡ true
    → lookup (config_file_for g) r ≡ some raw
    → p.parse raw ≡ some w
    → p.validate w ≡ true
    → get_config p g r ≡ ok (some (w, compute_etag p w))
unfolding get_config
get_config-stored p g w raw r gateway there read valid = rw (gateway, there, read, valid) refl

lookup-insert_same : (k : Text) (v : Text) (r : Registry) → lookup k (insert k v r) ≡ some v
lookup-insert_same k v r = rw (lookup-insert k k v r, text_eq_refl k) refl

-- A stored configuration is read back with the ETag that storing it returned, up to the order of
-- its keys: its canonical form is the same.
pub get_config-set_config :
    (p : Platform) (g : Text) (c : Json) (r : Registry)
    → Parses p (canonicalize c)
    → Validates p
    → IsJson c
    → IsPlain c
    → is_valid_gateway_id g ≡ true
    → p.validate c ≡ true
    → (w : Json) × (get_config p g (set_config p g c r).1 ≡ ok (some (w, compute_etag p c)))
      × ((set_config p g c r).0 ≡ ok (compute_etag p c))
      × (canonicalize w ≡ canonicalize c)
unfolding compute_etag canonical_json_string
get_config-set_config p g c r parses validates json plain gateway valid =
    let json' : IsJson (canonicalize c) = canonicalize-IsJson c json in
    let (w, read, json-w, same) = parses in
    let kept : deep_equal c (canonicalize c) ≡ true = deep_equal-canonicalize c json plain in
    let form : canonicalize w ≡ canonicalize c =
      canonicalize-equal w (canonicalize c) json-w json' same
      ∙ sym (canonicalize-equal c (canonicalize c) json json' kept) in
    let valid-w : p.validate w ≡ true =
      validates w (canonicalize c) json-w json' same
      ∙ sym (validates c (canonicalize c) json json' kept)
      ∙ valid in
    let stored = set_config-stored p g c r gateway valid in
    let file = lookup-insert_same (config_file_for g) (p.stringify (canonicalize c)) r in
    (
      w,
      ap (λ q. get_config p g q.1) stored
          ∙ get_config-stored p g w (p.stringify (canonicalize c)) _ gateway file read valid-w
          ∙ ap (λ f. ok (some (w, p.sha256 (p.stringify f)))) form,
      ap (λ q. q.0) stored,
      form,
    )

-- What an operation on one gateway leaves of the file of another.
apart : (g h : Text) → g ≢ h → text_eq (config_file_for g) (config_file_for h) ≡ false
apart g h ne = elim (Bool-cases (text_eq (config_file_for g) (config_file_for h))) [
  | inl e ↦ absurd (
      ne
        (config_file_for-injective g h ((text_eq_iff (config_file_for g) (config_file_for h)).0 e)))
  | inr e ↦ e
]

set_config-lookup :
    (p : Platform) (g h : Text) (c : Json) (r : Registry)
    → g ≢ h
    → lookup (config_file_for h) (set_config p g c r).1 ≡ lookup (config_file_for h) r
unfolding set_config
set_config-lookup p g h c r ne = ground (
  arith,
  apart g h ne,
  lookup-insert (config_file_for g) (config_file_for h) (canonical_json_string p c) r,
)

delete_config-lookup :
    (p : Platform) (g h : Text) (r : Registry)
    → g ≢ h
    → lookup (config_file_for h) (delete_config p g r).1 ≡ lookup (config_file_for h) r
unfolding delete_config
delete_config-lookup p g h r ne =
    ground (arith, apart g h ne, lookup-remove (config_file_for g) (config_file_for h) r)

get_config-lookup :
    (p : Platform) (h : Text) (r s : Registry)
    → lookup (config_file_for h) r ≡ lookup (config_file_for h) s
    → get_config p h r ≡ get_config p h s
unfolding get_config
get_config-lookup p h r s e = rw e refl

-- Setting or deleting the configuration of one gateway, with any outcome, leaves what is read for
-- the others.
pub get_config-apart :
    (p : Platform) (g h : Text) (c : Json) (r : Registry)
    → g ≢ h
    → (get_config p h (set_config p g c r).1 ≡ get_config p h r)
      × (get_config p h (delete_config p g r).1 ≡ get_config p h r)
get_config-apart p g h c r ne = (
  get_config-lookup p h _ r (set_config-lookup p g h c r ne),
  get_config-lookup p h _ r (delete_config-lookup p g h r ne),
)

-- A refused configuration leaves the files as they are.
pub set_config-failed :
    (p : Platform) (g : Text) (c : Json) (r : Registry) (f : Failure)
    → (set_config p g c r).0 ≡ failed f
    → (set_config p g c r).1 ≡ r
unfolding set_config
set_config-failed p g c r f e = ground arith

-- A deleted configuration is gone, and the answer tells whether there was one.
pub get_config-delete_config :
    (p : Platform) (g : Text) (r : Registry)
    → is_valid_gateway_id g ≡ true
    → ((delete_config p g r).0 ≡ ok (is_there (lookup (config_file_for g) r)))
      × (get_config p g (delete_config p g r).1 ≡ ok none)
unfolding get_config delete_config
get_config-delete_config p g r gateway =
    rw
      (
        gateway,
        lookup-remove (config_file_for g) (config_file_for g) r,
        text_eq_refl (config_file_for g),
      )
      (refl, refl)
