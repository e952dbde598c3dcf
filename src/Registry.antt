-- ===== src/Registry.antt =====
-- src/server/config_registry.js: the configurations of the gateways, one file for each, with ETags
-- over their canonical JSON. The directory is a map from file names to texts; JSON.stringify,
-- JSON.parse, SHA-256 and the validation of a configuration are the interface Platform; the
-- validation is src/config.js, which is not modelled: any test of a configuration.
pub mod Sorted
pub mod Canonical
pub mod Plain
pub mod Listing
pub mod Files
pub mod Tests
use mathlib.Core.Option
use collectivus.Prelude.{
  ℕ, zero, suc, Bool, true, false, ◌&&◌, ◌||◌, Option, none, some, List, [], ◌∷◌, ◌++◌, ltb, ◌==◌,
  if◌then◌else◌, Text, text, text_eq,
}
use collectivus.Prelude.Maps.{Map, lookup, insert, remove}
use collectivus.Enrollment.{is_valid_gateway_id}
use collectivus.Json.{
  Json, null, boolean, number, string, array, object, Items, no_items, item, Fields, no_fields,
  field,
}

-- The order of `sort()`: by code units.
unfoldable pub text_lt : Text → Text → Bool
text_lt [] [] = false
text_lt [] (b ∷ bs) = true
text_lt (a ∷ as') [] = false
text_lt (a ∷ as') (b ∷ bs) = ltb a b || (a == b && text_lt as' bs)

-- A key in its place among the sorted ones.
unfoldable pub insert_sorted : Text → Json → Fields → Fields
insert_sorted k v no_fields = field k v no_fields
insert_sorted k v (field j w fs) =
    let rest = insert_sorted k v fs in
    if text_lt k j then field k v (field j w fs) else field j w rest

-- `sorted[key] = …`: an assignment to `__proto__` makes no property.
abbrev pub put_sorted : Text → Json → Fields → Fields
put_sorted k v fs = if text_eq k (text "__proto__") then fs else insert_sorted k v fs

-- `canonicalize`; the loop over the sorted keys, as an insertion of each key.
unfoldable mutual
  pub canonicalize : Json → Json
  canonicalize null = null
  canonicalize (boolean b) = boolean b
  canonicalize (number n) = number n
  canonicalize (string s) = string s
  canonicalize (array xs) = array (canonical_items xs)
  canonicalize (object fs) = object (canonical_fields fs)

  pub canonical_items : Items → Items
  canonical_items no_items = no_items
  canonical_items (item x xs) = item (canonicalize x) (canonical_items xs)

  pub canonical_fields : Fields → Fields
  canonical_fields no_fields = no_fields
  canonical_fields (field k v fs) = put_sorted k (canonicalize v) (canonical_fields fs)

pub record Platform : Type 0 where
  pub stringify : Json → Text
  pub parse : Text → Option Json
  pub sha256 : Text → Text
  pub validate : Json → Bool

-- What an operation may throw.
pub data Failure : Type 0 where
  bad_gateway invalid_json invalid_config : Failure

pub data Result {ℓ} (A : Type ℓ) : Type ℓ where
  ok : A → Result A
  failed : Failure → Result A

-- The files of the directory.
abbrev pub Registry : Type 0
Registry = Map Text

-- `configFileFor`, below the directory
abbrev pub config_file_for : Text → Text
config_file_for gateway = gateway ++ text ".json"

abbrev pub is_there : Option Text → Bool
is_there none = false
is_there (some raw) = true

module _ (p : Platform) where
  -- `canonicalJsonString`
  unfoldable pub canonical_json_string : Json → Text
  canonical_json_string v = p.stringify (canonicalize v)

  -- `computeEtag`
  unfoldable pub compute_etag : Json → Text
  compute_etag v = p.sha256 (canonical_json_string v)

  abbrev pub check_config : Option Json → Result (Option (Json × Text))
  check_config none = failed invalid_json
  check_config (some v) =
      if p.validate v then ok (some (v, compute_etag v)) else failed invalid_config

  abbrev pub read_config : Option Text → Result (Option (Json × Text))
  read_config none = ok none
  read_config (some raw) = check_config (p.parse raw)

  -- `getConfig`: the configuration with its ETag, none where there is no file
  unfoldable pub get_config : Text → Registry → Result (Option (Json × Text))
  get_config gateway r =
      if is_valid_gateway_id gateway
      then read_config (lookup (config_file_for gateway) r)
      else failed bad_gateway

  -- `setConfig`: the ETag
  pub set_config : Text → Json → Registry → Result Text × Registry
  set_config gateway config r =
      if is_valid_gateway_id gateway
      then (if p.validate config
          then (
            ok (p.sha256 (canonical_json_string config)),
            insert (config_file_for gateway) (canonical_json_string config) r,
          )
          else (failed invalid_config, r))
      else (failed bad_gateway, r)

  -- `deleteConfig`: whether there was a file
  pub delete_config : Text → Registry → Result Bool × Registry
  delete_config gateway r =
      if is_valid_gateway_id gateway
      then (ok (is_there (lookup (config_file_for gateway) r)), remove (config_file_for gateway) r)
      else (failed bad_gateway, r)

-- `name.endsWith('.json')` with the slice before it
unfoldable pub strip_json : Text → Option Text
strip_json [] = none
strip_json (c ∷ cs) =
    let rest = strip_json cs in
    if text_eq (c ∷ cs) (text ".json") then some [] else Option.map (λ g. c ∷ g) rest

abbrev pub list_name : Option Text → List Text → List Text
list_name none gateways = gateways
list_name (some gateway) gateways =
    if is_valid_gateway_id gateway then gateway ∷ gateways else gateways

-- The loop of `listGateways`; the empty name is no valid id.
unfoldable pub gateways_in : Registry → List Text
gateways_in [] = []
gateways_in ((name, raw) ∷ r) = list_name (strip_json name) (gateways_in r)

unfoldable pub insert_text : Text → List Text → List Text
insert_text t [] = t ∷ []
insert_text t (s ∷ ss) = let rest = insert_text t ss in if text_lt s t then s ∷ rest else t ∷ s ∷ ss

-- `gateways.sort()`
unfoldable pub sort_texts : List Text → List Text
sort_texts [] = []
sort_texts (t ∷ ts) = insert_text t (sort_texts ts)

-- `listGateways`
pub list_gateways : Registry → List Text
list_gateways r = sort_texts (gateways_in r)
