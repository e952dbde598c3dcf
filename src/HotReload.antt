-- ===== src/HotReload.antt =====
-- src/gateway/hot_reload.js: which listeners a new configuration restarts, and how. The listeners
-- are numbered in the order of their start; whether a factory starts its listener, whether `stop`
-- throws, and which factories a configuration has, are parameters.
pub mod Registry
pub mod Sections
pub mod Listeners
pub mod Tests
use collectivus.Prelude.{
  ℕ, zero, suc, ◌+◌, Bool, true, false, not, ◌&&◌, ◌||◌, Option, none, some, List, [], ◌∷◌, ◌++◌,
  ◌==◌, if◌then◌else◌, Text, text, text_eq,
}
use collectivus.Prelude.Maps.{Map, lookup, insert, remove}
use collectivus.Json.{
  Json, null, boolean, number, string, object, same_boolean, field_of, deep_equal,
}

pub record Config : Type 0 where
  pub otel : Option Json
  pub proxy : Option Json
  pub sink : Option Json
  pub upload : Option Json

pub data SectionStatus : Type 0 where
  unchanged added removed changed : SectionStatus

pub record ConfigDiff : Type 0 where
  pub otel : SectionStatus
  pub proxy : SectionStatus
  pub sink : SectionStatus
  pub upload : SectionStatus

-- `sectionStatus`
pub section_status : Option Json → Option Json → SectionStatus
section_status none none = unchanged
section_status none (some new) = added
section_status (some old) none = removed
section_status (some old) (some new) = if deep_equal old new then unchanged else changed

-- `diffConfig`
pub diff_config : Config → Config → ConfigDiff
diff_config old new = record {
  otel = section_status old.otel new.otel;
  proxy = section_status old.proxy new.proxy;
  sink = section_status old.sink new.sink;
  upload = section_status old.upload new.upload;
}

abbrev pub is_changed : SectionStatus → Bool
is_changed unchanged = false
is_changed _ = true

abbrev pub is_there : Option Json → Bool
is_there none = false
is_there (some v) = true

-- `Set.add`
unfoldable pub add : Text → List Text → List Text
add s [] = s ∷ []
add s (t ∷ out) = let rest = add s out in if text_eq t s then t ∷ out else t ∷ rest

abbrev pub add_if : Bool → Text → List Text → List Text
add_if b s out = if b then add s out else out

-- The `if` on the shared sink.
abbrev pub add_users : Bool → Config → Config → List Text → List Text
add_users false old new out = out
add_users true old new out = add_if (is_there old.upload || is_there new.upload) (text "upload") (
    add_if (is_there old.proxy || is_there new.proxy) (text "proxy")
      (add_if (is_there old.otel || is_there new.otel) (text "otel") out))

-- `computeSectionsToRestart`
unfoldable pub sections_to_restart : ConfigDiff → Config → Config → List Text
sections_to_restart diff old new = add_users (is_changed diff.sink) old new (
    add_if (is_changed diff.upload) (text "upload") (
      add_if (is_changed diff.proxy) (text "proxy")
        (add_if (is_changed diff.otel) (text "otel") [])))

-- `section?.listen`
pub listen_of : Option Json → Option Json
listen_of (some (object fs)) = field_of (text "listen") fs
listen_of _ = none

-- `===`; two configurations share no array and no object.
pub strict_equal : Option Json → Option Json → Bool
strict_equal none none = true
strict_equal (some null) (some null) = true
strict_equal (some (boolean a)) (some (boolean b)) = same_boolean a b
strict_equal (some (number a)) (some (number b)) = a == b
strict_equal (some (string a)) (some (string b)) = text_eq a b
strict_equal a b = false

-- `canSwap`
pub can_swap : Text → Config → Config → Bool
can_swap section old new =
    if text_eq section (text "otel")
    then not (strict_equal (listen_of old.otel) (listen_of new.otel))
    else if text_eq section (text "proxy")
    then not (strict_equal (listen_of old.proxy) (listen_of new.proxy))
    else true

-- What is written to stdout and stderr.
pub data Line : Type 0 where
  stopped started restarted failed_start kept_old failed_after_stop : Text → Line
  stop_error : Text → ℕ → Line
  build_failed : Line

-- The registry, and what it stands for: the listeners that run, the number of the next one.
pub record Gateway : Type 0 where
  pub registry : Map ℕ
  pub running : List ℕ
  pub next : ℕ
  pub log : List Line

-- Whether the factory's promise resolves.
pub data Factory : Type 0 where
  starts fails : Factory

abbrev pub erase : ℕ → List ℕ → List ℕ
erase n [] = []
erase n (m ∷ ms) = let rest = erase n ms in if m == n then ms else m ∷ rest

abbrev pub write : Line → Gateway → Gateway
write line g = record g { log = g.log ++ line ∷ [] }

abbrev pub set_listener : Text → ℕ → Gateway → Gateway
set_listener section n g = record g { registry = insert section n g.registry }

abbrev pub delete_listener : Text → Gateway → Gateway
delete_listener section g = record g { registry = remove section g.registry }

-- A factory that resolved with the next listener.
abbrev pub launch : Gateway → Gateway
launch g = record g { running = g.next ∷ g.running; next = suc g.next }

module _ (stops : ℕ → Bool) where
  -- `safeStop`
  pub safe_stop : Text → ℕ → Gateway → Gateway
  safe_stop section n g =
      if stops n then record g { running = erase n g.running } else write (stop_error section n) g

  abbrev pub start_first : Factory → Text → Gateway → Gateway
  start_first starts section g = write (started section) (set_listener section g.next (launch g))
  start_first fails section g = write (failed_start section) g

  abbrev pub swap : Factory → Text → ℕ → Gateway → Gateway
  swap starts section n g =
      write (restarted section) (set_listener section g.next (safe_stop section n (launch g)))
  swap fails section n g = write (kept_old section) g

  abbrev pub start_again : Factory → Text → Gateway → Gateway
  start_again starts section g = write (restarted section) (set_listener section g.next (launch g))
  start_again fails section g = write (failed_after_stop section) g

  -- The branches of `restartSection`, by the new factory and the old listener.
  abbrev pub restart_with : Bool → Option Factory → Option ℕ → Text → Gateway → Gateway
  restart_with swaps none none section g = g
  restart_with swaps none (some n) section g =
      write (stopped section) (delete_listener section (safe_stop section n g))
  restart_with swaps (some f) none section g = start_first f section g
  restart_with swaps (some f) (some n) section g =
      if swaps
      then swap f section n g
      else start_again f section (delete_listener section (safe_stop section n g))

  -- `restartSection`
  pub restart_section : Text → Config → Config → Map Factory → Gateway → Gateway
  restart_section section old new factories g =
      restart_with (can_swap section old new) (lookup section factories) (lookup section g.registry)
        section g

  abbrev pub restart_all : List Text → Config → Config → Map Factory → Gateway → Gateway
  restart_all [] old new factories g = g
  restart_all (section ∷ sections) old new factories g =
      restart_all sections old new factories (restart_section section old new factories g)

  -- What follows the call of `factoryBuilder`, which is none where it throws.
  abbrev pub apply_built : List Text → Config → Config → Option (Map Factory) → Gateway → Gateway
  apply_built sections old new none g = write build_failed g
  apply_built sections old new (some factories) g = restart_all sections old new factories g

  abbrev pub apply_sections :
      (Config → Option (Map Factory)) → List Text → Config → Config → Gateway → Gateway
  apply_sections build [] old new g = g
  apply_sections build (s ∷ sections) old new g = apply_built (s ∷ sections) old new (build new) g

  -- `applyDiff`
  pub apply_diff :
      (Config → Option (Map Factory)) → ConfigDiff → Config → Config → Gateway → Gateway
  apply_diff build diff old new g =
      apply_sections build (sections_to_restart diff old new) old new g
