-- ===== src/Registry/Tests.antt =====
-- The theorems on src/server/config_registry.js at concrete inputs. The texts of the platform below
-- keep the brackets, the keys and the strings; its parser knows one text, its hash is the text.
use collectivus.Prelude.{
  ◌≡◌, refl, Bool, true, false, none, some, [], ◌∷◌, ◌++◌, if◌then◌else◌, Text, text, text_eq,
}
use collectivus.Prelude.Decimals.{digits}
use collectivus.Enrollment.{is_valid_gateway_id, matches_pattern, all_id_chars}
use collectivus.Json.{
  Json, null, boolean, number, string, array, object, Items, no_items, item, Fields, no_fields,
  field, field_of, deep_equal, IsJson,
}
use collectivus.Json.Equal.{
  Alike, alike_null, alike_boolean, alike_number, alike_string, alike_array, alike_object,
  deep_equal-Alike,
}
use collectivus.Registry.{
  Platform, Registry, compute_etag, list_gateways, text_lt, sort_texts, insert_text, gateways_in,
  strip_json,
}
use collectivus.Registry.Canonical.{compute_etag-deep_equal}

abbrev pub one_order : Json
one_order = object (
    field (text "listen") (string (text ":1"))
      (field (text "dirs") (array (item (number 4) no_items)) no_fields))

abbrev pub other_order : Json
other_order = object (
    field (text "dirs") (array (item (number 4) no_items))
      (field (text "listen") (string (text ":1")) no_fields))

abbrev gateway : Text
gateway = text "west@1"

abbrev stored : Registry
stored = (text "west@1.json", text "{}") ∷ (text "a.json", text "{}") ∷ (text ".json", []) ∷ []

abbrev pub is_object : Json → Bool
is_object (object fs) = true
is_object _ = false

-- The shape of a value does not depend on the order of its keys.
pub is_object-equal :
    (v w : Json) → IsJson v → IsJson w → deep_equal v w ≡ true → is_object v ≡ is_object w
is_object-equal v w u u' e = of_Alike v w (deep_equal-Alike v w e)
  where
    of_Alike : (a b : Json) → Alike a b → is_object a ≡ is_object b
    of_Alike _ _ alike_null = refl
    of_Alike _ _ (alike_boolean p q e) = refl
    of_Alike _ _ (alike_number p q e) = refl
    of_Alike _ _ (alike_string p q e) = refl
    of_Alike _ _ (alike_array p q e) = refl
    of_Alike _ _ (alike_object p q c e) = refl

unfoldable mutual
  pub print : Json → Text
  print null = text "null"
  print (boolean true) = text "true"
  print (boolean false) = text "false"
  print (number n) = digits n
  print (string s) = text "'" ++ s ++ text "'"
  print (array xs) = text "[" ++ print_items xs
  print (object fs) = text "{" ++ print_fields fs

  print_items : Items → Text
  print_items no_items = text "]"
  print_items (item x xs) = print x ++ text "," ++ print_items xs

  print_fields : Fields → Text
  print_fields no_fields = text "}"
  print_fields (field k v fs) = k ++ text ":" ++ print v ++ text "," ++ print_fields fs

abbrev pub printed : Platform
printed = record {
  stringify = print;
  parse = λ raw. if text_eq raw (text "{dirs:[4,],listen:':1',}") then some other_order else none;
  sha256 = λ t. t;
  validate = is_object;
}

compute_etag-deep_equal_example : compute_etag printed one_order ≡ compute_etag printed other_order
unfolding deep_equal IsJson field_of text_eq
compute_etag-deep_equal_example =
    compute_etag-deep_equal printed one_order other_order (refl, tt, (refl, (tt, tt), tt))
      (refl, (tt, tt), (refl, tt, tt)) refl

listed : list_gateways stored ≡ text "a" ∷ gateway ∷ []
unfolding list_gateways sort_texts insert_text text_lt gateways_in strip_json is_valid_gateway_id
    matches_pattern all_id_chars text_eq
listed = refl
