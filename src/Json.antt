-- ===== src/Json.antt =====
-- JSON values, and `deepEqual` of src/gateway/hot_reload.js on them. An object is its fields in
-- order; numbers are naturals.
pub mod Equal
pub mod Objects
pub mod Paths
use collectivus.Prelude.{
  ℕ, zero, suc, ◌≡◌, Bool, true, false, ◌&&◌, Option, none, some, ◌==◌, if◌then◌else◌, Text,
  text_eq,
}

mutual
  pub data Json : Type 0 where
    null : Json
    boolean : Bool → Json
    number : ℕ → Json
    string : Text → Json
    array : Items → Json
    object : Fields → Json

  pub data Items : Type 0 where
    no_items : Items
    item : Json → Items → Items

  pub data Fields : Type 0 where
    no_fields : Fields
    field : Text → Json → Fields → Fields

unfoldable pub same_boolean : Bool → Bool → Bool
same_boolean true b = b
same_boolean false true = false
same_boolean false false = true

abbrev pub count_fields : Fields → ℕ
count_fields no_fields = 0
count_fields (field k v fs) = suc (count_fields fs)

-- The value of a key, where the object has it.
unfoldable pub field_of : Text → Fields → Option Json
field_of k no_fields = none
field_of k (field j v fs) = let rest = field_of k fs in if text_eq j k then some v else rest

-- `hasOwnProperty`, and a test of the value.
abbrev pub passes : (Json → Bool) → Option Json → Bool
passes p none = false
passes p (some v) = p v

-- `deepEqual`. Two values that are one object in memory are equal here by their contents.
unfoldable mutual
  pub deep_equal : Json → Json → Bool
  deep_equal null null = true
  deep_equal (boolean a) (boolean b) = same_boolean a b
  deep_equal (number a) (number b) = a == b
  deep_equal (string a) (string b) = text_eq a b
  deep_equal (array as') (array bs) = equal_items as' bs
  deep_equal (object as') (object bs) = count_fields as' == count_fields bs && equal_fields as' bs
  deep_equal a b = false

  pub equal_items : Items → Items → Bool
  equal_items no_items no_items = true
  equal_items (item a as') (item b bs) = deep_equal a b && equal_items as' bs
  equal_items as' bs = false

  -- Every field of the first object has an equal one in the second.
  pub equal_fields : Fields → Fields → Bool
  equal_fields no_fields bs = true
  equal_fields (field k a as') bs =
      passes (λ b. deep_equal a b) (field_of k bs) && equal_fields as' bs

-- No object has a key twice.
unfoldable mutual
  pub IsJson : Json → Type 0
  IsJson (array xs) = AreJson xs
  IsJson (object fs) = IsObject fs
  IsJson _ = Unit

  pub AreJson : Items → Type 0
  AreJson no_items = Unit
  AreJson (item x xs) = IsJson x × AreJson xs

  pub IsObject : Fields → Type 0
  IsObject no_fields = Unit
  IsObject (field k v fs) = (field_of k fs ≡ none) × IsJson v × IsObject fs
