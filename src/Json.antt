-- ===== src/Json.antt =====
-- `serde_json::Value` as a data type, with the accessors that the source calls on it. An object
-- holds its members in a list; a number is an integer, or the bit pattern of an `f64`.
use sjbis.Prelude.{
  ℕ, String, Bool, true, false, Option, none, some, ℤ, pos, negsuc, if◌then◌else◌, str_eq, ltb,
  i64_bound,
}

mutual
  pub data Json : Type 0 where
    null : Json
    bool : Bool → Json
    int : ℤ → Json
    float : ℕ → Json
    str : String → Json
    arr : Items → Json
    obj : Fields → Json

  pub data Items : Type 0 where
    nil : Items
    cons : Json → Items → Items

  pub data Fields : Type 0 where
    end : Fields
    field : String → Json → Fields → Fields

unfoldable pub lookup_field : String → Fields → Option Json
lookup_field k end = none
lookup_field k (field j v fs) = if str_eq j k then some v else lookup_field k fs

-- `v.get(key)`: `None` unless `v` is an object that has the key.
unfoldable pub get : Json → String → Option Json
unfolding lookup_field
get (obj fs) k = lookup_field k fs
get null k = none
get (bool b) k = none
get (int z) k = none
get (float b) k = none
get (str s) k = none
get (arr xs) k = none

unfoldable pub as_str : Json → Option String
as_str (str s) = some s
as_str _ = none

-- `v.as_i64()`: an integer that an `i64` holds.
unfoldable pub as_i64 : Json → Option ℤ
as_i64 (int (pos n)) = if ltb n i64_bound then some (pos n) else none
as_i64 (int (negsuc n)) = if ltb n i64_bound then some (negsuc n) else none
as_i64 _ = none

unfoldable pub is_object : Json → Bool
is_object (obj fs) = true
is_object _ = false
