-- ===== src/Json.antt =====
-- JSON values as the program reads them through serde_json: `get`, `as_str`, `as_bool`, `as_i64`,
-- `as_u64`, `as_array` and `as_object` of its `Value`. A number is an integer or, where it has a
-- fraction or an exponent, the text that it was written in. Parsing and printing are serde_json's.
use llm_chat.Prelude.{
  ℕ, ◌^◌, Text, Bool, Option, none, some, List, [], ◌∷◌, ℤ, pos, negsuc, ltb, text_eq,
  if◌then◌else◌, and_then,
}

mutual
  pub data Json : Type 0 where
    null : Json
    bool : Bool → Json
    int : ℤ → Json
    real : Text → Json
    str : Text → Json
    arr : Items → Json
    obj : Fields → Json

  pub data Items : Type 0 where
    nil : Items
    cons : Json → Items → Items

  pub data Fields : Type 0 where
    end : Fields
    field : Text → Json → Fields → Fields

abbrev pub lookup : Text → Fields → Option Json
lookup k end = none
lookup k (field j v fs) = if text_eq j k then some v else lookup k fs

-- `v.get(k)`: none unless `v` is an object with the key.
abbrev pub get : Json → Text → Option Json
get (obj fs) k = lookup k fs
get _ k = none

abbrev pub as_str : Json → Option Text
as_str (str s) = some s
as_str _ = none

abbrev pub as_bool : Json → Option Bool
as_bool (bool b) = some b
as_bool _ = none

abbrev pub as_i64 : Json → Option ℤ
as_i64 (int (pos n)) = if ltb n (2 ^ 63) then some (pos n) else none
as_i64 (int (negsuc n)) = if ltb n (2 ^ 63) then some (negsuc n) else none
as_i64 _ = none

abbrev pub as_u64 : Json → Option ℕ
as_u64 (int (pos n)) = if ltb n (2 ^ 64) then some n else none
as_u64 _ = none

abbrev pub items : Items → List Json
items nil = []
items (cons v vs) = v ∷ items vs

abbrev pub as_array : Json → Option (List Json)
as_array (arr vs) = some (items vs)
as_array _ = none

-- `v.get(k).and_then(|x| x.as_str())`, and so for the other kinds.
abbrev pub get_str : Json → Text → Option Text
get_str v k = and_then (get v k) as_str

abbrev pub get_bool : Json → Text → Option Bool
get_bool v k = and_then (get v k) as_bool

abbrev pub get_i64 : Json → Text → Option ℤ
get_i64 v k = and_then (get v k) as_i64

abbrev pub get_u64 : Json → Text → Option ℕ
get_u64 v k = and_then (get v k) as_u64

abbrev pub get_array : Json → Text → Option (List Json)
get_array v k = and_then (get v k) as_array
