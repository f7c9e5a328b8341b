-- ===== src/Json.antt =====
-- `serde_json::Value`, whose objects are maps in the order of their keys, and the functions on values
-- that the program defines or calls.
pub mod Merge
use remote_executor.Base.{
  ℕ, Bool, true, false, Option, none, some, List, [], ◌∷◌, if◌then◌else◌, ltb, ◌<◌, ◌^◌,
}
use remote_executor.Text.{Text, text_eq}
use remote_executor.Dict.{text_lt}

-- an unsigned number, a negative one -(n + 1), or a float, whose digits are opaque
pub data Number : Type 0 where
  unsigned negative float : ℕ → Number

mutual
  pub data Value : Type 0 where
    null : Value
    bool : Bool → Value
    number : Number → Value
    string : Text → Value
    array : Items → Value
    object : Fields → Value

  pub data Items : Type 0 where
    nil : Items
    cons : Value → Items → Items

  pub data Fields : Type 0 where
    end : Fields
    field : Text → Value → Fields → Fields

unfoldable pub get_field : Text → Fields → Option Value
get_field k end = none
get_field k (field j v fs) = if text_eq j k then some v else get_field k fs

unfoldable pub insert_field : Text → Value → Fields → Fields
insert_field k v end = field k v end
insert_field k v (field j w fs) =
    let rest = insert_field k v fs in
    if text_eq j k
    then field k v fs
    else if text_lt k j
    then field k v (field j w fs)
    else field j w rest

-- `map.remove(key)`: what is left
unfoldable pub remove_field : Text → Fields → Fields
remove_field k end = end
remove_field k (field j v fs) =
    let rest = remove_field k fs in if text_eq j k then rest else field j v rest

-- an array from the list of its values
abbrev pub array_of : List Value → Value
array_of values = array (items values)
  where
    items : List Value → Items
    items [] = nil
    items (v ∷ rest) = cons v (items rest)

-- `value.get(key)`
abbrev pub get : Text → Value → Option Value
get k (object fs) = get_field k fs
get k _ = none

-- `Value::as_str`, `Value::as_bool`
abbrev pub as_str : Value → Option Text
as_str (string s) = some s
as_str _ = none

abbrev pub as_bool : Value → Option Bool
as_bool (bool b) = some b
as_bool _ = none

-- the numbers of `u64`, and those of `i64`, as they are
abbrev pub as_u64 : Value → Option ℕ
as_u64 (number (unsigned n)) = some n
as_u64 _ = none

abbrev pub as_i64 : Value → Option Number
as_i64 (number (unsigned n)) = if ltb n (2 ^ 63) then some (unsigned n) else none
as_i64 (number (negative n)) = some (negative n)
as_i64 _ = none

abbrev pub as_object : Value → Option Fields
as_object (object fs) = some fs
as_object _ = none

abbrev pub value_or_null : Option Value → Value
value_or_null none = null
value_or_null (some v) = v

-- `json_merge` of settings/mod.rs: an object goes into an object key by key, and any other value
-- replaces what is there
unfoldable mutual
  unfolding get_field insert_field

  pub json_merge : Value → Value → Value
  json_merge base (object overlay) = elim base [
    | object fs ↦ object (merge_fields fs overlay)
    | _ ↦ object overlay
  ]
  json_merge base null = null
  json_merge base (bool b) = bool b
  json_merge base (number n) = number n
  json_merge base (string s) = string s
  json_merge base (array xs) = array xs

  pub merge_fields : Fields → Fields → Fields
  merge_fields base end = base
  merge_fields base (field key v rest) =
      merge_fields (insert_field key (json_merge (value_or_null (get_field key base)) v) base) rest
