-- ===== src/Protocol.antt =====
-- The messages of src/protocol.rs.
use remote_executor.Base.{ℕ, Bool, true, false, Option, none, some, List, [], ◌∷◌}
use remote_executor.Text.{Text, codes}
use remote_executor.Dict.{Dict}
use remote_executor.Json.{
  Value, null, string, array, object, Items, nil, cons, Fields, end, insert_field,
}

pub record ExecutorInfo : Type 0 where
  pub id : Text
  pub system : Option Text
  pub device : Option Text
  pub labels : Dict Text

pub record ExecutorRequest : Type 0 where
  pub id : Value
  pub method : Text
  pub params : Value
  pub directory : Option Text
  pub executor : Option Text
  pub tool_timeout_ms : Option ℕ

pub record ExecutorResponse : Type 0 where
  pub id : Value
  pub is_ok : Bool
  pub result : Option Value
  pub error : Option Text
  pub executor : Option Text

pub record ToolResult : Type 0 where
  pub metadata : Value
  pub output : Value

-- `ExecutorResponse::ok` and `ExecutorResponse::err`
abbrev pub ok_response : Value → Option Text → Value → ExecutorResponse
ok_response id executor result = record {
  id = id;
  is_ok = true;
  result = some result;
  error = none;
  executor = executor;
}

abbrev pub err_response : Value → Option Text → Text → ExecutorResponse
err_response id executor error = record {
  id = id;
  is_ok = false;
  result = none;
  error = some error;
  executor = executor;
}

abbrev insert_entries : List (Text × Value) → Fields → Fields
insert_entries [] fs = fs
insert_entries ((k, v) ∷ rest) fs = insert_entries rest (insert_field k v fs)

-- `json!({ k: v, … })`
unfoldable pub json_object : List (Text × Value) → Value
unfolding insert_field
json_object entries = object (insert_entries entries end)

-- a `Vec<String>` and an `Option<String>` as values
abbrev items_of : List Text → Items
items_of [] = nil
items_of (s ∷ rest) = cons (string s) (items_of rest)

abbrev pub strings_value : List Text → Value
strings_value texts = array (items_of texts)

abbrev pub option_value : Option Text → Value
option_value none = null
option_value (some s) = string s

abbrev entries_of : Dict Text → List (Text × Value)
entries_of [] = []
entries_of ((k, s) ∷ rest) = (k, string s) ∷ entries_of rest

abbrev pub labels_value : Dict Text → Value
labels_value labels = json_object (entries_of labels)

unfoldable pub tool_output_full : Text → Text → Text → Value
unfolding json_object
tool_output_full message text info = json_object (
    (codes "message", string message)
    ∷ (codes "text", string text)
    ∷ (codes "info", string info)
    ∷ [])

unfoldable pub tool_output : Text → Value
tool_output text = tool_output_full [] text []
