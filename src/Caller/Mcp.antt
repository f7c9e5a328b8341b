-- ===== src/Caller/Mcp.antt =====
-- The messages of caller/mcp.rs: what the caller answers to a model context protocol client. The lines
-- of the standard input are taken one by one.
pub mod Catalogue
pub mod Messages
use Prim.Native.String.{String}
use remote_executor.Base.{
  ℕ, Bool, true, false, Option, none, some, List, [], ◌∷◌, ◌++◌, if◌then◌else◌,
}
use remote_executor.Base.Options.{and_then, unwrap_or, or_option}
use remote_executor.Text.{Text, codes, is_empty, trim}
use remote_executor.Json.{
  Value, null, bool, string, number, array, object, Number, unsigned, negative, Items, nil, cons,
  Fields, end, get, get_field, remove_field, as_str, as_u64, array_of,
}
use remote_executor.Protocol.{ExecutorRequest, ExecutorResponse, json_object}

abbrev pub mcp_protocol_version : Text
mcp_protocol_version = codes "2024-11-05"

unfoldable pub success_response : Value → Value → Value
unfolding json_object
success_response id result =
    json_object
      ((codes "jsonrpc", string (codes "2.0")) ∷ (codes "id", id) ∷ (codes "result", result) ∷ [])

unfoldable pub error_response : Value → Number → Text → Value
unfolding json_object
error_response id code message = json_object (
    (codes "jsonrpc", string (codes "2.0"))
    ∷ (codes "id", id)
    ∷ (
      codes "error",
      json_object ((codes "code", number code) ∷ (codes "message", string message) ∷ []),
    )
    ∷ [])

-- `[{ "type": "text", "text": text }]`
abbrev text_content : Text → Value
text_content text =
    array_of
      (json_object ((codes "type", string (codes "text")) ∷ (codes "text", string text) ∷ []) ∷ [])

unfoldable pub tool_error : Text → Value
unfolding json_object
tool_error message =
    json_object ((codes "content", text_content message) ∷ (codes "isError", bool true) ∷ [])

-- `version` is that of the package
unfoldable pub initialize_result : Text → Value
initialize_result version = json_object (
    (codes "protocolVersion", string mcp_protocol_version)
    ∷ (
      codes "capabilities",
      json_object ((codes "tools", json_object ((codes "listChanged", bool false) ∷ [])) ∷ []),
    )
    ∷ (
      codes "serverInfo",
      json_object (
          (codes "name", string (codes "remote-caller-mcp"))
          ∷ (codes "version", string version)
          ∷ []),
    )
    ∷ [])

-- `params.remove(key)` read as a text or as a `u64`; the parameters without the key
abbrev take_string : Text → Fields → Option Text × Fields
take_string key fs = (and_then (get_field key fs) as_str, remove_field key fs)

abbrev take_u64 : Text → Fields → Option ℕ × Fields
take_u64 key fs = (and_then (get_field key fs) as_u64, remove_field key fs)

abbrev argument_fields : Value → Fields
argument_fields (object fs) = fs
argument_fields _ = end

unfoldable pub request_from_tool_call : Value → Text → Value → ExecutorRequest
request_from_tool_call id name arguments =
    let (executor, params) = take_string (codes "targetExecutor") (argument_fields arguments) in
    let (ms, params') = take_u64 (codes "toolTimeoutMs") params in
    let (directory, params'') = take_string (codes "directory") params' in
    record {
      id = id;
      method = name;
      params = object params'';
      directory = directory;
      executor = executor;
      tool_timeout_ms = ms;
    }

-- the text that a client shows: the output's, or the result as it is printed
abbrev output_text : (Value → Text) → Value → Text
output_text pretty result =
    let output = unwrap_or null (get (codes "output") result) in
    unwrap_or (pretty result)
      (or_option (as_str output) (and_then (get (codes "text") output) as_str))

abbrev result_of_ok : (Value → Text) → Value → Value
result_of_ok pretty result = json_object (
    (codes "content", text_content (output_text pretty result))
    ∷ (codes "structuredContent", result)
    ∷ (codes "isError", bool false)
    ∷ [])

unfoldable pub response_to_tool_result : (Value → Text) → ExecutorResponse → Value
unfolding tool_error
response_to_tool_result pretty response =
    if response.is_ok
    then result_of_ok pretty (unwrap_or null response.result)
    else tool_error (unwrap_or (codes "tool call failed") response.error)
