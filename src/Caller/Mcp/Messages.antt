-- ===== src/Caller/Mcp/Messages.antt =====
-- `handle_mcp_message` and `call_tool` of caller/mcp.rs, and one line of the loop that reads them.
pub mod Answers
use Prim.Native.String.{String}
use remote_executor.Base.{
  ℕ, Bool, true, false, Option, none, some, List, [], ◌∷◌, ◌++◌, if◌then◌else◌,
}
use remote_executor.Base.Options.{and_then, unwrap_or}
use remote_executor.Base.Outcome.{Outcome, ok, err, panic}
use remote_executor.Text.{Text, codes, text_eq, is_empty, trim}
use remote_executor.Json.{Value, null, object, Number, negative, Fields, end, get, as_str, array_of}
use remote_executor.Protocol.{ExecutorRequest, ExecutorResponse, json_object}
use remote_executor.Caller.{CallerState, Network}
use remote_executor.Caller.Handle.{handle}
use remote_executor.Caller.Mcp.{
  success_response, error_response, tool_error, initialize_result, request_from_tool_call,
  response_to_tool_result,
}
use remote_executor.Caller.Mcp.Catalogue.{tools}

abbrev pub method_of : Value → Text
method_of message = unwrap_or [] (and_then (get (codes "method") message) as_str)

module _ (net : Network) (locked : Bool) (version : Text) where
  abbrev pub call_named : CallerState → Value → Value → Option Text → Value × CallerState
  call_named state id params none = (tool_error (codes "tools/call params.name is required"), state)
  call_named state id params (some name) =
      let arguments = unwrap_or (object end) (get (codes "arguments") params) in
      let (response, state') = handle net locked state (request_from_tool_call id name arguments) in
      (response_to_tool_result net.pretty response, state')

  unfoldable pub call_tool : CallerState → Value → Value → Value × CallerState
  call_tool state id message =
      let params = unwrap_or (object end) (get (codes "params") message) in
      call_named state id params (and_then (get (codes "name") params) as_str)

  abbrev succeed : Value → Value × CallerState → Option Value × CallerState
  succeed id (result, state) = (some (success_response id result), state)

  abbrev pub answer : CallerState → Value → Text → Value → Option Value × CallerState
  answer state id method message =
      if text_eq method (codes "initialize")
      then (some (success_response id (initialize_result version)), state)
      else if text_eq method (codes "ping")
      then (some (success_response id (object end)), state)
      else if text_eq method (codes "tools/list")
      then (some (success_response id (json_object ((codes "tools", array_of tools) ∷ []))), state)
      else if text_eq method (codes "tools/call")
      then succeed id (call_tool state id message)
      else (some (error_response id (negative 32600) (codes "method not found: " ++ method)), state)

  -- a message without an id is not answered
  abbrev pub with_id : CallerState → Value → Option Value → Option Value × CallerState
  with_id state message none = (none, state)
  with_id state message (some id) = answer state id (method_of message) message

  unfoldable pub handle_mcp_message : CallerState → Value → Option Value × CallerState
  handle_mcp_message state message = with_id state message (get (codes "id") message)

  abbrev pub parsed_line : CallerState → Outcome Text Value → Option Value × CallerState
  parsed_line state (ok message) = handle_mcp_message state message
  parsed_line state (err e) =
      (some (error_response null (negative 32699) (codes "parse error: " ++ e)), state)
  parsed_line state panic = (none, state)

  -- a line of the standard input; `parse` is `serde_json::from_str`
  unfoldable pub handle_mcp_line :
      (Text → Outcome Text Value) → CallerState → Text → Option Value × CallerState
  handle_mcp_line parse state line =
      if is_empty (trim line) then (none, state) else parsed_line state (parse line)
