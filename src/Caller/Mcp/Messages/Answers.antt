-- ===== src/Caller/Mcp/Messages/Answers.antt =====
-- What a client of caller/mcp.rs is answered, and which request a tool call becomes.
use remote_executor.Base.{
  ◌≡◌, ◌⊎◌, refl, ap, ◌∙◌, inl, inr, Bool, false, not, Option, none, some, if◌then◌else◌, arith,
  is_some, Bool-cases,
}
use remote_executor.Base.Tests.{if-lem}
use remote_executor.Base.Options.{and_then, unwrap_or}
use remote_executor.Text.{Text, codes, text_eq}
use remote_executor.Text.Equality.{text_eq_iff}
use remote_executor.Dict.{text_lt}
use remote_executor.Json.{
  Number, Value, bool, string, object, Fields, end, field, get, get_field, insert_field,
  remove_field, as_str, as_u64,
}
use remote_executor.Protocol.{ExecutorResponse, json_object}
use remote_executor.Caller.{CallerState, Network}
use remote_executor.Caller.Handle.Reach.{Step, handles}
use remote_executor.Caller.Mcp.{
  success_response, error_response, tool_error, request_from_tool_call, response_to_tool_result,
}
use remote_executor.Caller.Mcp.Messages.{
  call_named, call_tool, answer, method_of, handle_mcp_message,
}

-- A response of JSON-RPC to the request `id`: a result or an error, and not both.
abbrev pub IsAnswer : Value → Value → Type 0
IsAnswer id v =
    (get (codes "jsonrpc") v ≡ some (string (codes "2.0")))
    × (get (codes "id") v ≡ some id)
    × (is_some (get (codes "result") v) ≡ not (is_some (get (codes "error") v)))

success_response-IsAnswer : (id result : Value) → IsAnswer id (success_response id result)
unfolding success_response json_object get_field insert_field text_eq text_lt
success_response-IsAnswer id result = (refl, refl, refl)

error_response-IsAnswer :
    (id : Value) (code : Number) (message : Text) → IsAnswer id (error_response id code message)
unfolding error_response json_object get_field insert_field text_eq text_lt
error_response-IsAnswer id code message = (refl, refl, refl)

-- answered, and the state is the same or that after one request
Replies : CallerState → Value → Option Value × CallerState → Type 0
Replies state id (reply, after) =
    ((v : Value) × (reply ≡ some v) × IsAnswer id v) × ((after ≡ state) ⊎ Step state after)

Replies-success :
    (state : CallerState) (id result : Value)
    → Replies state id (some (success_response id result), state)
unfolding Replies
Replies-success state id result =
    ((success_response id result, refl, success_response-IsAnswer id result), inl refl)

module _ (net : Network) (locked : Bool) (version : Text) where
  call_named-Step :
      (state : CallerState) (id params : Value) (name : Option Text)
      → let after = (call_named net locked version state id params name).1 in
        (after ≡ state) ⊎ Step state after
  call_named-Step state id params none = inl refl
  call_named-Step state id params (some name) = inr (
      handles net locked state
        (request_from_tool_call id name (unwrap_or (object end) (get (codes "arguments") params)))
        refl)

  answer-Replies :
      (state : CallerState) (id : Value) (method : Text) (message : Value)
      → Replies state id (answer net locked version state id method message)
  unfolding Replies call_tool
  answer-Replies state id method message =
      let P = Replies state id in
      if-lem P (text_eq method (codes "initialize")) (Replies-success state id _) (
        if-lem P (text_eq method (codes "ping")) (Replies-success state id _) (
          if-lem P (text_eq method (codes "tools/list")) (Replies-success state id _) (
            if-lem P (text_eq method (codes "tools/call"))
              (
                (_, refl, success_response-IsAnswer id _),
                call_named-Step state id (unwrap_or (object end) (get (codes "params") message)) _,
              )
              ((_, refl, error_response-IsAnswer id _ _), inl refl))))

  -- A message with an id gets one response, which bears that id and holds a result or an error and not
  -- both, and changes the caller at most by the handling of one request.
  pub handle_mcp_message-answers :
      (state : CallerState) (message id : Value)
      → get (codes "id") message ≡ some id
      → let after = handle_mcp_message net locked version state message in
        ((v : Value) × (after.0 ≡ some v) × IsAnswer id v)
        × ((after.1 ≡ state) ⊎ Step state after.1)
  unfolding handle_mcp_message Replies
  handle_mcp_message-answers state message id there =
      rw there (answer-Replies state id (method_of message) message)

  -- A message without an id gets no response and changes nothing.
  pub handle_mcp_message-silent :
      (state : CallerState) (message : Value)
      → get (codes "id") message ≡ none
      → handle_mcp_message net locked version state message ≡ (none, state)
  unfolding handle_mcp_message
  handle_mcp_message-silent state message absent = rw absent refl

get_field-remove_field :
    (k l : Text) (fs : Fields)
    → get_field l (remove_field k fs) ≡ (if text_eq k l then none else get_field l fs)
unfolding get_field remove_field
get_field-remove_field k l end = ground arith
get_field-remove_field k l (field j w fs) =
    ground (arith, text_eq_iff k l, text_eq_iff j k, text_eq_iff j l, get_field-remove_field k l fs)

-- The three arguments that say where and how long a tool runs become fields of the request, and never
-- reach the tool's own parameters, which keep every other argument.
pub request_from_tool_call-params :
    (id : Value) (name : Text) (fs : Fields)
    → let request = request_from_tool_call id name (object fs) in
      (request.executor ≡ and_then (get_field (codes "targetExecutor") fs) as_str)
      × (request.tool_timeout_ms ≡ and_then (get_field (codes "toolTimeoutMs") fs) as_u64)
      × (request.directory ≡ and_then (get_field (codes "directory") fs) as_str)
      × (get (codes "targetExecutor") request.params ≡ none)
      × (get (codes "toolTimeoutMs") request.params ≡ none)
      × (get (codes "directory") request.params ≡ none)
      × ((key : Text)
          → text_eq (codes "targetExecutor") key ≡ false
          → text_eq (codes "toolTimeoutMs") key ≡ false
          → text_eq (codes "directory") key ≡ false
          → get key request.params ≡ get_field key fs)
unfolding request_from_tool_call text_eq
request_from_tool_call-params id name fs =
    let one = remove_field (codes "targetExecutor") fs in
    let two = remove_field (codes "toolTimeoutMs") one in
    let gone = λ (k l : Text). λ (gs : Fields). get_field-remove_field k l gs in
    (
      refl,
      ap (λ o. and_then o as_u64) (gone (codes "targetExecutor") (codes "toolTimeoutMs") fs),
      ap (λ o. and_then o as_str)
          (gone (codes "toolTimeoutMs") (codes "directory") one
            ∙ gone (codes "targetExecutor") (codes "directory") fs),
      gone (codes "directory") (codes "targetExecutor") two
          ∙ gone (codes "toolTimeoutMs") (codes "targetExecutor") one
          ∙ gone (codes "targetExecutor") (codes "targetExecutor") fs,
      gone (codes "directory") (codes "toolTimeoutMs") two
          ∙ gone (codes "toolTimeoutMs") (codes "toolTimeoutMs") one,
      gone (codes "directory") (codes "directory") two,
      λ key t m d.
          gone (codes "directory") key two
          ∙ rw d (
              gone (codes "toolTimeoutMs") key one
              ∙ rw m (gone (codes "targetExecutor") key fs ∙ rw t refl)),
    )

-- A tool that failed is told by `isError`, inside of a result, and a tool that did not is not.
pub response_to_tool_result-is_error :
    (pretty : Value → Text) (response : ExecutorResponse)
    → get (codes "isError") (response_to_tool_result pretty response)
      ≡ some (bool (not response.is_ok))
unfolding response_to_tool_result tool_error json_object get_field insert_field text_eq text_lt
response_to_tool_result-is_error pretty response = elim (Bool-cases response.is_ok) [
  | inl e ↦ rw e refl
  | inr e ↦ rw e refl
]
