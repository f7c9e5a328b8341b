-- ===== src/Caller/Handle.antt =====
-- `Caller` of caller/mod.rs: what it does with a request, from its locked state to the next. A state
-- that a call to the network does not touch is taken when that call has ended.
pub mod Laws
pub mod Cases
pub mod Reach
use Prim.Native.String.{String}
use remote_executor.Base.{
  ℕ, Bool, true, false, ◌&&◌, Option, none, some, List, [], ◌∷◌, ◌++◌, if◌then◌else◌, is_some,
}
use remote_executor.Base.Options.{unwrap_or}
use remote_executor.Base.Outcome.{Outcome, ok, err, panic, ◌>>=◌, ◌>>◌, reject_if, ok_or}
use remote_executor.Text.{Text, codes, text_eq, is_empty, trim}
use remote_executor.Dict.{Dict, lookup, insert, contains_key}
use remote_executor.Json.{Value, bool, string, array, Items, nil, cons}
use remote_executor.Protocol.{
  ExecutorRequest, ExecutorResponse, ToolResult, ok_response, err_response, json_object,
  option_value, labels_value, tool_output,
}
use remote_executor.Caller.{
  ConnectExecutorOptions, SetDefaultExecutorOptions, FileTransferOptions, ExecutorEndpoint,
  CallerState, Network, default_transfer_path, normalize_ws_url, is_list_executor,
  is_connect_executor, is_set_default_executor, is_file_transfer, is_write_method,
}
use remote_executor.Caller.Remote.{refresh_info, call}
use remote_executor.Caller.Transfer.{file_transfer_result}

abbrev pub caller_name : Option Text
caller_name = some (codes "caller")

abbrev tool_value : ToolResult → Value
tool_value r = json_object ((codes "metadata", r.metadata) ∷ (codes "output", r.output) ∷ [])

-- `Caller::ok`, `Caller::err`
abbrev pub caller_ok : Value → ToolResult → ExecutorResponse
caller_ok id result = ok_response id caller_name (tool_value result)

abbrev pub caller_err : Value → Text → ExecutorResponse
caller_err id error = err_response id caller_name error

abbrev not_found : Text → Text
not_found id = codes "executor not found: " ++ id

-- the endpoint before the executor is asked
unfoldable pub new_endpoint : ConnectExecutorOptions → ExecutorEndpoint
new_endpoint options = record {
  info = record {
    id = options.id;
    system = options.system;
    device = options.device;
    labels = options.labels;
  };
  url = normalize_ws_url options.url;
  protocol = none;
  version = none;
  file_transfer = false;
  file_transfer_path = default_transfer_path;
}

unfoldable pub connect_to_executor :
    Network → CallerState → ConnectExecutorOptions → Outcome Text CallerState
connect_to_executor net state options = do
  u ← reject_if (is_empty (trim options.id)) (codes "executor id is required")
  w ← reject_if (text_eq options.id (codes "local")) (codes "local executor is reserved")
  endpoint ← refresh_info net (new_endpoint options)
  ok (record state { executors = insert options.id endpoint state.executors })

unfoldable pub set_default_executor : CallerState → Text → Outcome Text CallerState
set_default_executor state id =
    if contains_key id state.executors
    then ok (record state { default_executor = id })
    else err (not_found id)

unfoldable pub select_executor : CallerState → Option Text → Outcome Text ExecutorEndpoint
select_executor state requested =
    let id = unwrap_or state.default_executor requested in
    ok_or (lookup id state.executors) (not_found id)

abbrev endpoint_value : ExecutorEndpoint → Value
endpoint_value endpoint = json_object (
    (codes "id", string endpoint.info.id)
    ∷ (codes "system", option_value endpoint.info.system)
    ∷ (codes "device", option_value endpoint.info.device)
    ∷ (codes "labels", labels_value endpoint.info.labels)
    ∷ (codes "url", string endpoint.url)
    ∷ (codes "protocol", option_value endpoint.protocol)
    ∷ (codes "version", option_value endpoint.version)
    ∷ (codes "fileTransfer", bool endpoint.file_transfer)
    ∷ (codes "fileTransferPath", string endpoint.file_transfer_path)
    ∷ [])

abbrev endpoint_items : Dict ExecutorEndpoint → Items
endpoint_items [] = nil
endpoint_items ((id, endpoint) ∷ rest) = cons (endpoint_value endpoint) (endpoint_items rest)

unfoldable pub list_executor_result : Network → CallerState → ToolResult
list_executor_result net state =
    let value = json_object (
      (codes "default", string state.default_executor)
      ∷ (codes "executors", array (endpoint_items state.executors))
      ∷ []) in
    record { metadata = value; output = tool_output (net.pretty value) }

-- the list of the executors after a change, or the error of the change
abbrev pub report_change :
    Network → CallerState → Value → Outcome Text CallerState → ExecutorResponse × CallerState
report_change net state id (ok changed) = (caller_ok id (list_executor_result net changed), changed)
report_change net state id (err e) = (caller_err id e, state)
report_change net state id panic = (caller_err id [], state)

abbrev pub connect_with :
    Network
    → CallerState
    → Value
    → Outcome Text ConnectExecutorOptions
    → ExecutorResponse × CallerState
connect_with net state id (ok options) =
    report_change net state id (connect_to_executor net state options)
connect_with net state id (err e) =
    (caller_err id (codes "bad connect_to_executor params: " ++ e), state)
connect_with net state id panic = (caller_err id [], state)

unfoldable pub connect_executor_response :
    Network → CallerState → ExecutorRequest → ExecutorResponse × CallerState
connect_executor_response net state request =
    connect_with net state request.id (net.connect_options request.params)

abbrev pub set_default_with :
    Network
    → CallerState
    → Value
    → Outcome Text SetDefaultExecutorOptions
    → ExecutorResponse × CallerState
set_default_with net state id (ok options) =
    report_change net state id (set_default_executor state options.id)
set_default_with net state id (err e) =
    (caller_err id (codes "bad set_default_executor params: " ++ e), state)
set_default_with net state id panic = (caller_err id [], state)

unfoldable pub set_default_response :
    Network → CallerState → ExecutorRequest → ExecutorResponse × CallerState
set_default_response net state request =
    set_default_with net state request.id (net.set_default_options request.params)

abbrev pub respond : Value → Outcome Text ToolResult → ExecutorResponse
respond id (ok result) = caller_ok id result
respond id (err e) = caller_err id e
respond id panic = caller_err id []

abbrev pub transfer_with :
    CallerState → ExecutorRequest → Outcome Text FileTransferOptions → ExecutorResponse
transfer_with state request (ok options) = respond request.id (
    select_executor state request.executor >>= λ endpoint.
    file_transfer_result endpoint options request.directory)
transfer_with state request (err e) =
    caller_err request.id (codes "bad file_transfer params: " ++ e)
transfer_with state request panic = caller_err request.id []

unfoldable pub file_transfer_response : Network → CallerState → ExecutorRequest → ExecutorResponse
file_transfer_response net state request =
    transfer_with state request (net.transfer_options request.params)

abbrev pub forward : Network → ExecutorRequest → Outcome Text ExecutorEndpoint → ExecutorResponse
forward net request (ok endpoint) = call net endpoint request
forward net request (err e) = caller_err request.id e
forward net request panic = caller_err request.id []

unfoldable pub handle_inner :
    Network → CallerState → ExecutorRequest → ExecutorResponse × CallerState
handle_inner net state request =
    if is_list_executor request.method
    then (caller_ok request.id (list_executor_result net state), state)
    else if is_connect_executor request.method
    then connect_executor_response net state request
    else if is_set_default_executor request.method
    then set_default_response net state request
    else if is_file_transfer request.method
    then (file_transfer_response net state request, state)
    else (forward net request (select_executor state request.executor), state)

-- `locked` says that another write holds the lock
unfoldable pub handle :
    Network → Bool → CallerState → ExecutorRequest → ExecutorResponse × CallerState
handle net locked state request =
    if is_write_method request.method && locked
    then (caller_err request.id (codes "another write operation is already running"), state)
    else handle_inner net state request
