-- ===== src/Tests/Caller.antt =====
-- A caller whose network has one executor, which answers each call with its description.
use remote_executor.Base.{◌≡◌, ◌≢◌, refl, true, false, none, some, [], ◌∷◌, is_some}
use remote_executor.Base.Outcome.{Outcome, ok, err, panic}
use remote_executor.Text.{Text, codes, text_eq, trim}
use remote_executor.Dict.{lookup, text_lt}
use remote_executor.Json.{null, string, object, end, field, get_field, insert_field}
use remote_executor.Protocol.{
  ExecutorInfo, ExecutorRequest, ExecutorResponse, ToolResult, json_object,
}
use remote_executor.Executor.{Executor, info_value}
use remote_executor.Caller.{
  ConnectExecutorOptions, FileTransferOptions, download, ExecutorEndpoint, CallerState, Network,
  Frame, ping, other, initial_state, normalize_ws_url,
}
use remote_executor.Caller.Remote.{
  await_response, call_ws_inner, call_ws, apply_info, refresh_info, call,
}
use remote_executor.Caller.Transfer.{file_transfer_result}
use remote_executor.Caller.Handle.{connect_to_executor, handle}
use remote_executor.Caller.Handle.Laws.{TransferUrl, connect_to_executor-eq_ok}
use remote_executor.Caller.Handle.Reach.{
  IsWellFormed, local_endpoint, here, next, handles, Reach-IsWellFormed,
}
use remote_executor.Caller.Handle.Reach.Answers.{
  Plans, Answerer, handle-default, file_transfer_result-eq_ok, handle-Tells,
}

abbrev remote : Executor
remote = record {
  info = record { id = codes "box"; system = some (codes "linux"); device = none; labels = [] };
  workspace_settings = true;
  version = codes "0.1.0";
}

abbrev answer : ExecutorResponse
answer = record {
  id = null;
  is_ok = true;
  result = some (object (field (codes "metadata") (info_value remote) end));
  error = none;
  executor = none;
}

abbrev options : ConnectExecutorOptions
options = record {
  id = codes "box";
  url = codes "10.0.0.2:7000";
  system = none;
  device = some (codes "rack");
  labels = [];
}

abbrev transfer : FileTransferOptions
transfer = record {
  mode = download;
  local_path = codes "a";
  target_path = codes "b";
  overwrite = some true;
}

abbrev pub network : Network
network = record {
  connect = λ url. ok tt;
  send = λ url sent. ok (ping none ∷ other ∷ Frame.text [] ∷ []);
  elapsed_ms = λ url request. 12;
  print = λ request. ok [];
  parse = λ s. ok answer;
  show = λ v. [];
  pretty = λ v. [];
  decimal = λ n. [];
  connect_options = λ v. ok options;
  set_default_options = λ v. err (codes "missing field `id`");
  transfer_options = λ v. ok transfer;
}

abbrev local_info : ExecutorInfo
local_info = record { id = codes "local"; system = none; device = none; labels = [] }

abbrev pub start : CallerState
start = initial_state local_info (codes "127.0.0.1:9") (codes "0.1.0")

abbrev request_of : Text → ExecutorRequest
request_of method = record {
  id = string (codes "1");
  method = method;
  params = object end;
  directory = none;
  executor = none;
  tool_timeout_ms = none;
}

abbrev state_or_start : Outcome Text CallerState → CallerState
state_or_start (ok state) = state
state_or_start (err e) = start
state_or_start panic = start

abbrev connected : CallerState
connected = state_or_start (connect_to_executor network start options)

connect_to_executor-eq_ok_example :
    (options.id ≢ codes "local")
    × (connected.default_executor ≡ start.default_executor)
    × ((id : Text) → id ≢ options.id → lookup id connected.executors ≡ lookup id start.executors)
    × (endpoint : ExecutorEndpoint) × (lookup options.id connected.executors ≡ some endpoint)
    × (endpoint.info.id ≡ options.id)
    × (endpoint.url ≡ normalize_ws_url options.url)
    × (is_some endpoint.version ≡ true)
unfolding connect_to_executor refresh_info apply_info call_ws call_ws_inner await_response text_eq
    trim json_object info_value get_field insert_field text_lt
connect_to_executor-eq_ok_example = connect_to_executor-eq_ok network start connected options refl

abbrev after_connect : CallerState
after_connect = (handle network false start (request_of (codes "connect_to_executor"))).1

Reach-IsWellFormed_example :
    IsWellFormed (local_endpoint local_info (codes "127.0.0.1:9") (codes "0.1.0")) after_connect
Reach-IsWellFormed_example =
    Reach-IsWellFormed local_info (codes "127.0.0.1:9") (codes "0.1.0") refl
      (next here (handles network false start (request_of (codes "connect_to_executor")) refl))

start-IsWellFormed :
    IsWellFormed (local_endpoint local_info (codes "127.0.0.1:9") (codes "0.1.0")) start
start-IsWellFormed = Reach-IsWellFormed local_info (codes "127.0.0.1:9") (codes "0.1.0") refl here

handle-default_example :
    (endpoint : ExecutorEndpoint) × (lookup start.default_executor start.executors ≡ some endpoint)
    × (endpoint.info.id ≡ start.default_executor)
    × (handle network true start (request_of (codes "read"))
        ≡ (call network endpoint (request_of (codes "read")), start))
unfolding text_eq
handle-default_example =
    handle-default network true start (request_of (codes "read")) start-IsWellFormed refl refl refl

file_transfer_result-eq_ok_example :
    (http : Text) × (plan : ToolResult) × (file_transfer_result
        (local_endpoint local_info (codes "127.0.0.1:9") (codes "0.1.0"))
        transfer
        none
      ≡ ok plan)
    × TransferUrl (local_endpoint local_info (codes "127.0.0.1:9") (codes "0.1.0")).url http
    × Plans (local_endpoint local_info (codes "127.0.0.1:9") (codes "0.1.0")) transfer http plan
file_transfer_result-eq_ok_example =
    file_transfer_result-eq_ok start (codes "local")
      (local_endpoint local_info (codes "127.0.0.1:9") (codes "0.1.0")) transfer none
      start-IsWellFormed start-IsWellFormed.local_there refl

handle-Tells_example :
    Answerer network start false
      (request_of (codes "read"))
      (handle network false start (request_of (codes "read"))).0.executor
handle-Tells_example = handle-Tells network start false (request_of (codes "read"))
