-- ===== src/Caller/Remote.antt =====
-- `ExecutorEndpoint` of caller/mod.rs: a call of a remote executor and the questions for its
-- description.
use remote_executor.Base.{
  ℕ, Bool, false, not, ◌&&◌, Option, none, some, List, [], ◌∷◌, ◌++◌, if◌then◌else◌, ltb, is_some,
}
use remote_executor.Base.Options.{and_then, filter, unwrap_or, or_option}
use remote_executor.Base.Outcome.{Outcome, ok, err, panic, ◌>>=◌, ◌>>◌, reject_if, ok_or}
use remote_executor.Text.{Text, codes, is_empty, trim}
use remote_executor.Dict.{Dict}
use remote_executor.Json.{
  Value, null, string, object, Fields, end, field, get, get_field, as_str, as_bool, as_object,
}
use remote_executor.Protocol.{ExecutorRequest, ExecutorResponse, err_response}
use remote_executor.Caller.{
  ExecutorEndpoint, Frame, text, ping, close, other, failed, Network, default_call_timeout_ms,
  default_transfer_path, call_timeout_ms_for,
}

-- the loop of `call_ws_inner`: the first text is the response
unfoldable pub await_response :
    (Text → Outcome Text ExecutorResponse) → Text → List Frame → Outcome Text ExecutorResponse
await_response parse closed [] = err closed
await_response parse closed (text s ∷ frames) = parse s
await_response parse closed (ping none ∷ frames) = await_response parse closed frames
await_response parse closed (ping (some e) ∷ frames) = err e
await_response parse closed (close ∷ frames) = err closed
await_response parse closed (other ∷ frames) = await_response parse closed frames
await_response parse closed (failed e ∷ frames) = err e

unfoldable pub call_ws_inner : Network → Text → ExecutorRequest → Outcome Text ExecutorResponse
call_ws_inner net url request = do
  u ← net.connect url
  sent ← net.print request
  frames ← net.send url sent
  await_response net.parse
      (codes "executor closed before responding to request " ++ net.show request.id) frames

abbrev pub timed_out : Network → ℕ → Value → Text
timed_out net ms id =
    codes "executor call timed out after "
    ++ (net.decimal ms ++ (codes "ms for request " ++ net.show id))

unfoldable pub call_ws : Network → Text → ExecutorRequest → Option ℕ → Outcome Text ExecutorResponse
call_ws net url request none = call_ws_inner net url request
call_ws net url request (some ms) =
    if ltb ms (net.elapsed_ms url request)
    then err (timed_out net ms request.id)
    else call_ws_inner net url request

abbrev info_request : ExecutorRequest
info_request = record {
  id = string (codes "_executor_info");
  method = codes "_executor_info";
  params = object end;
  directory = none;
  executor = none;
  tool_timeout_ms = none;
}

abbrev pub text_at : Text → Value → Option Text
text_at key metadata = and_then (get key metadata) as_str

abbrev not_blank : Text → Bool
not_blank s = not (is_empty (trim s))

-- the labels of the description whose values are texts
abbrev text_labels : Fields → Dict Text
text_labels end = []
text_labels (field key value fs) =
    let rest = text_labels fs in elim (as_str value) [ none ↦ rest | some s ↦ (key, s) ∷ rest ]

abbrev pub labels_or : Dict Text → Option Fields → Dict Text
labels_or [] (some fs) = text_labels fs
labels_or [] none = []
labels_or (l ∷ ls) o = l ∷ ls

abbrev pub transfer_flag : Value → Bool
transfer_flag metadata =
    unwrap_or false (
      and_then (and_then (get (codes "capabilities") metadata) (get (codes "fileTransfer")))
        as_bool)

-- what `refresh_info` takes from the answer
unfoldable pub apply_info : ExecutorEndpoint → Value → Outcome Text ExecutorEndpoint
apply_info endpoint metadata = do
  version ←
      ok_or (filter not_blank (text_at (codes "version") metadata))
        (codes "executor info missing version")
  capabilities ←
      ok_or (and_then (get (codes "capabilities") metadata) as_object)
        (codes "executor info missing capabilities")
  reject_if
        (transfer_flag metadata && not (is_some (get_field (codes "fileTransfer") capabilities)))
        (codes "executor info missing fileTransfer capability")
      >> ok (record {
        info = record {
          id = endpoint.info.id;
          system = or_option endpoint.info.system (text_at (codes "system") metadata);
          device = or_option endpoint.info.device (text_at (codes "device") metadata);
          labels =
              labels_or endpoint.info.labels (and_then (get (codes "labels") metadata) as_object);
        };
        url = endpoint.url;
        protocol = text_at (codes "protocol") metadata;
        version = some version;
        file_transfer = transfer_flag metadata;
        file_transfer_path =
            unwrap_or default_transfer_path
              (filter not_blank (text_at (codes "fileTransferPath") metadata));
      })

unfoldable pub refresh_info : Network → ExecutorEndpoint → Outcome Text ExecutorEndpoint
refresh_info net endpoint = do
  response ← call_ws net endpoint.url info_request (some default_call_timeout_ms)
  reject_if (not response.is_ok) (unwrap_or (codes "_executor_info failed") response.error)
      >> (let result = unwrap_or null response.result in
          apply_info endpoint (unwrap_or result (get (codes "metadata") result)))

abbrev pub finish_call : ExecutorEndpoint → Value → Outcome Text ExecutorResponse → ExecutorResponse
finish_call endpoint id (ok response) = record response {
  executor = some (unwrap_or endpoint.info.id response.executor);
}
finish_call endpoint id (err e) =
    err_response id (some endpoint.info.id)
      (codes "executor " ++ (endpoint.info.id ++ (codes " call failed: " ++ e)))
finish_call endpoint id panic = err_response id (some endpoint.info.id) []

unfoldable pub call : Network → ExecutorEndpoint → ExecutorRequest → ExecutorResponse
call net endpoint request =
    finish_call endpoint request.id
      (call_ws net endpoint.url (record request { executor = none }) (call_timeout_ms_for request))
