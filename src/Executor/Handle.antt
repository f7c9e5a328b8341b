-- ===== src/Executor/Handle.antt =====
-- `handle`, `dispatch_tool` and the stores of directories of executor/mod.rs.
pub mod Configured
use Prim.Native.String.{String}
use remote_executor.Base.{
  ℕ, ◌≡◌, Bool, true, false, ◌||◌, Option, none, some, List, [], ◌∷◌, ◌++◌, if◌then◌else◌, is_some,
}
use remote_executor.Base.Outcome.{Outcome, ok, err, panic, ◌>>=◌}
use remote_executor.Text.{Text, codes, text_eq}
use remote_executor.Dict.{Dict, lookup, insert}
use remote_executor.Json.{Value}
use remote_executor.Protocol.{
  ExecutorRequest, ExecutorResponse, ToolResult, ok_response, err_response, json_object,
}
use remote_executor.Settings.{
  Chain, or_cause, SettingsState, SettingsStore, SettingsFiles, Codec, Machine,
}
use remote_executor.Settings.Load.{absolutize}
use remote_executor.Settings.Store.{for_directory}
use remote_executor.Settings.Tools
use remote_executor.Executor.{
  Executor, ExecutorState, Store, Which, own, of_directory, Tools, executor_info_result,
  effective_tool_timeout_ms, apply_soft_timeout_param, is_exbash_method, is_soft_timeout_method,
}

-- the error's own message, without its causes
abbrev pub message : Chain → Text
message [] = []
message (m ∷ causes) = m

abbrev result_value : ToolResult → Value
result_value r = json_object ((codes "metadata", r.metadata) ∷ (codes "output", r.output) ∷ [])

abbrev pub store_or : Store → Option Store → Store
store_or store none = store
store_or store (some found) = found

abbrev pub store_of : ExecutorState → Which → Store
store_of state own = state.settings
store_of state (of_directory key) = store_or state.settings (lookup key state.directory_settings)

-- A tool changes what is behind the lock of the store that it was given.
abbrev pub put_store : ExecutorState → Which → SettingsState → ExecutorState
put_store state own changed = record state { settings = (state.settings.0, changed) }
put_store state (of_directory key) changed = record state {
  directory_settings =
      insert key ((store_of state (of_directory key)).0, changed) state.directory_settings;
}

module _ {W : Type 0} (files : SettingsFiles W) (codec : Codec) (machine : Machine)
    (tools : Tools W) where
  abbrev pub keep_store :
      ExecutorState → Text → Outcome Chain Store → Outcome Chain Which × ExecutorState
  keep_store state key (ok store) = (
    ok (of_directory key),
    record state { directory_settings = insert key store state.directory_settings },
  )
  keep_store state key (err e) = (err e, state)
  keep_store state key panic = (panic, state)

  abbrev pub settings_at :
      W → ExecutorState → Outcome Chain Text → Outcome Chain Which × ExecutorState
  settings_at w state (ok key) =
      if is_some (lookup key state.directory_settings)
      then (ok (of_directory key), state)
      else keep_store state key (for_directory files codec machine w state.settings.0 key)
  settings_at w state (err e) = (err e, state)
  settings_at w state panic = (panic, state)

  -- `settings_for_directory`
  unfoldable pub settings_for_directory :
      W → ExecutorState → Text → Outcome Chain Which × ExecutorState
  settings_for_directory w state directory = settings_at w state (absolutize machine directory)

  unfoldable pub settings_for_request :
      Executor → W → ExecutorState → Option Text → Outcome Chain Which × ExecutorState
  settings_for_request executor w state none = (ok own, state)
  settings_for_request executor w state (some directory) =
      if executor.workspace_settings
      then settings_for_directory w state directory
      else (ok own, state)

  abbrev beside :
      SettingsState → Outcome Chain ToolResult × W → Outcome Chain ToolResult × SettingsState × W
  beside settings (result, w) = (result, settings, w)

  abbrev pub set_default_shell_with :
      Store → W → Outcome Text Text → Outcome Chain ToolResult × SettingsState × W
  set_default_shell_with (store, settings) w (ok shell) =
      let (w', changed, result) =
        Tools.set_default_shell_tool files codec machine w store settings shell in
      (result, changed, w')
  set_default_shell_with (store, settings) w (err e) = (err (e ∷ []), settings, w)
  set_default_shell_with (store, settings) w panic = (panic, settings, w)

  abbrev pub request_reload_with :
      Store → W → Outcome Text (Unit {0}) → Outcome Chain ToolResult × SettingsState × W
  request_reload_with (store, settings) w (ok u) =
      let (changed, result) = Tools.request_reload files codec machine w store settings in
      (result, changed, w)
  request_reload_with (store, settings) w (err e) = (err (e ∷ []), settings, w)
  request_reload_with (store, settings) w panic = (panic, settings, w)

  unfoldable pub dispatch_tool :
      Text → Value → Option Text → Store → W → Outcome Chain ToolResult × SettingsState × W
  dispatch_tool method params directory store w =
      if text_eq method (codes "exbash")
      then beside store.1 (tools.exbash params directory store w)
      else if text_eq method (codes "read")
      then beside store.1 (tools.read params directory w)
      else if text_eq method (codes "stat")
      then beside store.1 (tools.stat params directory w)
      else if text_eq method (codes "FileAction")
      then beside store.1 (tools.file_action params directory w)
      else if text_eq method (codes "glob")
      then beside store.1 (tools.glob params directory w)
      else if text_eq method (codes "set_default_shell")
      then set_default_shell_with store w (tools.shell_option params)
      else if text_eq method (codes "list_shells")
      then (
        (or_cause (tools.no_options params) >>= λ u. Tools.list_shells (some store)),
        store.1,
        w,
      )
      else if text_eq method (codes "request_reload")
      then request_reload_with store w (tools.no_options params)
      else if text_eq method (codes "rg")
      then beside store.1 (tools.rg params w)
      else (err ((codes "unknown method: " ++ method) ∷ []), store.1, w)

  unfoldable pub dispatch_with_timeout :
      Text → Value → Option Text → Store → ℕ → W → Outcome Chain ToolResult × SettingsState × W
  dispatch_with_timeout method params directory store ms w =
      if is_exbash_method method || is_soft_timeout_method method
      then dispatch_tool method params directory store w
      else if tools.expires method params ms w
      then (
        err (
            (codes "tool "
              ++ (method ++ (codes " timed out after " ++ (tools.decimal ms ++ codes "ms"))))
            ∷ []),
        store.1,
        tools.interrupted method params ms w,
      )
      else dispatch_tool method params directory store w

  abbrev respond : Value → Option Text → Outcome Chain ToolResult → ExecutorResponse
  respond id executor (ok result) = ok_response id executor (result_value result)
  respond id executor (err e) = err_response id executor (message e)
  respond id executor panic = err_response id executor []

  abbrev pub run :
      Executor
      → ExecutorRequest
      → W
      → Outcome Chain Which × ExecutorState
      → ExecutorResponse × ExecutorState × W
  run executor request w (err e, state) =
      (err_response request.id (some executor.info.id) (message e), state, w)
  run executor request w (panic, state) =
      (err_response request.id (some executor.info.id) [], state, w)
  run executor request w (ok which, state) =
      let (result, changed, w') =
        dispatch_with_timeout request.method
          (apply_soft_timeout_param request.method request.params request.tool_timeout_ms)
          request.directory (store_of state which)
          (effective_tool_timeout_ms request.tool_timeout_ms) w in
      (respond request.id (some executor.info.id) result, put_store state which changed, w')

  unfoldable pub handle :
      Executor → ExecutorState → ExecutorRequest → W → ExecutorResponse × ExecutorState × W
  handle executor state request w =
      if text_eq request.method (codes "_executor_info")
      then (
        ok_response request.id (some executor.info.id)
            (result_value (executor_info_result tools.pretty executor)),
        state,
        w,
      )
      else run executor request w (settings_for_request executor w state request.directory)
