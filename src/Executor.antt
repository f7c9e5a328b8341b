-- ===== src/Executor.antt =====
-- `Executor` of executor/mod.rs: the handling of a request, from one state of the world to the next.
-- The other tools are an interface, and so is the passing of time.
pub mod Timeouts
pub mod Info
pub mod Handle
use Prim.Native.String.{String}
use remote_executor.Base.{
  ℕ, ◌≡◌, min, Bool, true, false, ◌||◌, Option, none, some, List, [], ◌∷◌, ◌++◌, if◌then◌else◌,
  is_some,
}
use remote_executor.Base.Options.{unwrap_or}
use remote_executor.Base.Outcome.{Outcome, ok, err, panic, ◌>>=◌}
use remote_executor.Text.{Text, codes, text_eq}
use remote_executor.Dict.{Dict, lookup, insert}
use remote_executor.Json.{
  Value, null, bool, string, number, array, object, unsigned, Fields, get_field, insert_field,
}
use remote_executor.Protocol.{
  ExecutorInfo, ExecutorRequest, ExecutorResponse, ToolResult, ok_response, err_response,
  json_object, option_value, labels_value, tool_output,
}
use remote_executor.Settings.{
  Chain, or_cause, SettingsState, SettingsStore, SettingsFiles, Codec, Machine,
}

abbrev pub default_tool_timeout_ms : ℕ
default_tool_timeout_ms = 5000

abbrev pub max_tool_timeout_ms : ℕ
max_tool_timeout_ms = 600000

-- the fields that stay
pub record Executor : Type 0 where
  pub info : ExecutorInfo
  pub workspace_settings : Bool
  pub version : Text

abbrev pub Store : Type 0
Store = SettingsStore × SettingsState

pub record ExecutorState : Type 0 where
  pub settings : Store
  pub directory_settings : Dict Store

-- the executor's own store, or that of a directory
pub data Which : Type 0 where
  own : Which
  of_directory : Text → Which

-- the tools outside of settings/mod.rs; `expires` says whether a tool is cut off, and `interrupted`
-- what it leaves then
pub record Tools (W : Type 0) : Type 0 where
  pub exbash : Value → Option Text → Store → W → Outcome Chain ToolResult × W
  pub read : Value → Option Text → W → Outcome Chain ToolResult × W
  pub stat : Value → Option Text → W → Outcome Chain ToolResult × W
  pub file_action : Value → Option Text → W → Outcome Chain ToolResult × W
  pub glob : Value → Option Text → W → Outcome Chain ToolResult × W
  pub rg : Value → W → Outcome Chain ToolResult × W
  pub shell_option : Value → Outcome Text Text
  pub no_options : Value → Outcome Text (Unit {0})
  pub expires : Text → Value → ℕ → W → Bool
  pub interrupted : Text → Value → ℕ → W → W
  pub pretty : Value → Text
  pub decimal : ℕ → Text

unfoldable pub effective_tool_timeout_ms : Option ℕ → ℕ
effective_tool_timeout_ms requested =
    min (unwrap_or default_tool_timeout_ms requested) max_tool_timeout_ms

abbrev pub is_exbash_method : Text → Bool
is_exbash_method method = text_eq method (codes "exbash")

abbrev pub is_soft_timeout_method : Text → Bool
is_soft_timeout_method method = text_eq method (codes "rg") || text_eq method (codes "glob")

abbrev or_insert_field : Text → Value → Fields → Fields
or_insert_field key v fs = if is_some (get_field key fs) then fs else insert_field key v fs

-- `timeout` of the parameters, if they are an object that has none
abbrev pub with_timeout : Value → ℕ → Value
with_timeout (object fs) ms = object (or_insert_field (codes "timeout") (number (unsigned ms)) fs)
with_timeout null ms = null
with_timeout (bool b) ms = bool b
with_timeout (number n) ms = number n
with_timeout (string s) ms = string s
with_timeout (array xs) ms = array xs

unfoldable pub apply_soft_timeout_param : Text → Value → Option ℕ → Value
apply_soft_timeout_param method params none = params
apply_soft_timeout_param method params (some ms) =
    if is_soft_timeout_method method then with_timeout params ms else params

unfoldable pub info_value : Executor → Value
info_value executor = json_object (
    (codes "id", string executor.info.id)
    ∷ (codes "protocol", string (codes "remote-executor"))
    ∷ (codes "version", string executor.version)
    ∷ (codes "system", option_value executor.info.system)
    ∷ (codes "device", option_value executor.info.device)
    ∷ (codes "labels", labels_value executor.info.labels)
    ∷ (codes "capabilities", json_object ((codes "fileTransfer", bool true) ∷ []))
    ∷ (codes "fileTransferPath", string (codes "/re-file/v1"))
    ∷ [])

unfoldable pub executor_info_result : (Value → Text) → Executor → ToolResult
executor_info_result pretty executor =
    let value = info_value executor in
    record { metadata = value; output = tool_output (pretty value) }
