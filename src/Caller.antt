-- ===== src/Caller.antt =====
-- The data of caller/mod.rs, and what it calls: the network and `serde_json`. A message of an
-- `anyhow::Error` is the text that the caller shows.
pub mod Remote
pub mod Transfer
pub mod Handle
pub mod Mcp
use Prim.Native.String.{String}
use remote_executor.Base.{
  ℕ, ◌+◌, ◌-◌, ◌^◌, min, zero, suc, Bool, true, false, ◌||◌, Option, none, some, List, [], ◌∷◌,
  ◌++◌, if◌then◌else◌, ltb,
}
use remote_executor.Base.Options.{and_then, unwrap_or}
use remote_executor.Base.Outcome.{Outcome}
use remote_executor.Text.{Text, codes, text_eq, starts_with}
use remote_executor.Dict.{Dict, insert}
use remote_executor.Json.{Value, number, Number, unsigned, negative, float, get, as_u64, as_i64}
use remote_executor.Protocol.{ExecutorInfo, ExecutorRequest, ExecutorResponse}

abbrev pub default_call_timeout_ms : ℕ
default_call_timeout_ms = 30000

abbrev pub exbash_timeout_buffer_ms : ℕ
exbash_timeout_buffer_ms = 5000

abbrev pub default_transfer_path : Text
default_transfer_path = codes "/re-file/v1"

pub record ConnectExecutorOptions : Type 0 where
  pub id : Text
  pub url : Text
  pub system : Option Text
  pub device : Option Text
  pub labels : Dict Text

pub record SetDefaultExecutorOptions : Type 0 where
  pub id : Text

pub data FileTransferMode : Type 0 where
  download upload : FileTransferMode

pub record FileTransferOptions : Type 0 where
  pub mode : FileTransferMode
  pub local_path : Text
  pub target_path : Text
  pub overwrite : Option Bool

pub record ExecutorEndpoint : Type 0 where
  pub info : ExecutorInfo
  pub url : Text
  pub protocol : Option Text
  pub version : Option Text
  pub file_transfer : Bool
  pub file_transfer_path : Text

pub record CallerState : Type 0 where
  pub default_executor : Text
  pub executors : Dict ExecutorEndpoint

-- the state of a new caller, whose own executor listens at `address`
unfoldable pub initial_state : ExecutorInfo → Text → Text → CallerState
initial_state info address version = record {
  default_executor = codes "local";
  executors =
      (
        codes "local",
        record {
          info = info;
          url = codes "ws://" ++ address;
          protocol = some (codes "remote-executor");
          version = some version;
          file_transfer = true;
          file_transfer_path = default_transfer_path;
        },
      )
      ∷ [];
}

-- a message that arrives; with a ping the error of the answer, if that fails
pub data Frame : Type 0 where
  text : Text → Frame
  ping : Option Text → Frame
  close other : Frame
  failed : Text → Frame

-- The network during one call, and the readers and writers of `serde_json`.
pub record Network : Type 0 where
  pub connect : Text → Outcome Text (Unit {0})
  pub send : Text → Text → Outcome Text (List Frame)
  pub elapsed_ms : Text → ExecutorRequest → ℕ
  pub print : ExecutorRequest → Outcome Text Text
  pub parse : Text → Outcome Text ExecutorResponse
  pub show : Value → Text
  pub pretty : Value → Text
  pub decimal : ℕ → Text
  pub connect_options : Value → Outcome Text ConnectExecutorOptions
  pub set_default_options : Value → Outcome Text SetDefaultExecutorOptions
  pub transfer_options : Value → Outcome Text FileTransferOptions

unfoldable pub normalize_ws_url : Text → Text
unfolding starts_with
normalize_ws_url url =
    if starts_with (codes "ws://") url || starts_with (codes "wss://") url
    then url
    else codes "ws://" ++ url

abbrev pub saturating_add : ℕ → ℕ → ℕ
saturating_add a b = min (a + b) (2 ^ 64 - 1)

-- `-1` waits for ever, and another negative number counts as 0
abbrev pub search_wait : Number → Option ℕ
search_wait (unsigned n) = some (saturating_add n exbash_timeout_buffer_ms)
search_wait (negative zero) = none
search_wait (negative (suc n)) = some (saturating_add 0 exbash_timeout_buffer_ms)
search_wait (float n) = some (saturating_add 0 exbash_timeout_buffer_ms)

unfoldable pub call_timeout_ms_for : ExecutorRequest → Option ℕ
call_timeout_ms_for request =
    if text_eq request.method (codes "exbash")
    then some (
        saturating_add
          (unwrap_or 10000 (and_then (get (codes "read_timeout") request.params) as_u64))
          exbash_timeout_buffer_ms)
    else if text_eq request.method (codes "rg") || text_eq request.method (codes "glob")
    then search_wait
        (unwrap_or (unsigned 10000) (and_then (get (codes "timeout") request.params) as_i64))
    else some default_call_timeout_ms

abbrev pub is_list_executor : Text → Bool
is_list_executor method = text_eq method (codes "list_executor")

abbrev pub is_connect_executor : Text → Bool
is_connect_executor method = text_eq method (codes "connect_to_executor")

abbrev pub is_set_default_executor : Text → Bool
is_set_default_executor method = text_eq method (codes "set_default_executor")

abbrev pub is_file_transfer : Text → Bool
is_file_transfer method = text_eq method (codes "file_transfer")

abbrev pub is_write_method : Text → Bool
is_write_method method =
    text_eq method (codes "FileAction") || text_eq method (codes "set_default_shell")
