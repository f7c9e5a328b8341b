-- ===== src/Exbash.antt =====
-- The data of tools/exbash/mod.rs and tools/exbash/runs.rs, and what they call of other crates.
pub mod Options
pub mod Runs
pub mod Jobs
pub mod Waits
pub mod Attach
pub mod Modes
use Prim.Native.String.{String}
use remote_executor.Base.{ℕ, ◌*◌, Bool, Option, List}
use remote_executor.Base.Outcome.{Outcome}
use remote_executor.Text.{Text, codes}
use remote_executor.Dict.{Dict}
use remote_executor.Json.{Value}
use remote_executor.Settings.{Chain, CommandSpec}
use remote_executor.Shell.{Bytes, ShellManager}

-- `i64`: a natural number, or minus the successor of one
pub data ℤ : Type 0 where
  pos negsuc : ℕ → ℤ

abbrev pub read_timeout_ms : ℕ
read_timeout_ms = 10 * 1000

abbrev pub input_timeout_ms : ℕ
input_timeout_ms = 10 * 1000

abbrev pub input_bytes_limit : ℕ
input_bytes_limit = 4 * 1024

abbrev pub description_bytes_limit : ℕ
description_bytes_limit = 100

abbrev pub async_id_bytes_limit : ℕ
async_id_bytes_limit = 50

abbrev pub output_limit : ℕ
output_limit = 30 * 1000

abbrev pub exbash_prefix : Text
exbash_prefix = codes "rex-"

abbrev pub tmp_running_description : Text
tmp_running_description = codes "Tmp Running"

pub record ExbashOptions : Type 0 where
  pub mode : Option Text
  pub shell : Bool
  pub shell_profile : Option Text
  pub command : Option Text
  pub description : Option Text
  pub timeout : Option ℤ
  pub read_timeout : Option ℕ
  pub async_id : Option Text
  pub text : Option Text
  pub file_path : Option Text
  pub workdir : Option Text
  pub show_raw_pretty : Bool

pub record RunDetail : Type 0 where
  pub async_id : Text
  pub pid : Option ℕ
  pub state : Text
  pub exit_code : Option Value
  pub total_output : ℕ
  pub command : Text
  pub description : Text
  pub cwd : Text
  pub timeout : Option ℤ
  pub started_at : ℕ
  pub ended_at : Option ℕ
  pub error : Option Text

pub record StartedJob : Type 0 where
  pub async_id : Text
  pub description : Text
  pub timeout : Option ℤ

-- The terminals and the statics of runs.rs: the labels, the next number, and the tasks of
-- `spawn_timeout` that wait.
pub record RunState (C : Type 0) : Type 0 where
  pub manager : ShellManager C
  pub exit_code_labels : Dict Text
  pub description_labels : Dict Text
  pub next_id : ℕ
  pub timers : List (Text × ℕ)

-- `ToolContext`, with what its store of settings builds a command from, and the crates unescaper and
-- shell_words, the disk, the clock and the printing of values
pub record Context : Type 0 where
  pub directory : Text
  pub has_manager : Bool
  pub settings : Option (Option Text → Text → Text → Outcome Chain CommandSpec)
  pub unescape : Text → Outcome Text Text
  pub split_words : Text → Outcome Text (List Text)
  pub read_file : Text → Outcome Text Bytes
  pub now_ms : ℕ
  pub print : Value → Text
