-- ===== src/Settings.antt =====
-- The data of settings/mod.rs, and what it calls: the disk, `serde_json` and the machine. An
-- `anyhow::Error` is its chain of messages, the last context first.
pub mod Shell
pub mod Load
pub mod Store
pub mod Tools
pub mod Valid
pub mod Reach
pub mod Change
pub mod Args
use Prim.Native.String.{String}
use remote_executor.Base.{ℕ, Bool, Option, none, some, List, [], ◌∷◌, ◌++◌}
use remote_executor.Base.Outcome.{Outcome, ok, err, map_err}
use remote_executor.Text.{Text, codes}
use remote_executor.Dict.{Dict, insert}
use remote_executor.Json.{Value}

abbrev pub Bytes : Type 0
Bytes = List ℕ

abbrev pub Chain : Type 0
Chain = List Text

-- `result?` on the error of a library, and `result.with_context(|| …)?` on such an error
abbrev pub or_cause {ℓ} : {A : Type ℓ} → Outcome Text A → Outcome Chain A
or_cause m = map_err (λ cause. cause ∷ []) m

abbrev pub with_context {ℓ} : {A : Type ℓ} → Text → Outcome Text A → Outcome Chain A
with_context context m = map_err (λ cause. context ∷ cause ∷ []) m

abbrev pub settings_file : Text
settings_file = codes ".re-setting.json"

abbrev pub command_placeholder : Text
command_placeholder = codes "{command}"

abbrev pub auto_string : Text
auto_string = codes "auto"

abbrev pub default_version : ℕ
default_version = 1

pub record FileStamp : Type 0 where
  pub size : ℕ
  pub mtime_ms : ℕ

pub record ShellProfile : Type 0 where
  pub candidates : List Text
  pub command_args : List Text
  pub interactive_args : List Text

pub record ShellSettings : Type 0 where
  pub default : Text
  pub interactive : Text
  pub profiles : Dict ShellProfile

pub record ReSettings : Type 0 where
  pub version : ℕ
  pub shells : ShellSettings

pub record SettingsState : Type 0 where
  pub settings : ReSettings
  pub stamp : Option FileStamp
  pub base_stamp : Option FileStamp
  pub reload_error : Option Text

-- the fields that do not change; the state behind the mutex is passed on beside them
pub record SettingsStore : Type 0 where
  pub path : Text
  pub root : Text
  pub base_path : Option Text
  pub base_root : Option Text

pub record ShellResolution : Type 0 where
  pub requested : Text
  pub profile : Text
  pub program : Text
  pub args : List Text
  pub settings_path : Text

-- `pty_t_core::CommandSpec` as the program builds it
pub record CommandSpec : Type 0 where
  pub program : Text
  pub args : List Text
  pub cwd : Option Text

abbrev pub default_profiles : Dict ShellProfile
default_profiles =
    (
      codes "bash",
      record {
        candidates = codes ".venv/bin/bash" ∷ codes "bash" ∷ codes "/bin/bash" ∷ codes "sh" ∷ [];
        command_args = codes "-lc" ∷ command_placeholder ∷ [];
        interactive_args = codes "-l" ∷ [];
      },
    )
    ∷ (
      codes "node",
      record {
        candidates = codes "node" ∷ codes "nodejs" ∷ [];
        command_args = codes "-e" ∷ command_placeholder ∷ [];
        interactive_args = [];
      },
    )
    ∷ (
      codes "powershell",
      record {
        candidates = codes "pwsh" ∷ codes "powershell.exe" ∷ [];
        command_args =
            codes "-NoLogo"
            ∷ codes "-NoProfile"
            ∷ codes "-NonInteractive"
            ∷ codes "-Command"
            ∷ command_placeholder
            ∷ [];
        interactive_args = codes "-NoLogo" ∷ [];
      },
    )
    ∷ (
      codes "python",
      record {
        candidates =
            codes ".venv/bin/python"
            ∷ codes ".venv/Scripts/python.exe"
            ∷ codes "venv/bin/python"
            ∷ codes "venv/Scripts/python.exe"
            ∷ codes "python3"
            ∷ codes "python"
            ∷ [];
        command_args = codes "-c" ∷ command_placeholder ∷ [];
        interactive_args = [];
      },
    )
    ∷ []

-- `ReSettings::default`
abbrev pub default_settings : ReSettings
default_settings = record {
  version = default_version;
  shells = record { default = auto_string; interactive = auto_string; profiles = default_profiles };
}

-- `std::fs` on a disk whose states are `S`; an error shows its message
pub record SettingsFiles (S : Type 0) : Type 0 where
  pub exists : S → Text → Bool
  pub read : S → Text → Outcome Text Bytes
  pub metadata : S → Text → Option FileStamp
  pub create_dir_all : S → Text → Outcome Text (Unit {0}) × S
  pub write : S → Text → Bytes → Outcome Text (Unit {0}) × S

-- `serde_json` with the derived readers and writers of `ReSettings`
pub record Codec : Type 0 where
  pub to_value : ReSettings → Outcome Text Value
  pub from_value : Value → Outcome Text ReSettings
  pub from_slice : Bytes → Outcome Text Value
  pub to_vec_pretty : ReSettings → Outcome Text Bytes

-- `std::env`: the current directory, the directory of the program, and `PATH`
pub record Machine : Type 0 where
  pub current_dir : Outcome Text Text
  pub exe_dir : Option Text
  pub path_var : Option Text
