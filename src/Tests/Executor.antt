-- ===== src/Tests/Executor.antt =====
-- An executor whose other tools answer nothing, on the disk and the machine of the settings' tests.
use remote_executor.Base.{
  inl, inr, ◌∷◌, ℕ, ◌+◌, ◌≡◌, refl, true, false, Option, none, some, [], arith,
}
use remote_executor.Base.Options.{or_option}
use remote_executor.Base.Outcome.{Outcome, ok}
use remote_executor.Text.{Text, codes, text_eq, trim}
use remote_executor.Json.{string, object, number, unsigned, end, field, get_field}
use remote_executor.Protocol.{ExecutorRequest, ToolResult, tool_output}
use remote_executor.Base.Lists.{first}
use remote_executor.Settings.{Chain, ShellResolution}
use remote_executor.Settings.Shell.{resolve_shell, resolve_profile_name, expand_command_args}
use remote_executor.Settings.Store.{load_default_lossy, after_resolve, reload}
use remote_executor.Dict.{lookup}
use remote_executor.Caller.{ConnectExecutorOptions, ExecutorEndpoint, call_timeout_ms_for}
use remote_executor.Caller.Remote.{apply_info}
use remote_executor.Caller.Handle.{new_endpoint}
use remote_executor.Executor.{
  own, Executor, ExecutorState, Tools, apply_soft_timeout_param, info_value,
}
use remote_executor.Executor.Timeouts.{call_timeout_ms_for-search}
use remote_executor.Executor.Info.{apply_info-info_value}
use remote_executor.Executor.Handle.{handle, put_store, store_of}
use remote_executor.Executor.Handle.Configured.{AllConfigured}
use remote_executor.Executor.Handle.Configured.Beside.{
  here, next, handles, resolves, commits, Reach-AllConfigured,
}
use remote_executor.Tests.Settings.{Disk, disk_files, test_codec, test_machine, broken_disk, bash}

abbrev nothing : ToolResult
nothing = record { metadata = object end; output = tool_output [] }

abbrev tools : Tools Disk
tools = record {
  exbash = λ params directory store disk. (ok nothing, disk);
  read = λ params directory disk. (ok nothing, disk);
  stat = λ params directory disk. (ok nothing, disk);
  file_action = λ params directory disk. (ok nothing, []);
  glob = λ params directory disk. (ok nothing, disk);
  rg = λ params disk. (ok nothing, disk);
  shell_option = λ params. ok (codes "python");
  no_options = λ params. ok tt;
  expires = λ method params ms disk. false;
  interrupted = λ method params ms disk. disk;
  pretty = λ v. [];
  decimal = λ n. [];
}

abbrev executor : Executor
executor = record {
  info = record { id = codes "box"; system = some (codes "linux"); device = none; labels = [] };
  workspace_settings = true;
  version = codes "0.1.0";
}

abbrev request_of : Text → Option ℕ → ExecutorRequest
request_of method ms = record {
  id = string (codes "1");
  method = method;
  params = object (field (codes "timeout") (number (unsigned 20000)) end);
  directory = some (codes "/w");
  executor = none;
  tool_timeout_ms = ms;
}

abbrev start : ExecutorState
start = record {
  settings = load_default_lossy disk_files test_codec test_machine [];
  directory_settings = [];
}

abbrev step : ExecutorState → Text → Disk → ExecutorState
step state method disk =
    (handle disk_files test_codec test_machine tools executor state (request_of method none) disk).1

abbrev resolved : Outcome Chain ShellResolution
resolved =
    resolve_shell test_machine (disk_files.exists broken_disk) start.settings.0
      start.settings.1.settings (codes "bash") none false none

abbrev resolution_of : Outcome Chain ShellResolution → ShellResolution
resolution_of (ok r) = r
resolution_of _ = bash

bash_resolved : resolved ≡ ok (resolution_of resolved)
unfolding resolve_shell trim lookup reload remote_executor.Settings.Load.load_settings_layers
    remote_executor.Settings.Load.load_base remote_executor.Settings.Load.load_settings_value
    text_eq remote_executor.Settings.Store.record_reload_error load_default_lossy
    remote_executor.Settings.Store.load remote_executor.Settings.Load.settings_path
    remote_executor.Settings.Load.default_settings_path remote_executor.Paths.join_path
    remote_executor.Settings.Store.load_layered
    remote_executor.Settings.Shell.validate_shell_settings
    remote_executor.Settings.Shell.validate_shell_profile_ref
    remote_executor.Settings.Shell.with_default_profiles
    remote_executor.Settings.Shell.insert_defaults remote_executor.Dict.insert
    remote_executor.Dict.or_insert remote_executor.Dict.text_lt remote_executor.Json.get_field
    remote_executor.Json.insert_field remote_executor.Json.json_merge
    remote_executor.Paths.ends_with_slash remote_executor.Paths.is_absolute
    remote_executor.Paths.parent remote_executor.Settings.Load.absolutize
    remote_executor.Settings.Shell.configured_shell expand_command_args
    remote_executor.Settings.Shell.find_in_path remote_executor.Settings.Shell.first_candidate
    remote_executor.Settings.Shell.first_existing remote_executor.Settings.Shell.has_path_separator
    remote_executor.Settings.Shell.resolve_candidate resolve_profile_name
    remote_executor.Settings.Shell.resolve_program
    remote_executor.Settings.Store.format_reload_error remote_executor.Settings.Store.from_settings
    remote_executor.Text.Replace.contains remote_executor.Text.Replace.eq_ignore_ascii_case
    remote_executor.Text.Replace.replace remote_executor.Text.Replace.replace_from
    remote_executor.Text.Replace.to_lower remote_executor.Text.is_whitespace
    remote_executor.Text.join remote_executor.Text.rsplit_once remote_executor.Text.split
    remote_executor.Text.starts_with remote_executor.Text.trim_end_matches
    remote_executor.Text.trim_start_matches
bash_resolved = refl

-- a change of the shell that is asked for while the change to bash is between its two sections
abbrev beside_bash : ExecutorState
beside_bash = step start (codes "set_default_shell") []

abbrev after_bash : ExecutorState
after_bash =
    put_store beside_bash own
      (after_resolve disk_files test_codec test_machine broken_disk (store_of beside_bash own).0
        (store_of beside_bash own).1 (codes "bash") (ok bash)).1

abbrev reloaded : ExecutorState
reloaded = step after_bash (codes "request_reload") broken_disk

Reach-AllConfigured_example : AllConfigured reloaded
unfolding trim text_eq
Reach-AllConfigured_example =
    Reach-AllConfigured disk_files test_codec test_machine tools executor [] (
      next
        (next
          (next (next here (resolves broken_disk start [] own (codes "bash") tt refl bash_resolved))
            (handles (request_of (codes "set_default_shell") none) [] start
              ((own, codes "bash") ∷ []) (inr refl) refl))
          (commits broken_disk beside_bash own (codes "bash") bash (first []) refl))
        (handles (request_of (codes "request_reload") none) broken_disk after_bash [] (inl refl)
          refl))

call_timeout_ms_for-search_example :
    (call_timeout_ms_for (request_of (codes "rg") (some 60000)) ≡ some (20000 + 5000))
    × (apply_soft_timeout_param
          (codes "rg")
          (request_of (codes "rg") (some 60000)).params
          (some 60000)
        ≡ (request_of (codes "rg") (some 60000)).params)
unfolding text_eq get_field
call_timeout_ms_for-search_example =
    call_timeout_ms_for-search (request_of (codes "rg") (some 60000))
      (field (codes "timeout") (number (unsigned 20000)) end) 20000 refl refl refl (omega arith)

abbrev options : ConnectExecutorOptions
options = record {
  id = codes "box";
  url = codes "10.0.0.2:7000";
  system = none;
  device = some (codes "rack");
  labels = [];
}

apply_info-info_value_example :
    (told : ExecutorEndpoint) × (apply_info (new_endpoint options) (info_value executor) ≡ ok told)
    × (told.info.id ≡ (new_endpoint options).info.id)
    × (told.url ≡ (new_endpoint options).url)
    × (told.info.system ≡ or_option (new_endpoint options).info.system executor.info.system)
    × (told.info.device ≡ or_option (new_endpoint options).info.device executor.info.device)
    × (told.protocol ≡ some (codes "remote-executor"))
    × (told.version ≡ some executor.version)
    × (told.file_transfer ≡ true)
    × (told.file_transfer_path ≡ codes "/re-file/v1")
unfolding trim
apply_info-info_value_example = apply_info-info_value executor (new_endpoint options) refl
