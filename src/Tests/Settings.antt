-- ===== src/Tests/Settings.antt =====
-- The settings store on a disk that is a list of paths and bytes. The codec writes and reads no
-- settings but one, and the machine has /bin/bash.
use remote_executor.Base.{
  ◌≡◌, refl, All, Option, none, some, List, [], ◌∷◌, false, if◌then◌else◌, is_some, length,
}
use remote_executor.Base.Lists.{first}
use remote_executor.Base.Outcome.{Outcome, ok, err}
use remote_executor.Text.{Text, codes, text_eq, trim}
use remote_executor.Dict.{lookup}
use remote_executor.Json.{Value, object, end}
use remote_executor.Settings.{
  Bytes, ShellProfile, ShellResolution, SettingsState, SettingsStore, SettingsFiles, Codec, Machine,
  FileStamp, default_settings, command_placeholder,
}
use remote_executor.Settings.Shell.{resolve_shell, resolve_profile_name, expand_command_args}
use remote_executor.Settings.Load.{write_settings_file}
use remote_executor.Settings.Store.{
  store_at, with_default, load_default_lossy, reload, set_default_shell, after_resolve,
}
use remote_executor.Settings.Valid.{
  IsConfigured, HasProfile, Named, Resolves, resolve_shell-IsConfigured,
}
use remote_executor.Settings.Valid.Kept.{load_default_lossy-IsConfigured}
use remote_executor.Settings.Reach.{reloads, resolves, commits, here, next, Reach-IsConfigured}
use remote_executor.Settings.Change.{Outcomes, set_default_shell-cases}
use remote_executor.Settings.Args.{Carried, expand_command_args-Carried}

abbrev pub Disk : Type 0
Disk = List (Text × Bytes)

abbrev find : Disk → Text → Option Bytes
find [] path = none
find ((p, bytes) ∷ disk) path = if text_eq p path then some bytes else find disk path

abbrev contents : Option Bytes → Outcome Text Bytes
contents none = err (codes "no such file")
contents (some bytes) = ok bytes

abbrev stamp_of : Option Bytes → Option FileStamp
stamp_of none = none
stamp_of (some bytes) = some (record { size = length bytes; mtime_ms = 0 })

abbrev pub disk_files : SettingsFiles Disk
disk_files = record {
  exists = λ disk path. is_some (find disk path);
  read = λ disk path. contents (find disk path);
  metadata = λ disk path. stamp_of (find disk path);
  create_dir_all = λ disk path. (ok tt, disk);
  write = λ disk path bytes. (ok tt, (path, bytes) ∷ disk);
}

abbrev parsed : Bytes → Outcome Text Value
parsed [] = ok (object end)
parsed (c ∷ bytes) = err (codes "expected value")

abbrev pub test_codec : Codec
test_codec = record {
  to_value = λ settings. ok (object end);
  from_value = λ value. ok default_settings;
  from_slice = parsed;
  to_vec_pretty = λ settings. ok [];
}

abbrev pub test_machine : Machine
test_machine = record {
  current_dir = ok (codes "/w");
  exe_dir = some (codes "/opt");
  path_var = some (codes "/usr/bin");
}

abbrev path : Text
path = codes "/w/.re-setting.json"

abbrev pub broken_disk : Disk
broken_disk = (path, 0 ∷ []) ∷ (codes "/bin/bash", []) ∷ []

abbrev store : SettingsStore
store = store_at none path

abbrev start : SettingsStore × SettingsState
start = load_default_lossy disk_files test_codec test_machine []

start-IsConfigured : IsConfigured start.1.settings
start-IsConfigured = load_default_lossy-IsConfigured disk_files test_codec test_machine []

-- a reload that fails, then a shell whose profile is built in
abbrev after_failure : SettingsState
after_failure = (reload disk_files test_codec test_machine broken_disk store start.1).0

-- what the name of the shell bash resolves to
abbrev pub bash : ShellResolution
bash = record {
  requested = codes "bash";
  profile = codes "bash";
  program = codes "/bin/bash";
  args = codes "-lc" ∷ [] ∷ [];
  settings_path = path;
}

bash_resolves :
    resolve_shell test_machine
      (disk_files.exists broken_disk)
      store
      after_failure.settings
      (codes "bash")
      none
      false
      none
    ≡ ok bash
unfolding resolve_shell trim lookup reload remote_executor.Settings.Load.load_settings_layers
    remote_executor.Settings.Load.load_base remote_executor.Settings.Load.load_settings_value
    text_eq remote_executor.Settings.Store.record_reload_error load_default_lossy
    remote_executor.Settings.Store.load remote_executor.Settings.Load.settings_path
    remote_executor.Settings.Load.default_settings_path remote_executor.Paths.join_path
    remote_executor.Settings.Store.load_layered
    remote_executor.Settings.Shell.validate_shell_settings
    remote_executor.Settings.Shell.validate_shell_profile_ref
    remote_executor.Settings.Shell.with_default_profiles
    remote_executor.Settings.Shell.insert_defaults remote_executor.Dict.insert
    remote_executor.Dict.or_insert remote_executor.Dict.text_lt remote_executor.Json.get_field
    remote_executor.Json.insert_field remote_executor.Json.json_merge
    remote_executor.Paths.ends_with_slash remote_executor.Paths.is_absolute
    remote_executor.Paths.parent remote_executor.Settings.Load.absolutize
    remote_executor.Settings.Shell.configured_shell expand_command_args
    remote_executor.Settings.Shell.find_in_path remote_executor.Settings.Shell.first_candidate
    remote_executor.Settings.Shell.first_existing remote_executor.Settings.Shell.has_path_separator
    remote_executor.Settings.Shell.resolve_candidate resolve_profile_name
    remote_executor.Settings.Shell.resolve_program
    remote_executor.Settings.Store.format_reload_error remote_executor.Settings.Store.from_settings
    remote_executor.Text.Replace.contains remote_executor.Text.Replace.eq_ignore_ascii_case
    remote_executor.Text.Replace.replace remote_executor.Text.Replace.replace_from
    remote_executor.Text.Replace.to_lower remote_executor.Text.is_whitespace
    remote_executor.Text.join remote_executor.Text.rsplit_once remote_executor.Text.split
    remote_executor.Text.starts_with remote_executor.Text.trim_end_matches
    remote_executor.Text.trim_start_matches
bash_resolves = refl

abbrev after_commit : SettingsState
after_commit =
    (after_resolve disk_files test_codec test_machine broken_disk store after_failure (codes "bash")
      (ok bash)).1

-- a reload that fails, two changes whose sections overlap, and the first of them committed
Reach-IsConfigured_example :
    IsConfigured after_commit.settings × All (HasProfile after_commit.settings) (codes "bash" ∷ [])
unfolding trim
Reach-IsConfigured_example =
    Reach-IsConfigured disk_files test_codec test_machine {store = store} start-IsConfigured (
      next
        (next
          (next (next here (reloads broken_disk start.1 refl))
            (resolves broken_disk after_failure (codes "bash") [] refl bash_resolves))
          (resolves broken_disk after_failure (codes " bash ") (codes "bash" ∷ []) refl
            bash_resolves))
        (commits broken_disk after_failure (codes "bash") bash (first (codes "bash" ∷ [])) refl))

resolve_shell-IsConfigured_example :
    (shell : Text) × Named start.1.settings false shell
    × (profile : ShellProfile) × (lookup
          (resolve_profile_name shell)
          start.1.settings.shells.profiles
        ≡ some profile)
    × Resolves test_machine
        (disk_files.exists broken_disk)
        store
        (resolve_profile_name shell)
        profile
        none
        (resolve_shell test_machine
          (disk_files.exists broken_disk)
          store
          start.1.settings
          []
          (some (codes "ls"))
          false
          none)
unfolding trim
resolve_shell-IsConfigured_example =
    resolve_shell-IsConfigured test_machine (disk_files.exists broken_disk) store start.1.settings
      [] (some (codes "ls")) false none start-IsConfigured refl

set_default_shell-cases_example :
    Outcomes disk_files test_codec test_machine broken_disk start.1
      (with_default start.1 (codes "bash"))
      (resolve_shell test_machine
        (disk_files.exists broken_disk)
        store
        start.1.settings
        (codes "bash")
        none
        false
        none)
      (write_settings_file disk_files test_codec broken_disk path
        (with_default start.1 (codes "bash")).settings)
      (set_default_shell disk_files test_codec test_machine broken_disk store start.1
        (codes " bash"))
unfolding trim
set_default_shell-cases_example =
    set_default_shell-cases disk_files test_codec test_machine broken_disk store start.1
      (codes " bash") refl

expand_command_args-Carried_example :
    Carried
      (codes "ls -l")
      (expand_command_args (codes "-lc" ∷ command_placeholder ∷ []) (codes "ls -l"))
expand_command_args-Carried_example =
    expand_command_args-Carried (codes "-lc" ∷ command_placeholder ∷ []) (codes "ls -l")
