-- ===== src/Settings/Store.antt =====
-- `SettingsStore` of settings/mod.rs. What its mutex holds is passed on as a `SettingsState`.
use remote_executor.Base.{true, false, Option, none, some, [], ◌∷◌, ◌++◌, if◌then◌else◌}
use remote_executor.Base.Outcome.{Outcome, ok, err, panic, ◌>>=◌}
use remote_executor.Text.{Text, codes, text_eq, is_empty, trim, join}
use remote_executor.Paths.{join_path, parent}
use remote_executor.Settings.{
  Chain, settings_file, ReSettings, SettingsState, SettingsStore, ShellResolution, CommandSpec,
  default_settings, FileStamp, SettingsFiles, Codec, Machine,
}
use remote_executor.Settings.Shell.{resolve_shell, with_default_profiles, or_blank}
use remote_executor.Settings.Load.{
  absolutize, settings_path, load_settings_layers, write_settings_file,
}

-- `path.parent().map(…).unwrap_or_else(|| PathBuf::from("."))`
abbrev root_of : Text → Text
root_of path = elim (parent path) [ none ↦ codes "." | some directory ↦ directory ]

abbrev parent_of : Option Text → Option Text
parent_of none = none
parent_of (some path) = parent path

-- `base_path.filter(|base| base != &path)`
abbrev pub other_than : Text → Option Text → Option Text
other_than path none = none
other_than path (some base) = if text_eq base path then none else some base

abbrev pub absolutize_base : Machine → Option Text → Outcome Chain (Option Text)
absolutize_base machine none = ok none
absolutize_base machine (some base) = do path ← absolutize machine base; ok (some path)

-- the first fields of the store for absolute paths
abbrev pub store_at : Option Text → Text → SettingsStore
store_at base_path path = record {
  path = path;
  root = root_of path;
  base_path = base_path;
  base_root = parent_of base_path;
}

abbrev pub loaded : ReSettings × Option FileStamp × Option FileStamp → SettingsState
loaded (settings, base_stamp, stamp) = record {
  settings = settings;
  stamp = stamp;
  base_stamp = base_stamp;
  reload_error = none;
}

abbrev pub or_settings_file : Outcome Chain Text → Text
or_settings_file (ok path) = path
or_settings_file (err e) = settings_file
or_settings_file panic = settings_file

unfoldable pub from_settings : Machine → Text → ReSettings → SettingsStore × SettingsState
from_settings machine raw settings =
    let path = or_settings_file (absolutize machine raw) in
    (
      store_at none path,
      record {
        settings = with_default_profiles settings;
        stamp = none;
        base_stamp = none;
        reload_error = none;
      },
    )

abbrev base_or_path : SettingsStore → Text
base_or_path store = elim store.base_path [ none ↦ store.path | some base ↦ base ]

abbrev numbered_causes : Chain → Chain
numbered_causes [] = []
numbered_causes (cause ∷ rest) = (codes "cause:" ++ cause) ∷ numbered_causes rest

abbrev error_lines : Chain → Chain
error_lines [] = []
error_lines (cause ∷ rest) = (codes "error:" ++ cause) ∷ numbered_causes rest

abbrev base_line : Option Text → Chain
base_line none = []
base_line (some base) = (codes "baseSettingsPath:" ++ base) ∷ []

unfoldable pub format_reload_error : SettingsStore → Chain → Text
format_reload_error store e = join (b'\n' ∷ []) (
    codes "reloaded:false"
    ∷ (codes "settingsPath:" ++ store.path)
    ∷ (base_line store.base_path ++ error_lines e))

-- `record_reload_error`
unfoldable pub record_reload_error : SettingsState → Text → SettingsState
record_reload_error state message = record state { reload_error = some message }

abbrev pub after_reload :
    SettingsStore
    → SettingsState
    → Outcome Chain (ReSettings × Option FileStamp × Option FileStamp)
    → SettingsState × Outcome Chain (Unit {0})
after_reload store state (ok layers) = (loaded layers, ok tt)
after_reload store state (err e) = (
  record_reload_error state (format_reload_error store e),
  err (format_reload_error store e ∷ []),
)
after_reload store state panic = (state, panic)

-- the settings with another default shell
abbrev pub with_default : SettingsState → Text → SettingsState
with_default state shell = record state {
  settings = record (state.settings) {
    shells = record (state.settings.shells) { default = shell };
  };
}

module _ {S : Type 0} (files : SettingsFiles S) (codec : Codec) (machine : Machine) where
  unfoldable pub load_layered :
      S → Option Text → Text → Outcome Chain (SettingsStore × SettingsState)
  load_layered st raw_base raw = do
    path ← absolutize machine raw
    base ← absolutize_base machine raw_base
    let base_path = other_than path base
    layers ← load_settings_layers files codec st base_path path
    ok (store_at base_path path, loaded layers)

  -- `SettingsStore::load`
  unfoldable pub load : S → Option Text → Outcome Chain (SettingsStore × SettingsState)
  load st raw = do path ← settings_path machine raw; load_layered st none path

  unfoldable pub load_for_directory : S → Text → Outcome Chain (SettingsStore × SettingsState)
  load_for_directory st directory = do
    base ← settings_path machine none
    load_layered st (some base) (join_path directory settings_file)

  unfoldable pub for_directory :
      S → SettingsStore → Text → Outcome Chain (SettingsStore × SettingsState)
  for_directory st store directory =
      load_layered st (some (base_or_path store)) (join_path directory settings_file)

  -- the default settings, where the file cannot be loaded
  abbrev pub or_defaults :
      Outcome Chain (SettingsStore × SettingsState) → SettingsStore × SettingsState
  or_defaults (ok store) = store
  or_defaults (err e) =
      from_settings machine (or_settings_file (settings_path machine none)) default_settings
  or_defaults panic =
      from_settings machine (or_settings_file (settings_path machine none)) default_settings

  unfoldable pub load_default_lossy : S → SettingsStore × SettingsState
  load_default_lossy st = or_defaults (load st none)

  unfoldable pub reload :
      S → SettingsStore → SettingsState → SettingsState × Outcome Chain (Unit {0})
  reload st store state =
      after_reload store state (load_settings_layers files codec st store.base_path store.path)

  -- The default is changed before the file is written; the write's error leaves it changed.
  abbrev pub after_write :
      SettingsState
      → ShellResolution
      → Outcome Chain (Option FileStamp) × S
      → S × SettingsState × Outcome Chain ShellResolution
  after_write state resolution (ok stamp, st) =
      (st, record state { stamp = stamp; reload_error = none }, ok resolution)
  after_write state resolution (err e, st) = (st, state, err e)
  after_write state resolution (panic, st) = (st, state, panic)

  abbrev pub after_resolve :
      S
      → SettingsStore
      → SettingsState
      → Text
      → Outcome Chain ShellResolution
      → S × SettingsState × Outcome Chain ShellResolution
  after_resolve st store state shell (ok resolution) =
      let changed = with_default state shell in
      after_write changed resolution
        (write_settings_file files codec st store.path changed.settings)
  after_resolve st store state shell (err e) = (st, state, err e)
  after_resolve st store state shell panic = (st, state, panic)

  unfoldable pub set_default_shell :
      S → SettingsStore → SettingsState → Text → S × SettingsState × Outcome Chain ShellResolution
  set_default_shell st store state raw =
      let shell = trim raw in
      if is_empty shell
      then (st, state, err (codes "shell is required" ∷ []))
      else after_resolve st store state shell
          (resolve_shell machine (files.exists st) store state.settings shell none false none)

  unfoldable pub command_spec :
      S → SettingsStore → SettingsState → Option Text → Text → Text → Outcome Chain CommandSpec
  command_spec st store state shell command cwd = do
    resolution ←
        resolve_shell machine (files.exists st) store state.settings (or_blank shell) (some command)
          false (some cwd)
    ok (record { program = resolution.program; args = resolution.args; cwd = some cwd })

  unfoldable pub interactive_command_spec :
      S → SettingsStore → SettingsState → Outcome Chain CommandSpec
  interactive_command_spec st store state = do
    resolution ← resolve_shell machine (files.exists st) store state.settings [] none true none
    ok (record { program = resolution.program; args = resolution.args; cwd = none })
