-- ===== src/Settings/Load.antt =====
-- Reading and writing of settings files: `load_settings_layers`, `write_settings_file` and the paths
-- of settings/mod.rs.
use remote_executor.Base.{Option, none, some, [], ◌∷◌, ◌++◌, if◌then◌else◌}
use remote_executor.Base.Outcome.{Outcome, ok, err, panic, ◌>>=◌}
use remote_executor.Text.{Text, codes}
use remote_executor.Paths.{is_absolute, join_path, parent}
use remote_executor.Json.{Value, object, end, json_merge}
use remote_executor.Settings.{
  Bytes, Chain, or_cause, with_context, settings_file, FileStamp, ReSettings, default_settings,
  SettingsFiles, Codec, Machine,
}
use remote_executor.Settings.Shell.{with_default_profiles, validate_shell_settings}

unfoldable pub absolutize : Machine → Text → Outcome Chain Text
unfolding is_absolute
absolutize machine path =
    if is_absolute path
    then ok path
    else (do here ← or_cause machine.current_dir; ok (join_path here path))

unfoldable pub default_settings_path : Machine → Text
default_settings_path machine = elim machine.exe_dir [
  | none ↦ settings_file
  | some dir ↦ join_path dir settings_file
]

abbrev path_or_default : Machine → Option Text → Text
path_or_default machine none = default_settings_path machine
path_or_default machine (some path) = path

-- `settings_path`
unfoldable pub settings_path : Machine → Option Text → Outcome Chain Text
unfolding absolutize
settings_path machine path = absolutize machine (path_or_default machine path)

module _ {S : Type 0} (files : SettingsFiles S) (codec : Codec) where
  unfoldable pub load_settings_value : S → Text → Outcome Chain (Value × Option FileStamp)
  load_settings_value st path =
      if files.exists st path
      then (do
        bytes ← with_context (codes "failed to read settings file " ++ path) (files.read st path)
        value ←
            with_context (codes "failed to parse settings file " ++ path) (codec.from_slice bytes)
        ok (value, files.metadata st path))
      else ok (object end, none)

  -- the base layer, if there is one
  unfoldable pub load_base : S → Option Text → Value → Outcome Chain (Value × Option FileStamp)
  load_base st none value = ok (value, none)
  load_base st (some base_path) value = do
    (base, stamp) ← load_settings_value st base_path
    ok (json_merge value base, stamp)

  unfoldable pub load_settings_layers :
      S → Option Text → Text → Outcome Chain (ReSettings × Option FileStamp × Option FileStamp)
  load_settings_layers st base_path path = do
    start ← or_cause (codec.to_value default_settings)
    (value, base_stamp) ← load_base st base_path start
    (overlay, stamp) ← load_settings_value st path
    parsed ←
        with_context (codes "failed to parse merged settings for " ++ path)
          (codec.from_value (json_merge value overlay))
    let settings = with_default_profiles parsed
    u ← validate_shell_settings settings path
    ok (settings, base_stamp, stamp)

  -- `fs::create_dir_all(parent)?`
  unfoldable pub create_parent : S → Text → Outcome Chain (Unit {0}) × S
  create_parent st path = elim (parent path) [
    | none ↦ (ok tt, st)
    | some directory ↦
        let (made, st') = files.create_dir_all st directory in
        (with_context (codes "failed to create settings directory " ++ directory) made, st')
  ]

  -- the state of the disk passes through two calls that may fail
  unfoldable pub write_then_stamp :
      Text
      → Outcome Text Bytes
      → Outcome Chain (Unit {0}) × S
      → Outcome Chain (Option FileStamp) × S
  write_then_stamp path printed (err e, st) = (err e, st)
  write_then_stamp path printed (panic, st) = (panic, st)
  write_then_stamp path (err e) (ok u, st) = (err (e ∷ []), st)
  write_then_stamp path panic (ok u, st) = (panic, st)
  write_then_stamp path (ok bytes) (ok u, st) =
      let (written, st') = files.write st path bytes in
      (
        with_context (codes "failed to write settings file " ++ path) written >>= λ w.
            ok (files.metadata st' path),
        st',
      )

  unfoldable pub write_settings_file : S → Text → ReSettings → Outcome Chain (Option FileStamp) × S
  write_settings_file st path settings =
      write_then_stamp path (codec.to_vec_pretty settings) (create_parent st path)
