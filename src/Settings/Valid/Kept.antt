-- ===== src/Settings/Valid/Kept.antt =====
-- What loads, reloads and changes a store leaves settings that refer to profiles that they hold.
use mathlib.Core.Path.{subst}
use remote_executor.Base.{
  ◌≡◌, refl, sym, inl, inr, Bool, true, false, Option, none, some, is_some, Bool-cases,
}
use remote_executor.Base.Outcome.{Outcome, ok, err, panic, bind-eq-ok}
use remote_executor.Base.Yields.{Yields, Yields-bind, Yields-ok}
use remote_executor.Text.{Text, text_eq, is_empty, trim}
use remote_executor.Text.Trim.{trim_idem}
use remote_executor.Dict.{lookup, or_insert}
use remote_executor.Settings.{
  Chain, FileStamp, ReSettings, ShellProfile, SettingsState, SettingsStore, ShellResolution,
  SettingsFiles, Codec, Machine, default_settings,
}
use remote_executor.Settings.Shell.{
  resolve_shell, configured_shell, resolve_profile_name, profile_of, with_default_profiles,
  insert_defaults,
}
use remote_executor.Settings.Load.{
  absolutize, settings_path, load_settings_layers, write_settings_file,
}
use remote_executor.Settings.Store.{
  load_layered, load, load_default_lossy, from_settings, reload, after_reload, record_reload_error,
  set_default_shell, with_default, other_than, absolutize_base, or_defaults, after_write,
  after_resolve,
}
use remote_executor.Settings.Valid.{IsConfigured, HasProfile, load_settings_layers-IsConfigured}

-- the defaults of the program, with the profiles that are built in
default-IsConfigured : IsConfigured (with_default_profiles default_settings)
unfolding with_default_profiles insert_defaults or_insert lookup text_eq resolve_profile_name trim
default-IsConfigured = record { default_there = refl; interactive_there = refl }

module _ {S : Type 0} (files : SettingsFiles S) (codec : Codec) (machine : Machine) where
  pub load_layered-IsConfigured :
      (st : S) (base : Option Text) (path : Text)
      → Yields
          (λ (r : SettingsStore × SettingsState). IsConfigured (r.1.settings))
          (load_layered files codec machine st base path)
  unfolding load_layered
  load_layered-IsConfigured st raw_base raw = Yields-bind _ (absolutize machine raw) _ (λ path e.
      Yields-bind _ (absolutize_base machine raw_base) _ (λ base e'.
        Yields-bind _ (load_settings_layers files codec st (other_than path base) path) _
          (λ layers e''.
            Yields-ok _ _
              (load_settings_layers-IsConfigured files codec st (other_than path base) path) e'')))

  load-IsConfigured :
      (st : S) (raw : Option Text)
      → Yields
          (λ (r : SettingsStore × SettingsState). IsConfigured (r.1.settings))
          (load files codec machine st raw)
  unfolding load
  load-IsConfigured st raw =
      Yields-bind _ (settings_path machine raw) _ (λ path e. load_layered-IsConfigured st none path)

  or_defaults-IsConfigured :
      (m : Outcome Chain (SettingsStore × SettingsState))
      → Yields (λ (r : SettingsStore × SettingsState). IsConfigured (r.1.settings)) m
      → IsConfigured ((or_defaults files codec machine m).1.settings)
  unfolding from_settings
  or_defaults-IsConfigured (ok r) h = h
  or_defaults-IsConfigured (err e) h = default-IsConfigured
  or_defaults-IsConfigured panic h = default-IsConfigured

  -- Whatever is on the disk, the executor's own store starts with configured settings.
  pub load_default_lossy-IsConfigured :
      (st : S) → IsConfigured ((load_default_lossy files codec machine st).1.settings)
  unfolding load_default_lossy
  load_default_lossy-IsConfigured st =
      or_defaults-IsConfigured (load files codec machine st none) (load-IsConfigured st none)

  pub reload-IsConfigured :
      (st : S) (store : SettingsStore) (state : SettingsState)
      → IsConfigured state.settings
      → IsConfigured ((reload files codec machine st store state).0.settings)
  unfolding reload record_reload_error
  reload-IsConfigured st store state h =
      after (load_settings_layers files codec st store.base_path store.path)
        (load_settings_layers-IsConfigured files codec st store.base_path store.path)
    where
      after :
          (m : Outcome Chain (ReSettings × Option FileStamp × Option FileStamp))
          → Yields (λ (r : ReSettings × Option FileStamp × Option FileStamp). IsConfigured r.0) m
          → IsConfigured ((after_reload store state m).0.settings)
      after (ok layers) y = y
      after (err e) y = h
      after panic y = h

  pub after_write-settings :
      (changed : SettingsState) (r : ShellResolution) (w : Outcome Chain (Option FileStamp) × S)
      → ((after_write files codec machine changed r w).1.settings) ≡ changed.settings
  after_write-settings changed r (ok stamp, st) = refl
  after_write-settings changed r (err e, st) = refl
  after_write-settings changed r (panic, st) = refl

  profile_of-eq_ok :
      (path name : Text) (o : Option ShellProfile) {p : ShellProfile}
      → profile_of path name o ≡ ok p
      → is_some o ≡ true
  profile_of-eq_ok path name (some p) e = refl
  profile_of-eq_ok path name none e = cc

  -- A shell that is resolved by its name has its profile.
  pub resolve_shell-HasProfile :
      (exists : Text → Bool) (store : SettingsStore) (settings : ReSettings) (shell : Text)
      {r : ShellResolution}
      → trim shell ≡ shell
      → is_empty shell ≡ false
      → resolve_shell machine exists store settings shell none false none ≡ ok r
      → HasProfile settings shell
  unfolding resolve_shell configured_shell
  resolve_shell-HasProfile exists store settings shell trimmed full h =
      let (p, e, h') =
        bind-eq-ok
          (profile_of store.path
            (resolve_profile_name (configured_shell settings (trim shell) false))
            (lookup (resolve_profile_name (configured_shell settings (trim shell) false))
              settings.shells.profiles))
          _ h in
      let there = profile_of-eq_ok store.path _ _ e in rw (trimmed, configured_shell, full) at there

  pub set_default_shell-IsConfigured :
      (st : S) (store : SettingsStore) (state : SettingsState) (raw : Text)
      → IsConfigured state.settings
      → IsConfigured ((set_default_shell files codec machine st store state raw).1.settings)
  unfolding set_default_shell
  set_default_shell-IsConfigured st store state raw h = elim (Bool-cases (is_empty (trim raw))) [
    | inl blank ↦ rw blank h
    | inr full ↦ rw full (
        after
          (resolve_shell machine (files.exists st) store state.settings (trim raw) none false none)
          (λ r e.
            resolve_shell-HasProfile (files.exists st) store state.settings (trim raw)
              (trim_idem raw) full e))
  ]
    where
      after :
          (m : Outcome Chain ShellResolution)
          → ((r : ShellResolution) → m ≡ ok r → HasProfile state.settings (trim raw))
          → IsConfigured
              ((after_resolve files codec machine st store state (trim raw) m).1.settings)
      after (err e) k = h
      after panic k = h
      after (ok r) k =
          let changed = with_default state (trim raw) in
          let w = write_settings_file files codec st store.path changed.settings in
          subst IsConfigured (sym (after_write-settings changed r w))
            (record { default_there = k r refl; interactive_there = h.interactive_there })
