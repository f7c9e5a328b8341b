-- ===== src/Settings/Change.antt =====
-- What an operation on a store does where it fails.
use remote_executor.Base.{◌≡◌, ◌≢◌, ◌⊎◌, refl, inl, inr, false, Option, none, some, [], ◌∷◌}
use remote_executor.Base.Outcome.{Outcome, ok, err, panic}
use remote_executor.Text.{Text, is_empty, trim}
use remote_executor.Settings.{
  Chain, FileStamp, SettingsState, SettingsStore, ShellResolution, SettingsFiles, Codec, Machine,
}
use remote_executor.Settings.Shell.{resolve_shell}
use remote_executor.Settings.Load.{load_settings_layers, write_settings_file}
use remote_executor.Settings.Store.{
  reload, format_reload_error, record_reload_error, set_default_shell, with_default, after_write,
  after_resolve,
}

module _ {S : Type 0} (files : SettingsFiles S) (codec : Codec) (machine : Machine) where
  -- A reload that fails keeps the settings and their stamps, and keeps the error that it reports, so
  -- that `list_shells` shows it.
  pub reload-eq_err :
      (st : S) (store : SettingsStore) (state : SettingsState) (e : Chain)
      → load_settings_layers files codec st store.base_path store.path ≡ err e
      → (reload files codec machine st store state ≡ (
        record state { reload_error = some (format_reload_error store e) },
        err (format_reload_error store e ∷ []),
      ))
  unfolding reload record_reload_error
  reload-eq_err st store state e h = rw h refl

  -- What `set_default_shell` may leave: for a name that is refused everything as it was, for a file that
  -- is written the new default and the file's stamp, and for a write that fails the new default alone.
  abbrev pub Outcomes :
      S
      → SettingsState
      → SettingsState
      → Outcome Chain ShellResolution
      → Outcome Chain (Option FileStamp) × S
      → S × SettingsState × Outcome Chain ShellResolution
      → Type 0
  Outcomes st state changed resolved written after =
      ((((r : ShellResolution) → resolved ≢ ok r)) × (after ≡ (st, state, resolved)))
      ⊎ ((r : ShellResolution) × (stamp : Option FileStamp) × (resolved ≡ ok r)
          × (written.0 ≡ ok stamp)
          × (after ≡ (written.1, record changed { stamp = stamp; reload_error = none }, ok r)))
      ⊎ ((r : ShellResolution) × (resolved ≡ ok r)
          × ((stamp : Option FileStamp) → written.0 ≢ ok stamp)
          × ((r' : ShellResolution) → after.2 ≢ ok r')
          × (after.0 ≡ written.1)
          × (after.1 ≡ changed))

  after_write-cases :
      (st : S) (state changed : SettingsState) (r : ShellResolution)
      (written : Outcome Chain (Option FileStamp) × S)
      → Outcomes st state changed (ok r) written (after_write files codec machine changed r written)
  after_write-cases st state changed r (ok stamp, st') = inr (inl (r, stamp, refl, refl, refl))
  after_write-cases st state changed r (err e, st') =
      inr (inr (r, refl, λ stamp h. cc, λ r' h. cc, refl, refl))
  after_write-cases st state changed r (panic, st') =
      inr (inr (r, refl, λ stamp h. cc, λ r' h. cc, refl, refl))

  after_resolve-cases :
      (st : S) (store : SettingsStore) (state : SettingsState) (shell : Text)
      (resolved : Outcome Chain ShellResolution)
      → let changed = with_default state shell in
        Outcomes st state changed resolved
          (write_settings_file files codec st store.path changed.settings)
          (after_resolve files codec machine st store state shell resolved)
  after_resolve-cases st store state shell (ok r) =
      let changed = with_default state shell in
      after_write-cases st state changed r
        (write_settings_file files codec st store.path changed.settings)
  after_resolve-cases st store state shell (err e) = inl (λ r h. cc, refl)
  after_resolve-cases st store state shell panic = inl (λ r h. cc, refl)

  -- `set_default_shell` on a name that is not blank has three outcomes. A name that does not resolve
  -- changes nothing. A result comes with the new default in memory and in the written file. But an error
  -- of the write leaves the new default in memory, though the caller is told that the call failed.
  pub set_default_shell-cases :
      (st : S) (store : SettingsStore) (state : SettingsState) (raw : Text)
      → is_empty (trim raw) ≡ false
      → let changed = with_default state (trim raw) in
        Outcomes st state changed
          (resolve_shell machine (files.exists st) store state.settings (trim raw) none false none)
          (write_settings_file files codec st store.path changed.settings)
          (set_default_shell files codec machine st store state raw)
  unfolding set_default_shell
  set_default_shell-cases st store state raw full = rw full (
      after_resolve-cases st store state (trim raw)
        (resolve_shell machine (files.exists st) store state.settings (trim raw) none false none))
