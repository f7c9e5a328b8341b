-- ===== src/Settings/Reach.antt =====
-- A store over time: reloads and changes of the default shell, with any state of the disk at each. A change
-- takes the lock twice, to resolve the name and to set it.
use mathlib.Core.Path.{subst}
use remote_executor.Base.{◌≡◌, refl, sym, inl, inr, false, none, List, [], ◌∷◌, All, Bool-cases}
use remote_executor.Base.Lists.{Removed, first, Removed-All}
use remote_executor.Base.Outcome.{Outcome, ok, err, panic}
use remote_executor.Text.{Text, is_empty, trim}
use remote_executor.Text.Trim.{trim_idem}
use remote_executor.Settings.{
  Chain, SettingsState, SettingsStore, ShellResolution, SettingsFiles, Codec, Machine,
}
use remote_executor.Settings.Shell.{resolve_shell}
use remote_executor.Settings.Load.{write_settings_file}
use remote_executor.Settings.Store.{reload, set_default_shell, with_default, after_resolve}
use remote_executor.Settings.Valid.{IsConfigured, HasProfile}
use remote_executor.Settings.Valid.Kept.{
  reload-IsConfigured, after_write-settings, resolve_shell-HasProfile,
}

module _ {S : Type 0} (files : SettingsFiles S) (codec : Codec) (machine : Machine) where
  -- One locked section of the store, with the disk in any state. The names are those of
  -- `set_default_shell` calls that have resolved them, under the first lock, and have not yet changed the
  -- default, under the second. A reload comes only where no call is between
  -- its two sections.
  pub data Step (store : SettingsStore)
      : SettingsState × List Text → SettingsState × List Text → Type 0 where
    reloads :
        (st : S) (s : SettingsState) {t : SettingsState}
        → (reload files codec machine st store s).0 ≡ t
        → Step store (s, []) (t, [])
    resolves :
        (st : S) (s : SettingsState) (shell : Text) (names : List Text) {r : ShellResolution}
        → is_empty (trim shell) ≡ false
        → resolve_shell machine (files.exists st) store s.settings (trim shell) none false none
          ≡ ok r
        → Step store (s, names) (s, trim shell ∷ names)
    commits :
        (st : S) (s : SettingsState) (shell : Text) (r : ShellResolution) {names rest : List Text}
        {t : SettingsState}
        → Removed shell names rest
        → (after_resolve files codec machine st store s shell (ok r)).1 ≡ t
        → Step store (s, names) (t, rest)

  pub data Reach (store : SettingsStore) (start : SettingsState × List Text)
      : SettingsState × List Text → Type 0 where
    here : Reach store start start
    next :
        {x y : SettingsState × List Text}
        → Reach store start x
        → Step store x y
        → Reach store start y

  -- The whole call is its two sections, one after the other.
  set_default_shell-Reach :
      (st : S) (store : SettingsStore) (state : SettingsState) (raw : Text)
      → Reach store (state, []) ((set_default_shell files codec machine st store state raw).1, [])
  unfolding set_default_shell
  set_default_shell-Reach st store state raw = elim (Bool-cases (is_empty (trim raw))) [
    | inl blank ↦ rw blank here
    | inr full ↦ rw full (
        after
          (resolve_shell machine (files.exists st) store state.settings (trim raw) none false none)
          (λ r e. resolves st state raw [] full e))
  ]
    where
      after :
          (m : Outcome Chain ShellResolution)
          → ((r : ShellResolution) → m ≡ ok r → Step store (state, []) (state, trim raw ∷ []))
          → Reach store
              (state, [])
              ((after_resolve files codec machine st store state (trim raw) m).1, [])
      after (err e) k = here
      after panic k = here
      after (ok r) k = next (next here (k r refl)) (commits st state (trim raw) r (first []) refl)

  -- the settings are configured, and each name that is about to be the default has its profile
  abbrev pub IsSound : SettingsState × List Text → Type 0
  IsSound (s, names) = IsConfigured s.settings × All (HasProfile s.settings) names

  pub commit-IsSound :
      (st : S) (store : SettingsStore) (s : SettingsState) (shell : Text) (r : ShellResolution)
      (rest : List Text)
      → IsConfigured s.settings
      → HasProfile s.settings shell
      → All (HasProfile s.settings) rest
      → IsSound ((after_resolve files codec machine st store s shell (ok r)).1, rest)
  commit-IsSound st store s shell r rest h there others =
      let changed = with_default s shell in
      let w = write_settings_file files codec st store.path changed.settings in
      subst (λ settings. IsConfigured settings × All (HasProfile settings) rest)
        (sym (after_write-settings files codec machine changed r w))
        (record { default_there = there; interactive_there = h.interactive_there }, others)

  Step-IsSound :
      {store : SettingsStore} {x y : SettingsState × List Text}
      → Step store x y
      → IsSound x
      → IsSound y
  Step-IsSound {store} (reloads st s e) (h, names) = (
    subst (λ (t : SettingsState). IsConfigured t.settings) e
        (reload-IsConfigured files codec machine st store s h),
    tt,
  )
  Step-IsSound {store} (resolves st s shell names full e) (h, there) = (
    h,
    (
      resolve_shell-HasProfile files codec machine (files.exists st) store s.settings (trim shell)
          (trim_idem shell) full e,
      there,
    ),
  )
  Step-IsSound {store} (commits st s shell r {names} {rest} removed e) (h, there) =
      let (own, others) = Removed-All (HasProfile s.settings) removed there in
      subst (λ t. IsSound (t, rest)) e (commit-IsSound st store s shell r rest h own others)

  -- Settings that were configured at the start, with no change of the default under way, stay so, and so does
  -- each name that a `set_default_shell` has resolved and not yet set: however the store is reloaded and its
  -- default is changed, failures and any changes of the disk included, with the two locked sections of
  -- several changes in any order. The condition is that no reload comes between the two sections of a change,
  -- which nothing in the program prevents.
  pub Reach-IsConfigured :
      {store : SettingsStore} {start s : SettingsState} {names : List Text}
      → IsConfigured start.settings
      → Reach store (start, []) (s, names)
      → IsConfigured s.settings × All (HasProfile s.settings) names
  Reach-IsConfigured {store} {start} h r = sound r
    where
      sound : {x : SettingsState × List Text} → Reach store (start, []) x → IsSound x
      sound here = (h, tt)
      sound (next r st) = Step-IsSound st (sound r)
