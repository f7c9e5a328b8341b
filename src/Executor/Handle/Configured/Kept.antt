-- ===== src/Executor/Handle/Configured/Kept.antt =====
-- A request other than a reload keeps each store of an executor, with its profiles.
use mathlib.Core.Path.{subst}
use remote_executor.Base.{
  ◌≡◌, ◌∙◌, refl, ap, inl, inr, true, false, Option, none, some, ℕ, is_some, Bool-cases,
}
use remote_executor.Base.Tests.{if-lem}
use remote_executor.Base.Outcome.{Outcome, ok, err, panic}
use remote_executor.Text.{Text, codes, text_eq, is_empty, trim}
use remote_executor.Text.Equality.{text_eq_iff}
use remote_executor.Dict.{Dict, lookup, insert}
use remote_executor.Dict.Laws.{lookup-insert}
use remote_executor.Json.{Value}
use remote_executor.Protocol.{ExecutorRequest, ExecutorResponse, ToolResult}
use remote_executor.Settings.{
  Chain, ReSettings, ShellProfile, SettingsState, SettingsStore, ShellResolution, SettingsFiles,
  Codec, Machine,
}
use remote_executor.Settings.Shell.{resolve_shell}
use remote_executor.Settings.Store
use remote_executor.Settings.Store.{for_directory, with_default, after_resolve}
use remote_executor.Settings.Load.{absolutize, write_settings_file}
use remote_executor.Settings.Tools
use remote_executor.Settings.Tools.{report_default}
use remote_executor.Settings.Valid.Kept.{after_write-settings}
use remote_executor.Executor.{Executor, ExecutorState, Store, Which, own, of_directory, Tools}
use remote_executor.Executor.Handle.{
  store_or, store_of, put_store, keep_store, settings_at, settings_for_directory,
  settings_for_request, set_default_shell_with, dispatch_with_timeout, run, handle,
}
use remote_executor.Executor.Handle.Configured.{dispatch_tool-cases, dispatch_with_timeout-cases}

abbrev profiles : Store → Dict ShellProfile
profiles store = store.1.settings.shells.profiles

-- the store is there
abbrev pub There : ExecutorState → Which → Type 0
There state own = Unit
There state (of_directory key) = is_some (lookup key state.directory_settings) ≡ true

-- Every store that is there stays there, with its profiles.
abbrev pub Keeps : ExecutorState → ExecutorState → Type 0
Keeps before after =
    (which : Which)
    → There before which
    → There after which × (profiles (store_of after which) ≡ profiles (store_of before which))

Keeps-refl : (state : ExecutorState) → Keeps state state
Keeps-refl state which there = (there, refl)

Keeps-trans : (a b c : ExecutorState) → Keeps a b → Keeps b c → Keeps a c
Keeps-trans a b c f g which there =
    let (there', e) = f which there in let (there'', e') = g which there' in (there'', e' ∙ e)

insert-Keeps :
    (state : ExecutorState) (key : Text) (store : Store)
    → (is_some (lookup key state.directory_settings) ≡ true
        → profiles store ≡ profiles (store_of state (of_directory key)))
    → Keeps state (record state { directory_settings = insert key store state.directory_settings })
insert-Keeps state key store same own there = (tt, refl)
insert-Keeps state key store same (of_directory other) there =
    let inserted = lookup-insert key other store state.directory_settings in
    elim (Bool-cases (text_eq key other)) [
      | inl e ↦
          let equal : key ≡ other = (text_eq_iff key other).0 e in
          (
            rw (inserted, e) refl,
            rw (inserted, e)
                (subst
                  (λ k.
                    (is_some (lookup k state.directory_settings) ≡ true
                      → profiles store ≡ profiles (store_of state (of_directory k))))
                  equal same there),
          )
      | inr e ↦ (rw (inserted, e) there, rw (inserted, e) refl)
    ]

store_or-there : (a b : Store) (o : Option Store) → is_some o ≡ true → store_or a o ≡ store_or b o
store_or-there a b none h = cc
store_or-there a b (some s) h = refl

pub put_store-Keeps :
    (state : ExecutorState) (which : Which) (changed : SettingsState)
    → changed.settings.shells.profiles ≡ profiles (store_of state which)
    → Keeps state (put_store state which changed)
put_store-Keeps state own changed e own there = (tt, e)
put_store-Keeps state own changed e (of_directory key) there =
    (there, ap profiles (store_or-there _ _ (lookup key state.directory_settings) there))
put_store-Keeps state (of_directory key) changed e which there =
    insert-Keeps state key ((store_of state (of_directory key)).0, changed) (λ _. e) which there

module _ {W : Type 0} (files : SettingsFiles W) (codec : Codec) (machine : Machine)
    (tools : Tools W) where
  settings_at-Keeps :
      (w : W) (state : ExecutorState) (key : Outcome Chain Text)
      → Keeps state ((settings_at files codec machine tools w state key).1)
  settings_at-Keeps w state (err e) = Keeps-refl state
  settings_at-Keeps w state panic = Keeps-refl state
  settings_at-Keeps w state (ok key) =
      elim (Bool-cases (is_some (lookup key state.directory_settings))) [
        | inl e ↦ rw e (Keeps-refl state)
        | inr e ↦ rw e (kept e (for_directory files codec machine w state.settings.0 key))
      ]
    where
      kept :
          is_some (lookup key state.directory_settings) ≡ false
          → (found : Outcome Chain Store)
          → Keeps state ((keep_store files codec machine tools state key found).1)
      kept e (ok store) = insert-Keeps state key store (λ there. absurd (cc (e, there)))
      kept e (err x) = Keeps-refl state
      kept e panic = Keeps-refl state

  settings_for_request-Keeps :
      (executor : Executor) (w : W) (state : ExecutorState) (directory : Option Text)
      → Keeps state ((settings_for_request files codec machine tools executor w state directory).1)
  unfolding settings_for_request settings_for_directory
  settings_for_request-Keeps executor w state none = Keeps-refl state
  settings_for_request-Keeps executor w state (some directory) =
      elim (Bool-cases executor.workspace_settings) [
        | inl e ↦ rw e (settings_at-Keeps w state (absolutize machine directory))
        | inr e ↦ rw e (Keeps-refl state)
      ]

  set_default_shell-profiles :
      (w : W) (store : SettingsStore) (state : SettingsState) (raw : Text)
      → (Store.set_default_shell files codec machine w store state raw).1.settings.shells.profiles
        ≡ state.settings.shells.profiles
  unfolding Store.set_default_shell
  set_default_shell-profiles w store state raw = elim (Bool-cases (is_empty (trim raw))) [
    | inl blank ↦ rw blank refl
    | inr full ↦ rw full (
        after
          (resolve_shell machine (files.exists w) store state.settings (trim raw) none false none))
  ]
    where
      after :
          (m : Outcome Chain ShellResolution)
          → (after_resolve files codec machine w store state
              (trim raw)
              m).1.settings.shells.profiles
            ≡ state.settings.shells.profiles
      after (err e) = refl
      after panic = refl
      after (ok r) =
          let changed = with_default state (trim raw) in
          ap (λ (settings : ReSettings). settings.shells.profiles)
            (after_write-settings files codec machine changed r
              (write_settings_file files codec w store.path changed.settings))

  -- what a tool leaves has the profiles that its store had
  SameProfiles : Store → Outcome Chain ToolResult × SettingsState × W → Type 0
  SameProfiles store (result, changed, w) = changed.settings.shells.profiles ≡ profiles store

  set_default_shell_with-SameProfiles :
      (store : Store) (w : W) (shell : Outcome Text Text)
      → SameProfiles store (set_default_shell_with files codec machine tools store w shell)
  unfolding Tools.set_default_shell_tool SameProfiles
  set_default_shell_with-SameProfiles (store, settings) w (ok shell) =
      reported (Store.set_default_shell files codec machine w store settings shell)
        (set_default_shell-profiles w store settings shell)
    where
      reported :
          (r : W × SettingsState × Outcome Chain ShellResolution)
          → r.1.settings.shells.profiles ≡ settings.settings.shells.profiles
          → (report_default files codec machine (trim shell) store r).1.settings.shells.profiles
            ≡ settings.settings.shells.profiles
      reported (w', state, ok r) e = e
      reported (w', state, err x) e = e
      reported (w', state, panic) e = e
  set_default_shell_with-SameProfiles (store, settings) w (err e) = refl
  set_default_shell_with-SameProfiles (store, settings) w panic = refl

  dispatch_with_timeout-SameProfiles :
      (method : Text) (params : Value) (directory : Option Text) (store : Store) (ms : ℕ) (w : W)
      → text_eq method (codes "request_reload") ≡ false
      → SameProfiles store
          (dispatch_with_timeout files codec machine tools method params directory store ms w)
  unfolding SameProfiles
  dispatch_with_timeout-SameProfiles method params directory store ms w other =
      dispatch_with_timeout-cases files codec machine tools (SameProfiles store) method params
        directory store ms w (λ result w'. refl)
        (dispatch_tool-cases files codec machine tools (SameProfiles store) method params directory
          store w (λ result w'. refl)
          (set_default_shell_with-SameProfiles store w (tools.shell_option params))
          (λ e. absurd (cc (e, other))))

  run-Keeps :
      (executor : Executor) (request : ExecutorRequest) (w : W)
      (r : Outcome Chain Which × ExecutorState)
      → text_eq request.method (codes "request_reload") ≡ false
      → Keeps r.1 ((run files codec machine tools executor request w r).1)
  unfolding SameProfiles
  run-Keeps executor request w (err e, state) other = Keeps-refl state
  run-Keeps executor request w (panic, state) other = Keeps-refl state
  run-Keeps executor request w (ok which, state) other = put_store-Keeps state which _ (
      dispatch_with_timeout-SameProfiles request.method _ request.directory (store_of state which) _
        w other)

  pub handle-Keeps :
      (executor : Executor) (state : ExecutorState) (request : ExecutorRequest) (w : W)
      → text_eq request.method (codes "request_reload") ≡ false
      → Keeps state ((handle files codec machine tools executor state request w).1)
  unfolding handle
  handle-Keeps executor state request w other =
      let found =
        settings_for_request files codec machine tools executor w state request.directory in
      if-lem (λ (r : ExecutorResponse × ExecutorState × W). Keeps state r.1)
        (text_eq request.method (codes "_executor_info")) (Keeps-refl state)
        (Keeps-trans state found.1 _ (settings_for_request-Keeps executor w state request.directory)
          (run-Keeps executor request w found other))
