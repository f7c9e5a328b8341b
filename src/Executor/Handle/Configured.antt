-- ===== src/Executor/Handle/Configured.antt =====
-- A request leaves the stores of an executor with settings that refer to profiles that they hold.
pub mod Kept
pub mod Beside
use mathlib.Core.Path.{subst}
use remote_executor.Base.{
  ℕ, ◌≡◌, refl, true, inl, inr, ◌||◌, Option, none, some, [], is_some, Bool-cases,
}
use remote_executor.Base.Outcome.{Outcome, ok, err, panic}
use remote_executor.Base.Yields.{Yields}
use remote_executor.Text.{Text, codes, text_eq}
use remote_executor.Dict.{lookup, insert}
use remote_executor.Dict.Laws.{lookup-insert}
use remote_executor.Json.{Value}
use remote_executor.Protocol.{ExecutorRequest, ExecutorResponse, ToolResult}
use remote_executor.Settings.{
  Chain, SettingsState, SettingsStore, ShellResolution, SettingsFiles, Codec, Machine,
}
use remote_executor.Settings.Store
use remote_executor.Settings.Store.{for_directory}
use remote_executor.Settings.Load.{absolutize}
use remote_executor.Settings.Tools
use remote_executor.Settings.Tools.{report_default, report_reload}
use remote_executor.Settings.Valid.{IsConfigured}
use remote_executor.Settings.Valid.Kept.{
  reload-IsConfigured, set_default_shell-IsConfigured, load_layered-IsConfigured,
  load_default_lossy-IsConfigured,
}
use remote_executor.Base.Tests.{if-lem, if-cases}
use remote_executor.Executor.{
  Executor, ExecutorState, Store, Which, own, of_directory, Tools, is_exbash_method,
  is_soft_timeout_method,
}
use remote_executor.Executor.Handle.{
  store_of, put_store, keep_store, settings_at, settings_for_directory, settings_for_request,
  set_default_shell_with, request_reload_with, dispatch_tool, dispatch_with_timeout, run, handle,
}

-- The executor's own store and the store of each directory refer to profiles that they hold.
pub record AllConfigured (state : ExecutorState) : Type 0 where
  pub own_configured : IsConfigured state.settings.1.settings
  pub each_configured :
      (key : Text) (store : Store)
      → lookup key state.directory_settings ≡ some store
      → IsConfigured store.1.settings

pub store_of-IsConfigured :
    (state : ExecutorState) (which : Which)
    → AllConfigured state
    → IsConfigured (store_of state which).1.settings
store_of-IsConfigured state own h = h.own_configured
store_of-IsConfigured state (of_directory key) h = found (lookup key state.directory_settings) refl
  where
    found :
        (o : Option Store)
        → lookup key state.directory_settings ≡ o
        → IsConfigured (elim o as (λ p. Store) [ none ↦ state.settings | some s ↦ s ]).1.settings
    found none e = h.own_configured
    found (some s) e = h.each_configured key s e

insert-AllConfigured :
    (state : ExecutorState) (key : Text) (store : Store)
    → AllConfigured state
    → IsConfigured store.1.settings
    → AllConfigured
        (record state { directory_settings = insert key store state.directory_settings })
insert-AllConfigured state key store h c = record {
  own_configured = h.own_configured;
  each_configured = λ k s there. elim (Bool-cases (text_eq key k)) [
    | inl e ↦
        let same : some store ≡ some s =
          rw (lookup-insert key k store state.directory_settings, e) at there in
        subst (λ (o : Option Store). elim o [ none ↦ ⊥ | some x ↦ IsConfigured x.1.settings ]) same
          c
    | inr e ↦
        h.each_configured k s (rw (lookup-insert key k store state.directory_settings, e) at there)
  ];
}

pub put_store-AllConfigured :
    (state : ExecutorState) (which : Which) (changed : SettingsState)
    → AllConfigured state
    → IsConfigured changed.settings
    → AllConfigured (put_store state which changed)
put_store-AllConfigured state own changed h c = record {
  own_configured = c;
  each_configured = h.each_configured;
}
put_store-AllConfigured state (of_directory key) changed h c =
    insert-AllConfigured state key ((store_of state (of_directory key)).0, changed) h c

module _ {W : Type 0} (files : SettingsFiles W) (codec : Codec) (machine : Machine)
    (tools : Tools W) where
  keep_store-AllConfigured :
      (state : ExecutorState) (key : Text) (found : Outcome Chain Store)
      → AllConfigured state
      → Yields (λ (r : Store). IsConfigured r.1.settings) found
      → AllConfigured ((keep_store files codec machine tools state key found).1)
  keep_store-AllConfigured state key (ok store) h y = insert-AllConfigured state key store h y
  keep_store-AllConfigured state key (err e) h y = h
  keep_store-AllConfigured state key panic h y = h

  settings_at-AllConfigured :
      (w : W) (state : ExecutorState) (key : Outcome Chain Text)
      → AllConfigured state
      → AllConfigured ((settings_at files codec machine tools w state key).1)
  unfolding for_directory
  settings_at-AllConfigured w state (ok key) h =
      elim (Bool-cases (is_some (lookup key state.directory_settings))) [
        | inl e ↦ rw e h
        | inr e ↦ rw e (
            keep_store-AllConfigured state key
              (for_directory files codec machine w state.settings.0 key) h
              (load_layered-IsConfigured files codec machine w _ _))
      ]
  settings_at-AllConfigured w state (err e) h = h
  settings_at-AllConfigured w state panic h = h

  settings_for_request-AllConfigured :
      (executor : Executor) (w : W) (state : ExecutorState) (directory : Option Text)
      → AllConfigured state
      → AllConfigured
          ((settings_for_request files codec machine tools executor w state directory).1)
  unfolding settings_for_request settings_for_directory
  settings_for_request-AllConfigured executor w state none h = h
  settings_for_request-AllConfigured executor w state (some directory) h =
      elim (Bool-cases executor.workspace_settings) [
        | inl e ↦ rw e (settings_at-AllConfigured w state (absolutize machine directory) h)
        | inr e ↦ rw e h
      ]

  Configures : Outcome Chain ToolResult × SettingsState × W → Type 0
  Configures (result, changed, w) = IsConfigured changed.settings

  report_default-state :
      (shell : Text) (store : SettingsStore) (r : W × SettingsState × Outcome Chain ShellResolution)
      → (report_default files codec machine shell store r).1 ≡ r.1
  report_default-state shell store (w, state, ok r) = refl
  report_default-state shell store (w, state, err e) = refl
  report_default-state shell store (w, state, panic) = refl

  report_reload-state :
      (store : SettingsStore) (r : SettingsState × Outcome Chain (Unit {0}))
      → (report_reload files codec machine store r).0 ≡ r.0
  report_reload-state store (state, ok u) = refl
  report_reload-state store (state, err e) = refl
  report_reload-state store (state, panic) = refl

  set_default_shell_with-Configures :
      (store : Store) (w : W) (shell : Outcome Text Text)
      → IsConfigured store.1.settings
      → Configures (set_default_shell_with files codec machine tools store w shell)
  unfolding Tools.set_default_shell_tool Configures
  set_default_shell_with-Configures (store, settings) w (ok shell) h =
      rw
        (report_default-state _ store
          (Store.set_default_shell files codec machine w store settings shell))
        (set_default_shell-IsConfigured files codec machine w store settings shell h)
  set_default_shell_with-Configures (store, settings) w (err e) h = h
  set_default_shell_with-Configures (store, settings) w panic h = h

  request_reload_with-Configures :
      (store : Store) (w : W) (options : Outcome Text (Unit {0}))
      → IsConfigured store.1.settings
      → Configures (request_reload_with files codec machine tools store w options)
  unfolding Tools.request_reload Configures
  request_reload_with-Configures (store, settings) w (ok u) h =
      rw (report_reload-state store (Store.reload files codec machine w store settings))
        (reload-IsConfigured files codec machine w store settings h)
  request_reload_with-Configures (store, settings) w (err e) h = h
  request_reload_with-Configures (store, settings) w panic h = h

  pub dispatch_tool-cases :
      (P : Outcome Chain ToolResult × SettingsState × W → Type 0) (method : Text) (params : Value)
      (directory : Option Text) (store : Store) (w : W)
      → ((result : Outcome Chain ToolResult) (w' : W) → P (result, store.1, w'))
      → P (set_default_shell_with files codec machine tools store w (tools.shell_option params))
      → (text_eq method (codes "request_reload") ≡ true
          → P (request_reload_with files codec machine tools store w (tools.no_options params)))
      → P (dispatch_tool files codec machine tools method params directory store w)
  unfolding dispatch_tool
  dispatch_tool-cases P method params directory store w kept sets reloads =
      if-lem P (text_eq method (codes "exbash")) (kept _ _) (
        if-lem P (text_eq method (codes "read")) (kept _ _) (
          if-lem P (text_eq method (codes "stat")) (kept _ _) (
            if-lem P (text_eq method (codes "FileAction")) (kept _ _) (
              if-lem P (text_eq method (codes "glob")) (kept _ _) (
                if-lem P (text_eq method (codes "set_default_shell")) sets (
                  if-lem P (text_eq method (codes "list_shells")) (kept _ _) (
                    if-cases P (text_eq method (codes "request_reload")) reloads
                      (λ other. if-lem P (text_eq method (codes "rg")) (kept _ _) (kept _ _)))))))))

  pub dispatch_with_timeout-cases :
      (P : Outcome Chain ToolResult × SettingsState × W → Type 0) (method : Text) (params : Value)
      (directory : Option Text) (store : Store) (ms : ℕ) (w : W)
      → ((result : Outcome Chain ToolResult) (w' : W) → P (result, store.1, w'))
      → P (dispatch_tool files codec machine tools method params directory store w)
      → P (dispatch_with_timeout files codec machine tools method params directory store ms w)
  unfolding dispatch_with_timeout
  dispatch_with_timeout-cases P method params directory store ms w kept dispatched =
      if-lem P (is_exbash_method method || is_soft_timeout_method method) dispatched
        (if-lem P (tools.expires method params ms w) (kept _ _) dispatched)

  dispatch_with_timeout-Configures :
      (method : Text) (params : Value) (directory : Option Text) (store : Store) (ms : ℕ) (w : W)
      → IsConfigured store.1.settings
      → Configures
          (dispatch_with_timeout files codec machine tools method params directory store ms w)
  unfolding Configures
  dispatch_with_timeout-Configures method params directory store ms w h =
      dispatch_with_timeout-cases Configures method params directory store ms w (λ result w'. h)
        (dispatch_tool-cases Configures method params directory store w (λ result w'. h)
          (set_default_shell_with-Configures store w (tools.shell_option params) h)
          (λ e. request_reload_with-Configures store w (tools.no_options params) h))

  run-AllConfigured :
      (executor : Executor) (request : ExecutorRequest) (w : W)
      (r : Outcome Chain Which × ExecutorState)
      → AllConfigured r.1
      → AllConfigured ((run files codec machine tools executor request w r).1)
  unfolding Configures
  run-AllConfigured executor request w (err e, state) h = h
  run-AllConfigured executor request w (panic, state) h = h
  run-AllConfigured executor request w (ok which, state) h =
      put_store-AllConfigured state which _ h (
        dispatch_with_timeout-Configures request.method _ request.directory (store_of state which) _
          w (store_of-IsConfigured state which h))

  pub handle-AllConfigured :
      (executor : Executor) (state : ExecutorState) (request : ExecutorRequest) (w : W)
      → AllConfigured state
      → AllConfigured ((handle files codec machine tools executor state request w).1)
  unfolding handle
  handle-AllConfigured executor state request w h =
      if-lem (λ (r : ExecutorResponse × ExecutorState × W). AllConfigured r.1)
        (text_eq request.method (codes "_executor_info")) h
        (run-AllConfigured executor request w
          (settings_for_request files codec machine tools executor w state request.directory)
          (settings_for_request-AllConfigured executor w state request.directory h))
