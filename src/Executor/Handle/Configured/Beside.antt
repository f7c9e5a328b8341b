-- ===== src/Executor/Handle/Configured/Beside.antt =====
-- The stores of an executor over requests and over changes of the default shell that run beside them.
use mathlib.Core.Path.{subst}
use remote_executor.Base.{◌≡◌, ◌⊎◌, sym, ap, inl, inr, false, none, List, [], ◌∷◌, All}
use remote_executor.Base.Lists.{Removed, Removed-All, All-imp}
use remote_executor.Base.Outcome.{ok}
use remote_executor.Text.{Text, codes, text_eq, is_empty, trim}
use remote_executor.Text.Trim.{trim_idem}
use remote_executor.Dict.{lookup}
use remote_executor.Protocol.{ExecutorRequest}
use remote_executor.Settings.{ReSettings, ShellResolution, SettingsFiles, Codec, Machine}
use remote_executor.Settings.Shell.{resolve_shell}
use remote_executor.Settings.Store
use remote_executor.Settings.Store.{for_directory, with_default, after_resolve}
use remote_executor.Settings.Load.{write_settings_file}
use remote_executor.Settings.Valid.{HasProfile}
use remote_executor.Settings.Valid.Kept.{
  after_write-settings, resolve_shell-HasProfile, load_default_lossy-IsConfigured,
}
use remote_executor.Settings.Reach.{commit-IsSound}
use remote_executor.Executor.{Executor, ExecutorState, Which, Tools}
use remote_executor.Executor.Handle.{store_of, put_store, handle}
use remote_executor.Executor.Handle.Configured.{
  AllConfigured, store_of-IsConfigured, put_store-AllConfigured, handle-AllConfigured,
}
use remote_executor.Executor.Handle.Configured.Kept.{There, Keeps, put_store-Keeps, handle-Keeps}

module _ {W : Type 0} (files : SettingsFiles W) (codec : Codec) (machine : Machine)
    (tools : Tools W) where
  -- A request, or one of the two locked sections of a `set_default_shell` that runs beside the requests, each
  -- with the world in any state. The names are those that such calls have resolved in a store, under its
  -- lock, and have not yet set. A reload comes only where there are none.
  pub data Step (executor : Executor)
      : ExecutorState × List (Which × Text) → ExecutorState × List (Which × Text) → Type 0 where
    handles :
        (request : ExecutorRequest) (w : W) (state : ExecutorState) (names : List (Which × Text))
        {after : ExecutorState}
        → (names ≡ []) ⊎ (text_eq request.method (codes "request_reload") ≡ false)
        → (handle files codec machine tools executor state request w).1 ≡ after
        → Step executor (state, names) (after, names)
    resolves :
        (w : W) (state : ExecutorState) (names : List (Which × Text)) (which : Which) (shell : Text)
        {r : ShellResolution}
        → There state which
        → is_empty (trim shell) ≡ false
        → resolve_shell machine
            (files.exists w)
            (store_of state which).0
            (store_of state which).1.settings
            (trim shell)
            none
            false
            none
          ≡ ok r
        → Step executor (state, names) (state, (which, trim shell) ∷ names)
    commits :
        (w : W) (state : ExecutorState) (which : Which) (shell : Text) (r : ShellResolution)
        {names rest : List (Which × Text)} {after : ExecutorState}
        → Removed (which, shell) names rest
        → put_store state which
            (after_resolve files codec machine w
              (store_of state which).0
              (store_of state which).1
              shell
              (ok r)).1
          ≡ after
        → Step executor (state, names) (after, rest)

  pub data Reach (executor : Executor) (start : ExecutorState × List (Which × Text))
      : ExecutorState × List (Which × Text) → Type 0 where
    here : Reach executor start start
    next :
        {x y : ExecutorState × List (Which × Text)}
        → Reach executor start x
        → Step executor x y
        → Reach executor start y

  -- the name has its profile in the store that it was resolved in
  abbrev Waits : ExecutorState → Which × Text → Type 0
  Waits state (which, name) = There state which × HasProfile (store_of state which).1.settings name

  abbrev IsSound : ExecutorState × List (Which × Text) → Type 0
  IsSound (state, names) = AllConfigured state × All (Waits state) names

  Keeps-Waits :
      (before after : ExecutorState) (names : List (Which × Text))
      → Keeps before after
      → All (Waits before) names
      → All (Waits after) names
  Keeps-Waits before after names keeps = All-imp names keep
    where
      keep : (p : Which × Text) → Waits before p → Waits after p
      keep (which, name) (there, has) =
          let (there', same) = keeps which there in (there', rw same has)

  commit-AllConfigured :
      (w : W) (state : ExecutorState) (which : Which) (shell : Text) (r : ShellResolution)
      (rest : List (Which × Text))
      → AllConfigured state
      → Waits state (which, shell)
      → All (Waits state) rest
      → IsSound (
        put_store state which
            (after_resolve files codec machine w
              (store_of state which).0
              (store_of state which).1
              shell
              (ok r)).1,
        rest,
      )
  commit-AllConfigured w state which shell r rest h (there, has) others =
      let (store, settings) = store_of state which in
      let changed = with_default (store_of state which).1 shell in
      let written =
        write_settings_file files codec w (store_of state which).0.path changed.settings in
      (
        put_store-AllConfigured state which _ h
            (commit-IsSound files codec machine w (store_of state which).0 (store_of state which).1
              shell r [] (store_of-IsConfigured state which h) has tt).0,
        Keeps-Waits state _ rest
            (put_store-Keeps state which _ (
              ap (λ (s : ReSettings). s.shells.profiles)
                (after_write-settings files codec machine changed r written)))
            others,
      )

  Step-IsSound :
      {executor : Executor} {x y : ExecutorState × List (Which × Text)}
      → Step executor x y
      → IsSound x
      → IsSound y
  Step-IsSound {executor} (handles request w state names allowed e) (h, waiting) =
      subst (λ after. IsSound (after, names)) e
        (
          handle-AllConfigured files codec machine tools executor state request w h,
          elim allowed [
            | inl nothing ↦ subst (All (Waits _)) (sym nothing) tt
            | inr other ↦
                Keeps-Waits state _ names
                  (handle-Keeps files codec machine tools executor state request w other) waiting
          ],
        )
  Step-IsSound {executor} (resolves w state names which shell there full e) (h, waiting) = (
    h,
    (
      (
        there,
        resolve_shell-HasProfile files codec machine (files.exists w) (store_of state which).0
            (store_of state which).1.settings (trim shell) (trim_idem shell) full e,
      ),
      waiting,
    ),
  )
  Step-IsSound {executor} (commits w state which shell r {names} {rest} removed e) (h, waiting) =
      let (mine, others) = Removed-All (Waits state) removed waiting in
      subst (λ after. IsSound (after, rest)) e
        (commit-AllConfigured w state which shell r rest h mine others)

  -- An executor that starts with the store that it loads, and with no store of a directory, has only
  -- stores whose default and interactive shell have their profiles, whatever requests it handles one after
  -- another while any number of `set_default_shell` calls run beside them, between whose two locked sections
  -- the requests come: other changes of the shell, new directories and tools that were cut off included. The
  -- condition is that a reload comes only where no such call is between its sections.
  pub Reach-AllConfigured :
      (executor : Executor) (w : W) {state : ExecutorState} {names : List (Which × Text)}
      → Reach executor
          (
            record {
              settings = Store.load_default_lossy files codec machine w;
              directory_settings = [];
            },
            [],
          )
          (state, names)
      → AllConfigured state
  unfolding lookup
  Reach-AllConfigured executor w r = (sound r).0
    where
      sound :
          {x : ExecutorState × List (Which × Text)}
          → Reach executor
              (
                record {
                  settings = Store.load_default_lossy files codec machine w;
                  directory_settings = [];
                },
                [],
              )
              x
          → IsSound x
      sound here = (
        record {
          own_configured = load_default_lossy-IsConfigured files codec machine w;
          each_configured = λ key store there. cc;
        },
        tt,
      )
      sound (next r st) = Step-IsSound st (sound r)
