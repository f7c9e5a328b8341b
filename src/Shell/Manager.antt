-- ===== src/Shell/Manager.antt =====
-- The operations of `ShellManager` in shell_manager.rs. Each gives the state after it and what it has sent.
use remote_executor.Base.{
  ℕ, Bool, false, not, ◌==◌, Option, none, some, List, [], ◌∷◌, ◌++◌, map, if◌then◌else◌,
}
use remote_executor.Base.Options.{unwrap_or}
use remote_executor.Base.Outcome.{Outcome, ok, err, panic, ◌>>=◌}
use remote_executor.Base.Sort.{stable_sort}
use remote_executor.Text.{Text, codes, text_eq}
use remote_executor.Dict.{Dict, text_lt, lookup, insert, remove, contains_key}
use remote_executor.Settings.{Chain}
use remote_executor.Shell.{
  CoreSummary, CoreDetail, Core, ConnectedClient, ShellManager, ClientSummary, SessionSummary,
  SessionDetail, meta, Message, text, close, Sent,
}

module _ {C X : Type 0} (core : Core C X) where
  abbrev pub with_core : ShellManager C → C → ShellManager C
  with_core manager c = record {
    core = c;
    locked = manager.locked;
    clients = manager.clients;
    exit_watchers = manager.exit_watchers;
  }

  abbrev pub with_clients : ShellManager C → Dict (Dict ConnectedClient) → ShellManager C
  with_clients manager clients = record {
    core = manager.core;
    locked = manager.locked;
    clients = clients;
    exit_watchers = manager.exit_watchers;
  }

  abbrev pub with_locked : ShellManager C → Dict (Unit {0}) → ShellManager C
  with_locked manager locked = record {
    core = manager.core;
    locked = locked;
    clients = manager.clients;
    exit_watchers = manager.exit_watchers;
  }

  abbrev pub with_watchers : ShellManager C → Dict (Unit {0}) → ShellManager C
  with_watchers manager exit_watchers = record {
    core = manager.core;
    locked = manager.locked;
    clients = manager.clients;
    exit_watchers = exit_watchers;
  }

  abbrev close_all : Dict ConnectedClient → Sent X
  close_all [] = []
  close_all ((id, client) ∷ rest) = (client.tx, close) ∷ close_all rest

  unfoldable pub close_pty_clients : ShellManager C → Text → ShellManager C × Sent X
  close_pty_clients manager pty = (
    with_clients manager (remove pty manager.clients),
    close_all (unwrap_or [] (lookup pty manager.clients)),
  )

  unfoldable pub remove_pty : ShellManager C → Text → Bool × ShellManager C × Sent X
  unfolding close_pty_clients
  remove_pty manager pty =
      let closed = close_pty_clients manager pty in
      let unlocked = with_locked closed.0 (remove pty closed.0.locked) in
      let removed = core.remove_session unlocked.core pty in
      (removed.0, with_core unlocked removed.1, closed.1)

  abbrev pub lock_found :
      ShellManager C → Text → Option (CoreSummary X) → Outcome Chain (Unit {0}) × ShellManager C
  lock_found manager pty none =
      (err ((codes "pty " ++ (pty ++ codes " does not exist")) ∷ []), manager)
  lock_found manager pty (some session) =
      let forced = with_core manager (core.force_controller manager.core pty (codes "0")) in
      (ok tt, with_locked forced (insert pty tt forced.locked))

  unfoldable pub lock_pty : ShellManager C → Text → Outcome Chain (Unit {0}) × ShellManager C
  lock_pty manager pty = lock_found manager pty (core.session manager.core pty)

  unfoldable pub unlock_pty : ShellManager C → Text → ShellManager C
  unlock_pty manager pty = with_locked manager (remove pty manager.locked)

  unfoldable pub is_locked : ShellManager C → Text → Bool
  unfolding lookup
  is_locked manager pty = contains_key pty manager.locked

  abbrev details_of : Dict ConnectedClient → List ClientSummary
  details_of [] = []
  details_of ((id, client) ∷ rest) =
      record { id = id; peer_addr = client.peer_addr } ∷ details_of rest

  unfoldable pub client_details : ShellManager C → Text → List ClientSummary
  unfolding stable_sort
  client_details manager pty = elim (lookup pty manager.clients) [
    | none ↦ []
    | some session_clients ↦
        stable_sort (λ (a b : ClientSummary). not (text_lt b.id a.id)) (details_of session_clients)
  ]

  abbrev pub attach_client_details : ShellManager C → CoreSummary X → SessionSummary X
  attach_client_details manager summary = record {
    summary = summary;
    client_details = client_details manager summary.pty;
  }

  abbrev pub attach_client_details_to_detail : ShellManager C → CoreDetail X → SessionDetail X
  attach_client_details_to_detail manager detail = record {
    detail = detail;
    client_details = client_details manager detail.pty;
  }

  unfoldable pub list : ShellManager C → List (SessionSummary X)
  list manager = map (attach_client_details manager) (core.list manager.core)

  unfoldable pub detail : ShellManager C → Text → Outcome Chain (SessionDetail X)
  detail manager pty = do
    found ← core.detail manager.core pty
    ok (attach_client_details_to_detail manager found)

  abbrev same_controller : Option Text → Text → Bool
  same_controller none id = false
  same_controller (some controller) id = text_eq controller id

  abbrev pub meta_message : CoreSummary X → Text → Message X
  meta_message summary id = text (
      meta id summary.pty
        (if same_controller summary.controller id then codes "Controller" else codes "Viewer")
        summary.cols summary.rows summary.exit_code)

  abbrev send_meta : CoreSummary X → Dict ConnectedClient → Sent X
  send_meta summary [] = []
  send_meta summary ((id, client) ∷ rest) =
      (client.tx, meta_message summary id) ∷ send_meta summary rest

  unfoldable pub broadcast_meta : ShellManager C → Text → Sent X
  broadcast_meta manager pty = elim (core.session manager.core pty) [
    | none ↦ []
    | some summary ↦ send_meta summary (unwrap_or [] (lookup pty manager.clients))
  ]

  abbrev pub watch : ShellManager C → Text → Outcome Chain (Unit {0}) → ShellManager C
  watch manager pty (ok started) = manager
  watch manager pty (err e) = with_watchers manager (remove pty manager.exit_watchers)
  watch manager pty panic = manager

  unfoldable pub start_exit_watcher : ShellManager C → Text → ShellManager C
  start_exit_watcher manager pty =
      if contains_key pty manager.exit_watchers
      then manager
      else watch (with_watchers manager (insert pty tt manager.exit_watchers)) pty
          (core.subscribe_exit_code manager.core pty)

  -- the end of the watcher's task; `received` says whether an exit code came
  unfoldable pub finish_exit_watcher : ShellManager C → Text → Bool → ShellManager C × Sent X
  unfolding broadcast_meta
  finish_exit_watcher manager pty received = (
    with_watchers manager (remove pty manager.exit_watchers),
    if received then broadcast_meta manager pty else [],
  )

  unfoldable pub register_client : ShellManager C → Text → Text → ConnectedClient → ShellManager C
  unfolding start_exit_watcher
  register_client manager pty id client =
      start_exit_watcher
        (with_clients manager (
          insert pty (insert id client (unwrap_or [] (lookup pty manager.clients)))
            manager.clients))
        pty

  abbrev pub has_token : Option ConnectedClient → ℕ → Bool
  has_token none token = false
  has_token (some client) token = client.token == token

  abbrev pub without_client : Dict ConnectedClient → Text → ℕ → Dict ConnectedClient
  without_client session_clients id token =
      if has_token (lookup id session_clients) token
      then remove id session_clients
      else session_clients

  abbrev pub put_clients :
      Dict (Dict ConnectedClient) → Text → Dict ConnectedClient → Dict (Dict ConnectedClient)
  put_clients clients pty [] = remove pty clients
  put_clients clients pty (client ∷ rest) = insert pty (client ∷ rest) clients

  abbrev pub removed_client :
      Dict (Dict ConnectedClient)
      → Text
      → Text
      → ℕ
      → Option (Dict ConnectedClient)
      → Dict (Dict ConnectedClient)
  removed_client clients pty id token none = clients
  removed_client clients pty id token (some session_clients) =
      put_clients clients pty (without_client session_clients id token)

  unfoldable pub remove_client : ShellManager C → Text → Text → ℕ → ShellManager C
  remove_client manager pty id token =
      with_clients manager
        (removed_client manager.clients pty id token (lookup pty manager.clients))
