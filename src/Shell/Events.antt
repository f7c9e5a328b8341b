-- ===== src/Shell/Events.antt =====
-- The order in which the connections, the tools and the exit watchers act on one `ShellManager`: each
-- holds its locks for one operation, so a run is a sequence of operations.
pub mod Maps
pub mod NonEmpty
pub mod Locked
use Prim.Native.String.{String}
use remote_executor.Base.{
  ℕ, ◌≡◌, ◌≢◌, refl, sym, ap, ◌∙◌, ◌⊎◌, inl, inr, Bool, true, false, not, ◌&&◌, Option, none, some,
  List, [], ◌∷◌, if◌then◌else◌, is_some, Bool-cases, Option-cases, if-lem, All, arith,
}
use mathlib.Core.Path.{subst}
use remote_executor.Base.Options.{and_then, unwrap_or}
use remote_executor.Base.Outcome.{ok, err, panic, Outcome}
use remote_executor.Text.{Text, codes, text_eq}
use remote_executor.Text.Equality.{text_eq_refl, text_eq_iff, text_eq-eq}
use remote_executor.Dict.{Dict, lookup, insert, remove, contains_key}
use remote_executor.Dict.Laws.{
  lookup-insert, lookup-remove, contains_key-insert, All-insert, All-remove, All-lookup,
  insert-cons,
}
use remote_executor.Settings.{CommandSpec, Chain}
use remote_executor.Shell.{CoreSummary, Core, ConnectedClient, ShellManager, Sent}
use remote_executor.Shell.Manager.{
  with_core, with_clients, register_client, remove_client, start_exit_watcher, finish_exit_watcher,
  remove_pty, lock_pty, lock_found, unlock_pty, is_locked, without_client, put_clients,
  removed_client, has_token, watch, close_pty_clients,
}
use remote_executor.Shell.Socket.{
  Frame, binary_frame, text_frame, ping_frame, other_frame, hello, resize, request_control,
  handle_client_message, send_error, then_broadcast, request_control_of,
}

pub data Event : Type 0 where
  created : Text → CommandSpec → Event
  registered : Text → Text → ConnectedClient → Event
  left : Text → Text → ℕ → Event
  framed : ℕ → Text → Text → ℕ → Frame → Event
  exit_seen : Text → Bool → Event
  lock : Text → Event
  unlock : Text → Event
  removed : Text → Event

module _ {C X : Type 0} (core : Core C X) where
  unfoldable pub step : ShellManager C → Event → ShellManager C
  unfolding register_client remove_client handle_client_message finish_exit_watcher lock_pty
      unlock_pty remove_pty
  step manager (created pty command) =
      with_core core manager (core.create_pty manager.core pty command).1
  step manager (registered pty id client) = register_client core manager pty id client
  step manager (left pty id token) = remove_client core manager pty id token
  step manager (framed tx pty id token frame) =
      (handle_client_message core manager tx pty id token frame).1
  step manager (exit_seen pty received) = (finish_exit_watcher core manager pty received).0
  step manager (lock pty) = (lock_pty core manager pty).1
  step manager (unlock pty) = unlock_pty core manager pty
  step manager (removed pty) = (remove_pty core manager pty).1

  unfoldable pub run_events : ShellManager C → List Event → ShellManager C
  unfolding step
  run_events manager [] = manager
  run_events manager (event ∷ events) = run_events (step manager event) events
