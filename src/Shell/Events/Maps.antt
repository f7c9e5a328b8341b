-- ===== src/Shell/Events/Maps.antt =====
-- The operations on a terminal that leave the locks and the clients alone.
use remote_executor.Base.{ℕ, ◌≡◌, refl, Bool, true, false, not, ◌&&◌, if-lem}
use remote_executor.Base.Outcome.{ok, err, panic, Outcome}
use remote_executor.Text.{Text, codes, text_eq}
use remote_executor.Dict.{contains_key}
use remote_executor.Settings.{Chain}
use remote_executor.Shell.{Core, ShellManager}
use remote_executor.Shell.Manager.{start_exit_watcher, is_locked, watch}
use remote_executor.Shell.Socket.{
  Frame, binary_frame, text_frame, ping_frame, other_frame, hello, resize, request_control,
  handle_client_message, then_broadcast, request_control_of,
}

module _ {C X : Type 0} (core : Core C X) where
  -- The locks and the clients are those of before.
  abbrev pub KeepsMaps : ShellManager C → ShellManager C → Type 0
  KeepsMaps before after = (after.locked ≡ before.locked) × (after.clients ≡ before.clients)

  then_broadcast-KeepsMaps :
      (manager : ShellManager C) (pty : Text) (r : Outcome Chain (Unit {0}) × C)
      → KeepsMaps manager (then_broadcast core manager pty r).1
  then_broadcast-KeepsMaps manager pty (ok done, c) = (refl, refl)
  then_broadcast-KeepsMaps manager pty (err e, c) = (refl, refl)
  then_broadcast-KeepsMaps manager pty (panic, c) = (refl, refl)

  request_control_of-KeepsMaps :
      (manager : ShellManager C) (tx : ℕ) (pty id : Text) (refused : Bool)
      → KeepsMaps manager (request_control_of core manager tx pty id refused).1
  request_control_of-KeepsMaps manager tx pty id true = (refl, refl)
  request_control_of-KeepsMaps manager tx pty id false =
      then_broadcast-KeepsMaps manager pty (core.set_controller manager.core pty id)

  pub handle_client_message-KeepsMaps :
      (manager : ShellManager C) (tx : ℕ) (pty id : Text) (token : ℕ) (frame : Frame)
      → KeepsMaps manager (handle_client_message core manager tx pty id token frame).1
  unfolding handle_client_message
  handle_client_message-KeepsMaps manager tx pty id token (binary_frame bytes) = (refl, refl)
  handle_client_message-KeepsMaps manager tx pty id token (text_frame (ok (resize cols rows))) =
      then_broadcast-KeepsMaps manager pty
        (core.set_client_size manager.core pty id token cols rows)
  handle_client_message-KeepsMaps manager tx pty id token (text_frame (ok request_control)) =
      request_control_of-KeepsMaps manager tx pty id
        (is_locked core manager pty && not (text_eq id (codes "0")))
  handle_client_message-KeepsMaps manager tx pty id token
        (text_frame (ok (hello id' pty' cols rows))) =
      (refl, refl)
  handle_client_message-KeepsMaps manager tx pty id token (text_frame (err e)) = (refl, refl)
  handle_client_message-KeepsMaps manager tx pty id token (text_frame panic) = (refl, refl)
  handle_client_message-KeepsMaps manager tx pty id token (ping_frame bytes) = (refl, refl)
  handle_client_message-KeepsMaps manager tx pty id token other_frame = (refl, refl)

  watch-KeepsMaps :
      (manager : ShellManager C) (pty : Text) (r : Outcome Chain (Unit {0}))
      → KeepsMaps manager (watch core manager pty r)
  watch-KeepsMaps manager pty (ok started) = (refl, refl)
  watch-KeepsMaps manager pty (err e) = (refl, refl)
  watch-KeepsMaps manager pty panic = (refl, refl)

  pub start_exit_watcher-KeepsMaps :
      (manager : ShellManager C) (pty : Text)
      → KeepsMaps manager (start_exit_watcher core manager pty)
  unfolding start_exit_watcher
  start_exit_watcher-KeepsMaps manager pty =
      if-lem (KeepsMaps manager) (contains_key pty manager.exit_watchers) (refl, refl)
        (watch-KeepsMaps _ pty (core.subscribe_exit_code manager.core pty))
