-- ===== src/Shell/Socket.antt =====
-- The session of a terminal client in websocket.rs.
use remote_executor.Base.{
  ℕ, Bool, true, false, not, ◌&&◌, Option, none, some, List, [], ◌∷◌, ◌++◌, if◌then◌else◌,
}
use remote_executor.Base.Outcome.{Outcome, ok, err, panic, ◌>>=◌}
use remote_executor.Text.{Text, codes, text_eq}
use remote_executor.Settings.{Chain}
use remote_executor.Shell.{
  Bytes, Core, ConnectedClient, ShellManager, ServerText, sessions, session, error, text, binary,
  pong, Sent,
}
use remote_executor.Shell.Manager.{
  with_core, list, detail, is_locked, broadcast_meta, register_client, remove_client,
}

-- `AdminText` and `ClientText` of pty_t_protocol, as the program reads them
pub data AdminText : Type 0 where
  list_sessions : AdminText
  detail_of : Text → AdminText
  mutation : AdminText

pub data ClientText : Type 0 where
  hello : (id pty : Text) (cols rows : ℕ) → ClientText
  resize : (cols rows : ℕ) → ClientText
  request_control : ClientText

-- a frame that arrives, a text with what `serde_json` reads in it
pub data Frame : Type 0 where
  binary_frame : Bytes → Frame
  text_frame : Outcome Text ClientText → Frame
  ping_frame : Bytes → Frame
  other_frame : Frame

module _ {C X : Type 0} (core : Core C X) where
  unfoldable pub handle_admin : ShellManager C → AdminText → Outcome Chain (ServerText X)
  unfolding list detail
  handle_admin manager list_sessions = ok (sessions (list core manager))
  handle_admin manager (detail_of pty) = do found ← detail core manager pty; ok (session found)
  handle_admin manager mutation = ok (error (codes "remote admin mutation is disabled"))

  -- what `set_client_size` and `set_controller` are followed by
  abbrev pub then_broadcast :
      ShellManager C
      → Text
      → Outcome Chain (Unit {0}) × C
      → Outcome Chain (Unit {0}) × ShellManager C × Sent X
  then_broadcast manager pty (ok done, c) =
      (ok done, with_core core manager c, broadcast_meta core (with_core core manager c) pty)
  then_broadcast manager pty (err e, c) = (err e, with_core core manager c, [])
  then_broadcast manager pty (panic, c) = (panic, with_core core manager c, [])

  abbrev pub send_error : ℕ → Text → Sent X
  send_error tx message = (tx, text (error message)) ∷ []

  abbrev pub request_control_of :
      ShellManager C → ℕ → Text → Text → Bool → Outcome Chain (Unit {0}) × ShellManager C × Sent X
  request_control_of manager tx pty id true =
      (ok tt, manager, send_error tx (codes "pty is locked to user 0"))
  request_control_of manager tx pty id false =
      then_broadcast manager pty (core.set_controller manager.core pty id)

  unfoldable pub handle_client_message :
      ShellManager C
      → ℕ
      → Text
      → Text
      → ℕ
      → Frame
      → Outcome Chain (Unit {0}) × ShellManager C × Sent X
  unfolding is_locked
  handle_client_message manager tx pty id token (binary_frame data') =
      let written = core.write_from_client manager.core pty id token data' in
      (written.0, with_core core manager written.1, [])
  handle_client_message manager tx pty id token (text_frame (ok (resize cols rows))) =
      then_broadcast manager pty (core.set_client_size manager.core pty id token cols rows)
  handle_client_message manager tx pty id token (text_frame (ok request_control)) =
      request_control_of manager tx pty id
        (is_locked core manager pty && not (text_eq id (codes "0")))
  handle_client_message manager tx pty id token (text_frame (ok (hello id' pty' cols rows))) =
      (ok tt, manager, [])
  handle_client_message manager tx pty id token (text_frame (err e)) =
      (ok tt, manager, send_error tx (codes "bad client message: " ++ e))
  handle_client_message manager tx pty id token (text_frame panic) = (panic, manager, [])
  handle_client_message manager tx pty id token (ping_frame data') =
      (ok tt, manager, (tx, pong data') ∷ [])
  handle_client_message manager tx pty id token other_frame = (ok tt, manager, [])

  abbrev is_done : Outcome Chain (Unit {0}) → Bool
  is_done (ok done) = true
  is_done (err e) = false
  is_done panic = false

  -- `send_response`, the error of which is its last context
  abbrev response_text : Outcome Chain (ServerText X) → ServerText X
  response_text (ok message) = message
  response_text (err (context ∷ causes)) = error context
  response_text (err []) = error []
  response_text panic = error []

  -- the loop over the frames that arrive, up to one that fails or cannot be handled
  unfoldable pub session_loop :
      ShellManager C
      → ℕ
      → Text
      → Text
      → ℕ
      → List (Option Frame)
      → Outcome Chain (Unit {0}) × ShellManager C × Sent X
  unfolding handle_client_message
  session_loop manager tx pty id token [] = (ok tt, manager, [])
  session_loop manager tx pty id token (none ∷ frames) = (ok tt, manager, [])
  session_loop manager tx pty id token (some frame ∷ frames) =
      let handled = handle_client_message manager tx pty id token frame in
      let later = session_loop handled.1 tx pty id token frames in
      if is_done handled.0 then (later.0, later.1, handled.2 ++ later.2) else handled

  abbrev run_session :
      ShellManager C
      → Text
      → ConnectedClient
      → List (Option Frame)
      → Outcome Chain Text × C
      → Outcome Chain (Unit {0}) × ShellManager C × Sent X
  run_session manager pty client frames (err e, c) = (err e, with_core core manager c, [])
  run_session manager pty client frames (panic, c) = (panic, with_core core manager c, [])
  run_session manager pty client frames (ok id, c) =
      let entered = register_client core (with_core core manager c) pty id client in
      let greeting =
        (client.tx, binary (core.snapshot_formatted entered.core pty))
        ∷ broadcast_meta core entered pty in
      let ran = session_loop entered client.tx pty id client.token frames in
      let left =
        remove_client core
          (with_core core ran.1 (core.unregister_client ran.1.core pty id client.token)) pty id
          client.token in
      (ran.0, left, greeting ++ (ran.2 ++ broadcast_meta core left pty))

  -- `token` is `rand_token()`, and the client's channel and address are its own
  unfoldable pub handle_terminal_client :
      ShellManager C
      → Text
      → Text
      → ℕ
      → ℕ
      → ConnectedClient
      → List (Option Frame)
      → Outcome Chain (Unit {0}) × ShellManager C × Sent X
  unfolding session_loop register_client remove_client
  handle_terminal_client manager id pty cols rows client frames =
      elim (core.session manager.core pty) [
        | none ↦ (err ((codes "pty " ++ (pty ++ codes " does not exist")) ∷ []), manager, [])
        | some found ↦
            run_session manager pty client frames
              (core.register_client manager.core pty id client.token cols rows)
      ]

  -- the first text of a connection: what `serde_json` reads in it as each of the two types
  unfoldable pub handle_first_text :
      ShellManager C
      → Option AdminText
      → Option ClientText
      → ConnectedClient
      → List (Option Frame)
      → Outcome Chain (Unit {0}) × ShellManager C × Sent X
  unfolding handle_terminal_client handle_admin
  handle_first_text manager (some admin) client_text client frames =
      (ok tt, manager, (client.tx, text (response_text (handle_admin manager admin))) ∷ [])
  handle_first_text manager none (some (hello id pty cols rows)) client frames =
      handle_terminal_client manager id pty cols rows client frames
  handle_first_text manager none client_text client frames = (
    ok tt,
    manager,
    send_error client.tx (codes "expected ptyt hello or read-only admin request"),
  )
