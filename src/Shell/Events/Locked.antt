-- ===== src/Shell/Events/Locked.antt =====
-- What a lock on a terminal holds back.
use remote_executor.Base.{
  ℕ, ◌≡◌, ◌≢◌, refl, ap, ◌∙◌, true, false, Option, none, some, List, [], ◌∷◌, is_some, All, arith,
}
use remote_executor.Base.Outcome.{ok}
use remote_executor.Text.{Text, codes, text_eq}
use remote_executor.Text.Equality.{text_eq-ne, text_eq_refl}
use remote_executor.Dict.{Dict, remove, contains_key}
use remote_executor.Dict.Laws.{lookup-remove, contains_key-insert}
use remote_executor.Shell.{CoreSummary, Core, ShellManager}
use remote_executor.Shell.Manager.{lock_pty, lock_found, is_locked}
use remote_executor.Shell.Socket.{text_frame, request_control, handle_client_message, send_error}
use remote_executor.Shell.Events.{
  Event, created, registered, left, framed, exit_seen, lock, unlock, removed, step, run_events,
}
use remote_executor.Shell.Events.Maps.{
  start_exit_watcher-KeepsMaps, handle_client_message-KeepsMaps,
}

module _ {C X : Type 0} (core : Core C X) where
  -- what does not unlock the terminal
  abbrev pub KeepsLock : Text → Event → Type 0
  KeepsLock pty (unlock pty') = text_eq pty' pty ≡ false
  KeepsLock pty (removed pty') = text_eq pty' pty ≡ false
  KeepsLock pty _ = Unit

  lock_found-is_locked :
      (manager : ShellManager C) (pty' : Text) (o : Option (CoreSummary X)) (pty : Text)
      → is_locked core manager pty ≡ true
      → is_locked core (lock_found core manager pty' o).1 pty ≡ true
  unfolding is_locked
  lock_found-is_locked manager pty' none pty h = h
  lock_found-is_locked manager pty' (some found) pty h =
      contains_key-insert pty' pty tt manager.locked ∙ ground (arith, h)

  contains_key-remove :
      (k l : Text) (m : Dict (Unit {0}))
      → text_eq k l ≡ false
      → contains_key l m ≡ true
      → contains_key l (remove k m) ≡ true
  contains_key-remove k l m ne h = ap is_some (lookup-remove k l m ∙ rw ne refl) ∙ h

  step-is_locked :
      (manager : ShellManager C) (event : Event) (pty : Text)
      → is_locked core manager pty ≡ true
      → KeepsLock pty event
      → is_locked core (step core manager event) pty ≡ true
  unfolding step is_locked
  step-is_locked manager (created pty' command) pty h k = h
  step-is_locked manager (registered pty' id client) pty h k =
      ap (contains_key pty) (start_exit_watcher-KeepsMaps core _ pty').0 ∙ h
  step-is_locked manager (left pty' id token) pty h k = h
  step-is_locked manager (framed tx pty' id token frame) pty h k =
      ap (contains_key pty) (handle_client_message-KeepsMaps core manager tx pty' id token frame).0
      ∙ h
  step-is_locked manager (exit_seen pty' received) pty h k = h
  step-is_locked manager (lock pty') pty h k =
      lock_found-is_locked manager pty' (core.session manager.core pty') pty h
  step-is_locked manager (unlock pty') pty h k = contains_key-remove pty' pty manager.locked k h
  step-is_locked manager (removed pty') pty h k = contains_key-remove pty' pty manager.locked k h

  run_events-is_locked :
      (manager : ShellManager C) (events : List Event) (pty : Text)
      → is_locked core manager pty ≡ true
      → All (KeepsLock pty) events
      → is_locked core (run_events core manager events) pty ≡ true
  unfolding run_events
  run_events-is_locked manager [] pty h k = h
  run_events-is_locked manager (event ∷ events) pty h (k, ks) =
      run_events-is_locked (step core manager event) events pty
        (step-is_locked manager event pty h k) ks

  lock_found-eq_ok :
      (manager : ShellManager C) (pty : Text) (o : Option (CoreSummary X))
      → (lock_found core manager pty o).0 ≡ ok tt
      → is_locked core (lock_found core manager pty o).1 pty ≡ true
  unfolding is_locked
  lock_found-eq_ok manager pty none h = cc
  lock_found-eq_ok manager pty (some found) h =
      contains_key-insert pty pty tt manager.locked ∙ rw (text_eq_refl pty) refl

  -- After a terminal is locked, a client that is not user 0 and asks for control is refused with an error and
  -- changes nothing, whatever has happened since that does not unlock or remove the terminal.
  pub lock_pty-request_control :
      (manager : ShellManager C) (pty : Text) (events : List Event) (tx : ℕ) (id : Text) (token : ℕ)
      → (lock_pty core manager pty).0 ≡ ok tt
      → All (KeepsLock pty) events
      → id ≢ codes "0"
      → handle_client_message core
          (run_events core (lock_pty core manager pty).1 events)
          tx
          pty
          id
          token
          (text_frame (ok request_control))
        ≡ (
          ok tt,
          run_events core (lock_pty core manager pty).1 events,
          send_error core tx (codes "pty is locked to user 0"),
        )
  unfolding lock_pty handle_client_message
  lock_pty-request_control manager pty events tx id token locked kept other =
      let after = run_events core (lock_pty core manager pty).1 events in
      let still =
        run_events-is_locked (lock_pty core manager pty).1 events pty
          (lock_found-eq_ok manager pty (core.session manager.core pty) locked) kept in
      rw (still, text_eq-ne id (codes "0") other) refl
