-- ===== src/Shell/Events/NonEmpty.antt =====
-- What every order of operations keeps true of the map of clients.
use remote_executor.Base.{ℕ, ◌≡◌, refl, sym, Option, none, some, List, [], ◌∷◌, All}
use mathlib.Core.Path.{subst}
use remote_executor.Base.Options.{unwrap_or}
use remote_executor.Text.{Text}
use remote_executor.Dict.{Dict, lookup, insert}
use remote_executor.Dict.Laws.{All-insert, All-remove, insert-cons}
use remote_executor.Shell.{CoreSummary, Core, ConnectedClient, ShellManager}
use remote_executor.Shell.Manager.{lock_found, without_client, put_clients, removed_client}
use remote_executor.Shell.Events.{
  Event, created, registered, left, framed, exit_seen, lock, unlock, removed, step, run_events,
}
use remote_executor.Shell.Events.Maps.{
  start_exit_watcher-KeepsMaps, handle_client_message-KeepsMaps,
}

module _ {C X : Type 0} (core : Core C X) where
  -- no terminal is in the map without a client
  abbrev pub NonEmpty : Dict ConnectedClient → Type 0
  NonEmpty [] = ⊥
  NonEmpty (client ∷ rest) = Unit

  abbrev pub HasClients : Dict (Dict ConnectedClient) → Type 0
  HasClients clients = All (λ e. NonEmpty e.1) clients

  insert-NonEmpty :
      (id : Text) (client : ConnectedClient) (m : Dict ConnectedClient)
      → NonEmpty (insert id client m)
  insert-NonEmpty id client m =
      let (e, rest, same) = insert-cons id client m in subst NonEmpty (sym same) tt

  put_clients-HasClients :
      (clients : Dict (Dict ConnectedClient)) (pty : Text) (sc : Dict ConnectedClient)
      → HasClients clients
      → HasClients (put_clients core clients pty sc)
  put_clients-HasClients clients pty [] h = All-remove NonEmpty pty clients h
  put_clients-HasClients clients pty (client ∷ rest) h =
      All-insert NonEmpty pty (client ∷ rest) clients tt h

  removed_client-HasClients :
      (clients : Dict (Dict ConnectedClient)) (pty id : Text) (token : ℕ)
      (o : Option (Dict ConnectedClient))
      → HasClients clients
      → HasClients (removed_client core clients pty id token o)
  removed_client-HasClients clients pty id token none h = h
  removed_client-HasClients clients pty id token (some sc) h =
      put_clients-HasClients clients pty (without_client core sc id token) h

  lock_found-clients :
      (manager : ShellManager C) (pty : Text) (o : Option (CoreSummary X))
      → (lock_found core manager pty o).1.clients ≡ manager.clients
  lock_found-clients manager pty none = refl
  lock_found-clients manager pty (some found) = refl

  step-HasClients :
      (manager : ShellManager C) (event : Event)
      → HasClients manager.clients
      → HasClients (step core manager event).clients
  unfolding step
  step-HasClients manager (created pty command) h = h
  step-HasClients manager (registered pty id client) h =
      subst HasClients (sym (start_exit_watcher-KeepsMaps core _ pty).1) (
        All-insert NonEmpty pty _ manager.clients
          (insert-NonEmpty id client (unwrap_or [] (lookup pty manager.clients))) h)
  step-HasClients manager (left pty id token) h =
      removed_client-HasClients manager.clients pty id token (lookup pty manager.clients) h
  step-HasClients manager (framed tx pty id token frame) h =
      subst HasClients (sym (handle_client_message-KeepsMaps core manager tx pty id token frame).1)
        h
  step-HasClients manager (exit_seen pty received) h = h
  step-HasClients manager (lock pty) h =
      subst HasClients (sym (lock_found-clients manager pty (core.session manager.core pty))) h
  step-HasClients manager (unlock pty) h = h
  step-HasClients manager (removed pty) h = All-remove NonEmpty pty manager.clients h

  -- However connections come and go, the map of clients has no terminal without a client.
  pub run_events-HasClients :
      (manager : ShellManager C) (events : List Event)
      → HasClients manager.clients
      → HasClients (run_events core manager events).clients
  unfolding run_events
  run_events-HasClients manager [] h = h
  run_events-HasClients manager (event ∷ events) h =
      run_events-HasClients (step core manager event) events (step-HasClients manager event h)
