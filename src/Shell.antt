-- ===== src/Shell.antt =====
-- The data of shell_manager.rs and websocket.rs, and what they call of the crates pty_t_core and
-- pty_t_protocol, whose code is not in this repository.
pub mod Manager
pub mod Clients
pub mod Socket
pub mod Events
use remote_executor.Base.{ℕ, Bool, Option, List}
use remote_executor.Base.Outcome.{Outcome}
use remote_executor.Text.{Text}
use remote_executor.Dict.{Dict}
use remote_executor.Settings.{Chain, CommandSpec}

abbrev pub Bytes : Type 0
Bytes = List ℕ

-- `SessionSummary` and `SessionDetail` of pty_t_core; what is only passed on is of type `X`
pub record CoreSummary (X : Type 0) : Type 0 where
  pub pty : Text
  pub command : X
  pub controller : Option Text
  pub cols : ℕ
  pub rows : ℕ
  pub process_id : X
  pub created_at : X
  pub exit_code : Option ℕ
  pub output_history_bytes : X
  pub output_history_limit : X
  pub clients : X

pub record CoreDetail (X : Type 0) : Type 0 where
  pub pty : Text
  pub command : List Text
  pub cwd : Option Text
  pub env : X
  pub process_id : Option ℕ
  pub created_at : ℕ
  pub controller : Option Text
  pub cols : ℕ
  pub rows : ℕ
  pub output_history_bytes : ℕ
  pub output_history_limit : X
  pub clients : X
  pub exit_code : Option ℕ

-- `PtyManager` and `Session`, whose states are `C`. A call that waits takes the milliseconds and gives
-- the state after them; `drain_output` takes what a subscription has collected.
pub record Core (C X : Type 0) : Type 0 where
  pub session : C → Text → Option (CoreSummary X)
  pub list : C → List (CoreSummary X)
  pub detail : C → Text → Outcome Chain (CoreDetail X)
  pub try_exit_code : C → Text → Outcome Chain (Option ℕ)
  pub snapshot_pty_plain : C → Text → Outcome Chain Text
  pub snapshot_pty : C → Text → Outcome Chain Bytes
  pub snapshot_formatted : C → Text → Bytes
  pub subscribe_exit_code : C → Text → Outcome Chain (Unit {0})
  pub create_pty : C → Text → CommandSpec → Outcome Chain (Unit {0}) × C
  pub force_controller : C → Text → Text → C
  pub remove_session : C → Text → Bool × C
  pub kill : C → Text → Outcome Chain (Unit {0}) × C
  pub wait_exit_code_timeout : C → Text → ℕ → Outcome Chain (Option ℕ) × C
  pub write_from_controller : C → Text → Text → Bytes → Outcome Chain Bool × C
  pub register_client : C → Text → Text → ℕ → ℕ → ℕ → Outcome Chain Text × C
  pub unregister_client : C → Text → Text → ℕ → C
  pub write_from_client : C → Text → Text → ℕ → Bytes → Outcome Chain (Unit {0}) × C
  pub set_client_size : C → Text → Text → ℕ → ℕ → ℕ → Outcome Chain (Unit {0}) × C
  pub set_controller : C → Text → Text → Outcome Chain (Unit {0}) × C
  pub drain_output : C → Text → Bytes × C
  pub pass : C → ℕ → C

-- a connection; `tx` says which channel
pub record ConnectedClient : Type 0 where
  pub token : ℕ
  pub tx : ℕ
  pub peer_addr : Text

-- the sets are maps to nothing
pub record ShellManager (C : Type 0) : Type 0 where
  pub core : C
  pub locked : Dict (Unit {0})
  pub clients : Dict (Dict ConnectedClient)
  pub exit_watchers : Dict (Unit {0})

-- `ClientSummary`, `SessionSummary`, `SessionDetail` and `ServerText` of pty_t_protocol, as the program
-- builds them
pub record ClientSummary : Type 0 where
  pub id : Text
  pub peer_addr : Text

pub record SessionSummary (X : Type 0) : Type 0 where
  pub summary : CoreSummary X
  pub client_details : List ClientSummary

pub record SessionDetail (X : Type 0) : Type 0 where
  pub detail : CoreDetail X
  pub client_details : List ClientSummary

pub data ServerText (X : Type 0) : Type 0 where
  meta : (id pty role : Text) (cols rows : ℕ) (exit_code : Option ℕ) → ServerText X
  sessions : List (SessionSummary X) → ServerText X
  session : SessionDetail X → ServerText X
  error : Text → ServerText X

-- a frame of the WebSocket, a text as what it was printed from
pub data Message (X : Type 0) : Type 0 where
  text : ServerText X → Message X
  binary : Bytes → Message X
  pong : Bytes → Message X
  close : Message X

-- the messages that an operation puts on channels
abbrev pub Sent : Type 0 → Type 0
Sent X = List (ℕ × Message X)
