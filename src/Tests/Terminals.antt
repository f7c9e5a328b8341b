-- ===== src/Tests/Terminals.antt =====
-- Terminals of a core whose state is its clock: each run ends with code 3 after 30 ms.
use remote_executor.Base.{
  ℕ, ◌+◌, ◌*◌, ◌≤◌, ◌≡◌, ◌↔◌, refl, sym, ap, true, false, Option, none, some, List, [], ◌∷◌, leb,
  if◌then◌else◌, arith,
}
use remote_executor.Base.Steps.{Gives}
use remote_executor.Base.Outcome.{Outcome, ok, ok-injective}
use remote_executor.Text.{Text, codes, text_eq}
use remote_executor.Text.Equality.{ne-text_eq}
use remote_executor.Dict.{lookup}
use remote_executor.Json.{Value, null, string, object, end, field, number, unsigned}
use remote_executor.Protocol.{ExecutorRequest, ToolResult}
use remote_executor.Settings.{Chain}
use remote_executor.Shell.{CoreSummary, CoreDetail, Core, ConnectedClient, ShellManager}
use remote_executor.Shell.Manager.{remove_client, lock_pty}
use remote_executor.Shell.Clients.{client_at, remove_client-client_at}
use remote_executor.Shell.Socket.{text_frame, request_control, handle_client_message, send_error}
use remote_executor.Shell.Events.{Event, registered, left, exit_seen, run_events}
use remote_executor.Shell.Events.NonEmpty.{HasClients, run_events-HasClients}
use remote_executor.Shell.Events.Locked.{lock_pty-request_control}
use remote_executor.Exbash.{pos, ExbashOptions, RunDetail, RunState, Context}
use remote_executor.Exbash.Options.{validate_input_limits}
use remote_executor.Exbash.Options.Limits.{WithinLimits, validate_input_limits_iff}
use remote_executor.Exbash.Jobs.{stop_run, remove_run}
use remote_executor.Exbash.Jobs.Ends.{
  Forgotten, remove_run-Forgotten, ShowsStopped, stop_run-ShowsStopped,
}
use remote_executor.Exbash.Waits.{wait_stop}
use remote_executor.Exbash.Waits.Time.{TimeLaws, EndsAt, wait_stop-EndsAt}
use remote_executor.Exbash.Attach.{attach_input}
use remote_executor.Exbash.Attach.Deadline.{attach_input-within_call_timeout}

abbrev exit_at : ℕ → Option ℕ
exit_at now = if leb 30 now then some 3 else none

abbrev summary_of : ℕ → Text → CoreSummary (Unit {0})
summary_of now id = record {
  pty = id;
  command = tt;
  controller = some (codes "rec:rex-1");
  cols = 80;
  rows = 24;
  process_id = tt;
  created_at = tt;
  exit_code = exit_at now;
  output_history_bytes = tt;
  output_history_limit = tt;
  clients = tt;
}

abbrev detail_of : ℕ → Text → CoreDetail (Unit {0})
detail_of now id = record {
  pty = id;
  command = codes "sleep" ∷ codes "1" ∷ [];
  cwd = none;
  env = tt;
  process_id = none;
  created_at = 0;
  controller = some (codes "rec:rex-1");
  cols = 80;
  rows = 24;
  output_history_bytes = now;
  output_history_limit = tt;
  clients = tt;
  exit_code = exit_at now;
}

abbrev core : Core ℕ (Unit {0})
core = record {
  session = λ now id. some (summary_of now id);
  list = λ now. summary_of now (codes "rex-1") ∷ [];
  detail = λ now id. ok (detail_of now id);
  try_exit_code = λ now id. ok (exit_at now);
  snapshot_pty_plain = λ now id. ok [];
  snapshot_pty = λ now id. ok [];
  snapshot_formatted = λ now id. [];
  subscribe_exit_code = λ now id. ok tt;
  create_pty = λ now id command. (ok tt, now);
  force_controller = λ now id controller. now;
  remove_session = λ now id. (true, now);
  kill = λ now id. (ok tt, now);
  wait_exit_code_timeout = λ now id ms. (ok none, now + ms);
  write_from_controller = λ now id controller bytes. (ok true, now);
  register_client = λ now pty id token cols rows. (ok id, now);
  unregister_client = λ now pty id token. now;
  write_from_client = λ now pty id token bytes. (ok tt, now);
  set_client_size = λ now pty id token cols rows. (ok tt, now);
  set_controller = λ now pty id. (ok tt, now);
  drain_output = λ now id. ([], now);
  pass = λ now ms. now + ms;
}

abbrev clock_laws : TimeLaws core (λ now. now)
clock_laws = record {
  time-pass = λ now ms. refl;
  time-drain_output = λ now id. refl;
  time-force_controller = λ now id controller. refl;
  time-write_from_controller = λ now id controller bytes. refl;
}

abbrev client : ConnectedClient
client = record { token = 2; tx = 5; peer_addr = codes "10.0.0.3:4000" }

abbrev manager : ShellManager ℕ
manager = record {
  core = 0;
  locked = [];
  clients = (codes "rex-1", (codes "ann", client) ∷ []) ∷ [];
  exit_watchers = [];
}

abbrev ctx : Context
ctx = record {
  directory = codes "/d";
  has_manager = true;
  settings = none;
  unescape = λ s. ok s;
  split_words = λ s. ok (s ∷ []);
  read_file = λ path. ok [];
  now_ms = 1000;
  print = λ v. [];
}

abbrev runs : RunState ℕ
runs = record {
  manager = manager;
  exit_code_labels = (codes "rex-1", codes "timeout") ∷ (codes "rex-2", codes "stopped") ∷ [];
  description_labels = (codes "rex-1", codes "a wait") ∷ [];
  next_id = 3;
  timers = [];
}

abbrev options : ExbashOptions
options = record {
  mode = some (codes "attach");
  shell = false;
  shell_profile = none;
  command = none;
  description = none;
  timeout = some (pos 20000);
  read_timeout = none;
  async_id = some (codes "rex-1");
  text = none;
  file_path = none;
  workdir = none;
  show_raw_pretty = false;
}

abbrev request : ExecutorRequest
request = record {
  id = null;
  method = codes "exbash";
  params = object end;
  directory = none;
  executor = none;
  tool_timeout_ms = none;
}

remove_client-client_at_example :
    client_at
      (remove_client core manager (codes "rex-1") (codes "ann") 1).clients
      (codes "rex-1")
      (codes "ann")
    ≡ some client
unfolding lookup text_eq
remove_client-client_at_example =
    remove_client-client_at core manager (codes "rex-1") (codes "ann") 1 (codes "rex-1")
      (codes "ann")

abbrev events : List Event
events =
    registered (codes "rex-2") (codes "bob") client
    ∷ left (codes "rex-1") (codes "ann") 2
    ∷ exit_seen (codes "rex-1") true
    ∷ []

run_events-HasClients_example : HasClients core (run_events core manager events).clients
run_events-HasClients_example = run_events-HasClients core manager events (tt, tt)

lock_pty-request_control_example :
    handle_client_message core
      (run_events core (lock_pty core manager (codes "rex-1")).1 events)
      5
      (codes "rex-1")
      (codes "ann")
      2
      (text_frame (ok request_control))
    ≡ (
      ok tt,
      run_events core (lock_pty core manager (codes "rex-1")).1 events,
      send_error core 5 (codes "pty is locked to user 0"),
    )
unfolding lock_pty text_eq
lock_pty-request_control_example =
    lock_pty-request_control core manager (codes "rex-1") events 5 (codes "ann") 2 refl
      (tt, (tt, (tt, tt))) (ne-text_eq (codes "ann") (codes "0") refl)

attach_input-within_call_timeout_example :
    (answer : Outcome Chain ToolResult × RunState ℕ) × (attach_input core ctx runs options
      ≡ some answer)
    × (answer.1.manager.core + 5 * 1000 ≤ 15 * 1000)
unfolding text_eq remote_executor.Caller.call_timeout_ms_for remote_executor.Json.get_field
attach_input-within_call_timeout_example =
    attach_input-within_call_timeout core ctx (λ now. now) clock_laws runs options request
      (15 * 1000) refl refl (omega arith) refl

validate_input_limits_iff_example : (validate_input_limits options ≡ ok tt) ↔ WithinLimits options
validate_input_limits_iff_example = validate_input_limits_iff options

abbrev after_removal : RunState ℕ
after_removal = (remove_run core ctx runs (codes "rex-1")).1

abbrev value_or_null : Outcome Chain Value → Value
value_or_null (ok value) = value
value_or_null _ = null

remove_run-Forgotten_example : Forgotten core ctx runs (codes "rex-1") after_removal
unfolding remove_run
remove_run-Forgotten_example =
    remove_run-Forgotten core ctx runs (codes "rex-1")
      (value_or_null (remove_run core ctx runs (codes "rex-1")).0) after_removal refl

abbrev no_detail : RunDetail
no_detail = record {
  async_id = [];
  pid = none;
  state = [];
  exit_code = none;
  total_output = 0;
  command = [];
  description = [];
  cwd = [];
  timeout = none;
  started_at = 0;
  ended_at = none;
  error = none;
}

abbrev detail_or_none : Outcome Chain RunDetail → RunDetail
detail_or_none (ok detail) = detail
detail_or_none _ = no_detail

abbrev stopped : Outcome Chain RunDetail × RunState ℕ
stopped = stop_run core ctx runs (codes "rex-1" ∷ []) (codes "rex-1")

stop_run-ShowsStopped_example :
    ShowsStopped core ctx (codes "rex-1" ∷ []) (codes "rex-1") (detail_or_none stopped.0)
unfolding stop_run
stop_run-ShowsStopped_example =
    stop_run-ShowsStopped core ctx
      (λ now id detail h. sym (ap (λ (d : CoreDetail (Unit {0})). d.pty) (ok-injective h))) runs
      (codes "rex-1" ∷ []) (codes "rex-1") (detail_or_none stopped.0) stopped.1 refl

wait_stop-EndsAt_example :
    Gives (EndsAt core (λ now. now) clock_laws 25) (wait_stop core 26 0 (codes "rex-1") 25 [])
wait_stop-EndsAt_example =
    wait_stop-EndsAt core (λ now. now) clock_laws 26 0 (codes "rex-1") 25 [] (omega arith)
