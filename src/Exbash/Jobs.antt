-- ===== src/Exbash/Jobs.antt =====
-- How runs start, stop and go: `start_job`, `stop_run`, `remove_run` and `spawn_timeout` of
-- tools/exbash/runs.rs.
pub mod Ends
use Prim.Native.String.{String}
use remote_executor.Base.{
  ℕ, zero, suc, ◌+◌, ◌-◌, min, Bool, true, false, not, ◌&&◌, Option, none, some, List, [], ◌∷◌,
  ◌++◌, if◌then◌else◌, ltb, leb, is_some,
}
use remote_executor.Base.Options.{unwrap_or}
use remote_executor.Base.Steps.{continue}
use remote_executor.Base.Outcome.{Outcome, ok, err, panic, ◌>>=◌, ok_or, map_err}
use remote_executor.Text.{Text, codes, text_eq}
use remote_executor.Text.Decimal.{decimal}
use remote_executor.Text.Lossy.{from_utf8_lossy}
use remote_executor.Paths.{resolve}
use remote_executor.Json.{Value, string, bool, number, unsigned}
use remote_executor.Protocol.{json_object}
use remote_executor.Settings.{Chain, CommandSpec}
use remote_executor.Shell.{Bytes, CoreSummary, CoreDetail, Core, ShellManager, Sent}
use remote_executor.Shell.Manager.{with_core, remove_pty}
use remote_executor.Exbash.{
  ℤ, exbash_prefix, ExbashOptions, RunDetail, StartedJob, RunState, Context,
}
use remote_executor.Exbash.Options.{fail, not_empty, timeout_ms, description}
use remote_executor.Exbash.Runs.{
  with_manager, set_exit_code_label, clear_exit_code_label, set_description_label,
  clear_description_label, exit_code_display, exit_code_json, run_detail_from_session, run_detail,
  set_field,
}

abbrev pub not_found_message : Text → Text
not_found_message async_id = codes "Async run not found: " ++ async_id

-- on a system that is not Windows
unfoldable pub platform_shell_command_spec : Text → Text → CommandSpec
platform_shell_command_spec command cwd = record {
  program = codes "sh";
  args = codes "-c" ∷ command ∷ [];
  cwd = some cwd;
}

abbrev shell_spec :
    Option (Option Text → Text → Text → Outcome Chain CommandSpec)
    → Option Text
    → Text
    → Text
    → Outcome Chain CommandSpec
shell_spec none shell_profile command cwd = ok (platform_shell_command_spec command cwd)
shell_spec (some command_spec) shell_profile command cwd = command_spec shell_profile command cwd

unfoldable pub shell_command_spec :
    Context → ExbashOptions → Text → Text → Outcome Chain CommandSpec
unfolding platform_shell_command_spec
shell_command_spec ctx options command cwd =
    shell_spec ctx.settings options.shell_profile command cwd

abbrev spec_of_words : Text → List Text → Outcome Chain CommandSpec
spec_of_words cwd [] = fail (codes "command is required")
spec_of_words cwd (program ∷ args) = ok (record { program = program; args = args; cwd = some cwd })

unfoldable pub command_spec_for : Context → ExbashOptions → Text → Text → Outcome Chain CommandSpec
unfolding shell_command_spec
command_spec_for ctx options command cwd =
    if options.shell then shell_command_spec ctx options command cwd else (do
      parts ←
          map_err (λ e. (codes "failed to parse command arguments: " ++ e) ∷ [])
            (ctx.split_words command)
      spec_of_words cwd parts)

abbrev working_directory : Context → Option Text → Text
working_directory ctx none = ctx.directory
working_directory ctx (some path) = resolve ctx.directory path

module _ {C X : Type 0} (core : Core C X) (ctx : Context) where
  abbrev pub in_core : RunState C → C → RunState C
  in_core runs c = with_manager runs (with_core core runs.manager c)

  -- a call of the core that changes it
  abbrev pub on_core :
      {A : Type 0} → RunState C → Outcome Chain A × C → Outcome Chain A × RunState C
  on_core runs result = (result.0, in_core runs result.1)

  -- `next_id`: the clock and a number of its own
  unfoldable pub next_id : RunState C → Text × RunState C
  next_id runs = (
    exbash_prefix ++ (decimal ctx.now_ms ++ (codes "-" ++ decimal runs.next_id)),
    record {
      manager = runs.manager;
      exit_code_labels = runs.exit_code_labels;
      description_labels = runs.description_labels;
      next_id = suc runs.next_id;
      timers = runs.timers;
    },
  )

  unfoldable pub spawn_timeout : RunState C → Text → Option ℕ → RunState C
  spawn_timeout runs async_id none = runs
  spawn_timeout runs async_id (some timeout) = record {
    manager = runs.manager;
    exit_code_labels = runs.exit_code_labels;
    description_labels = runs.description_labels;
    next_id = runs.next_id;
    timers = (async_id, timeout) ∷ runs.timers;
  }

  -- what the task of `spawn_timeout` does when its time has come
  abbrev pub kill_labelled : RunState C → Text → Option (CoreSummary X) → RunState C
  kill_labelled runs async_id none = runs
  kill_labelled runs async_id (some session) =
      let labelled = set_exit_code_label runs async_id (codes "timeout") in
      in_core labelled (core.kill labelled.manager.core async_id).1

  abbrev pub has_exited : Outcome Chain (Option ℕ) → Bool
  has_exited (ok (some code)) = true
  has_exited _ = false

  unfoldable pub timeout_fires : RunState C → Text → RunState C
  unfolding set_exit_code_label
  timeout_fires runs async_id =
      if has_exited (core.try_exit_code runs.manager.core async_id)
      then runs
      else kill_labelled runs async_id (core.session runs.manager.core async_id)

  -- the timers of some runs, one after another
  abbrev pub timers_fire : RunState C → List Text → RunState C
  timers_fire runs [] = runs
  timers_fire runs (id ∷ ids) = timers_fire (timeout_fires runs id) ids

  abbrev pub manager_of : RunState C → Outcome Chain (Unit {0}) × RunState C
  manager_of runs = (
    if ctx.has_manager then ok tt else fail (codes "exbash requires a PTY-backed ShellManager"),
    runs,
  )

  unfoldable pub start_job : RunState C → ExbashOptions → Outcome Chain StartedJob × RunState C
  unfolding command_spec_for timeout_ms next_id spawn_timeout set_description_label description
      resolve
  start_job runs options =
      continue (ok_or options.command (codes "command is required" ∷ []), runs)
        (λ command runs1. continue (manager_of runs1) (λ u runs2.
          let cwd = working_directory ctx (not_empty options.workdir) in
          let named = next_id runs2 in
          let id = named.0 in
          continue (timeout_ms options, named.1)
            (λ timeout runs3.
              continue (command_spec_for ctx options command cwd, runs3)
                (λ spec runs4.
                  continue (on_core runs4 (core.create_pty runs4.manager.core id spec)) (λ v runs5.
                    let timed = spawn_timeout runs5 id timeout in
                    let label = description options in
                    (
                      ok (record { async_id = id; description = label; timeout = options.timeout }),
                      set_description_label timed id label,
                    ))))))

  abbrev pub killed_or_waited :
      RunState C
      → Text
      → Outcome Chain (Unit {0})
      → Outcome Chain (Option ℕ)
      → Outcome Chain RunDetail × RunState C
  killed_or_waited runs async_id (err e) waited = (err e, clear_exit_code_label runs async_id)
  killed_or_waited runs async_id panic waited = (panic, runs)
  killed_or_waited runs async_id (ok done) waited =
      continue (waited, runs) (λ code runs1. (run_detail core ctx runs1 async_id none none, runs1))

  -- whether the run has ended after all, with its detail
  abbrev pub ended_detail : Outcome Chain (CoreDetail X) → Option (CoreDetail X)
  ended_detail (ok detail) = if is_some detail.exit_code then some detail else none
  ended_detail _ = none

  abbrev pub report_stop :
      RunState C
      → Text
      → Outcome Chain (Unit {0})
      → Outcome Chain (Option ℕ)
      → Option (CoreDetail X)
      → Outcome Chain RunDetail × RunState C
  report_stop runs async_id killed waited (some detail) =
      (ok (run_detail_from_session ctx runs detail none none), runs)
  report_stop runs async_id killed waited none = killed_or_waited runs async_id killed waited

  -- While it waits for the end, the tasks of `spawn_timeout` go on: the timers of `fired` come.
  abbrev pub stop_found :
      RunState C → List Text → Text → Option (CoreSummary X) → Outcome Chain RunDetail × RunState C
  stop_found runs fired async_id none = (fail (not_found_message async_id), runs)
  stop_found runs fired async_id (some session) =
      let labelled = set_exit_code_label runs async_id (codes "stopped") in
      let killed = core.kill labelled.manager.core async_id in
      let meanwhile = timers_fire (in_core labelled killed.1) fired in
      let waited = core.wait_exit_code_timeout meanwhile.manager.core async_id 500 in
      report_stop (in_core meanwhile waited.1) async_id killed.0 waited.0
        (ended_detail (core.detail waited.1 async_id))

  unfoldable pub stop_run : RunState C → List Text → Text → Outcome Chain RunDetail × RunState C
  unfolding timeout_fires set_exit_code_label clear_exit_code_label run_detail
      run_detail_from_session
  stop_run runs fired async_id =
      stop_found runs fired async_id (core.session runs.manager.core async_id)

  abbrev pub kill_and_wait :
      RunState C → Text → Option (CoreSummary X) → Outcome Chain (Option ℕ) × RunState C
  kill_and_wait runs async_id none = (fail (not_found_message async_id), runs)
  kill_and_wait runs async_id (some session) =
      continue (on_core runs (core.kill runs.manager.core async_id))
        (λ u runs1. on_core runs1 (core.wait_exit_code_timeout runs1.manager.core async_id 500))

  -- the exit code, and whether the run had to be stopped for it
  abbrev pub end_run : RunState C → Text → Option ℕ → Outcome Chain (Option ℕ × Bool) × RunState C
  end_run runs async_id (some code) = (ok (some code, false), runs)
  end_run runs async_id none =
      continue (kill_and_wait runs async_id (core.session runs.manager.core async_id))
        (λ code runs1. (ok (code, true), runs1))

  abbrev with_exit_code : Value → Option ℕ → Value
  with_exit_code value none = value
  with_exit_code value (some code) = set_field (codes "exitCode") (number (unsigned code)) value

  -- the terminal and both labels go
  abbrev pub forget_run : RunState C → Text → RunState C
  forget_run runs async_id =
      let gone = with_manager runs (remove_pty core runs.manager async_id).1 in
      clear_description_label (clear_exit_code_label gone async_id) async_id

  unfoldable pub remove_run : RunState C → Text → Outcome Chain Value × RunState C
  unfolding remove_pty clear_exit_code_label clear_description_label
  remove_run runs async_id =
      continue (core.detail runs.manager.core async_id, runs)
        (λ detail runs1. continue (end_run runs1 async_id detail.exit_code) (λ ended runs2.
          let (exit_code, stopped) = ended in
          (
            ok (
                with_exit_code
                  (json_object (
                    (codes "asyncID", string async_id)
                    ∷ (codes "removed", bool true)
                    ∷ (codes "stopped", bool stopped)
                    ∷ []))
                  exit_code),
            forget_run runs2 async_id,
          )))
