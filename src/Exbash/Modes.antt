-- ===== src/Exbash/Modes.antt =====
-- The modes of `exbash` in tools/exbash/mod.rs. What they send to the clients of a terminal is left out; it
-- changes no state.
use remote_executor.Base.{true, Option, none, some, List, [], ◌∷◌, ◌++◌, if◌then◌else◌}
use remote_executor.Base.Options.{unwrap_or}
use remote_executor.Base.Steps.{continue, proceed}
use remote_executor.Base.Outcome.{Outcome, ok, ◌>>=◌}
use remote_executor.Text.{Text, codes, text_eq, is_empty}
use remote_executor.Json.{Value, string, bool, number, unsigned, array_of, value_or_null}
use remote_executor.Protocol.{ToolResult, json_object, tool_output, tool_output_full}
use remote_executor.Settings.{Chain}
use remote_executor.Shell.{Core}
use remote_executor.Exbash.{
  read_timeout_ms, ExbashOptions, RunDetail, StartedJob, RunState, Context,
}
use remote_executor.Exbash.Options.{fail, validate_input_limits, clip}
use remote_executor.Exbash.Runs.{
  run_detail, list_run_details, format_run_details, run_value, set_field,
}
use remote_executor.Exbash.Jobs.{manager_of, start_job, stop_run, remove_run, forget_run}
use remote_executor.Exbash.Waits.{wait_for_stop_with_output}
use remote_executor.Exbash.Attach.{read_then, required_id, attach_input}

module _ {C X : Type 0} (core : Core C X) (ctx : Context) where
  abbrev finished :
      RunState C → StartedJob → RunDetail × Text → Outcome Chain ToolResult × RunState C
  finished runs job (detail, output) =
      continue (clip output, forget_run core ctx runs job.async_id)
        (λ clipped runs'. (
          ok (record {
            metadata = json_object (
                (codes "output", string clipped)
                ∷ (codes "exitCode", value_or_null detail.exit_code)
                ∷ (codes "command", string detail.command)
                ∷ (codes "description", string detail.description)
                ∷ (codes "cwd", string detail.cwd)
                ∷ (codes "totalOutput", number (unsigned detail.total_output))
                ∷ []);
            output = tool_output output;
          }),
          runs',
        ))

  abbrev detached : RunState C → StartedJob → Outcome Chain ToolResult × RunState C
  detached runs job =
      read_then core ctx (run_detail core ctx runs job.async_id (some job.description) job.timeout)
        runs
        (λ detail. do
          snapshot ← core.snapshot_pty_plain runs.manager.core job.async_id
          ok (record {
            metadata = set_field (codes "detached") (bool true) (run_value detail);
            output = tool_output_full (job.async_id ++ codes " detached") snapshot [];
          }))

  abbrev finished_or_detached :
      RunState C → StartedJob → Option (RunDetail × Text) → Outcome Chain ToolResult × RunState C
  finished_or_detached runs job (some result) = finished runs job result
  finished_or_detached runs job none = detached runs job

  unfoldable pub run_command :
      RunState C → ExbashOptions → Option (Outcome Chain ToolResult × RunState C)
  unfolding start_job wait_for_stop_with_output clip run_value
  run_command runs options = proceed (some (start_job core ctx runs options)) (λ job runs1.
      proceed
        (wait_for_stop_with_output core ctx runs1 job
          (unwrap_or read_timeout_ms options.read_timeout))
        (λ found runs2. some (finished_or_detached runs2 job found)))

  abbrev values_of : List RunDetail → List Value
  values_of [] = []
  values_of (run ∷ runs) = run_value run ∷ values_of runs

  unfoldable pub list_mode : RunState C → ExbashOptions → Outcome Chain ToolResult × RunState C
  unfolding list_run_details format_run_details run_value
  list_mode runs options = continue (manager_of core ctx runs) (λ u runs1.
      read_then core ctx (list_run_details core ctx runs1 options.async_id) runs1 (λ details.
        ok (record {
          metadata = json_object ((codes "runs", array_of (values_of details)) ∷ []);
          output = tool_output (format_run_details ctx details);
        })))

  unfoldable pub stop_mode :
      RunState C → List Text → ExbashOptions → Outcome Chain ToolResult × RunState C
  unfolding stop_run run_value
  stop_mode runs fired options = continue (required_id core ctx runs options) (λ id runs1.
      continue (manager_of core ctx runs1) (λ u runs2.
        continue (stop_run core ctx runs2 fired id) (λ detail runs3.
          read_then core ctx (core.snapshot_pty_plain runs3.manager.core id) runs3
            (λ output. ok (record { metadata = run_value detail; output = tool_output output })))))

  unfoldable pub remove_mode : RunState C → ExbashOptions → Outcome Chain ToolResult × RunState C
  unfolding remove_run
  remove_mode runs options = continue (required_id core ctx runs options) (λ id runs1.
      continue (manager_of core ctx runs1) (λ u runs2.
        continue (remove_run core ctx runs2 id) (λ value runs3. (
          ok (record {
            metadata = json_object ((codes "ok", bool true) ∷ []);
            output = tool_output (codes "ok");
          }),
          runs3,
        ))))

  abbrev as_shell : ExbashOptions → ExbashOptions
  as_shell options = record {
    mode = options.mode;
    shell = true;
    shell_profile = options.shell_profile;
    command = options.command;
    description = options.description;
    timeout = options.timeout;
    read_timeout = options.read_timeout;
    async_id = options.async_id;
    text = options.text;
    file_path = options.file_path;
    workdir = options.workdir;
    show_raw_pretty = options.show_raw_pretty;
  }

  -- the match on the mode; a branch that is not taken does not run
  abbrev run_mode :
      RunState C → List Text → ExbashOptions → Text → Option (Outcome Chain ToolResult × RunState C)
  run_mode runs fired options mode =
      if text_eq mode (codes "run")
      then run_command runs options
      else if text_eq mode (codes "shell")
      then run_command runs (as_shell options)
      else if text_eq mode (codes "attach")
      then attach_input core ctx runs options
      else if text_eq mode (codes "list")
      then some (list_mode runs options)
      else if text_eq mode (codes "stop")
      then some (stop_mode runs fired options)
      else if text_eq mode (codes "remove")
      then some (remove_mode runs options)
      else if is_empty mode
      then some (fail (codes "exbash mode is required"), runs)
      else some (fail (codes "unknown exbash mode: " ++ mode), runs)

  -- `fired` names the runs whose timers come during the wait of a stop
  unfoldable pub exbash :
      RunState C → List Text → ExbashOptions → Option (Outcome Chain ToolResult × RunState C)
  unfolding run_command attach_input list_mode stop_mode remove_mode validate_input_limits
  exbash runs fired options =
      proceed (some (validate_input_limits options, runs))
        (λ u runs'. run_mode runs' fired options (unwrap_or [] options.mode))
