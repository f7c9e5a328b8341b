-- ===== src/Exbash/Attach.antt =====
-- Mode attach of `exbash` in tools/exbash/mod.rs. What it sends to the clients of the terminal is left
-- out; it changes no state.
pub mod Deadline
use Prim.Native.String.{String}
use remote_executor.Base.{
  ℕ, Bool, true, false, not, ◌||◌, Option, none, some, List, [], ◌∷◌, ◌++◌, if◌then◌else◌, is_some,
  length,
}
use remote_executor.Base.Options.{unwrap_or, and_then}
use remote_executor.Base.Steps.{continue, proceed}
use remote_executor.Base.Outcome.{Outcome, ok, err, panic, ◌>>=◌, ok_or}
use remote_executor.Text.{Text, codes, text_eq, is_empty}
use remote_executor.Text.Lossy.{from_utf8_lossy}
use remote_executor.Json.{
  Value, null, string, bool, number, unsigned, object, as_str, get, array_of, remove_field,
  value_or_null,
}
use remote_executor.Protocol.{ToolResult, json_object, tool_output, tool_output_full}
use remote_executor.Settings.{Chain}
use remote_executor.Shell.{Bytes, CoreSummary, CoreDetail, Core}
use remote_executor.Exbash.{
  read_timeout_ms, ExbashOptions, RunDetail, StartedJob, RunState, Context,
}
use remote_executor.Exbash.Options.{
  fail, text_input, file_path_input, validate_input_limits, attach_read_timeout,
  requested_input_source, stopped_attach_message, input_data, clip,
}
use remote_executor.Exbash.Runs.{
  exit_code_display, exit_code_json, run_detail, list_run_details, format_run_details, run_value,
  set_field, merge_json,
}
use remote_executor.Exbash.Jobs.{
  in_core, on_core, not_found_message, manager_of, start_job, stop_run, remove_run, forget_run,
}
use remote_executor.Exbash.Waits.{wait_for_stop_with_output, attach}

module _ {C X : Type 0} (core : Core C X) (ctx : Context) where
  -- what a call that reads the state is followed by
  abbrev pub read_then :
      {A B : Type 0}
      → Outcome Chain A
      → RunState C
      → (A → Outcome Chain B)
      → Outcome Chain B × RunState C
  read_then m runs f = (m >>= f, runs)

  abbrev pub required_id : RunState C → ExbashOptions → Outcome Chain Text × RunState C
  required_id runs options = (ok_or options.async_id (codes "asyncID is required" ∷ []), runs)

  -- `take_message`: the text of the field, and the value without it
  abbrev take_message : Value → Text × Value
  take_message (object fields) = (
    unwrap_or [] (and_then (get (codes "message") (object fields)) as_str),
    object (remove_field (codes "message") fields),
  )
  take_message value = ([], value)

  unfoldable pub add_raw_pretty : RunState C → Text → Value → Bool → Outcome Chain Value
  unfolding merge_json from_utf8_lossy
  add_raw_pretty runs id value false = ok value
  add_raw_pretty runs id value true = do
    formatted ← core.snapshot_pty runs.manager.core id
    ok (
        merge_json value
          (json_object ((codes "rawPretty", string (from_utf8_lossy formatted)) ∷ [])))

  abbrev pub attach_stopped :
      RunState C → ExbashOptions → Text → CoreDetail X → ℕ → Outcome Chain ToolResult × RunState C
  attach_stopped runs options id detail exit_code =
      let input_failed = is_some (text_input options) || is_some (file_path_input options) in
      let message = stopped_attach_message (exit_code_display runs id exit_code) input_failed in
      let value = json_object (
        (codes "asyncID", string id)
        ∷ (codes "wrote", number (unsigned 0))
        ∷ (codes "source", string (requested_input_source options))
        ∷ (codes "outputBytes", number (unsigned detail.output_history_bytes))
        ∷ (codes "state", string (codes "stopped"))
        ∷ (
          codes "exitCode",
          unwrap_or (number (unsigned exit_code)) (exit_code_json runs id (some exit_code)),
        )
        ∷ []) in
      read_then (add_raw_pretty runs id value options.show_raw_pretty) runs (λ pretty. do
        snapshot ← core.snapshot_pty_plain runs.manager.core id
        ok (record { metadata = pretty; output = tool_output_full message snapshot [] }))

  abbrev controller_of : C → Text → Text
  controller_of c id =
      unwrap_or (codes "unknown")
        (and_then (core.session c id) (λ (session : CoreSummary X). session.controller))

  abbrev pub write_input :
      RunState C
      → Text
      → Text
      → Bytes
      → Option (CoreSummary X)
      → Outcome Chain (Unit {0}) × RunState C
  write_input runs id controller bytes none = (fail (not_found_message id), runs)
  write_input runs id controller bytes (some session) =
      let forced = core.force_controller runs.manager.core id controller in
      continue (on_core core ctx runs (core.write_from_controller forced id controller bytes))
        (λ written runs'. (
          if written
              then ok tt
              else fail
                  (codes "control lost: someone attached: " ++ controller_of runs'.manager.core id),
          runs',
        ))

  -- the controller under whose name the bytes were written, if there were any
  abbrev pub send_input : RunState C → Text → Bytes → Outcome Chain (Option Text) × RunState C
  send_input runs id [] = (ok none, runs)
  send_input runs id (b ∷ bytes) =
      let controller = codes "rec:" ++ id in
      continue (write_input runs id controller (b ∷ bytes) (core.session runs.manager.core id))
        (λ u runs'. (ok (some controller), runs'))

  abbrev pub attach_running :
      RunState C
      → ExbashOptions
      → Text
      → CoreDetail X
      → ℕ
      → Option (Outcome Chain ToolResult × RunState C)
  attach_running runs options id detail read_timeout =
      proceed (some (input_data ctx options, runs)) (λ input runs1.
        let (bytes, source) = input in
        proceed (some (send_input runs1 id bytes)) (λ controller runs2.
          proceed (attach core ctx runs2 id detail.output_history_bytes read_timeout controller)
            (λ attached runs3.
              let (snapshot, attach_meta) = attached in
              let value = json_object (
                (codes "asyncID", string id)
                ∷ (codes "wrote", number (unsigned (length bytes)))
                ∷ (codes "source", string source)
                ∷ []) in
              let taken = take_message (merge_json value attach_meta) in
              some (
                read_then (add_raw_pretty runs3 id taken.1 options.show_raw_pretty) runs3 (λ pretty.
                  ok (record {
                    metadata = pretty;
                    output = tool_output_full taken.0 snapshot [];
                  }))))))

  abbrev pub attach_found :
      RunState C
      → ExbashOptions
      → Text
      → CoreDetail X
      → ℕ
      → Option ℕ
      → Option (Outcome Chain ToolResult × RunState C)
  attach_found runs options id detail read_timeout (some exit_code) =
      some (attach_stopped runs options id detail exit_code)
  attach_found runs options id detail read_timeout none =
      attach_running runs options id detail read_timeout

  unfoldable pub attach_input :
      RunState C → ExbashOptions → Option (Outcome Chain ToolResult × RunState C)
  unfolding add_raw_pretty attach_read_timeout requested_input_source stopped_attach_message
      input_data attach exit_code_display
  attach_input runs options =
      proceed (some (attach_read_timeout options, runs)) (λ read_timeout runs1.
        proceed (some (required_id runs1 options)) (λ id runs2.
          proceed (some (manager_of core ctx runs2)) (λ u runs3.
            proceed (some (core.detail runs3.manager.core id, runs3)) (λ detail runs4.
              attach_found runs4 options id detail read_timeout detail.exit_code))))
