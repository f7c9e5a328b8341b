-- ===== src/Exbash/Waits.antt =====
-- The loops of tools/exbash/runs.rs that look every 20 ms, and what they give.
pub mod Time
use Prim.Native.String.{String}
use remote_executor.Base.{
  ℕ, zero, suc, ◌+◌, ◌-◌, ◌==◌, min, Bool, true, false, not, ◌&&◌, Option, none, some, List, [],
  ◌∷◌, ◌++◌, if◌then◌else◌, is_some,
}
use remote_executor.Base.Options.{unwrap_or}
use remote_executor.Base.Steps.{continue, proceed}
use remote_executor.Base.Outcome.{Outcome, ok, err, panic, ◌>>=◌}
use remote_executor.Text.{Text, codes, text_eq}
use remote_executor.Text.Lossy.{from_utf8_lossy}
use remote_executor.Json.{Value, null, string, number, unsigned}
use remote_executor.Protocol.{json_object}
use remote_executor.Settings.{Chain}
use remote_executor.Shell.{Bytes, CoreSummary, CoreDetail, Core}
use remote_executor.Exbash.{RunDetail, StartedJob, RunState, Context}
use remote_executor.Exbash.Options.{fail}
use remote_executor.Exbash.Runs.{exit_code_display, exit_code_json, run_detail, set_field}
use remote_executor.Exbash.Jobs.{on_core, not_found_message}

module _ {C X : Type 0} (core : Core C X) where
  -- The loop of `wait_for_stop_with_output`: `remaining` is the time to the deadline, which is down to 0 within
  -- as many rounds. It gives the output of a run that has ended, and no result at all where the rounds run
  -- out first.
  unfoldable pub wait_stop : ℕ → C → Text → ℕ → Bytes → Option (Outcome Chain (Option Bytes) × C)
  wait_stop zero c async_id remaining output = none
  wait_stop (suc rounds) c async_id remaining output =
      let drained = core.drain_output c async_id in
      let output' = output ++ drained.0 in
      let last = core.drain_output (core.pass drained.1 20) async_id in
      let nap = min remaining 20 in
      let later : C → Option (Outcome Chain (Option Bytes) × C) =
        λ c'. wait_stop rounds (core.pass c' nap) async_id (remaining - nap) output' in
      proceed (some (core.try_exit_code drained.1 async_id, drained.1)) (λ code c'.
        if is_some code
        then some (ok (some (output' ++ last.0)), last.1)
        else if remaining == 0
        then some (ok none, (core.drain_output c' async_id).1)
        else later c')

  -- whether the writer still controls the terminal
  abbrev holds_control : Option Text → Text → Bool
  holds_control none controller = false
  holds_control (some current) controller = text_eq current controller

  abbrev check_session : Text → Text → Option (CoreSummary X) → Outcome Chain (Unit {0})
  check_session async_id controller none = fail (not_found_message async_id)
  check_session async_id controller (some session) =
      if holds_control session.controller controller
      then ok tt
      else fail (
          codes "control lost: someone attached: "
          ++ unwrap_or (codes "unknown") session.controller)

  abbrev check_control : C → Text → Option Text → Outcome Chain (Unit {0})
  check_control c async_id none = ok tt
  check_control c async_id (some controller) =
      check_session async_id controller (core.session c async_id)

  -- the loop of `wait_attach_timeout`, without a result where the rounds run out
  unfoldable pub wait_attach :
      ℕ → C → Text → ℕ → Option Text → Option (Outcome Chain (Unit {0}) × C)
  wait_attach zero c async_id remaining controller = none
  wait_attach (suc rounds) c async_id remaining controller =
      let nap = min remaining 20 in
      let later : C → Option (Outcome Chain (Unit {0}) × C) =
        λ c'. wait_attach rounds (core.pass c' nap) async_id (remaining - nap) controller in
      proceed (some (check_control c async_id controller, c)) (λ u c1.
        proceed (some (core.detail c1 async_id, c1)) (λ detail c2.
          if is_some detail.exit_code
          then some (ok tt, c2)
          else if remaining == 0
          then some (ok tt, c2)
          else later c2))

  unfoldable pub wait_attach_timeout :
      C → Text → ℕ → Option Text → Option (Outcome Chain (Unit {0}) × C)
  unfolding wait_attach
  wait_attach_timeout c async_id timeout controller =
      wait_attach (suc timeout) c async_id timeout controller

  module _ (ctx : Context) where
    -- the end of a wait, in the state of the runs
    abbrev pub on_waited :
        {A : Type 0}
        → RunState C
        → Option (Outcome Chain A × C)
        → Option (Outcome Chain A × RunState C)
    on_waited runs none = none
    on_waited runs (some waited) = some (on_core core ctx runs waited)

    abbrev stopped_job :
        RunState C
        → StartedJob
        → Option Bytes
        → Outcome Chain (Option (RunDetail × Text)) × RunState C
    stopped_job runs job none = (ok none, runs)
    stopped_job runs job (some output) =
        continue (run_detail core ctx runs job.async_id (some job.description) job.timeout, runs)
          (λ detail runs'. (ok (some (detail, from_utf8_lossy output)), runs'))

    unfoldable pub wait_for_stop_with_output :
        RunState C
        → StartedJob
        → ℕ
        → Option (Outcome Chain (Option (RunDetail × Text)) × RunState C)
    unfolding wait_stop run_detail from_utf8_lossy
    wait_for_stop_with_output runs job timeout =
        let waited = wait_stop (suc timeout) runs.manager.core job.async_id timeout [] in
        proceed (on_waited runs waited) (λ found runs'. some (stopped_job runs' job found))

    abbrev add_exit : RunState C → Text → Option ℕ → Value → Value
    add_exit runs async_id none metadata = metadata
    add_exit runs async_id (some code) metadata =
        let shown = exit_code_display runs async_id code in
        set_field (codes "message") (string (codes "task exited with code " ++ shown)) (
          set_field (codes "exitCode")
            (unwrap_or (number (unsigned code)) (exit_code_json runs async_id (some code)))
            (set_field (codes "state") (string (codes "stopped")) metadata))

    unfoldable pub attach :
        RunState C → Text → ℕ → ℕ → Option Text → Option (Outcome Chain (Text × Value) × RunState C)
    unfolding wait_attach_timeout exit_code_display exit_code_json
    attach runs async_id output_offset timeout controller =
        let waited = wait_attach_timeout runs.manager.core async_id timeout controller in
        proceed (on_waited runs waited) (λ u runs1. some (
          continue (core.snapshot_pty_plain runs1.manager.core async_id, runs1)
            (λ text runs2.
              continue (core.detail runs2.manager.core async_id, runs2)
                (λ detail runs3. (
                  ok (
                    text,
                    add_exit runs3 async_id detail.exit_code (
                        json_object (
                          (
                            codes "outputBytes",
                            number (unsigned (detail.output_history_bytes - output_offset)),
                          )
                          ∷ [])),
                  ),
                  runs3,
                )))))
