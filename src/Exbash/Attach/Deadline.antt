-- ===== src/Exbash/Attach/Deadline.antt =====
-- The time that mode attach of tools/exbash/mod.rs takes, and what the caller allows for it.
use remote_executor.Base.{
  ℕ, ◌+◌, ◌^◌, ◌≤◌, ◌<◌, ◌≡◌, refl, true, Option, none, some, [], ◌∷◌, ◌++◌, arith,
}
use remote_executor.Base.Options.{unwrap_or, and_then}
use remote_executor.Base.Steps.{Gives, Gives-map, continue-lem, proceed-some, proceed-Gives}
use mathlib.Core.Path.{subst}
use remote_executor.Base.Outcome.{Outcome}
use remote_executor.Text.{Text, codes, text_eq}
use remote_executor.Json.{as_u64, get}
use remote_executor.Protocol.{ExecutorRequest, ToolResult}
use remote_executor.Caller.{call_timeout_ms_for, saturating_add, exbash_timeout_buffer_ms}
use remote_executor.Settings.{Chain}
use remote_executor.Shell.{Bytes, Core, CoreSummary, CoreDetail}
use remote_executor.Exbash.{ExbashOptions, RunState, Context, input_timeout_ms}
use remote_executor.Exbash.Options.{attach_read_timeout, input_data}
use remote_executor.Exbash.Options.Limits.{attach_read_timeout-le}
use remote_executor.Exbash.Jobs.{manager_of, on_core}
use remote_executor.Exbash.Waits.{attach, wait_attach_timeout, on_waited}
use remote_executor.Exbash.Waits.Time.{TimeLaws, wait_attach_timeout-time}
use remote_executor.Exbash.Attach.{
  attach_input, attach_found, attach_running, send_input, write_input, required_id,
}

module _ {C X : Type 0} (core : Core C X) (ctx : Context) (time : C → ℕ)
    (laws : TimeLaws core time) where
  -- it is not later than the deadline
  abbrev By {ℓ} : {A : Type ℓ} → ℕ → Outcome Chain A × RunState C → Type 0
  By deadline r = time r.1.manager.core ≤ deadline

  write_input-time :
      (runs : RunState C) (id controller : Text) (bytes : Bytes) (o : Option (CoreSummary X))
      → By (time runs.manager.core) (write_input core ctx runs id controller bytes o)
  write_input-time runs id controller bytes none = omega arith
  write_input-time runs id controller bytes (some session) =
      let forced = core.force_controller runs.manager.core id controller in
      let same = laws.time-force_controller runs.manager.core id controller in
      let written = laws.time-write_from_controller forced id controller bytes in
      continue-lem (By (time runs.manager.core))
        (on_core core ctx runs (core.write_from_controller forced id controller bytes)) _
        (λ e. omega (arith, same, written)) (omega (arith, same, written))
        (λ w _. omega (arith, same, written))

  send_input-time :
      (runs : RunState C) (id : Text) (bytes : Bytes)
      → By (time runs.manager.core) (send_input core ctx runs id bytes)
  send_input-time runs id [] = omega arith
  send_input-time runs id (b ∷ bytes) =
      let written =
        write_input core ctx runs id (codes "rec:" ++ id) (b ∷ bytes)
          (core.session runs.manager.core id) in
      let early : time written.1.manager.core ≤ time runs.manager.core =
        write_input-time runs id (codes "rec:" ++ id) (b ∷ bytes)
          (core.session runs.manager.core id) in
      continue-lem (By (time runs.manager.core)) written _ (λ e. early) early (λ u _. early)

  attach-time :
      (runs : RunState C) (id : Text) (offset timeout : ℕ) (controller : Option Text)
      → Gives
          (By (time runs.manager.core + timeout))
          (attach core ctx runs id offset timeout controller)
  unfolding attach
  attach-time runs id offset timeout controller =
      let deadline = time runs.manager.core + timeout in
      let waited = wait_attach_timeout core runs.manager.core id timeout controller in
      proceed-Gives (By deadline) (By deadline) (on_waited core ctx runs waited) _
        (waits waited
          (wait_attach_timeout-time core time laws runs.manager.core id timeout controller))
        (λ e after over. over) (λ after over. over)
        (λ u after over. (
          _,
          refl,
          continue-lem (By deadline) (core.snapshot_pty_plain after.manager.core id, after) _
              (λ e. over) over
              (λ text _.
                continue-lem (By deadline) (core.detail after.manager.core id, after) _ (λ e. over)
                  over (λ detail _. over)),
        ))
    where
      waits :
          (w : Option (Outcome Chain (Unit {0}) × C))
          → Gives (λ r. time r.1 ≤ time runs.manager.core + timeout) w
          → Gives (By (time runs.manager.core + timeout)) (on_waited core ctx runs w)
      waits none (r, e, over) = cc
      waits (some w) (r, e, over) =
          let same : r ≡ w = cc in
          (_, refl, subst (λ x. time x.1 ≤ time runs.manager.core + timeout) same over)

  attach_running-time :
      (runs : RunState C) (options : ExbashOptions) (id : Text) (detail : CoreDetail X)
      (timeout : ℕ)
      → Gives
          (By (time runs.manager.core + timeout))
          (attach_running core ctx runs options id detail timeout)
  attach_running-time runs options id detail timeout =
      let deadline = time runs.manager.core + timeout in
      proceed-some (By deadline) (input_data ctx options, runs) _ (λ e. omega arith) (omega arith)
        (λ input _.
          let sent = send_input core ctx runs id input.0 in
          let early : time sent.1.manager.core ≤ time runs.manager.core =
            send_input-time runs id input.0 in
          proceed-some (By deadline) sent _ (λ e. omega arith) (omega arith)
            (λ controller _.
              proceed-Gives (By (time sent.1.manager.core + timeout)) (By deadline)
                (attach core ctx sent.1 id detail.output_history_bytes timeout controller) _
                (attach-time sent.1 id detail.output_history_bytes timeout controller)
                (λ e after over. omega arith) (λ after over. omega arith)
                (λ result after over. (_, refl, omega arith))))

  attach_found-time :
      (runs : RunState C) (options : ExbashOptions) (id : Text) (detail : CoreDetail X)
      (timeout : ℕ) (exit_code : Option ℕ)
      → Gives
          (By (time runs.manager.core + timeout))
          (attach_found core ctx runs options id detail timeout exit_code)
  attach_found-time runs options id detail timeout (some code) = (_, refl, omega arith)
  attach_found-time runs options id detail timeout none =
      attach_running-time runs options id detail timeout

  attach_input-time :
      (runs : RunState C) (options : ExbashOptions)
      → Gives
          (By (time runs.manager.core + unwrap_or input_timeout_ms options.read_timeout))
          (attach_input core ctx runs options)
  unfolding attach_input
  attach_input-time runs options =
      let deadline = time runs.manager.core + unwrap_or input_timeout_ms options.read_timeout in
      proceed-some (By deadline) (attach_read_timeout options, runs) _ (λ e. omega arith)
        (omega arith)
        (λ timeout allowed.
          proceed-some (By deadline) (required_id core ctx runs options) _ (λ e. omega arith)
            (omega arith)
            (λ id _.
              proceed-some (By deadline) (manager_of core ctx runs) _ (λ e. omega arith)
                (omega arith)
                (λ u _.
                  proceed-some (By deadline) (core.detail runs.manager.core id, runs) _
                    (λ e. omega arith) (omega arith)
                    (λ detail _.
                      let le = attach_read_timeout-le options timeout allowed in
                      Gives-map (λ r over. omega arith)
                        (attach_found-time runs options id detail timeout detail.exit_code)))))

  -- The loop of mode attach ends by itself, and the call has its answer at least five seconds before the
  -- caller of the request gives up: where the options have the `read_timeout` of the request's parameters,
  -- that time and the five seconds are below 2 ^ 64 together, a sleep lasts as long as it says and the
  -- other calls take no time.
  pub attach_input-within_call_timeout :
      (runs : RunState C) (options : ExbashOptions) (request : ExecutorRequest) (allowed : ℕ)
      → text_eq request.method (codes "exbash") ≡ true
      → options.read_timeout ≡ and_then (get (codes "read_timeout") request.params) as_u64
      → unwrap_or 10000 options.read_timeout + exbash_timeout_buffer_ms < 2 ^ 64
      → call_timeout_ms_for request ≡ some allowed
      → (answer : Outcome Chain ToolResult × RunState C) × (attach_input core ctx runs options
          ≡ some answer)
        × (time answer.1.manager.core + exbash_timeout_buffer_ms ≤ time runs.manager.core + allowed)
  unfolding call_timeout_ms_for
  attach_input-within_call_timeout runs options request allowed method named small timeout =
      let limit : ◌≡◌ {A = Option ℕ}
          (some (saturating_add (unwrap_or 10000 options.read_timeout) exbash_timeout_buffer_ms))
          (some allowed) =
        rw named (rw method at timeout) in
      let same : saturating_add (unwrap_or 10000 options.read_timeout) exbash_timeout_buffer_ms
          ≡ allowed =
        cc in
      Gives-map (λ answer over. omega arith) (attach_input-time runs options)
