-- ===== src/Exbash/Waits/Time.antt =====
-- How long the waits of tools/exbash/runs.rs take.
use remote_executor.Base.{
  ℕ, zero, suc, ◌+◌, ◌-◌, ◌≤◌, ◌≡◌, refl, ◌==◌, inl, inr, min, Option, none, some, ◌++◌, is_some,
  if-lem, ==_iff, Bool-cases, arith,
}
use mathlib.Core.Path.{subst}
use remote_executor.Base.Steps.{Gives, Gives-map, proceed-some}
use remote_executor.Base.Outcome.{Outcome, ok, err, panic}
use remote_executor.Text.{Text}
use remote_executor.Settings.{Chain}
use remote_executor.Shell.{Bytes, Core}
use remote_executor.Exbash.Waits.{wait_stop, wait_attach, wait_attach_timeout, check_control}

-- What takes time, by the clock `time`: a sleep as long as it says, and the other calls none.
pub record TimeLaws {C X : Type 0} (core : Core C X) (time : C → ℕ) : Type 0 where
  pub time-pass : (c : C) (ms : ℕ) → time (core.pass c ms) ≡ time c + ms
  pub time-drain_output : (c : C) (id : Text) → time (core.drain_output c id).1 ≡ time c
  pub time-force_controller :
      (c : C) (id controller : Text) → time (core.force_controller c id controller) ≡ time c
  pub time-write_from_controller :
      (c : C) (id controller : Text) (bytes : Bytes)
      → time (core.write_from_controller c id controller bytes).1 ≡ time c

module _ {C X : Type 0} (core : Core C X) (time : C → ℕ) (laws : TimeLaws core time) where
  -- the wait for an attach has a result, and it has it at its deadline at the latest
  wait_attach-time :
      (rounds : ℕ) (c : C) (id : Text) (remaining : ℕ) (controller : Option Text)
      → suc remaining ≤ rounds
      → Gives
          (λ r. time r.1 ≤ time c + remaining)
          (wait_attach core rounds c id remaining controller)
  unfolding wait_attach
  wait_attach-time zero c id remaining controller h = absurd (omega arith)
  wait_attach-time (suc rounds) c id remaining controller h =
      proceed-some InTime (check_control core c id controller, c) _ (λ e. omega arith) (omega arith)
        (λ u _.
          proceed-some InTime (core.detail c id, c) _ (λ e. omega arith) (omega arith)
            (λ detail _.
              if-lem (Gives InTime) (is_some detail.exit_code) (_, refl, omega arith)
                (elim (Bool-cases (remaining == 0)) [
                  | inl e ↦ rw e (_, refl, omega arith)
                  | inr e ↦
                      let nap = min remaining 20 in
                      let left : 1 ≤ remaining = ground arith in
                      let slept = laws.time-pass c nap in
                      rw e (
                        Gives-map (λ r le. omega (arith, slept))
                          (wait_attach-time rounds (core.pass c nap) id (remaining - nap) controller
                            (omega arith)))
                ])))
    where
      InTime : Outcome Chain (Unit {0}) × C → Type 0
      InTime r = time r.1 ≤ time c + remaining

  pub wait_attach_timeout-time :
      (c : C) (id : Text) (timeout : ℕ) (controller : Option Text)
      → Gives (λ r. time r.1 ≤ time c + timeout) (wait_attach_timeout core c id timeout controller)
  unfolding wait_attach_timeout
  wait_attach_timeout-time c id timeout controller =
      wait_attach-time (suc timeout) c id timeout controller (omega arith)

  -- what the wait for the end of a run leaves: no more than 20 ms over the time that remains, and all of it
  -- where there is no output
  abbrev pub EndsAt : ℕ → Outcome Chain (Option Bytes) × C → Type 0
  EndsAt deadline (ok none, c) = time c ≡ deadline
  EndsAt deadline (ok (some output), c) = time c ≤ deadline + 20
  EndsAt deadline (err e, c) = time c ≤ deadline
  EndsAt deadline (panic, c) = time c ≤ deadline

  -- The loop that waits for the end of a run ends by itself, before its rounds run out: it gives up exactly
  -- at its deadline, and what it finds before, or at it, it has at most 20 ms after it. This is so
  -- where it has a round for each millisecond that remains and one more, a sleep lasts as long as it says
  -- and the other calls take no time.
  pub wait_stop-EndsAt :
      (rounds : ℕ) (c : C) (id : Text) (remaining : ℕ) (output : Bytes)
      → suc remaining ≤ rounds
      → Gives (EndsAt (time c + remaining)) (wait_stop core rounds c id remaining output)
  unfolding wait_stop
  wait_stop-EndsAt zero c id remaining output h = absurd (omega arith)
  wait_stop-EndsAt (suc rounds) c id remaining output h =
      let drained = core.drain_output c id in
      let same = laws.time-drain_output c id in
      let final = laws.time-drain_output (core.pass drained.1 20) id in
      let again = laws.time-drain_output drained.1 id in
      proceed-some (EndsAt (time c + remaining)) (core.try_exit_code drained.1 id, drained.1) _
        (λ e. omega (arith, same)) (omega (arith, same))
        (λ code _.
          if-lem (Gives (EndsAt (time c + remaining))) (is_some code)
            (_, refl, omega (arith, same, final, laws.time-pass drained.1 20))
            (elim (Bool-cases (remaining == 0)) [
              | inl e ↦ rw e (_, refl, omega (arith, same, again, (==_iff remaining 0).0 e))
              | inr e ↦
                  let nap = min remaining 20 in
                  let left : 1 ≤ remaining = ground arith in
                  rw e (
                    subst
                      (λ deadline. Gives (EndsAt deadline) (
                        wait_stop core rounds (core.pass drained.1 nap) id (remaining - nap)
                          (output ++ drained.0)))
                      (omega (arith, same, laws.time-pass drained.1 nap))
                      (wait_stop-EndsAt rounds (core.pass drained.1 nap) id (remaining - nap)
                        (output ++ drained.0) (omega arith)))
            ]))
