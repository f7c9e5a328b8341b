-- ===== src/Exbash/Jobs/Ends.antt =====
-- What `remove_run` and `stop_run` of tools/exbash/runs.rs leave.
use remote_executor.Base.{
  ℕ, ◌≡◌, ◌∙◌, refl, ap, ◌⊎◌, inl, inr, Bool, true, false, List, [], ◌∷◌, Option, none, some,
  if◌then◌else◌, is_some, if-lem, Bool-cases,
}
use mathlib.Core.Path.{subst}
use remote_executor.Base.Steps.{continue-lem}
use remote_executor.Base.Outcome.{Outcome, ok, err, panic, ◌>>=◌}
use remote_executor.Text.{Text, codes, text_eq}
use remote_executor.Text.Equality.{text_eq_refl}
use remote_executor.Dict.{Dict, lookup}
use remote_executor.Dict.Laws.{lookup-remove, lookup-insert}
use remote_executor.Json.{Value, string}
use remote_executor.Settings.{Chain}
use remote_executor.Shell.{Core, CoreSummary, CoreDetail}
use remote_executor.Shell.Manager.{is_locked, remove_pty, close_pty_clients}
use remote_executor.Exbash.{RunDetail, RunState, Context}
use remote_executor.Exbash.Runs.{
  exit_code_label, clear_exit_code_label, clear_description_label, set_exit_code_label,
  exit_code_json, label_or_code, run_detail, run_detail_from_session,
}
use remote_executor.Exbash.Jobs.{
  remove_run, forget_run, end_run, kill_and_wait, on_core, in_core, stop_run, stop_found,
  report_stop, killed_or_waited, ended_detail, timeout_fires, timers_fire, has_exited,
  kill_labelled,
}

module _ {C X : Type 0} (core : Core C X) (ctx : Context) where
  abbrev SameLabels : RunState C → RunState C → Type 0
  SameLabels before after =
      (after.exit_code_labels ≡ before.exit_code_labels)
      × (after.description_labels ≡ before.description_labels)

  abbrev Without : Dict Text → Text → Dict Text → Type 0
  Without before id after =
      (other : Text) → lookup other after ≡ (if text_eq id other then none else lookup other before)

  -- nothing is left of a run, and the labels of all others stay
  abbrev pub Forgotten : RunState C → Text → RunState C → Type 0
  Forgotten before id after =
      Without before.exit_code_labels id after.exit_code_labels
      × (Without before.description_labels id after.description_labels
          × ((lookup id after.manager.clients ≡ none) × (is_locked core after.manager id ≡ false)))

  forget_run-Forgotten :
      (before runs : RunState C) (id : Text)
      → SameLabels before runs
      → Forgotten before id (forget_run core ctx runs id)
  unfolding clear_exit_code_label clear_description_label remove_pty close_pty_clients is_locked
  forget_run-Forgotten before runs id (e, e') = (
    (λ other.
        lookup-remove id other runs.exit_code_labels
        ∙ ap (λ m. if text_eq id other then none else lookup other m) e),
    (
      (λ other.
          lookup-remove id other runs.description_labels
          ∙ ap (λ m. if text_eq id other then none else lookup other m) e'),
      (
        lookup-remove id id runs.manager.clients ∙ rw (text_eq_refl id) refl,
        ap is_some (lookup-remove id id runs.manager.locked) ∙ rw (text_eq_refl id) refl,
      ),
    ),
  )

  abbrev OnOk {ℓ} : {A : Type ℓ} → (RunState C → Type 0) → Outcome Chain A × RunState C → Type 0
  OnOk Q (ok a, runs) = Q runs
  OnOk Q (err e, runs) = Unit
  OnOk Q (panic, runs) = Unit

  kill_and_wait-labels :
      (runs : RunState C) (id : Text) (o : Option (CoreSummary X))
      → SameLabels runs (kill_and_wait core ctx runs id o).1
  kill_and_wait-labels runs id none = (refl, refl)
  kill_and_wait-labels runs id (some session) =
      continue-lem (λ (r : Outcome Chain (Option ℕ) × RunState C). SameLabels runs r.1)
        (on_core core ctx runs (core.kill runs.manager.core id)) _ (λ e. (refl, refl)) (refl, refl)
        (λ u _. (refl, refl))

  end_run-labels :
      (runs : RunState C) (id : Text) (code : Option ℕ)
      → SameLabels runs (end_run core ctx runs id code).1
  end_run-labels runs id (some code) = (refl, refl)
  end_run-labels runs id none =
      let killed = kill_and_wait core ctx runs id (core.session runs.manager.core id) in
      let same : SameLabels runs killed.1 =
        kill_and_wait-labels runs id (core.session runs.manager.core id) in
      continue-lem (λ (r : Outcome Chain (Option ℕ × Bool) × RunState C). SameLabels runs r.1)
        killed _ (λ e. same) same (λ code _. same)

  -- A run that was removed leaves no label, no client and no lock, and the labels of all other runs are as
  -- before.
  pub remove_run-Forgotten :
      (runs : RunState C) (id : Text) (value : Value) (runs' : RunState C)
      → remove_run core ctx runs id ≡ (ok value, runs')
      → Forgotten runs id runs'
  unfolding remove_run
  remove_run-Forgotten runs id value runs' h =
      let forgets : OnOk (Forgotten runs id) (remove_run core ctx runs id) =
        continue-lem (OnOk (Forgotten runs id)) (core.detail runs.manager.core id, runs) _ (λ e. tt)
          tt
          (λ detail _.
            let ended = end_run core ctx runs id detail.exit_code in
            continue-lem (OnOk (Forgotten runs id)) ended _ (λ e. tt) tt
              (λ result _.
                forget_run-Forgotten runs ended.1 id (end_run-labels runs id detail.exit_code))) in
      subst (OnOk (Forgotten runs id)) h forgets

  -- whether the name is among them
  abbrev names : Text → List Text → Bool
  names id [] = false
  names id (other ∷ rest) = if text_eq other id then true else names id rest

  -- what a stop shows of the exit code, where the timers of `fired` came meanwhile
  abbrev pub ShowsStopped : List Text → Text → RunDetail → Type 0
  ShowsStopped fired id run =
      (run.exit_code ≡ none)
      ⊎ (run.exit_code ≡ some (string (codes "stopped")))
      ⊎ ((names id fired ≡ true) × (run.exit_code ≡ some (string (codes "timeout"))))

  abbrev StoppedAs : List Text → Text → Outcome Chain RunDetail × RunState C → Type 0
  StoppedAs fired id (ok run, runs) = ShowsStopped fired id run
  StoppedAs fired id (err e, runs) = Unit
  StoppedAs fired id (panic, runs) = Unit

  -- the label after the timers of `fired`, for one that was `label` before
  abbrev Labelled : List Text → Text → Option Text → RunState C → Type 0
  Labelled fired id label runs =
      (exit_code_label runs id ≡ label)
      ⊎ ((names id fired ≡ true) × (exit_code_label runs id ≡ some (codes "timeout")))

  timeout_fires-Labelled :
      (runs : RunState C) (timer id : Text)
      → Labelled (timer ∷ []) id (exit_code_label runs id) (timeout_fires core ctx runs timer)
  unfolding timeout_fires set_exit_code_label
  timeout_fires-Labelled runs timer id =
      if-lem (Labelled (timer ∷ []) id (exit_code_label runs id))
        (has_exited core ctx (core.try_exit_code runs.manager.core timer)) (inl refl)
        (killed (core.session runs.manager.core timer))
    where
      killed :
          (o : Option (CoreSummary X))
          → Labelled (timer ∷ []) id (exit_code_label runs id) (kill_labelled core ctx runs timer o)
      killed none = inl refl
      killed (some session) =
          let label = lookup-insert timer id (codes "timeout") runs.exit_code_labels in
          elim (Bool-cases (text_eq timer id)) [
            | inl e ↦ inr (rw e refl, label ∙ rw e refl)
            | inr e ↦ inl (label ∙ rw e refl)
          ]

  own_timer :
      (timer id : Text) (fired : List Text)
      → names id (timer ∷ []) ≡ true
      → names id (timer ∷ fired) ≡ true
  own_timer timer id fired h = elim (Bool-cases (text_eq timer id)) [
    | inl e ↦ rw e refl
    | inr e ↦ let none_left : false ≡ true = rw e at h in cc
  ]

  timers_fire-Labelled :
      (fired : List Text) (runs : RunState C) (id : Text)
      → Labelled fired id (exit_code_label runs id) (timers_fire core ctx runs fired)
  timers_fire-Labelled [] runs id = inl refl
  timers_fire-Labelled (timer ∷ fired) runs id =
      let next = timeout_fires core ctx runs timer in
      elim (timers_fire-Labelled fired next id) [
        | inr (there, label) ↦ inr (if-lem (λ b. b ≡ true) (text_eq timer id) refl there, label)
        | inl same ↦ elim (timeout_fires-Labelled runs timer id) [
          | inl kept ↦ inl (same ∙ kept)
          | inr (here, label) ↦ inr (own_timer timer id fired here, same ∙ label)
        ]
      ]

  exit_code_json-cases :
      (fired : List Text) (runs : RunState C) (id pty : Text) (code : Option ℕ)
      → Labelled fired id (some (codes "stopped")) runs
      → pty ≡ id
      → (exit_code_json runs pty code ≡ none)
        ⊎ (exit_code_json runs pty code ≡ some (string (codes "stopped")))
        ⊎ ((names id fired ≡ true)
            × (exit_code_json runs pty code ≡ some (string (codes "timeout"))))
  unfolding exit_code_json
  exit_code_json-cases fired runs id pty none labelled e = inl refl
  exit_code_json-cases fired runs id pty (some code) labelled e =
      let shown : (label : Option Text)
          → exit_code_label runs id ≡ label
          → some (label_or_code code (exit_code_label runs pty)) ≡ some (label_or_code code label) =
        λ label same. ap (λ l. some (label_or_code code l)) (ap (exit_code_label runs) e ∙ same) in
      elim labelled [
        | inl same ↦ inr (inl (shown (some (codes "stopped")) same))
        | inr (there, same) ↦ inr (inr (there, shown (some (codes "timeout")) same))
      ]

  run_detail-StoppedAs :
      (fired : List Text) (runs : RunState C) (id : Text) (m : Outcome Chain (CoreDetail X))
      → Labelled fired id (some (codes "stopped")) runs
      → ((detail : CoreDetail X) → m ≡ ok detail → detail.pty ≡ id)
      → StoppedAs fired id
          (m >>= (λ detail. ok (run_detail_from_session ctx runs detail none none)), runs)
  unfolding run_detail_from_session
  run_detail-StoppedAs fired runs id (ok detail) labelled own =
      exit_code_json-cases fired runs id detail.pty detail.exit_code labelled (own detail refl)
  run_detail-StoppedAs fired runs id (err e) labelled own = tt
  run_detail-StoppedAs fired runs id panic labelled own = tt

  module _
      (own_name : (c : C) (id : Text) (detail : CoreDetail X)
        → core.detail c id ≡ ok detail
        → detail.pty ≡ id) where
    killed_or_waited-StoppedAs :
        (fired : List Text) (runs : RunState C) (id : Text) (killed : Outcome Chain (Unit {0}))
        (waited : Outcome Chain (Option ℕ))
        → Labelled fired id (some (codes "stopped")) runs
        → StoppedAs fired id (killed_or_waited core ctx runs id killed waited)
    unfolding run_detail
    killed_or_waited-StoppedAs fired runs id (err e) waited labelled = tt
    killed_or_waited-StoppedAs fired runs id panic waited labelled = tt
    killed_or_waited-StoppedAs fired runs id (ok done) waited labelled =
        continue-lem (StoppedAs fired id) (waited, runs) _ (λ e. tt) tt
          (λ code _.
            run_detail-StoppedAs fired runs id (core.detail runs.manager.core id) labelled
              (own_name runs.manager.core id))

    report_stop-StoppedAs :
        (fired : List Text) (runs : RunState C) (id : Text) (killed : Outcome Chain (Unit {0}))
        (waited : Outcome Chain (Option ℕ)) (m : Outcome Chain (CoreDetail X))
        → Labelled fired id (some (codes "stopped")) runs
        → ((detail : CoreDetail X) → m ≡ ok detail → detail.pty ≡ id)
        → StoppedAs fired id (report_stop core ctx runs id killed waited (ended_detail core ctx m))
    unfolding run_detail_from_session
    report_stop-StoppedAs fired runs id killed waited (ok detail) labelled own =
        elim (Bool-cases (is_some detail.exit_code)) [
          | inl e ↦ rw e (
              exit_code_json-cases fired runs id detail.pty detail.exit_code labelled
                (own detail refl))
          | inr e ↦ rw e (killed_or_waited-StoppedAs fired runs id killed waited labelled)
        ]
    report_stop-StoppedAs fired runs id killed waited (err e) labelled own =
        killed_or_waited-StoppedAs fired runs id killed waited labelled
    report_stop-StoppedAs fired runs id killed waited panic labelled own =
        killed_or_waited-StoppedAs fired runs id killed waited labelled

    stop_found-StoppedAs :
        (fired : List Text) (runs : RunState C) (id : Text) (o : Option (CoreSummary X))
        → StoppedAs fired id (stop_found core ctx runs fired id o)
    unfolding set_exit_code_label
    stop_found-StoppedAs fired runs id none = tt
    stop_found-StoppedAs fired runs id (some session) =
        let killed = core.kill runs.manager.core id in
        let labelled = in_core core ctx (set_exit_code_label runs id (codes "stopped")) killed.1 in
        let meanwhile = timers_fire core ctx labelled fired in
        let waited = core.wait_exit_code_timeout meanwhile.manager.core id 500 in
        let label : exit_code_label labelled id ≡ some (codes "stopped") =
          lookup-insert id id (codes "stopped") runs.exit_code_labels ∙ rw (text_eq_refl id) refl in
        report_stop-StoppedAs fired (in_core core ctx meanwhile waited.1) id killed.0 waited.0
          (core.detail waited.1 id)
          (subst (λ l. Labelled fired id l meanwhile) label
            (timers_fire-Labelled fired labelled id))
          (own_name waited.1 id)

    -- A stop that succeeds shows for the exit code none or "stopped", whatever code the run had ended with,
    -- or "timeout", and this only where the run's own timer came during the 500 ms that the stop waits. This
    -- is so where the core gives a terminal under the name that it was asked for, and no other request acts
    -- on the run meanwhile.
    pub stop_run-ShowsStopped :
        (runs : RunState C) (fired : List Text) (id : Text) (run : RunDetail) (runs' : RunState C)
        → stop_run core ctx runs fired id ≡ (ok run, runs')
        → ShowsStopped fired id run
    unfolding stop_run
    stop_run-ShowsStopped runs fired id run runs' h =
        subst (StoppedAs fired id) h
          (stop_found-StoppedAs fired runs id (core.session runs.manager.core id))
