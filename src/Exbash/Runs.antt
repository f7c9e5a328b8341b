-- ===== src/Exbash/Runs.antt =====
-- The labels and the details of runs in tools/exbash/runs.rs, and their printing.
use remote_executor.Base.{
  ℕ, Bool, false, not, ◌||◌, Option, none, some, List, [], ◌∷◌, ◌++◌, map, take, if◌then◌else◌,
  is_some,
}
use remote_executor.Base.Options.{unwrap_or, or_option}
use remote_executor.Base.Outcome.{Outcome, ok, ◌>>=◌}
use remote_executor.Text.{Text, codes, text_eq, join, starts_with}
use remote_executor.Text.Decimal.{decimal}
use remote_executor.Text.Replace.{replace}
use remote_executor.Dict.{Dict, lookup, insert, remove}
use remote_executor.Json.{
  Value, null, string, number, unsigned, negative, object, Fields, end, field, as_str, insert_field,
}
use remote_executor.Protocol.{json_object}
use remote_executor.Settings.{Chain}
use remote_executor.Shell.{CoreSummary, CoreDetail, Core, ShellManager}
use remote_executor.Exbash.{
  ℤ, pos, negsuc, exbash_prefix, tmp_running_description, RunDetail, RunState, Context,
}

abbrev pub label_or_code : ℕ → Option Text → Value
label_or_code code none = number (unsigned code)
label_or_code code (some label) = string label

abbrev ended : ℕ → Option Value → Option ℕ
ended now none = none
ended now (some code) = some now

-- the labels
module _ {C : Type 0} where
  abbrev pub with_manager : RunState C → ShellManager C → RunState C
  with_manager runs manager = record {
    manager = manager;
    exit_code_labels = runs.exit_code_labels;
    description_labels = runs.description_labels;
    next_id = runs.next_id;
    timers = runs.timers;
  }

  abbrev with_exit_code_labels : RunState C → Dict Text → RunState C
  with_exit_code_labels runs labels = record {
    manager = runs.manager;
    exit_code_labels = labels;
    description_labels = runs.description_labels;
    next_id = runs.next_id;
    timers = runs.timers;
  }

  abbrev with_description_labels : RunState C → Dict Text → RunState C
  with_description_labels runs labels = record {
    manager = runs.manager;
    exit_code_labels = runs.exit_code_labels;
    description_labels = labels;
    next_id = runs.next_id;
    timers = runs.timers;
  }

  unfoldable pub set_exit_code_label : RunState C → Text → Text → RunState C
  set_exit_code_label runs async_id label =
      with_exit_code_labels runs (insert async_id label runs.exit_code_labels)

  unfoldable pub clear_exit_code_label : RunState C → Text → RunState C
  clear_exit_code_label runs async_id =
      with_exit_code_labels runs (remove async_id runs.exit_code_labels)

  unfoldable pub set_description_label : RunState C → Text → Text → RunState C
  set_description_label runs async_id label =
      with_description_labels runs (insert async_id label runs.description_labels)

  unfoldable pub clear_description_label : RunState C → Text → RunState C
  clear_description_label runs async_id =
      with_description_labels runs (remove async_id runs.description_labels)

  abbrev pub exit_code_label : RunState C → Text → Option Text
  exit_code_label runs async_id = lookup async_id runs.exit_code_labels

  abbrev pub description_label : RunState C → Text → Option Text
  description_label runs async_id = lookup async_id runs.description_labels

  unfoldable pub exit_code_display : RunState C → Text → ℕ → Text
  exit_code_display runs async_id code = unwrap_or (decimal code) (exit_code_label runs async_id)

  unfoldable pub exit_code_json : RunState C → Text → Option ℕ → Option Value
  exit_code_json runs async_id none = none
  exit_code_json runs async_id (some code) =
      some (label_or_code code (exit_code_label runs async_id))

  unfoldable pub run_detail_from_session :
      {X : Type 0} → Context → RunState C → CoreDetail X → Option Text → Option ℤ → RunDetail
  unfolding exit_code_json
  run_detail_from_session ctx runs detail description_override timeout =
      let exit_code = exit_code_json runs detail.pty detail.exit_code in
      record {
        async_id = detail.pty;
        pid = detail.process_id;
        state = if is_some exit_code then codes "stopped" else codes "running";
        exit_code = exit_code;
        total_output = detail.output_history_bytes;
        command = join (codes " ") detail.command;
        description =
            unwrap_or tmp_running_description
              (or_option description_override (description_label runs detail.pty));
        cwd = unwrap_or [] detail.cwd;
        timeout = timeout;
        started_at = detail.created_at;
        ended_at = ended ctx.now_ms exit_code;
        error = none;
      }

abbrev single_line_list_text : Text → Text
single_line_list_text text =
    replace (codes "\r") (codes "\\n")
      (replace (codes "\n") (codes "\\n") (replace (codes "\r\n") (codes "\\n") text))

unfoldable pub clipped_list_command : Text → Text
clipped_list_command command = take 30 (single_line_list_text command)

abbrev text_or_printed : (Value → Text) → Value → Option Text → Text
text_or_printed print value none = print value
text_or_printed print value (some text) = text

abbrev exit_text : Context → Option Value → Text
exit_text ctx none = []
exit_text ctx (some code) = codes " exit=" ++ text_or_printed ctx.print code (as_str code)

abbrev run_line : Context → RunDetail → Text
run_line ctx run =
    run.async_id
    ++ (codes " "
        ++ (run.state
            ++ (exit_text ctx run.exit_code
                ++ (codes " totalOutput="
                    ++ (decimal run.total_output
                        ++ (codes " description="
                            ++ (single_line_list_text run.description
                                ++ (codes " command=" ++ clipped_list_command run.command))))))))

abbrev format_lines : Context → List RunDetail → Text
format_lines ctx [] = codes "No async runs"
format_lines ctx (run ∷ runs) = join (codes "\n") (map (run_line ctx) (run ∷ runs))

unfoldable pub format_run_details : Context → List RunDetail → Text
unfolding clipped_list_command
format_run_details ctx runs = format_lines ctx runs

-- what `Serialize` writes for a detail
abbrev number_or_null : Option ℕ → Value
number_or_null none = null
number_or_null (some n) = number (unsigned n)

abbrev pub signed_value : ℤ → Value
signed_value (pos n) = number (unsigned n)
signed_value (negsuc n) = number (negative n)

abbrev signed_or_null : Option ℤ → Value
signed_or_null none = null
signed_or_null (some z) = signed_value z

abbrev entry_if : Text → Option Value → List (Text × Value)
entry_if key none = []
entry_if key (some value) = (key, value) ∷ []

abbrev number_entry : Text → Option ℕ → List (Text × Value)
number_entry key none = []
number_entry key (some n) = (key, number (unsigned n)) ∷ []

abbrev text_entry : Text → Option Text → List (Text × Value)
text_entry key none = []
text_entry key (some s) = (key, string s) ∷ []

unfoldable pub run_value : RunDetail → Value
run_value run = json_object (
    (codes "asyncID", string run.async_id)
    ∷ (codes "pid", number_or_null run.pid)
    ∷ (codes "state", string run.state)
    ∷ (entry_if (codes "exitCode") run.exit_code
        ++ ((codes "totalOutput", number (unsigned run.total_output))
            ∷ (codes "command", string run.command)
            ∷ (codes "description", string run.description)
            ∷ (codes "cwd", string run.cwd)
            ∷ (codes "timeout", signed_or_null run.timeout)
            ∷ (codes "startedAt", number (unsigned run.started_at))
            ∷ (number_entry (codes "endedAt") run.ended_at
                ++ text_entry (codes "error") run.error))))

-- `value[key] = field`
abbrev pub set_field : Text → Value → Value → Value
set_field key v (object fields) = object (insert_field key v fields)
set_field key v value = value

abbrev merge_into : Fields → Fields → Fields
merge_into target end = target
merge_into target (field key v rest) = merge_into (insert_field key v target) rest

unfoldable pub merge_json : Value → Value → Value
merge_json (object target) (object source) = object (merge_into target source)
merge_json target source = target

module _ {C X : Type 0} (core : Core C X) (ctx : Context) where
  unfoldable pub run_detail : RunState C → Text → Option Text → Option ℤ → Outcome Chain RunDetail
  unfolding run_detail_from_session
  run_detail runs async_id description_override timeout = do
    detail ← core.detail runs.manager.core async_id
    ok (run_detail_from_session ctx runs detail description_override timeout)

  abbrev filtered_out : Option Text → Text → Bool
  filtered_out none pty = false
  filtered_out (some id) pty = not (text_eq id pty)

  abbrev push_detail :
      Outcome Chain RunDetail → Outcome Chain (List RunDetail) → Outcome Chain (List RunDetail)
  push_detail first rest = do run ← first; later ← rest; ok (run ∷ later)

  abbrev details_of :
      RunState C → Option Text → List (CoreSummary X) → Outcome Chain (List RunDetail)
  details_of runs filter [] = ok []
  details_of runs filter (summary ∷ rest) =
      let later = details_of runs filter rest in
      if not (starts_with exbash_prefix summary.pty) || filtered_out filter summary.pty
      then later
      else push_detail (run_detail runs summary.pty none none) later

  unfoldable pub list_run_details : RunState C → Option Text → Outcome Chain (List RunDetail)
  unfolding run_detail starts_with
  list_run_details runs filter = details_of runs filter (core.list runs.manager.core)
