-- ===== src/FileAction/Lines/Parse.antt =====
-- `apply_line_text_patch` and `parse_line_patch` of tools/file_action/mod.rs, and the readers of
-- line numbers that it calls.
use remote_executor.Base.{
  ℕ, Bool, true, false, not, ◌&&◌, Option, none, some, List, [], ◌∷◌, ◌++◌, map, ltb, ◌==◌,
  if◌then◌else◌,
}
use remote_executor.Base.Outcome.{Outcome, ok, err, ◌>>=◌, ◌>>◌, reject_if, ok_or, map_err}
use remote_executor.Text.{
  Text, codes, is_empty, trim, trim_end_matches, text_eq, strip_prefix, split_once, lines,
}
use remote_executor.Text.Number.{parse_usize}
use remote_executor.FileAction.Types.{
  LineInsertTarget, LinePatchOp, delete, move, append, replace, delete_range, move_range,
  replaced_line, move_target, append_target, Error, old_envelope, no_line_instructions, move_format,
  line_range_format, range_start_after_end, expected_line_number, zero_line_number,
  missing_append_end, stray_append_end, invalid_line_instruction, in_instruction,
}
use remote_executor.FileAction.Binary.Parse.{has_envelope}
use remote_executor.FileAction.Lines.{apply_line_patch}

unfoldable pub parse_line_number : Text → Bool → Outcome Error ℕ
parse_line_number value allow_zero = do
  number ← ok_or (parse_usize value) (expected_line_number value)
  reject_if (number == 0 && not allow_zero) zero_line_number
  ok number

unfoldable pub parse_line_range : Text → Outcome Error (ℕ × ℕ)
parse_line_range value = do
  (start, end) ← ok_or (split_once b'-' value) line_range_format
  s ← parse_line_number (trim start) false
  e ← parse_line_number (trim end) false
  reject_if (ltb e s) (range_start_after_end s e)
  ok (s, e)

unfoldable pub parse_line_insert_target : Text → Outcome Error LineInsertTarget
parse_line_insert_target value = if text_eq value (codes "-1") then ok LineInsertTarget.end else (do
  number ← parse_line_number value true
  ok (if number == 0 then LineInsertTarget.start else LineInsertTarget.after number))

-- what a line of the patch text is: nothing, a whole instruction, or the head of a block
pub data LineStep : Type 0 where
  blank : LineStep
  instruction : LinePatchOp → LineStep
  head : LineInsertTarget → LineStep

unfoldable pub parse_delete : Text → Text → Outcome Error LineStep
parse_delete rest line = do
  (start, end) ← map_err (in_instruction delete_range line) (parse_line_range (trim rest))
  ok (instruction (delete start end))

unfoldable pub parse_move : Text → Text → Outcome Error LineStep
parse_move rest line = do
  (range, after) ← ok_or (split_once b',' (trim rest)) move_format
  (start, end) ← map_err (in_instruction move_range line) (parse_line_range (trim range))
  target ← map_err (in_instruction move_target line) (parse_line_insert_target (trim after))
  ok (instruction (move start end target))

unfoldable pub parse_append_head : Text → Text → Outcome Error LineStep
parse_append_head rest line = do
  target ← map_err (in_instruction append_target line) (parse_line_insert_target (trim rest))
  ok (head target)

unfoldable pub parse_replace : Text → Text → Text → Outcome Error LineStep
parse_replace number text line = do
  line_number ← map_err (in_instruction replaced_line line) (parse_line_number (trim number) false)
  ok (instruction (replace line_number text))

-- the tests of one round in the source's order: three prefixes, the stray end of a block, the colon
unfoldable pub dispatch_line :
    Option Text
    → Option Text
    → Option Text
    → Bool
    → Option (Text × Text)
    → Text
    → Outcome Error LineStep
dispatch_line (some rest) _ _ _ _ line = parse_delete rest line
dispatch_line none (some rest) _ _ _ line = parse_move rest line
dispatch_line none none (some rest) _ _ line = parse_append_head rest line
dispatch_line none none none true _ line = err stray_append_end
dispatch_line none none none false (some (number, text)) line = parse_replace number text line
dispatch_line none none none false none line = err (invalid_line_instruction line)

abbrev pub is_append_end : Text → Bool
is_append_end trimmed = text_eq trimmed (codes "***APPEND_END***")

unfoldable pub parse_line : Text → Outcome Error LineStep
parse_line line =
    let trimmed = trim line in
    if is_empty trimmed
    then ok blank
    else dispatch_line (strip_prefix (codes "***DELETE***") trimmed)
        (strip_prefix (codes "***MOVE***") trimmed)
        (strip_prefix (codes "***APPEND_HEAD***") trimmed) (is_append_end trimmed)
        (split_once b':' line) line

-- The `while` loop, with the target and the lines so far of an open block: the inner `while` loop
-- runs where there is one.
unfoldable pub parse_ops :
    List Text → Option (LineInsertTarget × List Text) → Outcome Error (List LinePatchOp)
parse_ops [] none = ok []
parse_ops [] (some block) = err missing_append_end
parse_ops (item ∷ rest) (some (target, block)) =
    if is_append_end (trim item)
    then (do ops ← parse_ops rest none; ok (append target block ∷ ops))
    else parse_ops rest (some (target, block ++ (item ∷ [])))
parse_ops (line ∷ rest) none = do
  step ← parse_line line
  elim step [
    | blank ↦ parse_ops rest none
    | instruction op ↦ (do ops ← parse_ops rest none; ok (op ∷ ops))
    | head target ↦ parse_ops rest (some (target, []))
  ]

unfoldable pub parse_line_patch : Text → Outcome Error (List LinePatchOp)
parse_line_patch patch_text =
    parse_ops (map (λ line. trim_end_matches (λ c. c == b'\r') line) (lines patch_text)) none

unfoldable pub apply_line_text_patch : Text → Text → Outcome Error Text
apply_line_text_patch before_text patch_text = do
  reject_if (has_envelope (lines patch_text)) old_envelope
  ops ← parse_line_patch patch_text
  reject_if (is_empty ops) no_line_instructions
  apply_line_patch before_text ops
