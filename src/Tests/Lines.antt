-- ===== src/Tests/Lines.antt =====
-- Line patches of tools/file_action/mod.rs at concrete inputs, some from its test.rs.
use remote_executor.Base.{◌≡◌, refl, List, [], ◌∷◌}
use remote_executor.Base.Outcome.{ok, err}
use remote_executor.Base.Sort.{stable_sort}
use remote_executor.Text.{Text, codes, split_terminator, join, ends_with_lf}
use remote_executor.FileAction.Types.{
  LineInsertTarget, LinePatchOp, delete, move, append, replace, replace_overlaps_delete,
  move_into_itself,
}
use remote_executor.FileAction.Lines.{
  ensure_line_range, target_index, ensure_unmarked, mark_lines, mark_line_removal, is_inside,
  apply_line_op, apply_line_ops, ensure_replaced_kept, line_text, range_text, pending_lines,
  place_insertions, resolve_line_insertions, push_line_insertions, keep_line, emit_lines,
  patched_lines, apply_line_patch,
}

abbrev five_lines : Text
five_lines = codes "one\ntwo\nthree\nfour\nfive\n"

abbrev instructions : List LinePatchOp
instructions =
    delete 2 2
    ∷ move 3 4 (LineInsertTarget.after 1)
    ∷ append LineInsertTarget.start (codes "zero" ∷ [])
    ∷ replace 5 (codes "FIVE")
    ∷ []

apply-instructions :
    apply_line_patch five_lines instructions ≡ ok (codes "zero\none\nthree\nfour\nFIVE\n")
unfolding apply_line_patch patched_lines apply_line_ops apply_line_op ensure_line_range target_index
    ensure_unmarked mark_lines mark_line_removal is_inside ensure_replaced_kept line_text range_text
    pending_lines place_insertions resolve_line_insertions push_line_insertions keep_line emit_lines
    stable_sort split_terminator join ends_with_lf
apply-instructions = refl

apply-replaced_and_deleted :
    apply_line_patch five_lines (delete 2 3 ∷ replace 3 (codes "THREE") ∷ [])
    ≡ err (replace_overlaps_delete 3)
unfolding apply_line_patch patched_lines apply_line_ops apply_line_op ensure_line_range
    ensure_unmarked mark_lines mark_line_removal ensure_replaced_kept split_terminator ends_with_lf
apply-replaced_and_deleted = refl

apply-move_into_itself :
    apply_line_patch five_lines (move 2 4 (LineInsertTarget.after 3) ∷ [])
    ≡ err (move_into_itself (LineInsertTarget.after 3) 2 4)
unfolding apply_line_patch patched_lines apply_line_ops apply_line_op ensure_line_range is_inside
    split_terminator ends_with_lf
apply-move_into_itself = refl

-- a file whose lines are all deleted keeps one "\n"
apply-delete_all : apply_line_patch (codes "one\ntwo\n") (delete 1 2 ∷ []) ≡ ok (codes "\n")
unfolding apply_line_patch patched_lines apply_line_ops apply_line_op ensure_line_range
    ensure_unmarked mark_lines mark_line_removal ensure_replaced_kept place_insertions
    resolve_line_insertions push_line_insertions keep_line emit_lines stable_sort split_terminator
    join ends_with_lf
apply-delete_all = refl
