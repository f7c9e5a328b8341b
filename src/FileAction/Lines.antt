-- ===== src/FileAction/Lines.antt =====
-- Line patches: `apply_line_patch` of tools/file_action/mod.rs and its helpers. Line numbers are
-- 1-based, and an index that the source takes without a test panics out of range. A `for` over a
-- range recurs on the rounds left.
pub mod Snapshot
pub mod Marks
pub mod Ops
pub mod Place
pub mod Emit
pub mod Laws
pub mod Parse
pub mod Accepted
use remote_executor.Base.{
  ℕ, zero, suc, ◌+◌, ◌-◌, Bool, true, false, not, ◌&&◌, ◌||◌, Option, none, some, List, [], ◌∷◌,
  ◌++◌, ltb, leb, ◌==◌, if◌then◌else◌, length, get_elem?, set, replicate, is_some,
}
use remote_executor.Base.Outcome.{Outcome, ok, err, ◌>>=◌, ◌>>◌, reject_if, or_panic}
use remote_executor.Base.Sort.{stable_sort}
use remote_executor.Text.{Text, is_empty, split_terminator, join, ends_with_lf}
use remote_executor.FileAction.Types.{
  LineInsertTarget, LinePatchOp, delete, move, append, replace, PendingLineInsertionKind,
  PendingLineInsertion, LineInsertion, LineRemoval, Label, delete_range, move_range, replaced_line,
  move_target, append_target, Error, line_range_out_of_range, line_out_of_range, move_into_itself,
  removal_overlaps, replaced_twice, replace_overlaps_delete,
}

-- `xs[line - 1]`
abbrev pub nth {ℓ} : {A : Type ℓ} → List A → ℕ → Option A
nth xs zero = none
nth xs (suc i) = get_elem? xs i

-- `xs[line - 1] = v`
abbrev pub set_nth {ℓ} : {A : Type ℓ} → List A → ℕ → A → Option (List A)
set_nth xs zero v = none
set_nth xs (suc i) v = if ltb i (length xs) then some (set xs i v) else none

unfoldable pub ensure_line_range : List Text → ℕ → ℕ → Label → Outcome Error (Unit {0})
ensure_line_range lines start end label =
    reject_if (start == 0 || end == 0 || ltb end start || ltb (length lines) end)
      (line_range_out_of_range label start end (length lines))

-- `LineInsertTarget::index`
unfoldable pub target_index : LineInsertTarget → ℕ → Label → Outcome Error ℕ
target_index LineInsertTarget.start line_count label = ok 0
target_index LineInsertTarget.end line_count label = ok line_count
target_index (LineInsertTarget.after line) line_count label = do
  reject_if (ltb line_count line) (line_out_of_range label line line_count)
  ok line

-- the rounds of `for line in start..=end`
abbrev pub range_len : ℕ → ℕ → ℕ
range_len start end = end + 1 - start

-- the first loop of `mark_line_removal`: no line of the range is marked yet
unfoldable pub ensure_unmarked :
    List (Option LineRemoval) → LineRemoval → ℕ → ℕ → ℕ → ℕ → Outcome Error (Unit {0})
ensure_unmarked removals removal start end line zero = ok tt
ensure_unmarked removals removal start end line (suc rounds) = do
  existing ← or_panic (nth removals line)
  elim existing [
    | some other ↦ err (removal_overlaps removal start end other line)
    | none ↦ ensure_unmarked removals removal start end (suc line) rounds
  ]

-- its second loop
unfoldable pub mark_lines :
    List (Option LineRemoval) → LineRemoval → ℕ → ℕ → Outcome Error (List (Option LineRemoval))
mark_lines removals removal line zero = ok removals
mark_lines removals removal line (suc rounds) = do
  marked ← or_panic (set_nth removals line (some removal))
  mark_lines marked removal (suc line) rounds

unfoldable pub mark_line_removal :
    List (Option LineRemoval) → ℕ → ℕ → LineRemoval → Outcome Error (List (Option LineRemoval))
mark_line_removal removals start end removal = do
  ensure_unmarked removals removal start end start (range_len start end)
  mark_lines removals removal start (range_len start end)

-- the variables that the first loop of `apply_line_patch` changes
pub record PatchState : Type 0 where
  pub removals : List (Option LineRemoval)
  pub replacements : List (Option Text)
  pub pending : List PendingLineInsertion

-- `matches!(after, After(line) if (start..=end).contains(line))`
unfoldable pub is_inside : LineInsertTarget → ℕ → ℕ → Bool
is_inside (LineInsertTarget.after line) start end = leb start line && leb line end
is_inside LineInsertTarget.start start end = false
is_inside LineInsertTarget.end start end = false

abbrev push : PatchState → ℕ → ℕ → PendingLineInsertionKind → List PendingLineInsertion
push st boundary order kind =
    st.pending ++ (record { boundary = boundary; order = order; kind = kind } ∷ [])

-- one round of the loop over the instructions
unfoldable pub apply_line_op : List Text → ℕ → LinePatchOp → PatchState → Outcome Error PatchState
apply_line_op lines order (delete start end) st = do
  ensure_line_range lines start end delete_range
  removals ← mark_line_removal st.removals start end LineRemoval.delete
  ok (record st { removals = removals })
apply_line_op lines order (move start end target) st = do
  ensure_line_range lines start end move_range
  reject_if (is_inside target start end) (move_into_itself target start end)
  boundary ← target_index target (length lines) move_target
  removals ← mark_line_removal st.removals start end LineRemoval.move
  ok (record st {
    removals = removals;
    pending = push st boundary order (PendingLineInsertionKind.move start end);
  })
apply_line_op lines order (append target block) st = do
  boundary ← target_index target (length lines) append_target
  ok (record st { pending = push st boundary order (PendingLineInsertionKind.literal block) })
apply_line_op lines order (replace line text) st = do
  ensure_line_range lines line line replaced_line
  replacement ← or_panic (nth st.replacements line)
  reject_if (is_some replacement) (replaced_twice line)
  replacements ← or_panic (set_nth st.replacements line (some text))
  ok (record st { replacements = replacements })

unfoldable pub apply_line_ops :
    List Text → ℕ → List LinePatchOp → PatchState → Outcome Error PatchState
apply_line_ops lines order [] st = ok st
apply_line_ops lines order (op ∷ ops) st = do
  next ← apply_line_op lines order op st
  apply_line_ops lines (suc order) ops next

-- `removals[idx] == Some(LineRemoval::Delete)`
abbrev pub is_delete : Option LineRemoval → Bool
is_delete (some LineRemoval.delete) = true
is_delete (some LineRemoval.move) = false
is_delete none = false

-- `for (idx, replacement) in replacements.iter().enumerate()`; the line is `idx + 1`
unfoldable pub ensure_replaced_kept :
    List (Option LineRemoval) → List (Option Text) → ℕ → Outcome Error (Unit {0})
ensure_replaced_kept removals [] line = ok tt
ensure_replaced_kept removals (none ∷ rest) line = ensure_replaced_kept removals rest (suc line)
ensure_replaced_kept removals (some text ∷ rest) line = do
  removal ← or_panic (nth removals line)
  reject_if (is_delete removal) (replace_overlaps_delete line)
  ensure_replaced_kept removals rest (suc line)

unfoldable pub line_text : List Text → List (Option Text) → ℕ → Outcome Error Text
line_text lines replacements line = do
  replacement ← or_panic (nth replacements line)
  elim replacement [ some text ↦ ok text | none ↦ or_panic (nth lines line) ]

-- `(start..=end).map(|line| line_text(lines, replacements, line)).collect()`
unfoldable pub range_text : List Text → List (Option Text) → ℕ → ℕ → Outcome Error (List Text)
range_text lines replacements line zero = ok []
range_text lines replacements line (suc rounds) = do
  text ← line_text lines replacements line
  rest ← range_text lines replacements (suc line) rounds
  ok (text ∷ rest)

unfoldable pub pending_lines :
    List Text → List (Option Text) → PendingLineInsertionKind → Outcome Error (List Text)
pending_lines lines replacements (PendingLineInsertionKind.literal block) = ok block
pending_lines lines replacements (PendingLineInsertionKind.move start end) =
    range_text lines replacements start (range_len start end)

-- the loop of `resolve_line_insertions`
unfoldable pub place_insertions :
    List Text
    → List (Option Text)
    → List PendingLineInsertion
    → List (List LineInsertion)
    → Outcome Error (List (List LineInsertion))
place_insertions lines replacements [] insertions = ok insertions
place_insertions lines replacements (p ∷ pending) insertions = do
  block ← pending_lines lines replacements p.kind
  here ← or_panic (get_elem? insertions p.boundary)
  let item : LineInsertion = record { order = p.order; lines = block }
  place_insertions lines replacements pending (set insertions p.boundary (here ++ (item ∷ [])))

abbrev pub order_le : LineInsertion → LineInsertion → Bool
order_le a b = leb a.order b.order

abbrev pub sort_each : List (List LineInsertion) → List (List LineInsertion)
sort_each [] = []
sort_each (boundary ∷ rest) = stable_sort order_le boundary ∷ sort_each rest

unfoldable pub resolve_line_insertions :
    List Text
    → List (Option Text)
    → List PendingLineInsertion
    → Outcome Error (List (List LineInsertion))
resolve_line_insertions lines replacements pending = do
  placed ← place_insertions lines replacements pending (replicate (length lines + 1) [])
  ok (sort_each placed)

unfoldable pub push_line_insertions : List Text → List LineInsertion → List Text
push_line_insertions output [] = output
push_line_insertions output (insertion ∷ rest) =
    push_line_insertions (output ++ insertion.lines) rest

-- a line with no removal mark is written
unfoldable pub keep_line :
    List Text → PatchState → ℕ → List Text → Option LineRemoval → Outcome Error (List Text)
keep_line lines st line output none = do
  text ← line_text lines st.replacements line
  ok (output ++ (text ∷ []))
keep_line lines st line output (some r) = ok output

-- `for line_idx in 0..line_count`; `line` is `line_idx + 1`
unfoldable pub emit_lines :
    List Text
    → PatchState
    → List (List LineInsertion)
    → ℕ
    → ℕ
    → List Text
    → Outcome Error (List Text)
emit_lines lines st insertions line zero output = ok output
emit_lines lines st insertions line (suc rounds) output = do
  removal ← or_panic (nth st.removals line)
  kept ← keep_line lines st line output removal
  here ← or_panic (get_elem? insertions line)
  emit_lines lines st insertions (suc line) rounds (push_line_insertions kept here)

abbrev pub initial : ℕ → PatchState
initial line_count = record {
  removals = replicate line_count none;
  replacements = replicate line_count none;
  pending = [];
}

-- the lines that the patch leaves
unfoldable pub patched_lines : List Text → List LinePatchOp → Outcome Error (List Text)
patched_lines lines ops = do
  st ← apply_line_ops lines 0 ops (initial (length lines))
  ensure_replaced_kept st.removals st.replacements 1
  insertions ← resolve_line_insertions lines st.replacements st.pending
  first ← or_panic (get_elem? insertions 0)
  emit_lines lines st insertions 1 (length lines) (push_line_insertions [] first)

unfoldable pub apply_line_patch : Text → List LinePatchOp → Outcome Error Text
apply_line_patch before_text ops = do
  let had_final_newline = ends_with_lf before_text
  let lines = if is_empty before_text then [] else split_terminator b'\n' before_text
  output_lines ← patched_lines lines ops
  let out = join (b'\n' ∷ []) output_lines
  ok (if had_final_newline || not (is_empty output_lines) then out ++ (b'\n' ∷ []) else out)
