-- ===== src/FileAction/Lines/Ops.antt =====
-- The loop over the instructions against the snapshot's reading of them.
use remote_executor.Base.{
  ℕ, suc, ◌≤◌, ◌≡◌, refl, sym, ap, ◌∙◌, Bool, false, ◌||◌, Option, none, some, List, [], ◌∷◌, ◌++◌,
  append-nil, append_assoc, arith, ltb, length, All, All-append, is_some,
}
use remote_executor.Base.Outcome.{or_panic, reject_if, Ends, Ends-bind, Ends-map, Ends-reject_if}
use remote_executor.Text.{Text}
use remote_executor.FileAction.Types.{
  LineInsertTarget, LinePatchOp, delete, move, append, replace, PendingLineInsertionKind,
  PendingLineInsertion, LineRemoval, Label, delete_range, move_range, replaced_line, move_target,
  append_target, replaced_twice, move_into_itself, line_out_of_range,
}
use remote_executor.FileAction.Lines.{
  nth, range_len, target_index, is_inside, mark_line_removal, PatchState, apply_line_op,
  apply_line_ops, ensure_line_range, set_nth,
}
use remote_executor.FileAction.Lines.Snapshot.{is_removed, new_text, or_else, boundary_of}
use remote_executor.FileAction.Lines.Marks.{
  nth-Ends, set_nth-Ends, IsSetAt, ensure_line_range-Ends, IsMarked, mark_line_removal-Ends,
}

-- the line has a removal mark; the text that it is replaced by
abbrev pub marked : List (Option LineRemoval) → ℕ → Bool
marked removals line = elim (nth removals line) [ some o ↦ is_some o | none ↦ false ]

abbrev pub replaced : List (Option Text) → ℕ → Option Text
replaced replacements line = elim (nth replacements line) [ some o ↦ o | none ↦ none ]

-- what the instruction puts on the list of insertions
abbrev pub pending_of : ℕ → ℕ → LinePatchOp → List PendingLineInsertion
pending_of count order (delete start end) = []
pending_of count order (replace line text) = []
pending_of count order (move start end target) =
    record {
      boundary = boundary_of count target;
      order = order;
      kind = PendingLineInsertionKind.move start end;
    }
    ∷ []
pending_of count order (append target block) =
    record {
      boundary = boundary_of count target;
      order = order;
      kind = PendingLineInsertionKind.literal block;
    }
    ∷ []

abbrev pub pendings : ℕ → ℕ → List LinePatchOp → List PendingLineInsertion
pendings count order [] = []
pendings count order (op ∷ ops) = pending_of count order op ++ pendings count (suc order) ops

-- The lines that an insertion copies are lines of the file.
abbrev pub HasLines : ℕ → PendingLineInsertionKind → Type 0
HasLines count (PendingLineInsertionKind.literal block) = Unit
HasLines count (PendingLineInsertionKind.move start end) =
    (1 ≤ start) × (start ≤ end) × (end ≤ count)

abbrev pub IsPlaced : ℕ → PendingLineInsertion → Type 0
IsPlaced count p = (p.boundary ≤ count) × HasLines count p.kind

pub record IsSized (count : ℕ) (st : PatchState) : Type 0 where
  pub removals_size : length st.removals ≡ count
  pub replacements_size : length st.replacements ≡ count

-- `next` is `st` after the instructions `ops`, the first of which has number `order`.
pub record Follows (count order : ℕ) (ops : List LinePatchOp) (st next : PatchState) : Type 0 where
  pub sized : IsSized count next
  pub marks :
      (line : ℕ) → marked next.removals line ≡ (marked st.removals line || is_removed ops line)
  pub texts :
      (line : ℕ)
      → replaced next.replacements line
        ≡ or_else (replaced st.replacements line) (new_text ops line)
  pub queue : next.pending ≡ st.pending ++ pendings count order ops
  pub placed : All (IsPlaced count) (pendings count order ops)

target_index-Ends :
    (target : LineInsertTarget) (count : ℕ) (label : Label)
    → Ends (λ b. (b ≡ boundary_of count target) × (b ≤ count)) (target_index target count label)
unfolding target_index
target_index-Ends LineInsertTarget.start count label = (refl, omega arith)
target_index-Ends LineInsertTarget.end count label = (refl, omega arith)
target_index-Ends (LineInsertTarget.after line) count label =
    Ends-bind (λ _. line ≤ count) _
      (reject_if (ltb count line) (line_out_of_range label line count)) _
      (Ends-reject_if _ (ltb count line) (line_out_of_range label line count) (λ h. ground arith))
      (λ u e h. (refl, h))

module _ (lines : List Text) (order : ℕ) (st : PatchState) (sized : IsSized (length lines) st) where
  delete-Follows :
      (start end : ℕ)
      → Ends
          (Follows (length lines) order (delete start end ∷ []) st)
          (apply_line_op lines order (delete start end) st)
  unfolding apply_line_op
  delete-Follows start end =
      Ends-bind (λ _. (1 ≤ start) × (start ≤ end) × (end ≤ length lines)) _
        (ensure_line_range lines start end delete_range) _
        (ensure_line_range-Ends lines start end delete_range)
        (λ u e (low, ordered, high).
          Ends-bind (IsMarked st.removals LineRemoval.delete start (range_len start end)) _
            (mark_line_removal st.removals start end LineRemoval.delete) _
            (mark_line_removal-Ends st.removals start end LineRemoval.delete low ordered
              (omega (arith, sized.removals_size)))
            (λ removals e' (size, entry). record {
              sized = record {
                removals_size = size ∙ sized.removals_size;
                replacements_size = sized.replacements_size;
              };
              marks = λ line. ground (arith, entry line);
              texts = λ line. ground arith;
              queue = sym (append-nil st.pending);
              placed = tt;
            }))

  move-Follows :
      (start end : ℕ) (target : LineInsertTarget)
      → Ends
          (Follows (length lines) order (move start end target ∷ []) st)
          (apply_line_op lines order (move start end target) st)
  unfolding apply_line_op
  move-Follows start end target =
      Ends-bind (λ _. (1 ≤ start) × (start ≤ end) × (end ≤ length lines)) _
        (ensure_line_range lines start end move_range) _
        (ensure_line_range-Ends lines start end move_range)
        (λ u e (low, ordered, high).
          Ends-bind (λ _. Unit {0}) _
            (reject_if (is_inside target start end) (move_into_itself target start end)) _
            (Ends-reject_if _ (is_inside target start end) (move_into_itself target start end)
              (λ _. tt))
            (λ u' e0 t.
              Ends-bind (λ b. (b ≡ boundary_of (length lines) target) × (b ≤ length lines)) _
                (target_index target (length lines) move_target) _
                (target_index-Ends target (length lines) move_target)
                (λ boundary e1 (same, room).
                  Ends-bind (IsMarked st.removals LineRemoval.move start (range_len start end)) _
                    (mark_line_removal st.removals start end LineRemoval.move) _
                    (mark_line_removal-Ends st.removals start end LineRemoval.move low ordered
                      (omega (arith, sized.removals_size)))
                    (λ removals e' (size, entry). record {
                      sized = record {
                        removals_size = size ∙ sized.removals_size;
                        replacements_size = sized.replacements_size;
                      };
                      marks = λ line. ground (arith, entry line);
                      texts = λ line. ground arith;
                      queue = rw same;
                      placed = ((omega arith, (low, ordered, high)), tt);
                    }))))

  append-Follows :
      (target : LineInsertTarget) (block : List Text)
      → Ends
          (Follows (length lines) order (append target block ∷ []) st)
          (apply_line_op lines order (append target block) st)
  unfolding apply_line_op
  append-Follows target block =
      Ends-bind (λ b. (b ≡ boundary_of (length lines) target) × (b ≤ length lines)) _
        (target_index target (length lines) append_target) _
        (target_index-Ends target (length lines) append_target)
        (λ boundary e (same, room). record {
          sized = record {
            removals_size = sized.removals_size;
            replacements_size = sized.replacements_size;
          };
          marks = λ line. ground arith;
          texts = λ line. ground arith;
          queue = rw same;
          placed = ((omega arith, tt), tt);
        })

  replace-Follows :
      (line : ℕ) (text : Text)
      → Ends
          (Follows (length lines) order (replace line text ∷ []) st)
          (apply_line_op lines order (replace line text) st)
  unfolding apply_line_op
  replace-Follows line text =
      Ends-bind (λ _. (1 ≤ line) × (line ≤ line) × (line ≤ length lines)) _
        (ensure_line_range lines line line replaced_line) _
        (ensure_line_range-Ends lines line line replaced_line)
        (λ u e (low, same, high).
          Ends-bind (λ a. nth st.replacements line ≡ some a) _ (or_panic (nth st.replacements line))
            _ (nth-Ends st.replacements line low (omega (arith, sized.replacements_size)))
            (λ old e0 found.
              Ends-bind (λ _. is_some old ≡ false) _ (reject_if (is_some old) (replaced_twice line))
                _ (Ends-reject_if _ (is_some old) (replaced_twice line) (λ h. h))
                (λ u' e1 fresh.
                  Ends-bind (IsSetAt st.replacements line (some text)) _
                    (or_panic (set_nth st.replacements line (some text))) _
                    (set_nth-Ends st.replacements line (some text) low
                      (omega (arith, sized.replacements_size)))
                    (λ replacements e2 (size, entry). record {
                      sized = record {
                        removals_size = sized.removals_size;
                        replacements_size = size ∙ sized.replacements_size;
                      };
                      marks = λ l. ground arith;
                      texts = λ l. ground (arith, entry l, found, fresh);
                      queue = sym (append-nil st.pending);
                      placed = tt;
                    }))))

  apply_line_op-Follows :
      (op : LinePatchOp)
      → Ends (Follows (length lines) order (op ∷ []) st) (apply_line_op lines order op st)
  apply_line_op-Follows (delete start end) = delete-Follows start end
  apply_line_op-Follows (move start end target) = move-Follows start end target
  apply_line_op-Follows (append target block) = append-Follows target block
  apply_line_op-Follows (replace line text) = replace-Follows line text

Follows-cons :
    (count order : ℕ) (op : LinePatchOp) (ops : List LinePatchOp) (st next last : PatchState)
    → Follows count order (op ∷ []) st next
    → Follows count (suc order) ops next last
    → Follows count order (op ∷ ops) st last
Follows-cons count order op ops st next last f g = record {
  sized = g.sized;
  marks = λ line. ground (arith, f.marks line, g.marks line);
  texts = λ line. ground (arith, f.texts line, g.texts line);
  queue =
      g.queue
      ∙ ap (λ (q : List PendingLineInsertion). q ++ pendings count (suc order) ops) f.queue
      ∙ simp (append-nil, append_assoc);
  placed =
      All-append (IsPlaced count) (pending_of count order op) (pendings count (suc order) ops)
        (rw append-nil at f.placed) g.placed;
}

-- Over all instructions the loop does not panic, and leaves the marks, the texts and the
-- insertions that the instructions mean.
pub apply_line_ops-Follows :
    (lines : List Text) (ops : List LinePatchOp) (order : ℕ) (st : PatchState)
    → IsSized (length lines) st
    → Ends (Follows (length lines) order ops st) (apply_line_ops lines order ops st)
unfolding apply_line_ops
apply_line_ops-Follows lines [] order st sized = record {
  sized = sized;
  marks = λ line. ground arith;
  texts = λ line. ground arith;
  queue = sym (append-nil st.pending);
  placed = tt;
}
apply_line_ops-Follows lines (op ∷ ops) order st sized =
    Ends-bind (Follows (length lines) order (op ∷ []) st) _ (apply_line_op lines order op st) _
      (apply_line_op-Follows lines order st sized op)
      (λ next e f.
        Ends-map (Follows (length lines) (suc order) ops next) _
          (apply_line_ops lines (suc order) ops next)
          (λ last g. Follows-cons (length lines) order op ops st next last f g)
          (apply_line_ops-Follows lines ops (suc order) next f.sized))
