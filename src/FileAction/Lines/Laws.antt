-- ===== src/FileAction/Lines/Laws.antt =====
-- What `apply_line_patch` promises.
use mathlib.Core.Path.{fun_ext, subst}
use remote_executor.Base.{
  ℕ, zero, suc, ◌+◌, ◌≤◌, ◌≡◌, refl, sym, ap, ◌∙◌, false, not, ◌||◌, inl, inr, Option, none, some,
  List, [], ◌∷◌, ◌++◌, append-nil, arith, length, length-replicate, get_elem?, replicate,
  if◌then◌else◌, Bool-cases,
}
use remote_executor.Base.Outcome.{
  Outcome, ◌>>=◌, or_panic, reject_if, Ends, Ends-bind, Ends-map, Ends-reject_if,
}
use remote_executor.Text.{Text, is_empty, split_terminator, join, ends_with_lf}
use remote_executor.FileAction.Types.{
  LinePatchOp, LineInsertion, LineRemoval, Error, replace_overlaps_delete,
}
use remote_executor.FileAction.Lines.{
  nth, PatchState, initial, apply_line_ops, is_delete, ensure_replaced_kept,
  resolve_line_insertions, push_line_insertions, emit_lines, patched_lines, apply_line_patch,
}
use remote_executor.FileAction.Lines.Snapshot.{is_removed, text_at, body, blocks, snapshot}
use remote_executor.FileAction.Lines.Marks.{nth-Ends}
use remote_executor.FileAction.Lines.Ops.{
  Follows, marked, replaced, pendings, apply_line_ops-Follows,
}
use remote_executor.FileAction.Lines.Place.{
  text_in, items_of, concat_items, concat_items-pendings, resolve_line_insertions-Ends,
}
use remote_executor.FileAction.Lines.Emit.{push_line_insertions-concat_items, emit_lines-Ends}

ensure_replaced_kept-Ends :
    (removals : List (Option LineRemoval)) (replacements : List (Option Text)) (line : ℕ)
    → 1 ≤ line
    → line + length replacements ≤ length removals + 1
    → Ends (λ _. Unit {0}) (ensure_replaced_kept removals replacements line)
unfolding ensure_replaced_kept
ensure_replaced_kept-Ends removals [] line low high = tt
ensure_replaced_kept-Ends removals (none ∷ rest) line low high =
    ensure_replaced_kept-Ends removals rest (suc line) (omega arith) (omega arith)
ensure_replaced_kept-Ends removals (some text ∷ rest) line low high =
    Ends-bind (λ r. nth removals line ≡ some r) _ (or_panic (nth removals line)) _
      (nth-Ends removals line low (omega arith))
      (λ removal e found.
        Ends-bind (λ _. Unit {0}) _ (reject_if (is_delete removal) (replace_overlaps_delete line)) _
          (Ends-reject_if _ (is_delete removal) (replace_overlaps_delete line) (λ _. tt))
          (λ u e' t.
            ensure_replaced_kept-Ends removals rest (suc line) (omega arith) (omega arith)))

marked-initial : (n line : ℕ) → marked (replicate n none) line ≡ false
marked-initial n zero = refl
marked-initial zero (suc i) = refl
marked-initial (suc n) (suc zero) = refl
marked-initial (suc n) (suc (suc i)) = marked-initial n (suc i)

replaced-initial : (n line : ℕ) → replaced (replicate n none) line ≡ none
replaced-initial n zero = refl
replaced-initial zero (suc i) = refl
replaced-initial (suc n) (suc zero) = refl
replaced-initial (suc n) (suc (suc i)) = replaced-initial n (suc i)

module _ (lines : List Text) (ops : List LinePatchOp) (st : PatchState)
    (f : Follows (length lines) 0 ops (initial (length lines)) st) where
  marks-eq : marked st.removals ≡ is_removed ops
  marks-eq = fun_ext λ line. f.marks line ∙ rw (marked-initial (length lines) line)

  texts-eq : text_in lines st.replacements ≡ text_at lines ops
  texts-eq = fun_ext λ line. rw (f.texts line, replaced-initial (length lines) line)

  abbrev items : ℕ → List LineInsertion
  items = items_of (text_in lines st.replacements) (pendings (length lines) 0 ops)

  inserted-eq :
      ◌≡◌ {A = ℕ → List Text}
        (λ b. concat_items (items b))
        (blocks (length lines) (text_at lines ops) ops)
  inserted-eq =
      (fun_ext λ b. concat_items-pendings (length lines) (text_in lines st.replacements) b ops 0)
      ∙ ap (λ (g : ℕ → Text). blocks (length lines) g ops) texts-eq

  snapshot-eq :
      concat_items (items 0)
        ++ body
            (marked st.removals)
            (text_in lines st.replacements)
            (λ b. concat_items (items b))
            1
            (length lines)
      ≡ snapshot lines ops
  snapshot-eq =
      λ i. inserted-eq i 0 ++ body (marks-eq i) (texts-eq i) (inserted-eq i) 1 (length lines)

  abbrev write : List (List LineInsertion) → Outcome Error (List Text)
  write insertions = do
    first ← or_panic (get_elem? insertions 0)
    emit_lines lines st insertions 1 (length lines) (push_line_insertions [] first)

  write-Ends :
      (insertions : List (List LineInsertion))
      → ((b : ℕ) → b ≤ length lines → get_elem? insertions b ≡ some (items b))
      → Ends (λ output. output ≡ snapshot lines ops) (write insertions)
  write-Ends insertions held = rw (held 0 (omega arith)) (
      Ends-map
        (λ result.
          result
          ≡ push_line_insertions [] (items 0)
            ++ body (marked st.removals) (text_in lines st.replacements)
                (λ b. concat_items (items b)) 1 (length lines))
        _ (emit_lines lines st insertions 1 (length lines) (push_line_insertions [] (items 0)))
        (λ result h. h ∙ rw (push_line_insertions-concat_items (items 0) []) snapshot-eq)
        (emit_lines-Ends lines st f.sized insertions items held 1 (length lines) _ (omega arith)
          (omega arith)))

  resolve-Ends :
      Ends
        (λ output. output ≡ snapshot lines ops)
        (resolve_line_insertions lines st.replacements st.pending >>= write)
  resolve-Ends =
      subst
        (λ q.
          Ends (λ output. output ≡ snapshot lines ops)
            (resolve_line_insertions lines st.replacements q >>= write))
        (sym f.queue)
        (Ends-bind _ _
          (resolve_line_insertions lines st.replacements (pendings (length lines) 0 ops)) write
          (resolve_line_insertions-Ends lines st.replacements ops f.sized.replacements_size
            f.placed)
          (λ insertions e (size, held). write-Ends insertions held))

-- On every file and every list of instructions the arrays, the queue and the sorts of
-- `apply_line_patch` do not panic: they report an error, or write the lines of the snapshot's
-- reading, in which every instruction refers to the file as it was before the patch.
pub patched_lines-snapshot :
    (lines : List Text) (ops : List LinePatchOp)
    → Ends (λ output. output ≡ snapshot lines ops) (patched_lines lines ops)
unfolding patched_lines
patched_lines-snapshot lines ops =
    let start = initial (length lines) in
    Ends-bind (Follows (length lines) 0 ops start) _ (apply_line_ops lines 0 ops start) _
      (apply_line_ops-Follows lines ops 0 start (record {
        removals_size = length-replicate (length lines) none;
        replacements_size = length-replicate (length lines) none;
      }))
      (λ st e f.
        Ends-bind (λ _. Unit {0}) _ (ensure_replaced_kept st.removals st.replacements 1) _
          (ensure_replaced_kept-Ends st.removals st.replacements 1 (omega arith)
            (omega (arith, f.sized.removals_size, f.sized.replacements_size)))
          (λ u e' t. resolve-Ends lines ops st f))

abbrev pub source_lines : Text → List Text
source_lines before_text = if is_empty before_text then [] else split_terminator b'\n' before_text

-- the lines of the snapshot joined; "\n" ends them unless the file had none at its end and no line
-- is left
abbrev pub snapshot_text : Text → List LinePatchOp → Text
snapshot_text before_text ops =
    let after = snapshot (source_lines before_text) ops in
    join (b'\n' ∷ []) after
    ++ (if ends_with_lf before_text || not (is_empty after) then b'\n' ∷ [] else [])

-- No text and no list of instructions makes `apply_line_patch` panic; what it returns is the
-- snapshot's reading of the instructions, joined with "\n". A "\n" ends it unless the file had
-- none at its end and no line is left.
pub apply_line_patch-snapshot :
    (before_text : Text) (ops : List LinePatchOp)
    → Ends
        (λ out. out ≡ (
          let after = snapshot (source_lines before_text) ops in
          join (b'\n' ∷ []) after
          ++ (if ends_with_lf before_text || not (is_empty after) then b'\n' ∷ [] else [])))
        (apply_line_patch before_text ops)
unfolding apply_line_patch
apply_line_patch-snapshot before_text ops =
    Ends-bind (λ output. output ≡ snapshot (source_lines before_text) ops) _
      (patched_lines (source_lines before_text) ops) _
      (patched_lines-snapshot (source_lines before_text) ops)
      (λ output e same. rw (← same) (ending output))
  where
    ending :
        (output : List Text)
        → (if ends_with_lf before_text || not (is_empty output)
            then join (b'\n' ∷ []) output ++ (b'\n' ∷ [])
            else join (b'\n' ∷ []) output)
          ≡ join (b'\n' ∷ []) output
            ++ (if ends_with_lf before_text || not (is_empty output) then b'\n' ∷ [] else [])
    ending output = elim (Bool-cases (ends_with_lf before_text || not (is_empty output))) [
      | inl e ↦ rw e
      | inr e ↦ rw e (sym (append-nil _))
    ]
