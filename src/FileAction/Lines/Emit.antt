-- ===== src/FileAction/Lines/Emit.antt =====
-- The output loop of `apply_line_patch`.
use remote_executor.Base.{
  ℕ, zero, suc, ◌+◌, ◌≤◌, ◌≡◌, sym, ap, ◌∙◌, true, false, Option, none, some, List, [], ◌∷◌, ◌++◌,
  append-nil, append_assoc, arith, length, get_elem?, if◌then◌else◌,
}
use remote_executor.Base.Outcome.{or_panic, Ends, Ends-bind, Ends-map}
use remote_executor.Text.{Text}
use remote_executor.FileAction.Types.{LineInsertion, LineRemoval}
use remote_executor.FileAction.Lines.{
  nth, PatchState, line_text, keep_line, push_line_insertions, emit_lines,
}
use remote_executor.FileAction.Lines.Snapshot.{body}
use remote_executor.FileAction.Lines.Marks.{nth-Ends}
use remote_executor.FileAction.Lines.Ops.{IsSized, marked}
use remote_executor.FileAction.Lines.Place.{text_in, line_text-Ends, concat_items}

pub push_line_insertions-concat_items :
    (items : List LineInsertion) (output : List Text)
    → push_line_insertions output items ≡ output ++ concat_items items
unfolding push_line_insertions
push_line_insertions-concat_items [] output = sym (append-nil output)
push_line_insertions-concat_items (i ∷ items) output =
    push_line_insertions-concat_items items (output ++ i.lines)
    ∙ append_assoc output i.lines (concat_items items)

module _ (lines : List Text) (st : PatchState) (sized : IsSized (length lines) st)
    (insertions : List (List LineInsertion)) (its : ℕ → List LineInsertion)
    (held : (b : ℕ) → b ≤ length lines → get_elem? insertions b ≡ some (its b)) where
  keep_line-Ends :
      (line : ℕ) (output : List Text) (removal : Option LineRemoval)
      → 1 ≤ line
      → line ≤ length lines
      → nth st.removals line ≡ some removal
      → Ends
          (λ kept.
            kept
            ≡ output
              ++ (if marked st.removals line then [] else text_in lines st.replacements line ∷ []))
          (keep_line lines st line output removal)
  unfolding keep_line
  keep_line-Ends line output none low high e =
      Ends-bind (λ t. t ≡ text_in lines st.replacements line) _
        (line_text lines st.replacements line) _
        (line_text-Ends lines st.replacements sized.replacements_size line low high)
        (λ t e' h.
          let unmarked : marked st.removals line ≡ false = ground arith in rw (unmarked, h))
  keep_line-Ends line output (some r) low high e =
      let is_marked : marked st.removals line ≡ true = ground arith in
      rw is_marked (sym (append-nil output))

  -- From `line` on the loop does not panic, and appends the lines that stay and the insertions.
  pub emit_lines-Ends :
      (line rounds : ℕ) (output : List Text)
      → 1 ≤ line
      → line + rounds ≤ length lines + 1
      → Ends
          (λ result.
            result
            ≡ output
              ++ body
                  (marked st.removals)
                  (text_in lines st.replacements)
                  (λ b. concat_items (its b))
                  line
                  rounds)
          (emit_lines lines st insertions line rounds output)
  unfolding emit_lines
  emit_lines-Ends line zero output low high = sym (append-nil output)
  emit_lines-Ends line (suc rounds) output low high =
      let f = text_in lines st.replacements in
      let inserted : ℕ → List Text = λ b. concat_items (its b) in
      let stays = if marked st.removals line then [] else f line ∷ [] in
      let later = body (marked st.removals) f inserted (suc line) rounds in
      Ends-bind (λ removal. nth st.removals line ≡ some removal) _ (or_panic (nth st.removals line))
        _ (nth-Ends st.removals line low (omega (arith, sized.removals_size)))
        (λ removal e found.
          Ends-bind (λ kept. kept ≡ output ++ stays) _ (keep_line lines st line output removal) _
            (keep_line-Ends line output removal low (omega arith) found)
            (λ kept e' same. rw (held line (omega arith)) (
              Ends-map (λ result. result ≡ push_line_insertions kept (its line) ++ later) _
                (emit_lines lines st insertions (suc line) rounds
                  (push_line_insertions kept (its line)))
                (λ result h.
                  h
                  ∙ ap (λ (xs : List Text). xs ++ later)
                      (push_line_insertions-concat_items (its line) kept
                        ∙ ap (λ (xs : List Text). xs ++ inserted line) same)
                  ∙ simp append_assoc)
                (emit_lines-Ends (suc line) rounds (push_line_insertions kept (its line))
                  (omega arith) (omega arith)))))
