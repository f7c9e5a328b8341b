-- ===== src/FileAction/Lines/Accepted.antt =====
-- What `parse_line_patch` accepts, and the path from patch text to patched text.
use remote_executor.Base.{
  ℕ, ◌≤◌, ◌≡◌, ◌≢◌, refl, inl, inr, Bool, true, false, not, ◌&&◌, Option, none, some, List, [], ◌∷◌,
  ◌++◌, arith, ltb, All, All-append, ◌==◌, Bool-cases, if◌then◌else◌,
}
use remote_executor.Base.Outcome.{
  ok, reject_if, ok_or, map_err, Ends, Ends-bind, Ends-map, Ends-reject_if, Ends-ok_or,
  Ends-map_err,
}
use remote_executor.Text.{Text, codes, lines, is_empty, trim, text_eq, split_once}
use remote_executor.Text.Number.{usize_max, parse_usize, from_str_radix-le}
use remote_executor.FileAction.Types.{
  LineInsertTarget, LinePatchOp, delete, move, append, replace, zero_line_number,
  expected_line_number, line_range_format, range_start_after_end, in_instruction, move_format,
  delete_range, move_range, move_target, append_target, replaced_line, old_envelope,
  no_line_instructions,
}
use remote_executor.FileAction.Binary.Parse.{has_envelope}
use remote_executor.FileAction.Lines.{apply_line_patch}
use remote_executor.FileAction.Lines.Laws.{snapshot_text, apply_line_patch-snapshot}
use remote_executor.FileAction.Lines.Parse.{
  parse_line_number, parse_line_range, parse_line_insert_target, LineStep, blank, instruction, head,
  parse_delete, parse_move, parse_append_head, parse_replace, dispatch_line, is_append_end,
  parse_line, parse_ops, parse_line_patch, apply_line_text_patch,
}

-- a line number that a `usize` holds
abbrev pub IsLine : ℕ → Type 0
IsLine n = (1 ≤ n) × (n ≤ usize_max)

abbrev pub IsRange : ℕ × ℕ → Type 0
IsRange (start, end) = IsLine start × IsLine end × (start ≤ end)

abbrev pub IsTarget : LineInsertTarget → Type 0
IsTarget LineInsertTarget.start = Unit
IsTarget LineInsertTarget.end = Unit
IsTarget (LineInsertTarget.after line) = IsLine line

-- no line that would have closed the block
abbrev pub IsBlock : List Text → Type 0
IsBlock = All (λ item. is_append_end (trim item) ≡ false)

abbrev pub IsWellFormed : LinePatchOp → Type 0
IsWellFormed (delete start end) = IsRange (start, end)
IsWellFormed (move start end target) = IsRange (start, end) × IsTarget target
IsWellFormed (append target block) = IsTarget target × IsBlock block
IsWellFormed (replace line text) = IsLine line

parse_line_number-Ends :
    (value : Text) (allow_zero : Bool)
    → Ends
        (λ n. (n ≤ usize_max) × (allow_zero ≡ false → 1 ≤ n))
        (parse_line_number value allow_zero)
unfolding parse_line_number parse_usize
parse_line_number-Ends value allow_zero =
    Ends-bind (λ n. n ≤ usize_max) _ (ok_or (parse_usize value) (expected_line_number value)) _
      (Ends-ok_or _ (parse_usize value) (expected_line_number value)
        (λ n e. from_str_radix-le 10 usize_max value n e))
      (λ n e fits.
        Ends-bind (λ _. (n == 0 && not allow_zero) ≡ false) _
          (reject_if (n == 0 && not allow_zero) zero_line_number) _
          (Ends-reject_if _ (n == 0 && not allow_zero) zero_line_number (λ h. h))
          (λ u e' h. (fits, λ a. ground arith)))

parse_line_number-IsLine : (value : Text) → Ends IsLine (parse_line_number value false)
parse_line_number-IsLine value =
    Ends-map _ IsLine (parse_line_number value false) (λ n (fits, low). (low refl, fits))
      (parse_line_number-Ends value false)

parse_line_range-IsRange : (value : Text) → Ends IsRange (parse_line_range value)
unfolding parse_line_range
parse_line_range-IsRange value =
    Ends-bind (λ _. Unit {0}) IsRange (ok_or (split_once b'-' value) line_range_format) _
      (Ends-ok_or _ (split_once b'-' value) line_range_format (λ _ _. tt))
      (λ (start, end) e t.
        Ends-bind IsLine IsRange (parse_line_number (trim start) false) _
          (parse_line_number-IsLine (trim start))
          (λ s e1 hs.
            Ends-bind IsLine IsRange (parse_line_number (trim end) false) _
              (parse_line_number-IsLine (trim end))
              (λ n e2 he.
                Ends-bind (λ _. s ≤ n) IsRange (reject_if (ltb n s) (range_start_after_end s n)) _
                  (Ends-reject_if _ (ltb n s) (range_start_after_end s n) (λ h. ground arith))
                  (λ u e3 h. (hs, he, h)))))

insert_at-IsTarget :
    (n : ℕ)
    → n ≤ usize_max
    → IsTarget (if n == 0 then LineInsertTarget.start else LineInsertTarget.after n)
insert_at-IsTarget n h = elim (Bool-cases (n == 0)) [
  | inl e ↦ rw e tt
  | inr e ↦ rw e (ground arith, h)
]

parse_line_insert_target-IsTarget : (value : Text) → Ends IsTarget (parse_line_insert_target value)
unfolding parse_line_insert_target
parse_line_insert_target-IsTarget value = elim (Bool-cases (text_eq value (codes "-1"))) [
  | inl e ↦ rw e tt
  | inr e ↦ rw e (
      Ends-bind (λ n. (n ≤ usize_max) × (true ≡ false → 1 ≤ n)) IsTarget
        (parse_line_number value true) _ (parse_line_number-Ends value true)
        (λ n e' (fits, low). insert_at-IsTarget n fits))
]

abbrev IsStep : LineStep → Type 0
IsStep blank = Unit
IsStep (instruction op) = IsWellFormed op
IsStep (head target) = IsTarget target

parse_delete-IsStep : (rest line : Text) → Ends IsStep (parse_delete rest line)
unfolding parse_delete
parse_delete-IsStep rest line =
    Ends-bind IsRange IsStep
      (map_err (in_instruction delete_range line) (parse_line_range (trim rest))) _
      (Ends-map_err IsRange _ (parse_line_range (trim rest)) (parse_line_range-IsRange (trim rest)))
      (λ (start, end) e h. h)

parse_move-IsStep : (rest line : Text) → Ends IsStep (parse_move rest line)
unfolding parse_move
parse_move-IsStep rest line =
    Ends-bind (λ _. Unit {0}) IsStep (ok_or (split_once b',' (trim rest)) move_format) _
      (Ends-ok_or _ (split_once b',' (trim rest)) move_format (λ _ _. tt))
      (λ (range, after) e t.
        Ends-bind IsRange IsStep
          (map_err (in_instruction move_range line) (parse_line_range (trim range))) _
          (Ends-map_err IsRange _ (parse_line_range (trim range))
            (parse_line_range-IsRange (trim range)))
          (λ (start, end) e1 h.
            Ends-bind IsTarget IsStep
              (map_err (in_instruction move_target line) (parse_line_insert_target (trim after))) _
              (Ends-map_err IsTarget _ (parse_line_insert_target (trim after))
                (parse_line_insert_target-IsTarget (trim after)))
              (λ target e2 k. (h, k))))

parse_append_head-IsStep : (rest line : Text) → Ends IsStep (parse_append_head rest line)
unfolding parse_append_head
parse_append_head-IsStep rest line =
    Ends-bind IsTarget IsStep
      (map_err (in_instruction append_target line) (parse_line_insert_target (trim rest))) _
      (Ends-map_err IsTarget _ (parse_line_insert_target (trim rest))
        (parse_line_insert_target-IsTarget (trim rest)))
      (λ target e h. h)

parse_replace-IsStep : (number text line : Text) → Ends IsStep (parse_replace number text line)
unfolding parse_replace
parse_replace-IsStep number text line =
    Ends-bind IsLine IsStep
      (map_err (in_instruction replaced_line line) (parse_line_number (trim number) false)) _
      (Ends-map_err IsLine _ (parse_line_number (trim number) false)
        (parse_line_number-IsLine (trim number)))
      (λ n e h. h)

dispatch_line-IsStep :
    (d m a : Option Text) (stray : Bool) (r : Option (Text × Text)) (line : Text)
    → Ends IsStep (dispatch_line d m a stray r line)
unfolding dispatch_line
dispatch_line-IsStep (some rest) m a stray r line = parse_delete-IsStep rest line
dispatch_line-IsStep none (some rest) a stray r line = parse_move-IsStep rest line
dispatch_line-IsStep none none (some rest) stray r line = parse_append_head-IsStep rest line
dispatch_line-IsStep none none none true r line = tt
dispatch_line-IsStep none none none false (some (number, text)) line =
    parse_replace-IsStep number text line
dispatch_line-IsStep none none none false none line = tt

parse_line-IsStep : (line : Text) → Ends IsStep (parse_line line)
unfolding parse_line
parse_line-IsStep line = elim (Bool-cases (is_empty (trim line))) [
  | inl e ↦ rw e tt
  | inr e ↦ rw e (dispatch_line-IsStep _ _ _ _ _ line)
]

abbrev IsOpen : Option (LineInsertTarget × List Text) → Type 0
IsOpen none = Unit
IsOpen (some (target, block)) = IsTarget target × IsBlock block

parse_ops-IsWellFormed :
    (texts : List Text) (block : Option (LineInsertTarget × List Text))
    → IsOpen block
    → Ends (All IsWellFormed) (parse_ops texts block)
unfolding parse_ops
parse_ops-IsWellFormed [] none o = tt
parse_ops-IsWellFormed [] (some block) o = tt
parse_ops-IsWellFormed (item ∷ rest) (some (target, block)) (t, b) =
    elim (Bool-cases (is_append_end (trim item))) [
      | inl e ↦ rw e (
          Ends-bind (All IsWellFormed) (All IsWellFormed) (parse_ops rest none) _
            (parse_ops-IsWellFormed rest none tt) (λ ops e' h. ((t, b), h)))
      | inr e ↦ rw e (
          parse_ops-IsWellFormed rest (some (target, block ++ (item ∷ [])))
            (t, All-append _ block (item ∷ []) b (e, tt)))
    ]
parse_ops-IsWellFormed (line ∷ rest) none o =
    Ends-bind IsStep (All IsWellFormed) (parse_line line) _ (parse_line-IsStep line) (elim [
      | blank ↦ λ e s. parse_ops-IsWellFormed rest none tt
      | instruction op ↦ λ e s.
          Ends-bind (All IsWellFormed) (All IsWellFormed) (parse_ops rest none) _
            (parse_ops-IsWellFormed rest none tt) (λ ops e' h. (s, h))
      | head target ↦ λ e s. parse_ops-IsWellFormed rest (some (target, [])) (s, tt)
    ])

-- On every text `parse_line_patch` returns an error or instructions, without a panic; line numbers
-- are at least 1 and fit in a `usize`, ranges do not run backwards, and no line of an appended
-- block is the block's end.
pub parse_line_patch-IsWellFormed :
    (patch_text : Text) → Ends (All IsWellFormed) (parse_line_patch patch_text)
unfolding parse_line_patch
parse_line_patch-IsWellFormed patch_text = parse_ops-IsWellFormed _ none tt

-- From patch text to patched text: no file and no patch text causes a panic, and a result is the
-- snapshot's reading of the instructions that the patch text holds, of which there is at least one.
pub apply_line_text_patch-snapshot :
    (before_text patch_text : Text)
    → Ends
        (λ out.
          (ops : List LinePatchOp) × (parse_line_patch patch_text ≡ ok ops)
          × (ops ≢ [])
          × (out ≡ snapshot_text before_text ops))
        (apply_line_text_patch before_text patch_text)
unfolding apply_line_text_patch
apply_line_text_patch-snapshot before_text patch_text =
    Ends-bind (λ _. Unit {0}) _ (reject_if (has_envelope (lines patch_text)) old_envelope) _
      (Ends-reject_if _ (has_envelope (lines patch_text)) old_envelope (λ _. tt))
      (λ u e t.
        Ends-bind (All IsWellFormed) _ (parse_line_patch patch_text) _
          (parse_line_patch-IsWellFormed patch_text)
          (λ ops parsed w.
            Ends-bind (λ _. is_empty ops ≡ false) _ (reject_if (is_empty ops) no_line_instructions)
              _ (Ends-reject_if _ (is_empty ops) no_line_instructions (λ h. h))
              (λ u' e' full.
                Ends-map (λ out. out ≡ snapshot_text before_text ops) _
                  (apply_line_patch before_text ops) (λ out same. (ops, parsed, ground arith, same))
                  (apply_line_patch-snapshot before_text ops))))
