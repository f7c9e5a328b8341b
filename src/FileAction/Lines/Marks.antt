-- ===== src/FileAction/Lines/Marks.antt =====
-- The arrays that the loop over the instructions writes: removal marks and 1-based writes.
use remote_executor.Base.{
  ℕ, zero, suc, ◌+◌, ◌≤◌, ◌<◌, ◌≡◌, refl, ◌&&◌, ◌||◌, Option, none, some, List, [], ◌∷◌, arith, ltb,
  leb, lt→ltb, ◌==◌, if◌then◌else◌, length, length-set, set, get_elem?,
}
use remote_executor.Base.Outcome.{or_panic, Ends, Ends-bind, Ends-map, Ends-reject_if}
use remote_executor.Text.{Text}
use remote_executor.FileAction.Types.{LineRemoval, Label, Error, line_range_out_of_range}
use remote_executor.FileAction.Lines.{
  nth, set_nth, range_len, ensure_line_range, ensure_unmarked, mark_lines, mark_line_removal,
}

module _ {A : Type 0} where
  pub get_elem?-set :
      (xs : List A) (i j : ℕ) (v : A)
      → i < length xs
      → get_elem? (set xs i v) j ≡ (if i == j then some v else get_elem? xs j)
  get_elem?-set [] i j v h = absurd (omega arith)
  get_elem?-set (x ∷ xs) zero zero v h = refl
  get_elem?-set (x ∷ xs) zero (suc j) v h = ground arith
  get_elem?-set (x ∷ xs) (suc i) zero v h = ground arith
  get_elem?-set (x ∷ xs) (suc i) (suc j) v h = ground (arith, get_elem?-set xs i j v (omega arith))

  pub get_elem?-Ends :
      (xs : List A) (i : ℕ)
      → i < length xs
      → Ends (λ a. get_elem? xs i ≡ some a) (or_panic {E = Error} (get_elem? xs i))
  get_elem?-Ends [] i h = absurd (omega arith)
  get_elem?-Ends (x ∷ xs) zero h = refl
  get_elem?-Ends (x ∷ xs) (suc i) h = get_elem?-Ends xs i (omega arith)

  -- A line of the file has an entry.
  pub nth-Ends :
      (xs : List A) (line : ℕ)
      → 1 ≤ line
      → line ≤ length xs
      → Ends (λ a. nth xs line ≡ some a) (or_panic {E = Error} (nth xs line))
  nth-Ends xs zero h k = absurd (omega arith)
  nth-Ends xs (suc i) h k = get_elem?-Ends xs i k

  -- what a write at `line` leaves
  abbrev pub IsSetAt : List A → ℕ → A → List A → Type 0
  IsSetAt xs line v ys =
      (length ys ≡ length xs) × ((l : ℕ) → nth ys l ≡ (if line == l then some v else nth xs l))

  nth-set :
      (xs : List A) (i l : ℕ) (v : A)
      → i < length xs
      → nth (set xs i v) l ≡ (if suc i == l then some v else nth xs l)
  nth-set xs i zero v h = ground arith
  nth-set xs i (suc j) v h = ground (arith, get_elem?-set xs i j v h)

  -- A write at a line of the file changes that entry alone.
  pub set_nth-Ends :
      (xs : List A) (line : ℕ) (v : A)
      → 1 ≤ line
      → line ≤ length xs
      → Ends (IsSetAt xs line v) (or_panic {E = Error} (set_nth xs line v))
  set_nth-Ends xs zero v h k = absurd (omega arith)
  set_nth-Ends xs (suc i) v h k =
      rw (lt→ltb i (length xs) k) (length-set xs i v, λ l. nth-set xs i l v k)

-- After `ensure_line_range` the range lies in the file.
pub ensure_line_range-Ends :
    (lines : List Text) (start end : ℕ) (label : Label)
    → Ends
        (λ _. (1 ≤ start) × (start ≤ end) × (end ≤ length lines))
        (ensure_line_range lines start end label)
unfolding ensure_line_range
ensure_line_range-Ends lines start end label =
    Ends-reject_if _ (start == 0 || end == 0 || ltb end start || ltb (length lines) end)
      (line_range_out_of_range label start end (length lines)) (λ h. ground arith)

ensure_unmarked-Ends :
    (removals : List (Option LineRemoval)) (removal : LineRemoval) (start end line rounds : ℕ)
    → 1 ≤ line
    → line + rounds ≤ length removals + 1
    → Ends (λ _. Unit {0}) (ensure_unmarked removals removal start end line rounds)
unfolding ensure_unmarked
ensure_unmarked-Ends removals removal start end line zero h k = tt
ensure_unmarked-Ends removals removal start end line (suc rounds) h k =
    let next =
      ensure_unmarked-Ends removals removal start end (suc line) rounds (omega arith)
        (omega arith) in
    Ends-bind (λ x. nth removals line ≡ some x) (λ _. Unit {0}) (or_panic (nth removals line)) _
      (nth-Ends removals line h (omega arith))
      (elim [ some other ↦ λ _ _. tt | none ↦ λ _ _. next ])

abbrev pub IsMarked :
    List (Option LineRemoval) → LineRemoval → ℕ → ℕ → List (Option LineRemoval) → Type 0
IsMarked before removal line rounds after =
    (length after ≡ length before)
    × ((l : ℕ)
        → nth after l
          ≡ (if leb line l && ltb l (line + rounds) then some (some removal) else nth before l))

mark_lines-Ends :
    (removals : List (Option LineRemoval)) (removal : LineRemoval) (line rounds : ℕ)
    → 1 ≤ line
    → line + rounds ≤ length removals + 1
    → Ends (IsMarked removals removal line rounds) (mark_lines removals removal line rounds)
unfolding mark_lines
mark_lines-Ends removals removal line zero h k = (refl, λ l. ground arith)
mark_lines-Ends removals removal line (suc rounds) h k =
    Ends-bind (IsSetAt removals line (some removal)) _
      (or_panic (set_nth removals line (some removal))) _
      (set_nth-Ends removals line (some removal) h (omega arith))
      (λ marked e (size, entry).
        Ends-map (IsMarked marked removal (suc line) rounds) _ _
          (λ after (size', entry'). (omega arith, λ l. ground (arith, entry l, entry' l)))
          (mark_lines-Ends marked removal (suc line) rounds (omega arith) (omega arith)))

-- Within the file the loops of `mark_line_removal` do not panic, and mark the range alone.
pub mark_line_removal-Ends :
    (removals : List (Option LineRemoval)) (start end : ℕ) (removal : LineRemoval)
    → 1 ≤ start
    → start ≤ end
    → end ≤ length removals
    → Ends
        (IsMarked removals removal start (range_len start end))
        (mark_line_removal removals start end removal)
unfolding mark_line_removal
mark_line_removal-Ends removals start end removal h k fits =
    Ends-bind (λ _. Unit {0}) _ _ _
      (ensure_unmarked-Ends removals removal start end start (range_len start end) h (omega arith))
      (λ u e v. mark_lines-Ends removals removal start (range_len start end) h (omega arith))
