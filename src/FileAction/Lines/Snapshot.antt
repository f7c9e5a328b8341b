-- ===== src/FileAction/Lines/Snapshot.antt =====
-- What a line patch means, with no state: every line number refers to the file as it was before
-- the patch, as the tool's README says.
use remote_executor.Base.{
  ℕ, zero, suc, Bool, false, ◌&&◌, ◌||◌, Option, none, some, List, [], ◌∷◌, ◌++◌, leb, ◌==◌,
  if◌then◌else◌, length,
}
use remote_executor.Text.{Text}
use remote_executor.FileAction.Types.{LineInsertTarget, LinePatchOp, delete, move, append, replace}
use remote_executor.FileAction.Lines.{nth, range_len}

-- the instruction deletes the line or moves it
abbrev pub covers : LinePatchOp → ℕ → Bool
covers (delete start end) line = leb start line && leb line end
covers (move start end target) line = leb start line && leb line end
covers (append target block) line = false
covers (replace replaced text) line = false

abbrev pub is_removed : List LinePatchOp → ℕ → Bool
is_removed [] line = false
is_removed (op ∷ ops) line = covers op line || is_removed ops line

-- the text that the instruction gives the line
abbrev pub op_text : LinePatchOp → ℕ → Option Text
op_text (replace replaced text) line = if replaced == line then some text else none
op_text (delete start end) line = none
op_text (move start end target) line = none
op_text (append target block) line = none

abbrev pub or_else {ℓ} : {A : Type ℓ} → Option A → Option A → Option A
or_else (some a) o = some a
or_else none o = o

abbrev pub new_text : List LinePatchOp → ℕ → Option Text
new_text [] line = none
new_text (op ∷ ops) line = or_else (op_text op line) (new_text ops line)

abbrev pub text_or {ℓ} : {A : Type ℓ} → Option A → A → A
text_or (some a) b = a
text_or none b = b

-- the text of a line after the replacements
abbrev pub text_at : List Text → List LinePatchOp → ℕ → Text
text_at lines ops line = text_or (new_text ops line) (text_or (nth lines line) [])

-- the lines `line`, `line + 1`, … as `f` gives them
abbrev pub texts : (ℕ → Text) → ℕ → ℕ → List Text
texts f line zero = []
texts f line (suc rounds) = f line ∷ texts f (suc line) rounds

abbrev pub boundary_of : ℕ → LineInsertTarget → ℕ
boundary_of line_count LineInsertTarget.start = 0
boundary_of line_count LineInsertTarget.end = line_count
boundary_of line_count (LineInsertTarget.after line) = line

-- what the instruction inserts behind line `boundary`
abbrev pub op_block : ℕ → (ℕ → Text) → LinePatchOp → ℕ → List Text
op_block count f (delete start end) boundary = []
op_block count f (replace line text) boundary = []
op_block count f (append target block) boundary =
    if boundary_of count target == boundary then block else []
op_block count f (move start end target) boundary =
    if boundary_of count target == boundary then texts f start (range_len start end) else []

-- all that is inserted there, in the order of the instructions
abbrev pub blocks : ℕ → (ℕ → Text) → List LinePatchOp → ℕ → List Text
blocks count f [] boundary = []
blocks count f (op ∷ ops) boundary = op_block count f op boundary ++ blocks count f ops boundary

-- the lines from `line` on, each followed by what is inserted behind it
abbrev pub body : (ℕ → Bool) → (ℕ → Text) → (ℕ → List Text) → ℕ → ℕ → List Text
body removed f inserted line zero = []
body removed f inserted line (suc rounds) =
    (if removed line then [] else f line ∷ [])
    ++ (inserted line ++ body removed f inserted (suc line) rounds)

-- the patched file
abbrev pub snapshot : List Text → List LinePatchOp → List Text
snapshot lines ops =
    let f = text_at lines ops in
    let inserted = blocks (length lines) f ops in
    inserted 0 ++ body (is_removed ops) f inserted 1 (length lines)
