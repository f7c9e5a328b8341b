-- ===== src/FileAction/Binary/Edits.antt =====
-- The single pass of `apply_binary_hunks` against the edits made one at a time, last one first.
use remote_executor.Base.{
  ℕ, ◌-◌, ◌≤◌, ◌≡◌, refl, sym, ap, ◌∙◌, List, [], ◌∷◌, ◌++◌, append_assoc, arith, length, take,
  drop, length-take, take-append_le, drop-append_le, take-take_le, All, drop-take, le→ltb, le→leb,
}
use remote_executor.Base.Outcome.{ok}
use remote_executor.FileAction.Types.{Bytes, BinaryOperation}
use remote_executor.FileAction.Binary.{splice}

-- one operation on its own: its range is replaced
abbrev pub edit : BinaryOperation → Bytes → Bytes
edit op bytes = take op.start bytes ++ (op.replacement ++ drop op.end bytes)

-- The last operation is made first, so that the offsets of the others stay valid.
abbrev pub edits : List BinaryOperation → Bytes → Bytes
edits [] bytes = bytes
edits (op ∷ ops) bytes = edit op (edits ops bytes)

abbrev pub IsWithin : ℕ → BinaryOperation → Type 0
IsWithin total op = (op.start ≤ op.end) × (op.end ≤ total)

-- Each range starts at or behind the end of the one before it, the first at or behind `cursor`.
abbrev pub IsChain : ℕ → List BinaryOperation → Type 0
IsChain cursor [] = Unit
IsChain cursor (op ∷ ops) = (cursor ≤ op.start) × IsChain op.end ops

module _ (bytes : Bytes) where
  -- Edits behind `n` leave the first `n` bytes alone.
  take-edits :
      (ops : List BinaryOperation) (n : ℕ)
      → n ≤ length bytes
      → All (IsWithin (length bytes)) ops
      → IsChain n ops
      → take n (edits ops bytes) ≡ take n bytes
  take-edits [] n fits w c = refl
  take-edits (op ∷ ops) n fits ((ordered, inside), w) (c, cs) =
      let later = edits ops bytes in
      let same = take-edits ops op.end inside w cs in
      let whole : op.end ≤ length later =
        omega (arith, length-take op.end later, length-take op.end bytes, ap length same) in
      let head : n ≤ length (take op.start later) = omega (arith, length-take op.start later) in
      take-append_le n (take op.start later) (op.replacement ++ drop op.end later) head
      ∙ take-take_le n op.start later c
      ∙ sym (take-take_le n op.end later (omega arith))
      ∙ ap (take n) same
      ∙ take-take_le n op.end bytes (omega arith)

  pub le-length-edits :
      (ops : List BinaryOperation) (n : ℕ)
      → n ≤ length bytes
      → All (IsWithin (length bytes)) ops
      → IsChain n ops
      → n ≤ length (edits ops bytes)
  le-length-edits ops n fits w c = omega (
    arith,
    length-take n (edits ops bytes),
    length-take n bytes,
    ap length (take-edits ops n fits w c),
  )

  -- the kept bytes in front of one operation
  drop-edits :
      (op : BinaryOperation) (ops : List BinaryOperation) (cursor : ℕ)
      → cursor ≤ op.start
      → All (IsWithin (length bytes)) (op ∷ ops)
      → IsChain op.end ops
      → drop cursor (edits (op ∷ ops) bytes)
        ≡ take (op.start - cursor) (drop cursor bytes)
          ++ (op.replacement ++ drop op.end (edits ops bytes))
  drop-edits op ops cursor c ((ordered, inside), w) cs =
      let later = edits ops bytes in
      let whole = le-length-edits ops op.end inside w cs in
      let kept : take op.start later ≡ take op.start bytes =
        sym (take-take_le op.start op.end later ordered)
        ∙ ap (take op.start) (take-edits ops op.end inside w cs)
        ∙ take-take_le op.start op.end bytes ordered in
      drop-append_le cursor (take op.start later) (op.replacement ++ drop op.end later)
        (omega (arith, length-take op.start later))
      ∙ ap (λ (xs : Bytes). xs ++ (op.replacement ++ drop op.end later))
          (ap (drop cursor) kept ∙ drop-take cursor op.start bytes)

  -- On a chain of ranges inside the file the loop ends, and what it adds to the output is what
  -- the edits leave behind the cursor.
  pub splice-edits :
      (ops : List BinaryOperation) (cursor : ℕ) (output : Bytes)
      → cursor ≤ length bytes
      → All (IsWithin (length bytes)) ops
      → IsChain cursor ops
      → splice bytes ops cursor output ≡ ok (output ++ drop cursor (edits ops bytes))
  unfolding splice
  splice-edits [] cursor output fits w c = rw (le→leb cursor (length bytes) fits)
  splice-edits (op ∷ ops) cursor output fits ((ordered, inside), w) (c, cs) =
      let kept = take (op.start - cursor) (drop cursor bytes) in
      rw
        (
          le→ltb op.start cursor c,
          le→leb cursor op.start c,
          le→leb op.start (length bytes) (omega arith),
        )
        (splice-edits ops op.end ((output ++ kept) ++ op.replacement) inside w cs
          ∙ ap ok (
              append_assoc (output ++ kept) op.replacement _
              ∙ append_assoc output kept _
              ∙ ap (λ (xs : Bytes). output ++ xs)
                  (sym (drop-edits op ops cursor c ((ordered, inside), w) cs))))
