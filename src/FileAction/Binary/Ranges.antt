-- ===== src/FileAction/Binary/Ranges.antt =====
-- What the single operations give the loop: ranges inside the file, in the order of the key.
use remote_executor.Base.{
  ℕ, ◌≤◌, ◌≡◌, ◌≢◌, true, false, inl, inr, List, [], ◌∷◌, arith, length, All, ltb, le→leb, ltb→le,
  Bool-cases,
}
use remote_executor.Base.Outcome.{
  ok, err, panic, traverse, bind-eq-ok, bind-eq-err, traverse-All, reject_if, or_panic,
}
use remote_executor.FileAction.Types.{Bytes, BinaryHunk, BinaryOperation, Error, hunks_overlap}
use remote_executor.FileAction.Binary.{hunk_to_binary_operation, key_le, splice, slice}
use remote_executor.FileAction.Binary.Edits.{IsWithin, IsChain}

pub hunk_to_binary_operation-ne-panic :
    (hunk : BinaryHunk) (total : ℕ) → hunk_to_binary_operation hunk total ≢ panic
unfolding hunk_to_binary_operation
hunk_to_binary_operation-ne-panic hunk total = λ p. ground arith

pub hunk_to_binary_operation-IsWithin :
    (hunk : BinaryHunk) (total : ℕ) (op : BinaryOperation)
    → hunk_to_binary_operation hunk total ≡ ok op
    → IsWithin total op
unfolding hunk_to_binary_operation
hunk_to_binary_operation-IsWithin hunk total op h = ground arith

pub traverse-IsWithin :
    (hunks : List BinaryHunk) (total : ℕ) (ops : List BinaryOperation)
    → traverse (λ hunk. hunk_to_binary_operation hunk total) hunks ≡ ok ops
    → All (IsWithin total) ops
traverse-IsWithin hunks total ops h =
    traverse-All (IsWithin total) _ hunks
      (λ hunk op. hunk_to_binary_operation-IsWithin hunk total op) h

pub key_le_total : (a b : BinaryOperation) → key_le a b ≡ false → key_le b a ≡ true
unfolding key_le
key_le_total a b h = ground arith

pub key_le_trans :
    (a b c : BinaryOperation) → key_le a b ≡ true → key_le b c ≡ true → key_le a c ≡ true
unfolding key_le
key_le_trans a b c h k = ground arith

-- The loop ends, or reports the overlap: it never slices out of range.
pub splice-ne-panic :
    (bytes : Bytes) (ops : List BinaryOperation) (cursor : ℕ) (output : Bytes)
    → cursor ≤ length bytes
    → All (IsWithin (length bytes)) ops
    → splice bytes ops cursor output ≢ panic
unfolding splice
splice-ne-panic bytes [] cursor output fits w = rw (le→leb cursor (length bytes) fits) (λ p. cc)
splice-ne-panic bytes (op ∷ ops) cursor output fits ((ordered, inside), w) =
    let next : (output' : Bytes) → splice bytes ops op.end output' ≢ panic =
      λ output'. splice-ne-panic bytes ops op.end output' inside w in
    elim (Bool-cases (ltb op.start cursor)) [
      | inl before ↦ rw before (λ p. cc)
      | inr behind ↦
          rw
            (
              behind,
              le→leb cursor op.start (ltb→le op.start cursor behind),
              le→leb op.start (length bytes) (omega arith),
            )
            (next _)
    ]

pub splice-IsChain :
    (bytes : Bytes) (ops : List BinaryOperation) (cursor : ℕ) (output result : Bytes)
    → splice bytes ops cursor output ≡ ok result
    → IsChain cursor ops
unfolding splice
splice-IsChain bytes [] cursor output result h = tt
splice-IsChain bytes (op ∷ ops) cursor output result h =
    let (u, behind, h') = bind-eq-ok (reject_if (ltb op.start cursor) hunks_overlap) _ h in
    let (kept, sliced, h'') = bind-eq-ok (or_panic (slice bytes cursor op.start)) _ h' in
    (ground arith, splice-IsChain bytes ops op.end _ result h'')

-- What stops the loop is an overlap.
pub splice_err :
    (bytes : Bytes) (ops : List BinaryOperation) (cursor : ℕ) (output : Bytes) (e : Error)
    → splice bytes ops cursor output ≡ err e
    → e ≡ hunks_overlap
unfolding splice
splice_err bytes [] cursor output e h = ground arith
splice_err bytes (op ∷ ops) cursor output e h =
    elim (bind-eq-err (reject_if (ltb op.start cursor) hunks_overlap) _ h) [
      | inl stopped ↦ ground arith
      | inr (u, behind, h') ↦ elim (bind-eq-err (or_panic (slice bytes cursor op.start)) _ h') [
        | inl sliced ↦ ground arith
        | inr (kept, sliced, h'') ↦ splice_err bytes ops op.end _ e h''
      ]
    ]
