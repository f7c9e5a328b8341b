-- ===== src/FileAction/Binary/Totals.antt =====
-- The byte counts that a binary patch reports.
use remote_executor.Base.{
  ℕ, ◌+◌, ◌-◌, ◌≤◌, ◌<◌, ◌≡◌, refl, List, [], ◌∷◌, ◌++◌, map, arith, length, take, drop, All, sum,
  length-append, length-take, length-drop,
}
use remote_executor.Base.Outcome.{ok, traverse, traverse-All_of}
use remote_executor.FileAction.Types.{
  Bytes, BinaryAnchor, replace, delete, append, BinaryHunk, BinaryOperation,
}
use remote_executor.FileAction.Binary.{usize_mod, hunk_to_binary_operation, wrapping_sum}
use remote_executor.FileAction.Binary.Edits.{IsWithin, IsChain, edits, le-length-edits}

-- the number of bytes that the instruction declares for its body
abbrev pub body_bytes : BinaryAnchor → ℕ
body_bytes (replace offset len) = len
body_bytes (delete offset len) = 0
body_bytes (append target len) = len

-- The body holds as many bytes as the instruction declares.
abbrev pub HasBody : BinaryHunk → Type 0
HasBody hunk = length hunk.bytes ≡ body_bytes hunk.anchor

-- The counts of an operation are the sizes of its range and of its bytes.
abbrev pub IsCounted : BinaryOperation → Type 0
IsCounted op = (op.deletions ≡ op.end - op.start) × (op.additions ≡ length op.replacement)

hunk_to_binary_operation-IsCounted :
    (total : ℕ) (hunk : BinaryHunk) (op : BinaryOperation)
    → HasBody hunk
    → hunk_to_binary_operation hunk total ≡ ok op
    → IsCounted op
unfolding hunk_to_binary_operation
hunk_to_binary_operation-IsCounted total hunk op b h = ground arith

pub hunk_to_binary_operation-replacement :
    (total : ℕ) (hunk : BinaryHunk) (op : BinaryOperation)
    → hunk_to_binary_operation hunk total ≡ ok op
    → length op.replacement ≡ length hunk.bytes
unfolding hunk_to_binary_operation
hunk_to_binary_operation-replacement total hunk op h = ground arith

pub traverse-IsCounted :
    (hunks : List BinaryHunk) (total : ℕ) (ops : List BinaryOperation)
    → All HasBody hunks
    → traverse (λ hunk. hunk_to_binary_operation hunk total) hunks ≡ ok ops
    → All IsCounted ops
traverse-IsCounted hunks total ops b h =
    traverse-All_of HasBody IsCounted _ hunks (hunk_to_binary_operation-IsCounted total) b h

abbrev pub spans : List BinaryOperation → ℕ
spans ops = sum (map (λ op. op.end - op.start) ops)

abbrev pub bodies : List BinaryOperation → ℕ
bodies ops = sum (map (λ op. length op.replacement) ops)

pub length-edits :
    (bytes : Bytes) (ops : List BinaryOperation) (cursor : ℕ)
    → cursor ≤ length bytes
    → All (IsWithin (length bytes)) ops
    → IsChain cursor ops
    → length (edits ops bytes) + spans ops ≡ length bytes + bodies ops
length-edits bytes [] cursor fits w c = refl
length-edits bytes (op ∷ ops) cursor fits ((ordered, inside), w) (co, c) =
    let later = edits ops bytes in
    omega (
      arith,
      length-edits bytes ops op.end inside w c,
      le-length-edits bytes ops op.end inside w c,
      length-append (take op.start later) (op.replacement ++ drop op.end later),
      length-append op.replacement (drop op.end later),
      length-take op.start later,
      length-drop op.end later,
    )

-- The ranges of a chain have room in the file.
pub spans_bound :
    (total : ℕ) (ops : List BinaryOperation) (cursor : ℕ)
    → cursor ≤ total
    → All (IsWithin total) ops
    → IsChain cursor ops
    → cursor + spans ops ≤ total
spans_bound total [] cursor fits w c = omega arith
spans_bound total (op ∷ ops) cursor fits ((ordered, inside), w) (co, c) =
    omega (arith, spans_bound total ops op.end inside w c)

pub wrapping_sum-eq-sum : (xs : List ℕ) → sum xs < usize_mod → wrapping_sum xs ≡ sum xs
unfolding wrapping_sum
wrapping_sum-eq-sum [] h = refl
wrapping_sum-eq-sum (x ∷ xs) h = ground (arith, wrapping_sum-eq-sum xs)

pub sum-counted :
    (ops : List BinaryOperation)
    → All IsCounted ops
    → (sum (map (λ op. op.deletions) ops) ≡ spans ops)
      × (sum (map (λ op. op.additions) ops) ≡ bodies ops)
sum-counted [] h = (refl, refl)
sum-counted (op ∷ ops) ((d, a), h) = let (ds, as') = sum-counted ops h in (omega arith, omega arith)
