-- ===== src/FileAction/Binary.antt =====
-- Binary patches: `apply_binary_hunks`, `hunk_to_binary_operation`, `byte_range_end` and
-- `ensure_append_offset` of tools/file_action/mod.rs. Numbers are `usize` of 64 bits.
pub mod Parse
pub mod Edits
pub mod Ranges
pub mod Overlap
pub mod Totals
pub mod Laws
pub mod Accepted
use remote_executor.Base.{
  ℕ, ◌+◌, ◌-◌, ◌%◌, ◌^◌, Bool, true, false, ◌&&◌, Option, none, some, List, [], ◌∷◌, ◌++◌, map, ltb,
  leb, if◌then◌else◌, length, take, drop,
}
use remote_executor.Base.Outcome.{Outcome, ok, ◌>>=◌, ◌>>◌, reject_if, ok_or, or_panic, traverse}
use remote_executor.Base.Sort.{stable_sort}
use remote_executor.FileAction.Types.{
  Bytes, BinaryAppendTarget, BinaryAnchor, replace, delete, append, BinaryHunk, BinaryOperation,
  BinaryPatchApplied, Error, byte_range_out_of_range, append_out_of_range, hunks_overlap,
}

abbrev pub usize_mod : ℕ
usize_mod = 2 ^ 64

-- `usize::checked_add` and `usize::saturating_add`
abbrev pub checked_add : ℕ → ℕ → Option ℕ
checked_add a b = if ltb (a + b) usize_mod then some (a + b) else none

abbrev pub saturating_add : ℕ → ℕ → ℕ
saturating_add a b = if ltb (a + b) usize_mod then a + b else usize_mod - 1

-- `&bytes[from..to]` and `&bytes[from..]`
abbrev pub slice {ℓ} : {A : Type ℓ} → List A → ℕ → ℕ → Option (List A)
slice xs from to =
    if leb from to && leb to (length xs) then some (take (to - from) (drop from xs)) else none

abbrev pub slice_from {ℓ} : {A : Type ℓ} → List A → ℕ → Option (List A)
slice_from xs from = if leb from (length xs) then some (drop from xs) else none

-- `Option::filter`
abbrev filter_some : Option ℕ → (ℕ → Bool) → Option ℕ
filter_some none p = none
filter_some (some x) p = if p x then some x else none

unfoldable pub byte_range_end : ℕ → ℕ → ℕ → Outcome Error ℕ
byte_range_end offset len total =
    ok_or (filter_some (checked_add offset len) (λ e. leb e total))
      (byte_range_out_of_range offset (saturating_add offset len) total)

unfoldable pub ensure_append_offset : ℕ → ℕ → Outcome Error (Unit {0})
ensure_append_offset offset total = reject_if (ltb total offset) (append_out_of_range offset total)

-- the `match` of `hunk_to_binary_operation`: start, end, additions, deletions
unfoldable pub anchor_span : BinaryAnchor → ℕ → Outcome Error (ℕ × ℕ × ℕ × ℕ)
unfolding byte_range_end ensure_append_offset
anchor_span (replace offset len) total = do
  e ← byte_range_end offset len total
  ok (offset, e, len, len)
anchor_span (delete offset len) total = do
  e ← byte_range_end offset len total
  ok (offset, e, 0, len)
anchor_span (append (BinaryAppendTarget.offset offset) len) total = do
  ensure_append_offset offset total
  ok (offset, offset, len, 0)
anchor_span (append BinaryAppendTarget.end len) total = ok (total, total, len, 0)

unfoldable pub hunk_to_binary_operation : BinaryHunk → ℕ → Outcome Error BinaryOperation
unfolding anchor_span
hunk_to_binary_operation hunk total = do
  (start, end, additions, deletions) ← anchor_span hunk.anchor total
  ok (record {
    start = start;
    end = end;
    replacement = hunk.bytes;
    order = hunk.order;
    additions = additions;
    deletions = deletions;
  })

-- The order of the key `(op.start, op.end > op.start, op.order)`; `false` comes before `true`.
unfoldable pub key_le : BinaryOperation → BinaryOperation → Bool
key_le a b =
    let wide_a = ltb a.start a.end in
    let wide_b = ltb b.start b.end in
    if ltb a.start b.start
    then true
    else if ltb b.start a.start
    then false
    else if wide_a
    then (if wide_b then leb a.order b.order else false)
    else (if wide_b then true else leb a.order b.order)

-- `iter.sum::<usize>()`, which wraps in a release build
unfoldable pub wrapping_sum : List ℕ → ℕ
wrapping_sum = elim [ [] ↦ 0 | x ∷ (xs → rest) ↦ (x + rest) % usize_mod ]

-- the loop over the sorted operations, from `cursor` and the output so far
unfoldable pub splice : Bytes → List BinaryOperation → ℕ → Bytes → Outcome Error Bytes
splice bytes [] cursor output = do rest ← or_panic (slice_from bytes cursor); ok (output ++ rest)
splice bytes (op ∷ ops) cursor output = do
  reject_if (ltb op.start cursor) hunks_overlap
  kept ← or_panic (slice bytes cursor op.start)
  splice bytes ops op.end ((output ++ kept) ++ op.replacement)

unfoldable pub apply_binary_hunks : Bytes → List BinaryHunk → Outcome Error BinaryPatchApplied
unfolding hunk_to_binary_operation key_le stable_sort wrapping_sum splice
apply_binary_hunks bytes hunks = do
  found ← traverse (λ hunk. hunk_to_binary_operation hunk (length bytes)) hunks
  let ops = stable_sort key_le found
  output ← splice bytes ops 0 []
  ok (record {
    bytes = output;
    additions = wrapping_sum (map (λ op. op.additions) ops);
    deletions = wrapping_sum (map (λ op. op.deletions) ops);
  })
