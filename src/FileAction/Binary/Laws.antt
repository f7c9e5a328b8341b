-- ===== src/FileAction/Binary/Laws.antt =====
-- What `apply_binary_hunks` promises.
use remote_executor.Base.{
  ◌+◌, ◌<◌, ◌≡◌, ◌≢◌, ◌⊎◌, sym, ap, ◌∙◌, inl, inr, List, [], map, arith, length, All, AllPairs, sum,
}
use remote_executor.Base.Outcome.{
  Outcome, ok, err, panic, traverse, bind-eq-ok, Outcome-cases, bind-ne-panic, traverse-ne-panic,
  sum-traverse, ok-injective,
}
use remote_executor.Base.Sort.{stable_sort, All-stable_sort, sum-stable_sort}
use remote_executor.FileAction.Types.{
  Bytes, BinaryHunk, BinaryOperation, BinaryPatchApplied, Error, hunks_overlap,
}
use remote_executor.FileAction.Binary.{
  usize_mod, hunk_to_binary_operation, key_le, splice, wrapping_sum, apply_binary_hunks,
}
use remote_executor.FileAction.Binary.Edits.{IsWithin, edits, splice-edits}
use remote_executor.FileAction.Binary.Ranges.{
  hunk_to_binary_operation-ne-panic, traverse-IsWithin, splice-ne-panic, splice-IsChain, splice_err,
}
use remote_executor.FileAction.Binary.Overlap.{AreDisjoint, IsChain-iff-AreDisjoint}
use remote_executor.FileAction.Binary.Totals.{
  HasBody, IsCounted, traverse-IsCounted, hunk_to_binary_operation-replacement, length-edits,
  spans_bound, wrapping_sum-eq-sum, sum-counted,
}

abbrev pub operations : Bytes → List BinaryHunk → Outcome Error (List BinaryOperation)
operations bytes hunks = traverse (λ hunk. hunk_to_binary_operation hunk (length bytes)) hunks

-- No file and no list of hunks makes `apply_binary_hunks` slice out of range.
pub apply_binary_hunks-ne-panic :
    (bytes : Bytes) (hunks : List BinaryHunk) → apply_binary_hunks bytes hunks ≢ panic
unfolding apply_binary_hunks
apply_binary_hunks-ne-panic bytes hunks =
    bind-ne-panic (operations bytes hunks) _
      (traverse-ne-panic _ hunks (λ hunk. hunk_to_binary_operation-ne-panic hunk (length bytes)))
      (λ found e.
        bind-ne-panic (splice bytes (stable_sort key_le found) 0 []) _
          (splice-ne-panic bytes (stable_sort key_le found) 0 [] (omega arith)
            (All-stable_sort key_le _ found (traverse-IsWithin hunks (length bytes) found e)))
          (λ output e'. λ p. cc))

-- Hunks whose ranges lie in the file are refused exactly when two ranges overlap; otherwise the
-- new bytes are those that the edits leave when they are made one at a time, last offset first.
pub apply_binary_hunks-edits :
    (bytes : Bytes) (hunks : List BinaryHunk) (found : List BinaryOperation)
    → operations bytes hunks ≡ ok found
    → (AllPairs AreDisjoint found
        × (r : BinaryPatchApplied) × (apply_binary_hunks bytes hunks ≡ ok r)
        × (r.bytes ≡ edits (stable_sort key_le found) bytes))
      ⊎ ((¬ AllPairs AreDisjoint found) × (apply_binary_hunks bytes hunks ≡ err hunks_overlap))
unfolding apply_binary_hunks
apply_binary_hunks-edits bytes hunks found h =
    let ops = stable_sort key_le found in
    let within = traverse-IsWithin hunks (length bytes) found h in
    let within' = All-stable_sort key_le (IsWithin (length bytes)) found within in
    let chain = IsChain-iff-AreDisjoint (length bytes) found within in
    elim (Outcome-cases (splice bytes ops 0 [])
      (splice-ne-panic bytes ops 0 [] (omega arith) within')) [
        | inl (output, e) ↦
            let c = splice-IsChain bytes ops 0 [] output e in
            inl (
              chain.0 c,
              record {
                bytes = output;
                additions = wrapping_sum (map (λ op. op.additions) ops);
                deletions = wrapping_sum (map (λ op. op.deletions) ops);
              },
              rw (h, e),
              ok-injective (sym e ∙ splice-edits bytes ops 0 [] (omega arith) within' c),
            )
        | inr (e, stopped) ↦ inr (
          (λ d. cc (stopped, splice-edits bytes ops 0 [] (omega arith) within' (chain.1 d))),
          rw (h, stopped) (ap err (splice_err bytes ops 0 [] e stopped)),
        )
      ]

module _ (bytes : Bytes) (hunks : List BinaryHunk) {r : BinaryPatchApplied} where
  -- Every byte is accounted for: the new file has the old one's bytes, less the reported
  -- deletions, more the reported additions. The hunks have the bodies that they declare, and the
  -- file and the bodies together are below 2 ^ 64 bytes each.
  pub apply_binary_hunks-length :
      length bytes < usize_mod
      → sum (map (λ hunk. length hunk.bytes) hunks) < usize_mod
      → All HasBody hunks
      → apply_binary_hunks bytes hunks ≡ ok r
      → length r.bytes + r.deletions ≡ length bytes + r.additions
  unfolding apply_binary_hunks
  apply_binary_hunks-length small few b h =
      let (found, e, h') = bind-eq-ok (operations bytes hunks) _ h in
      let ops = stable_sort key_le found in
      let (output, e', h'') = bind-eq-ok (splice bytes ops 0 []) _ h' in
      let within =
        All-stable_sort key_le (IsWithin (length bytes)) found
          (traverse-IsWithin hunks (length bytes) found e) in
      let chain = splice-IsChain bytes ops 0 [] output e' in
      let counted = sum-counted ops (
        All-stable_sort key_le IsCounted found
          (traverse-IsCounted hunks (length bytes) found b e)) in
      let body =
        sum-stable_sort key_le (λ op. length op.replacement) found
        ∙ sum-traverse (λ op. length op.replacement) (λ hunk. length hunk.bytes) _ hunks
            (hunk_to_binary_operation-replacement (length bytes)) e in
      let left = spans_bound (length bytes) ops 0 (omega arith) within chain in
      let del = wrapping_sum-eq-sum (map (λ op. op.deletions) ops) (omega arith) in
      let add = wrapping_sum-eq-sum (map (λ op. op.additions) ops) (omega arith) in
      let shape : output ≡ edits ops bytes =
        ok-injective (sym e' ∙ splice-edits bytes ops 0 [] (omega arith) within chain) in
      let r' = ok-injective h'' in
      omega (
        arith,
        length-edits bytes ops 0 (omega arith) within chain,
        ap length shape,
        ap (λ (a : BinaryPatchApplied). length a.bytes) r',
        ap (λ (a : BinaryPatchApplied). a.additions) r',
        ap (λ (a : BinaryPatchApplied). a.deletions) r',
      )
