-- ===== src/FileAction/Binary/Overlap.antt =====
-- The loop's test `op.start < cursor` over the sorted operations says whether two ranges overlap.
use remote_executor.Base.{
  ℕ, ◌≤◌, ◌≡◌, ◌↔◌, ◌⊎◌, true, inl, inr, List, [], ◌∷◌, arith, All, AllPairs, All-map,
}
use remote_executor.Base.Sort.{
  stable_sort, IsSorted, All-stable_sort, AllPairs-stable_sort, AllPairs-of_stable_sort,
  stable_sort-IsSorted,
}
use native.Mathlib.Nat.{le_trans}
use remote_executor.FileAction.Types.{BinaryOperation}
use remote_executor.FileAction.Binary.{key_le}
use remote_executor.FileAction.Binary.Edits.{IsWithin, IsChain}
use remote_executor.FileAction.Binary.Ranges.{key_le_total, key_le_trans}

-- One range ends before the other starts. An insertion is an empty range.
abbrev pub AreDisjoint : BinaryOperation → BinaryOperation → Type 0
AreDisjoint a b = (a.end ≤ b.start) ⊎ (b.end ≤ a.start)

AreDisjoint-symm : (a b : BinaryOperation) → AreDisjoint a b → AreDisjoint b a
AreDisjoint-symm a b (inl h) = inr h
AreDisjoint-symm a b (inr h) = inl h

-- Of two disjoint ranges the one with the smaller key ends first.
end-le-start :
    (a b : BinaryOperation)
    → a.start ≤ a.end
    → b.start ≤ b.end
    → key_le a b ≡ true
    → AreDisjoint a b
    → a.end ≤ b.start
unfolding key_le
end-le-start a b ha hb h d = ground arith

IsChain-of_sorted :
    (total : ℕ) (ops : List BinaryOperation) (cursor : ℕ)
    → All (IsWithin total) ops
    → IsSorted key_le ops
    → AllPairs AreDisjoint ops
    → All (λ op. cursor ≤ op.start) ops
    → IsChain cursor ops
IsChain-of_sorted total [] cursor w s d c = tt
IsChain-of_sorted total (op ∷ ops) cursor (wo, w) (so, s) (dop, d) (co, c) =
    (co, IsChain-of_sorted total ops op.end w s d (next ops w so dop))
  where
    next :
        (xs : List BinaryOperation)
        → All (IsWithin total) xs
        → All (λ y. key_le op y ≡ true) xs
        → All (AreDisjoint op) xs
        → All (λ x. op.end ≤ x.start) xs
    next [] hw hk hd = tt
    next (x ∷ xs) (hx, hw) (kx, hk) (dx, hd) = (end-le-start op x wo.0 hx.0 kx dx, next xs hw hk hd)

IsChain-starts :
    (total : ℕ) (ops : List BinaryOperation) (cursor : ℕ)
    → All (IsWithin total) ops
    → IsChain cursor ops
    → All (λ op. cursor ≤ op.start) ops
IsChain-starts total [] cursor w c = tt
IsChain-starts total (op ∷ ops) cursor (wo, w) (co, c) =
    (co, All-map ops (λ x h. le_trans (le_trans co wo.0) h) (IsChain-starts total ops op.end w c))

AllPairs-of_chain :
    (total : ℕ) (ops : List BinaryOperation) (cursor : ℕ)
    → All (IsWithin total) ops
    → IsChain cursor ops
    → AllPairs AreDisjoint ops
AllPairs-of_chain total [] cursor w c = tt
AllPairs-of_chain total (op ∷ ops) cursor (wo, w) (co, c) = (
  All-map ops (λ x h. inl h) (IsChain-starts total ops op.end w c),
  AllPairs-of_chain total ops op.end w c,
)

zero_le-All : (ops : List BinaryOperation) → All (λ op. 0 ≤ op.start) ops
zero_le-All [] = tt
zero_le-All (op ∷ ops) = (omega arith, zero_le-All ops)

-- Sorted by the key, ranges inside the file form a chain exactly when no two of them overlap.
pub IsChain-iff-AreDisjoint :
    (total : ℕ) (ops : List BinaryOperation)
    → All (IsWithin total) ops
    → IsChain 0 (stable_sort key_le ops) ↔ AllPairs AreDisjoint ops
IsChain-iff-AreDisjoint total ops w =
    let w' = All-stable_sort key_le (IsWithin total) ops w in
    (
      λ c.
          AllPairs-of_stable_sort key_le AreDisjoint AreDisjoint-symm ops
            (AllPairs-of_chain total (stable_sort key_le ops) 0 w' c),
      λ d.
          IsChain-of_sorted total (stable_sort key_le ops) 0 w'
            (stable_sort-IsSorted key_le key_le_total key_le_trans ops)
            (AllPairs-stable_sort key_le AreDisjoint AreDisjoint-symm ops d)
            (zero_le-All (stable_sort key_le ops)),
    )
