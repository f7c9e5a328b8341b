-- ===== src/Fs/Page.antt =====
-- The pages of `read_dir` and `read_file`: a part of a list from an offset that counts from 1, and the
-- offset at which the next page starts.
use mathlib.Core.Path.{subst}
use remote_executor.Base.{
  ℕ, zero, suc, ◌+◌, ◌-◌, ◌≤◌, ◌<◌, max, ◌≡◌, refl, sym, ap, ◌∙◌, inl, inr, Bool, Option, none,
  some, List, [], ◌∷◌, ◌++◌, arith, ltb, if◌then◌else◌, length, take, drop, length-take,
  length-drop, take-append-drop, Option-cases,
}

module _ {A : Type 0} where
  -- `iter().skip(offset - 1).take(limit.max(1))`
  unfoldable pub sliced : List A → ℕ → ℕ → List A
  sliced items offset limit = take (max limit 1) (drop (offset - 1) items)

  -- `start + sliced.len() < total`
  unfoldable pub is_truncated : List A → ℕ → ℕ → Bool
  is_truncated items offset limit =
      ltb (offset - 1 + length (sliced items offset limit)) (length items)

  unfoldable pub next_offset : List A → ℕ → ℕ → Option ℕ
  next_offset items offset limit =
      if is_truncated items offset limit
      then some (offset + length (sliced items offset limit))
      else none

  -- A reader asks for a page, and then for the one that the page names, until none is named.
  pub data Reads (items : List A) (limit : ℕ) : ℕ → List A → Type 0 where
    last :
        (offset : ℕ)
        → next_offset items offset limit ≡ none
        → Reads items limit offset (sliced items offset limit)
    more :
        (offset next : ℕ) (rest : List A)
        → next_offset items offset limit ≡ some next
        → Reads items limit next rest
        → Reads items limit offset (sliced items offset limit ++ rest)

  take_all : (n : ℕ) (xs : List A) → length xs ≤ n → take n xs ≡ xs
  take_all zero [] h = refl
  take_all (suc n) [] h = refl
  take_all zero (x ∷ xs) h = absurd (omega (arith, h))
  take_all (suc n) (x ∷ xs) h = ap (λ t. x ∷ t) (take_all n xs (omega (arith, h)))

  drop-nil : (n : ℕ) → ◌≡◌ {A = List A} (drop n []) []
  drop-nil zero = refl
  drop-nil (suc n) = refl

  drop-drop : (m n : ℕ) (xs : List A) → drop n (drop m xs) ≡ drop (m + n) xs
  drop-drop zero n xs = ap (λ k. drop k xs) (omega arith)
  drop-drop (suc m) n [] = drop-nil n ∙ sym (drop-nil (suc m + n))
  drop-drop (suc m) n (x ∷ xs) =
      let shift : suc (m + n) ≡ suc m + n = omega arith in
      drop-drop m n xs ∙ ap (λ k. drop k (x ∷ xs)) shift

  -- the page and what follows it are what stands from its offset on
  sliced-drop :
      (items : List A) (offset limit next : ℕ)
      → 1 ≤ offset
      → next_offset items offset limit ≡ some next
      → (sliced items offset limit ++ drop (next - 1) items ≡ drop (offset - 1) items)
        × (offset < next)
        × (length items - (next - 1) < length items - (offset - 1))
  unfolding next_offset is_truncated sliced
  sliced-drop items offset limit next h e =
      let here = drop (offset - 1) items in
      let size = length-take (max limit 1) here in
      let left = length-drop (offset - 1) items in
      let shorter : offset - 1 + length (take (max limit 1) here) < length items =
        ground (arith, e) in
      let at : next ≡ offset + length (take (max limit 1) here) = ground (arith, e) in
      let full : length (take (max limit 1) here) ≡ max limit 1 =
        omega (arith, size, left, shorter) in
      (
        ap (λ n. take (max limit 1) here ++ drop n items) (omega (arith, at, full, h))
            ∙ ap (λ t. take (max limit 1) here ++ t)
                (sym (drop-drop (offset - 1) (max limit 1) items))
            ∙ take-append-drop (max limit 1) here,
        omega (arith, at, full),
        omega (arith, at, full, shorter, h),
      )

  last-drop :
      (items : List A) (offset limit : ℕ)
      → next_offset items offset limit ≡ none
      → sliced items offset limit ≡ drop (offset - 1) items
  unfolding next_offset is_truncated sliced
  last-drop items offset limit e =
      let here = drop (offset - 1) items in
      take_all (max limit 1) here
        (omega (arith, length-take (max limit 1) here, length-drop (offset - 1) items, ends))
    where
      ends : length items ≤ offset - 1 + length (take (max limit 1) (drop (offset - 1) items))
      ends = ground (arith, e)

  Reads-fuel :
      (items : List A) (limit fuel offset : ℕ)
      → 1 ≤ offset
      → length items - (offset - 1) < fuel
      → Reads items limit offset (drop (offset - 1) items)
  Reads-fuel items limit zero offset h small = absurd (omega (arith, small))
  Reads-fuel items limit (suc fuel) offset h small =
      elim (Option-cases (next_offset items offset limit)) [
        | inl ends ↦
            subst (Reads items limit offset) (last-drop items offset limit ends) (last offset ends)
        | inr (next, goes_on) ↦
            let (joined, later, fewer) = sliced-drop items offset limit next h goes_on in
            subst (Reads items limit offset) joined (
              more offset next (drop (next - 1) items) goes_on (
                Reads-fuel items limit fuel next (omega (arith, h, later))
                  (omega (arith, fewer, small))))
      ]

  -- From any offset from 1 on, with any limit, following the offsets that the pages name comes to an
  -- end, and the pages hold what stands from the offset on: each item once, in order.
  pub Reads-drop :
      (items : List A) (limit offset : ℕ)
      → 1 ≤ offset
      → Reads items limit offset (drop (offset - 1) items)
  Reads-drop items limit offset h =
      Reads-fuel items limit (suc (length items - (offset - 1))) offset h (omega arith)

  pub next_offset-ge :
      (items : List A) (offset limit next : ℕ)
      → next_offset items offset limit ≡ some next
      → offset ≤ next
  unfolding next_offset
  next_offset-ge items offset limit next e = ground (arith, e)
