-- ===== src/Text/Trim.antt =====
-- A trimmed text has nothing left to trim.
use remote_executor.Base.{ℕ, ◌≡◌, refl, ap, ◌∙◌, Bool, ◌&&◌, inl, inr, [], ◌∷◌, Bool-cases}
use remote_executor.Text.{Text, is_empty, is_whitespace, trim_start_matches, trim_end_matches, trim}

module _ (p : ℕ → Bool) where
  trim_end_matches_idem :
      (s : Text) → trim_end_matches p (trim_end_matches p s) ≡ trim_end_matches p s
  unfolding trim_end_matches
  trim_end_matches_idem [] = refl
  trim_end_matches_idem (c ∷ s) = elim (Bool-cases (p c && is_empty (trim_end_matches p s))) [
    | inl e ↦ rw e refl
    | inr e ↦ rw (e, trim_end_matches_idem s, e) refl
  ]

  -- What is left after both cuts has no more to cut in front.
  trim_start_matches-trim_end_matches :
      (s : Text)
      → trim_start_matches p (trim_end_matches p (trim_start_matches p s))
        ≡ trim_end_matches p (trim_start_matches p s)
  unfolding trim_start_matches trim_end_matches
  trim_start_matches-trim_end_matches [] = refl
  trim_start_matches-trim_end_matches (c ∷ s) = elim (Bool-cases (p c)) [
    | inl e ↦ rw e (trim_start_matches-trim_end_matches s)
    | inr e ↦ rw e (rw e (rw e refl))
  ]

pub trim_idem : (s : Text) → trim (trim s) ≡ trim s
unfolding trim
trim_idem s =
    ap (trim_end_matches is_whitespace) (trim_start_matches-trim_end_matches is_whitespace s)
    ∙ trim_end_matches_idem is_whitespace (trim_start_matches is_whitespace s)
