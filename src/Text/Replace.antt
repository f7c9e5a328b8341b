-- ===== src/Text/Replace.antt =====
-- `contains`, `replace` and `eq_ignore_ascii_case` of `str`.
use remote_executor.Base.{
  ℕ, zero, suc, ◌+◌, ◌-◌, Bool, true, false, ◌&&◌, ◌||◌, [], ◌∷◌, ◌++◌, leb, ◌==◌, if◌then◌else◌,
  length,
}
use remote_executor.Text.{Text, is_empty, starts_with}

-- `s.contains(pat)`
unfoldable pub contains : Text → Text → Bool
unfolding starts_with
contains pat [] = is_empty pat
contains pat (c ∷ s) = starts_with pat (c ∷ s) || contains pat s

-- the text behind an occurrence that still has `skip` characters to go
unfoldable pub replace_from : Text → Text → ℕ → Text → Text
unfolding starts_with
replace_from pat new skip [] = []
replace_from pat new (suc k) (c ∷ s) = replace_from pat new k s
replace_from pat new zero (c ∷ s) = elim (starts_with pat (c ∷ s)) [
  | true ↦ new ++ replace_from pat new (length pat - 1) s
  | false ↦ c ∷ replace_from pat new zero s
]

-- `s.replace(pat, new)` for a text `pat` that is not empty
unfoldable pub replace : Text → Text → Text → Text
unfolding replace_from
replace pat new s = replace_from pat new 0 s

unfoldable pub to_lower : ℕ → ℕ
to_lower c = if leb b'A' c && leb c b'Z' then c + 32 else c

unfoldable pub eq_ignore_ascii_case : Text → Text → Bool
unfolding to_lower
eq_ignore_ascii_case [] [] = true
eq_ignore_ascii_case (c ∷ a) (d ∷ b) = to_lower c == to_lower d && eq_ignore_ascii_case a b
eq_ignore_ascii_case _ _ = false
