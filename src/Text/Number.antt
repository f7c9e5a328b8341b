-- ===== src/Text/Number.antt =====
-- `from_str_radix` and `parse` for unsigned integers.
use remote_executor.Base.{
  ℕ, ◌+◌, ◌-◌, ◌*◌, ◌^◌, ◌≤◌, ◌≡◌, ◌&&◌, Option, none, some, List, [], ◌∷◌, arith, ltb, inl, inr,
  Option-cases, leb, ◌==◌, if◌then◌else◌,
}

-- `char::to_digit`, for a radix of at most 16
unfoldable pub to_digit : ℕ → ℕ → Option ℕ
to_digit radix c =
    let d =
      if leb b'0' c && leb c b'9'
      then c - b'0'
      else if leb b'a' c && leb c b'f'
      then c - b'a' + 10
      else if leb b'A' c && leb c b'F'
      then c - b'A' + 10
      else radix in
    if ltb d radix then some d else none

-- the digits behind `n`; a value above `max` is an error
unfoldable pub scan_digits : ℕ → ℕ → List ℕ → ℕ → Option ℕ
scan_digits radix max [] n = some n
scan_digits radix max (c ∷ s) n = elim (to_digit radix c) [
  | none ↦ none
  | some d ↦ if ltb max (n * radix + d) then none else scan_digits radix max s (n * radix + d)
]

-- A sign `+` may stand in front of one digit or more.
unfoldable pub from_str_radix : ℕ → ℕ → List ℕ → Option ℕ
unfolding scan_digits
from_str_radix radix max [] = none
from_str_radix radix max (c ∷ []) = scan_digits radix max (c ∷ []) 0
from_str_radix radix max (c ∷ d ∷ s) =
    if c == b'+' then scan_digits radix max (d ∷ s) 0 else scan_digits radix max (c ∷ d ∷ s) 0

abbrev pub usize_max : ℕ
usize_max = 2 ^ 64 - 1

-- `value.parse::<usize>()`
unfoldable pub parse_usize : List ℕ → Option ℕ
unfolding from_str_radix to_digit
parse_usize s = from_str_radix 10 usize_max s

scan_digits-le :
    (radix max : ℕ) (s : List ℕ) (n r : ℕ) → n ≤ max → scan_digits radix max s n ≡ some r → r ≤ max
unfolding scan_digits
scan_digits-le radix max [] n r fits h = ground arith
scan_digits-le radix max (c ∷ s) n r fits h = elim (Option-cases (to_digit radix c)) [
  | inl e ↦ ground arith
  | inr (d, e) ↦ ground (arith, scan_digits-le radix max s (n * radix + d) r)
]

pub from_str_radix-le :
    (radix max : ℕ) (s : List ℕ) (r : ℕ) → from_str_radix radix max s ≡ some r → r ≤ max
unfolding from_str_radix
from_str_radix-le radix max [] r h = cc
from_str_radix-le radix max (c ∷ []) r h = scan_digits-le radix max (c ∷ []) 0 r (omega arith) h
from_str_radix-le radix max (c ∷ d ∷ s) r h =
    ground (arith, scan_digits-le radix max (d ∷ s) 0 r, scan_digits-le radix max (c ∷ d ∷ s) 0 r)
