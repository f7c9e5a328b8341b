-- ===== src/Text.antt =====
-- What the program uses of Rust's `str`: texts are lists of Unicode scalar values, and byte offsets
-- are those of their UTF-8 encoding. Out-of-range and off-boundary slices have no result.
pub mod Number
pub mod Lossy
pub mod Decimal
pub mod Utf8
pub mod Equality
pub mod Replace
pub mod Trim
use Prim.Native.Char.{code}
use Prim.Native.String.{String}
use remote_executor.Base.{
  ℕ, ◌+◌, ◌-◌, Bool, true, false, not, ◌&&◌, ◌||◌, Option, none, some, List, [], ◌∷◌, ◌++◌, map,
  leb, ltb, drop, length, ◌==◌, if◌then◌else◌,
}

abbrev pub Text : Type 0
Text = List ℕ

-- the scalar values of a literal
abbrev pub codes : String → Text
codes String.[] = []
codes (String.◌∷◌ c s) = code c ∷ codes s

abbrev within : ℕ → ℕ → ℕ → Bool
within lo hi c = leb lo c && leb c hi

-- `char::is_whitespace`: the Unicode property White_Space
unfoldable pub is_whitespace : ℕ → Bool
is_whitespace c =
    within 0x9 0xd c
    || c == 0x20
    || c == 0x85
    || c == 0xa0
    || c == 0x1680
    || within 0x2000 0x200a c
    || c == 0x2028
    || c == 0x2029
    || c == 0x202f
    || c == 0x205f
    || c == 0x3000

abbrev pub is_empty {ℓ} : {A : Type ℓ} → List A → Bool
is_empty [] = true
is_empty (x ∷ xs) = false

-- `trim_start_matches` and `trim_end_matches` for a test on one character
unfoldable pub trim_start_matches : (ℕ → Bool) → Text → Text
trim_start_matches p [] = []
trim_start_matches p (c ∷ s) = let rest = trim_start_matches p s in if p c then rest else c ∷ s

unfoldable pub trim_end_matches : (ℕ → Bool) → Text → Text
trim_end_matches p [] = []
trim_end_matches p (c ∷ s) =
    let rest = trim_end_matches p s in if p c && is_empty rest then [] else c ∷ rest

unfoldable pub trim : Text → Text
unfolding trim_start_matches trim_end_matches is_whitespace
trim s = trim_end_matches is_whitespace (trim_start_matches is_whitespace s)

unfoldable pub text_eq : Text → Text → Bool
text_eq [] [] = true
text_eq (a ∷ s) (b ∷ t) = a == b && text_eq s t
text_eq _ _ = false

unfoldable pub starts_with : Text → Text → Bool
starts_with [] s = true
starts_with (p ∷ ps) [] = false
starts_with (p ∷ ps) (c ∷ s) = p == c && starts_with ps s

-- `s.strip_prefix(p)`, the prefix first
unfoldable pub strip_prefix : Text → Text → Option Text
strip_prefix [] s = some s
strip_prefix (p ∷ ps) [] = none
strip_prefix (p ∷ ps) (c ∷ s) = let rest = strip_prefix ps s in if p == c then rest else none

abbrev cons_first : ℕ → Option (Text × Text) → Option (Text × Text)
cons_first c none = none
cons_first c (some (a, b)) = some (c ∷ a, b)

-- `s.split_once(sep)`: at the first separator
unfoldable pub split_once : ℕ → Text → Option (Text × Text)
split_once sep [] = none
split_once sep (c ∷ s) =
    let rest = split_once sep s in if c == sep then some ([], s) else cons_first c rest

abbrev or_here : ℕ → ℕ → Text → Option (Text × Text) → Option (Text × Text)
or_here sep c s none = if c == sep then some ([], s) else none
or_here sep c s (some (a, b)) = some (c ∷ a, b)

-- `s.rsplit_once(sep)`: at the last separator
unfoldable pub rsplit_once : ℕ → Text → Option (Text × Text)
rsplit_once sep [] = none
rsplit_once sep (c ∷ s) = or_here sep c s (rsplit_once sep s)

abbrev pub cons_head : ℕ → List Text → List Text
cons_head c [] = (c ∷ []) ∷ []
cons_head c (l ∷ ls) = (c ∷ l) ∷ ls

-- `s.split_terminator(sep)`: no empty piece behind a last separator
unfoldable pub split_terminator : ℕ → Text → List Text
split_terminator sep [] = []
split_terminator sep (c ∷ s) =
    let rest = split_terminator sep s in if c == sep then [] ∷ rest else cons_head c rest

-- `s.split(p)` for a test on one character: always at least one piece
unfoldable pub split : (ℕ → Bool) → Text → List Text
split p [] = [] ∷ []
split p (c ∷ s) = let rest = split p s in if p c then [] ∷ rest else cons_head c rest

abbrev pub starts_lf : Text → Bool
starts_lf [] = false
starts_lf (c ∷ s) = c == b'\n'

-- `s.lines()`: a line ends with "\n" or "\r\n", and the last one may have no end
unfoldable pub lines : Text → List Text
lines [] = []
lines (c ∷ s) =
    let rest = lines s in
    if c == b'\n' then [] ∷ rest else if c == b'\r' && starts_lf s then rest else cons_head c rest

-- `parts.join(sep)`
unfoldable pub join : Text → List Text → Text
join sep [] = []
join sep (l ∷ []) = l
join sep (l ∷ m ∷ ls) = l ++ (sep ++ join sep (m ∷ ls))

unfoldable pub ends_with_lf : Text → Bool
ends_with_lf [] = false
ends_with_lf (c ∷ []) = c == b'\n'
ends_with_lf (c ∷ d ∷ s) = ends_with_lf (d ∷ s)

-- the bytes of a character in UTF-8
unfoldable pub len_utf8 : ℕ → ℕ
len_utf8 c = if ltb c 0x80 then 1 else if ltb c 0x800 then 2 else if ltb c 0x10000 then 3 else 4

-- `s.len()`
unfoldable pub byte_len : Text → ℕ
unfolding len_utf8
byte_len [] = 0
byte_len (c ∷ s) = len_utf8 c + byte_len s

unfoldable pub drop_bytes : ℕ → Text → Option Text
unfolding len_utf8
drop_bytes n [] = if n == 0 then some [] else none
drop_bytes n (c ∷ s) =
    let rest = drop_bytes (n - len_utf8 c) s in
    if n == 0 then some (c ∷ s) else if ltb n (len_utf8 c) then none else rest

abbrev cons_some : ℕ → Option Text → Option Text
cons_some c none = none
cons_some c (some s) = some (c ∷ s)

unfoldable pub take_bytes : ℕ → Text → Option Text
unfolding len_utf8
take_bytes n [] = if n == 0 then some [] else none
take_bytes n (c ∷ s) =
    let rest = take_bytes (n - len_utf8 c) s in
    if n == 0 then some [] else if ltb n (len_utf8 c) then none else cons_some c rest

abbrev take_from : ℕ → Option Text → Option Text
take_from n none = none
take_from n (some s) = take_bytes n s

-- `&s[from..to]`; the source panics where this has no result
unfoldable pub slice_bytes : Text → ℕ → ℕ → Option Text
unfolding drop_bytes take_bytes
slice_bytes s from to = if leb from to then take_from (to - from) (drop_bytes from s) else none

-- `s.find(pat)`: the byte offset of the first occurrence of a text that is not empty
unfoldable pub find : Text → Text → Option ℕ
unfolding len_utf8 starts_with
find pat [] = none
find pat (c ∷ s) =
    let rest = find pat s in
    if starts_with pat (c ∷ s)
    then some 0
    else elim rest [ none ↦ none | some i ↦ some (len_utf8 c + i) ]

-- `s.replacen(pat, new, 1)` for a text `pat` that is not empty
unfoldable pub replace_first : Text → Text → Text → Text
unfolding starts_with
replace_first pat new [] = []
replace_first pat new (c ∷ s) =
    let rest = replace_first pat new s in
    if starts_with pat (c ∷ s) then new ++ drop (length pat) (c ∷ s) else c ∷ rest
