-- ===== src/Text/Lossy.antt =====
-- `String::from_utf8_lossy`: each longest piece that cannot be continued to a character becomes U+FFFD.
use remote_executor.Base.{
  ℕ, zero, suc, ◌+◌, ◌-◌, ◌*◌, ◌&&◌, List, [], ◌∷◌, ◌++◌, leb, ltb, if◌then◌else◌,
}
use remote_executor.Text.Utf8.{Utf8State, boundary, invalid, inside, lead}

abbrev pub replacement : ℕ
replacement = 0xfffd

-- what is written for a first byte, and what it leaves open
abbrev pub open_with : Utf8State → List ℕ × Utf8State
open_with invalid = (replacement ∷ [], boundary)
open_with boundary = ([], boundary)
open_with (inside acc more low high) = ([], inside acc more low high)

unfoldable pub first_byte : ℕ → List ℕ × Utf8State
unfolding lead
first_byte b = if ltb b 0x80 then (b ∷ [], boundary) else open_with (lead b)

-- a byte that does not fit ends the piece, and starts the next
abbrev pub refused : ℕ → List ℕ × Utf8State
refused b = (replacement ∷ (first_byte b).0, (first_byte b).1)

unfoldable pub lossy_step : Utf8State → ℕ → List ℕ × Utf8State
lossy_step boundary b = first_byte b
lossy_step invalid b = first_byte b
lossy_step (inside acc zero low high) b =
    if leb low b && leb b high then ((acc * 64 + (b - 0x80)) ∷ [], boundary) else refused b
lossy_step (inside acc (suc more) low high) b =
    if leb low b && leb b high
    then ([], inside (acc * 64 + (b - 0x80)) more 0x80 0xbf)
    else refused b

abbrev pub rest_of_piece : Utf8State → List ℕ
rest_of_piece boundary = []
rest_of_piece invalid = []
rest_of_piece (inside acc more low high) = replacement ∷ []

unfoldable pub lossy_from : Utf8State → List ℕ → List ℕ
lossy_from state [] = rest_of_piece state
lossy_from state (b ∷ bytes) = let next = lossy_step state b in next.0 ++ lossy_from next.1 bytes

unfoldable pub from_utf8_lossy : List ℕ → List ℕ
from_utf8_lossy bytes = lossy_from boundary bytes
