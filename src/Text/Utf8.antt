-- ===== src/Text/Utf8.antt =====
-- UTF-8: `String::into_bytes` and `String::from_utf8`.
pub mod Laws
use mathlib.Core.Path.{subst}
use remote_executor.Base.{
  ℕ, zero, suc, ◌+◌, ◌-◌, ◌*◌, ◌/◌, ◌%◌, ◌≤◌, ◌≡◌, refl, sym, ap, ◌∙◌, ◌&&◌, ◌||◌, Option, none,
  some, inl, inr, List, [], ◌∷◌, ◌++◌, append_assoc, arith, ltb, leb, ◌==◌, if◌then◌else◌,
  Bool-cases, Option-cases,
}

unfoldable pub encode_char : ℕ → List ℕ
encode_char c =
    if ltb c 0x80
    then c ∷ []
    else if ltb c 0x800
    then (0xc0 + c / 64) ∷ (0x80 + c % 64) ∷ []
    else if ltb c 0x10000
    then (0xe0 + c / 4096) ∷ (0x80 + c / 64 % 64) ∷ (0x80 + c % 64) ∷ []
    else (0xf0 + c / 262144) ∷ (0x80 + c / 4096 % 64) ∷ (0x80 + c / 64 % 64) ∷ (0x80 + c % 64) ∷ []

unfoldable pub into_bytes : List ℕ → List ℕ
into_bytes [] = []
into_bytes (c ∷ s) = encode_char c ++ into_bytes s

-- What the bytes so far leave open: nothing, or a character with its upper bits, the number of
-- continuation bytes behind the next one, and the bounds of the next one.
pub data Utf8State : Type 0 where
  boundary invalid : Utf8State
  inside : ℕ → ℕ → ℕ → ℕ → Utf8State

-- the first byte of a character of more than one byte
unfoldable pub lead : ℕ → Utf8State
lead b =
    if leb 0xc2 b && leb b 0xdf
    then inside (b - 0xc0) 0 0x80 0xbf
    else if b == 0xe0
    then inside 0 1 0xa0 0xbf
    else if b == 0xed
    then inside 0xd 1 0x80 0x9f
    else if leb 0xe1 b && leb b 0xef
    then inside (b - 0xe0) 1 0x80 0xbf
    else if b == 0xf0
    then inside 0 2 0x90 0xbf
    else if leb 0xf1 b && leb b 0xf3
    then inside (b - 0xf0) 2 0x80 0xbf
    else if b == 0xf4
    then inside 4 2 0x80 0x8f
    else invalid

abbrev pub cons_char : ℕ → Option (List ℕ) → Option (List ℕ)
cons_char c none = none
cons_char c (some s) = some (c ∷ s)

unfoldable pub decode : List ℕ → Utf8State → Option (List ℕ)
decode [] boundary = some []
decode [] invalid = none
decode [] (inside acc more low high) = none
decode (b ∷ bytes) boundary =
    if ltb b 0x80 then cons_char b (decode bytes boundary) else decode bytes (lead b)
decode (b ∷ bytes) invalid = none
decode (b ∷ bytes) (inside acc zero low high) =
    if leb low b && leb b high
    then cons_char (acc * 64 + (b - 0x80)) (decode bytes boundary)
    else none
decode (b ∷ bytes) (inside acc (suc more) low high) =
    if leb low b && leb b high
    then decode bytes (inside (acc * 64 + (b - 0x80)) more 0x80 0xbf)
    else none

unfoldable pub from_utf8 : List ℕ → Option (List ℕ)
from_utf8 bytes = decode bytes boundary

-- Any bytes that complete the character give one whose encoding is `seen` and those bytes.
abbrev pub IsPrefix : List ℕ → ℕ → ℕ → ℕ → ℕ → Type 0
IsPrefix seen acc zero low high =
    (b : ℕ) → low ≤ b → b ≤ high → encode_char (acc * 64 + (b - 0x80)) ≡ seen ++ (b ∷ [])
IsPrefix seen acc (suc more) low high =
    (b : ℕ)
    → low ≤ b
    → b ≤ high
    → IsPrefix (seen ++ (b ∷ [])) (acc * 64 + (b - 0x80)) more 0x80 0xbf

abbrev pub IsState : List ℕ → Utf8State → Type 0
IsState seen boundary = seen ≡ []
IsState seen invalid = Unit
IsState seen (inside acc more low high) = IsPrefix seen acc more low high

pub two_bytes :
    (a b : ℕ)
    → 2 ≤ a
    → a ≤ 31
    → 0x80 ≤ b
    → b ≤ 0xbf
    → encode_char (a * 64 + (b - 0x80)) ≡ (0xc0 + a) ∷ b ∷ []
unfolding encode_char
two_bytes a b la ha lb hb = ground arith

pub three_bytes :
    (a b c : ℕ)
    → a ≤ 15
    → 0x80 ≤ b
    → b ≤ 0xbf
    → 0x800 ≤ a * 4096 + (b - 0x80) * 64
    → 0x80 ≤ c
    → c ≤ 0xbf
    → encode_char ((a * 64 + (b - 0x80)) * 64 + (c - 0x80)) ≡ (0xe0 + a) ∷ b ∷ c ∷ []
unfolding encode_char
three_bytes a b c ha lb hb big lc hc = ground arith

pub four_bytes :
    (a b c d : ℕ)
    → a ≤ 4
    → 0x80 ≤ b
    → b ≤ 0xbf
    → 0x10 ≤ a * 64 + (b - 0x80)
    → 0x80 ≤ c
    → c ≤ 0xbf
    → 0x80 ≤ d
    → d ≤ 0xbf
    → encode_char (((a * 64 + (b - 0x80)) * 64 + (c - 0x80)) * 64 + (d - 0x80))
      ≡ (0xf0 + a) ∷ b ∷ c ∷ d ∷ []
unfolding encode_char
four_bytes a b c d ha lb hb big lc hc ld hd = ground arith
