-- ===== src/FileAction/Hex.antt =====
-- `decode_hex` of tools/file_action/mod.rs, and `hex_lower` of tools/fs/mod.rs, which prints the
-- digits of a hash.
pub mod RoundTrip
pub mod Boundaries
use remote_executor.Base.{
  ℕ, zero, suc, ◌+◌, ◌-◌, ◌/◌, ◌%◌, Bool, true, false, not, ◌&&◌, ◌||◌, Option, none, some, List,
  [], ◌∷◌, ◌++◌, map, ltb, ◌==◌, if◌then◌else◌,
}
use remote_executor.Base.Outcome.{Outcome, ok, ◌>>=◌, ◌>>◌, reject_if, ok_or, or_panic}
use remote_executor.Text.{
  Text, is_whitespace, is_empty, codes, strip_prefix, split, byte_len, slice_bytes,
}
use remote_executor.Text.Number.{from_str_radix}
use remote_executor.FileAction.Types.{Bytes, Error, odd_hex_digits, invalid_hex_byte}

unfoldable pub is_hex_separator : ℕ → Bool
unfolding is_whitespace
is_hex_separator c = is_whitespace c || c == b',' || c == b'_'

-- `part.strip_prefix("0x").or_else(|| part.strip_prefix("0X")).unwrap_or(part)`
unfoldable pub strip_hex_prefix : Text → Text
unfolding strip_prefix
strip_hex_prefix part = elim (strip_prefix (b'0' ∷ b'x' ∷ []) part) [
  | some rest ↦ rest
  | none ↦ elim (strip_prefix (b'0' ∷ b'X' ∷ []) part) [ some rest ↦ rest | none ↦ part ]
]

-- The empty parts that the source filters out add nothing to the joined text.
unfoldable pub join_parts : List Text → Text
join_parts [] = []
join_parts (part ∷ parts) =
    (if is_empty part then [] else strip_hex_prefix part) ++ join_parts parts

-- the digits with separators and prefixes removed
unfoldable pub compact_hex : Text → Text
unfolding split is_hex_separator strip_hex_prefix join_parts
compact_hex text = join_parts (split is_hex_separator text)

-- `n` bytes from byte offset `idx` on, two digits each: `&compact[idx..idx + 2]` is not tested
-- for a character boundary
unfoldable pub hex_bytes : Text → ℕ → ℕ → Outcome Error Bytes
hex_bytes compact idx zero = ok []
hex_bytes compact idx (suc n) = do
  digits ← or_panic (slice_bytes compact idx (idx + 2))
  byte ← ok_or (from_str_radix 16 255 digits) (invalid_hex_byte idx)
  rest ← hex_bytes compact (idx + 2) n
  ok (byte ∷ rest)

unfoldable pub decode_hex : Text → Outcome Error Bytes
decode_hex text = do
  let compact = compact_hex text
  reject_if (not (byte_len compact % 2 == 0)) odd_hex_digits
  hex_bytes compact 0 (byte_len compact / 2)

-- one digit below 16, as `{:x}` prints it
unfoldable pub hex_digit : ℕ → ℕ
hex_digit d = if ltb d 10 then b'0' + d else b'a' + d - 10

-- `bytes.iter().map(|byte| format!("{byte:02x}")).collect()`
unfoldable pub hex_lower : Bytes → Text
unfolding hex_digit
hex_lower [] = []
hex_lower (b ∷ bytes) = hex_digit (b / 16) ∷ hex_digit (b % 16) ∷ hex_lower bytes
