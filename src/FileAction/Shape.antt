-- ===== src/FileAction/Shape.antt =====
-- `TextShape` of tools/file_action/mod.rs: the byte-order mark and the line endings that a text
-- file has, and the text without them.
pub mod RoundTrip
use remote_executor.Base.{
  ℕ, ◌+◌, Bool, true, false, ◌&&◌, Option, none, some, List, [], ◌∷◌, ◌++◌, map, leb, ◌==◌,
  if◌then◌else◌, take,
}
use remote_executor.Base.Outcome.{Outcome, ok, ◌>>=◌, ◌>>◌, ok_or, reject_if}
use remote_executor.Text.{Text, starts_lf, strip_prefix, find}
use remote_executor.Text.Utf8.{from_utf8, into_bytes}
use remote_executor.FileAction.Types.{
  Bytes, LineEnding, lf, crlf, TextShape, Error, binary_file, not_utf8,
}

-- the first zero byte from offset `idx` on
unfoldable pub find_zero : Bytes → ℕ → Option (ℕ × ℕ)
find_zero [] idx = none
find_zero (byte ∷ bytes) idx = if byte == 0 then some (idx, byte) else find_zero bytes (idx + 1)

unfoldable pub binary_byte : Bytes → Option (ℕ × ℕ)
binary_byte bytes = find_zero (take 4096 bytes) 0

-- the `match` of `detect_line_ending` on the offsets of the first "\r\n" and the first "\n"
unfoldable pub choose_line_ending : Option ℕ → Option ℕ → LineEnding
choose_line_ending (some c) (some l) = if leb c l then crlf else lf
choose_line_ending (some c) none = crlf
choose_line_ending none l = lf

unfoldable pub detect_line_ending : Text → LineEnding
detect_line_ending text =
    choose_line_ending (find (b'\r' ∷ b'\n' ∷ []) text) (find (b'\n' ∷ []) text)

-- `text.replace("\r\n", "\n")`: the "\r" in front of a "\n" goes
unfoldable pub replace_crlf : Text → Text
replace_crlf [] = []
replace_crlf (c ∷ s) =
    let rest = replace_crlf s in if c == b'\r' && starts_lf s then rest else c ∷ rest

-- `text.replace('\r', "\n")`
unfoldable pub replace_cr : Text → Text
replace_cr text = map (λ c. if c == b'\r' then b'\n' else c) text

unfoldable pub normalize_to_lf : Text → Text
normalize_to_lf text = replace_cr (replace_crlf text)

-- `text.replace('\n', "\r\n")`
unfoldable pub replace_lf : Text → Text
replace_lf [] = []
replace_lf (c ∷ s) =
    let rest = replace_lf s in if c == b'\n' then b'\r' ∷ b'\n' ∷ rest else c ∷ rest

unfoldable pub restore_line_endings : Text → LineEnding → Text
restore_line_endings text crlf = replace_lf text
restore_line_endings text lf = text

abbrev pub byte_order_mark : ℕ
byte_order_mark = 0xfeff

-- `raw.strip_prefix('\u{FEFF}')`, with whether it was there
unfoldable pub split_bom : Text → Bool × Text
split_bom raw = elim (strip_prefix (byte_order_mark ∷ []) raw) [
  | some text ↦ (true, text)
  | none ↦ (false, raw)
]

abbrev pub shape_with : LineEnding → Bool × Text → TextShape
shape_with line_ending (bom, text) = record {
  bom = bom;
  line_ending = line_ending;
  text = normalize_to_lf text;
}

unfoldable pub shape_of : Text → TextShape
shape_of raw = shape_with (detect_line_ending raw) (split_bom raw)

-- `if let Some((offset, byte)) = binary_byte(&bytes)`
abbrev pub reject_binary : Option (ℕ × ℕ) → Outcome Error (Unit {0})
reject_binary none = ok tt
reject_binary (some (offset, byte)) = reject_if true (binary_file offset byte)

-- `TextShape::from_bytes`
unfoldable pub from_bytes : Bytes → Outcome Error TextShape
from_bytes bytes = do
  reject_binary (binary_byte bytes)
  raw ← ok_or (from_utf8 bytes) not_utf8
  ok (shape_of raw)

-- `TextShape::encode`
unfoldable pub encode : TextShape → Text → Bytes
encode shape text =
    let raw = restore_line_endings text shape.line_ending in
    into_bytes (if shape.bom then byte_order_mark ∷ raw else raw)
