-- ===== src/FileAction/Hex/RoundTrip.antt =====
-- `decode_hex` reads back what `hex_lower` prints.
use remote_executor.Base.{
  ℕ, ◌+◌, ◌*◌, ◌/◌, ◌%◌, ◌<◌, ◌≡◌, refl, ◌∙◌, false, some, [], ◌∷◌, ◌++◌, append-nil, append_assoc,
  arith, length, length-append, All, All-append, ◌==◌,
}
use remote_executor.Base.Outcome.{ok}
use remote_executor.Text.{Text, split, byte_len, drop_bytes, take_bytes, slice_bytes}
use remote_executor.Text.Number.{to_digit, from_str_radix}
use remote_executor.FileAction.Types.{Bytes}
use remote_executor.FileAction.Hex.{
  is_hex_separator, strip_hex_prefix, join_parts, compact_hex, hex_bytes, decode_hex, hex_digit,
  hex_lower,
}

abbrev pub IsAscii : Text → Type 0
IsAscii = All (λ c. c < 0x80)

hex_digit-to_digit : (d : ℕ) → d < 16 → to_digit 16 (hex_digit d) ≡ some d
unfolding to_digit hex_digit
hex_digit-to_digit d h = ground arith

hex_digit-ascii : (d : ℕ) → d < 16 → hex_digit d < 0x80
unfolding hex_digit
hex_digit-ascii d h = ground arith

hex_digit-separator : (d : ℕ) → d < 16 → is_hex_separator (hex_digit d) ≡ false
unfolding hex_digit is_hex_separator
hex_digit-separator d h = ground arith

hex_digit-ne_plus : (d : ℕ) → d < 16 → (hex_digit d == b'+') ≡ false
unfolding hex_digit
hex_digit-ne_plus d h = ground arith

hex_digit-ne_x : (d : ℕ) → d < 16 → (b'x' == hex_digit d) ≡ false
unfolding hex_digit
hex_digit-ne_x d h = ground arith

hex_digit-ne_upper_x : (d : ℕ) → d < 16 → (b'X' == hex_digit d) ≡ false
unfolding hex_digit
hex_digit-ne_upper_x d h = ground arith

pub byte_len-ascii : (s : Text) → IsAscii s → byte_len s ≡ length s
unfolding byte_len
byte_len-ascii [] h = refl
byte_len-ascii (c ∷ s) (hc, h) = ground (arith, byte_len-ascii s)

pub drop_bytes-ascii : (s rest : Text) → IsAscii s → drop_bytes (length s) (s ++ rest) ≡ some rest
unfolding drop_bytes
drop_bytes-ascii [] [] h = refl
drop_bytes-ascii [] (c ∷ rest) h = refl
drop_bytes-ascii (c ∷ s) rest (hc, h) = ground (arith, drop_bytes-ascii s rest h)

take_bytes_two :
    (a b : ℕ) (rest : Text) → a < 0x80 → b < 0x80 → take_bytes 2 (a ∷ b ∷ rest) ≡ some (a ∷ b ∷ [])
unfolding take_bytes
take_bytes_two a b [] ha hb = ground arith
take_bytes_two a b (c ∷ rest) ha hb = ground arith

-- Two digits of a byte, read in base 16.
from_str_radix_byte :
    (b : ℕ)
    → b < 256
    → from_str_radix 16 255 (hex_digit (b / 16) ∷ hex_digit (b % 16) ∷ []) ≡ some b
unfolding from_str_radix
from_str_radix_byte b h =
    ground
      (arith, hex_digit-ne_plus (b / 16), hex_digit-to_digit (b / 16), hex_digit-to_digit (b % 16))

-- The slice of two digits at the place of `a` and `b`.
slice_bytes_two :
    (pre : Text) (a b : ℕ) (rest : Text)
    → IsAscii pre
    → a < 0x80
    → b < 0x80
    → slice_bytes (pre ++ a ∷ b ∷ rest) (length pre) (length pre + 2) ≡ some (a ∷ b ∷ [])
unfolding slice_bytes
slice_bytes_two pre a b rest hp ha hb =
    ground (arith, drop_bytes-ascii pre (a ∷ b ∷ rest) hp, take_bytes_two a b rest)

hex_bytes-hex_lower :
    (pre : Text) (bytes : Bytes)
    → IsAscii pre
    → All (λ b. b < 256) bytes
    → hex_bytes (pre ++ hex_lower bytes) (length pre) (length bytes) ≡ ok bytes
unfolding hex_bytes hex_lower
hex_bytes-hex_lower pre [] hp h = refl
hex_bytes-hex_lower pre (b ∷ bytes) hp (hb, h) =
    let hi = hex_digit (b / 16) in
    let lo = hex_digit (b % 16) in
    let ahi = hex_digit-ascii (b / 16) (omega arith) in
    let alo = hex_digit-ascii (b % 16) (omega arith) in
    let later =
      hex_bytes-hex_lower (pre ++ hi ∷ lo ∷ []) bytes
        (All-append (λ c. c < 0x80) pre (hi ∷ lo ∷ []) hp (ahi, (alo, tt))) h in
    let rest : hex_bytes (pre ++ hi ∷ lo ∷ hex_lower bytes) (length pre + 2) (length bytes)
        ≡ ok bytes =
      rw (append_assoc, length-append) at later in
    rw (slice_bytes_two pre hi lo (hex_lower bytes) hp ahi alo, from_str_radix_byte b hb, rest)

no_separator :
    (bytes : Bytes)
    → All (λ b. b < 256) bytes
    → split is_hex_separator (hex_lower bytes) ≡ hex_lower bytes ∷ []
unfolding split hex_lower
no_separator [] h = refl
no_separator (b ∷ bytes) (hb, h) =
    ground (arith, no_separator bytes h, hex_digit-separator (b / 16), hex_digit-separator (b % 16))

strip_hex_prefix_digits :
    (a b : ℕ) (s : Text)
    → b < 16
    → strip_hex_prefix (hex_digit a ∷ hex_digit b ∷ s) ≡ hex_digit a ∷ hex_digit b ∷ s
unfolding strip_hex_prefix
strip_hex_prefix_digits a b s h = ground (arith, hex_digit-ne_x b, hex_digit-ne_upper_x b)

join_parts-hex_lower :
    (bytes : Bytes) → All (λ b. b < 256) bytes → join_parts (hex_lower bytes ∷ []) ≡ hex_lower bytes
unfolding join_parts hex_lower
join_parts-hex_lower [] h = refl
join_parts-hex_lower (b ∷ bytes) (hb, h) =
    append-nil _ ∙ strip_hex_prefix_digits (b / 16) (b % 16) (hex_lower bytes) (omega arith)

compact_hex-hex_lower :
    (bytes : Bytes) → All (λ b. b < 256) bytes → compact_hex (hex_lower bytes) ≡ hex_lower bytes
unfolding compact_hex
compact_hex-hex_lower bytes h = rw (no_separator bytes h) (join_parts-hex_lower bytes h)

pub length-hex_lower : (bytes : Bytes) → length (hex_lower bytes) ≡ 2 * length bytes
unfolding hex_lower
length-hex_lower [] = refl
length-hex_lower (b ∷ bytes) = omega (arith, length-hex_lower bytes)

pub hex_lower-IsAscii : (bytes : Bytes) → All (λ b. b < 256) bytes → IsAscii (hex_lower bytes)
unfolding hex_lower
hex_lower-IsAscii [] h = tt
hex_lower-IsAscii (b ∷ bytes) (hb, h) = (
  hex_digit-ascii (b / 16) (omega arith),
  (hex_digit-ascii (b % 16) (omega arith), hex_lower-IsAscii bytes h),
)

-- Any list of bytes is read back by `decode_hex` from the text that `hex_lower` prints.
pub decode_hex-hex_lower :
    (bytes : Bytes) → All (λ b. b < 256) bytes → decode_hex (hex_lower bytes) ≡ ok bytes
unfolding decode_hex
decode_hex-hex_lower bytes h =
    let size : byte_len (hex_lower bytes) ≡ 2 * length bytes =
      byte_len-ascii (hex_lower bytes) (hex_lower-IsAscii bytes h) ∙ length-hex_lower bytes in
    let even : 2 * length bytes % 2 ≡ 0 = omega arith in
    let half : 2 * length bytes / 2 ≡ length bytes = omega arith in
    rw (compact_hex-hex_lower bytes h, size, even, half) (hex_bytes-hex_lower [] bytes tt h)
