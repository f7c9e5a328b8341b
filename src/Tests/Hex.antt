-- ===== src/Tests/Hex.antt =====
-- Hexadecimal content of tools/file_action/mod.rs at concrete inputs.
use remote_executor.Base.{false, ◌≡◌, refl, [], ◌∷◌, arith, All}
use remote_executor.Base.Outcome.{ok, err, panic}
use remote_executor.Text.{codes, byte_len, slice_bytes}
use remote_executor.Text.Number.{from_str_radix, to_digit}
use remote_executor.FileAction.Types.{odd_hex_digits, invalid_hex_byte}
use remote_executor.FileAction.Hex.{decode_hex, compact_hex, hex_bytes, hex_lower, is_hex_separator}
use remote_executor.FileAction.Hex.RoundTrip.{decode_hex-hex_lower}
use remote_executor.FileAction.Hex.Boundaries.{decode_hex-panic}

decode_spaced : decode_hex (codes "0xFE 00,aa_B") ≡ err odd_hex_digits
unfolding decode_hex compact_hex byte_len hex_bytes slice_bytes from_str_radix to_digit
decode_spaced = refl

decode_mixed : decode_hex (codes "0xFE 00,aa_Bb") ≡ ok (0xfe ∷ 0 ∷ 0xaa ∷ 0xbb ∷ [])
unfolding decode_hex compact_hex byte_len hex_bytes slice_bytes from_str_radix to_digit
decode_mixed = refl

decode_bad_digit : decode_hex (codes "AAGG") ≡ err (invalid_hex_byte 2)
unfolding decode_hex compact_hex byte_len hex_bytes slice_bytes from_str_radix to_digit
decode_bad_digit = refl

-- a sign is read as a digit
decode_plus : decode_hex (codes "+5") ≡ ok (5 ∷ [])
unfolding decode_hex compact_hex byte_len hex_bytes slice_bytes from_str_radix to_digit
decode_plus = refl

decode_hex-hex_lower_example :
    decode_hex (hex_lower (0 ∷ 0xaf ∷ 255 ∷ [])) ≡ ok (0 ∷ 0xaf ∷ 255 ∷ [])
decode_hex-hex_lower_example = decode_hex-hex_lower (0 ∷ 0xaf ∷ 255 ∷ []) (omega arith)

not_separators : All (λ d. is_hex_separator d ≡ false) (codes "€A")
unfolding is_hex_separator
not_separators = (refl, (refl, tt))

decode_hex-panic_example : decode_hex (codes "€A") ≡ panic
unfolding byte_len
decode_hex-panic_example = decode_hex-panic 0x20ac (codes "A") (omega arith) not_separators refl
