-- ===== src/FileAction/Hash/Normal.antt =====
-- The hash code that the server prints is in the form that the hash check compares.
use remote_executor.Base.{
  ℕ, ◌/◌, ◌%◌, ◌<◌, ◌≡◌, refl, true, false, [], ◌∷◌, ◌++◌, map, arith, All, All-append,
}
use remote_executor.Base.Outcome.{ok}
use remote_executor.Text.{
  Text, codes, byte_len, is_whitespace, trim, trim_start_matches, trim_end_matches, strip_prefix,
}
use remote_executor.Text.Replace.{to_lower}
use remote_executor.FileAction.Types.{Bytes}
use remote_executor.FileAction.Hex.{hex_lower, hex_digit}
use remote_executor.FileAction.Hex.RoundTrip.{byte_len-ascii, length-hex_lower, hex_lower-IsAscii}
use remote_executor.FileAction.Hash.{
  is_hexdigit, all_hexdigits, strip_sha256, normalize_hash_code, hash_bytes, IsDigest,
}

hex_digit-is_whitespace : (d : ℕ) → d < 16 → is_whitespace (hex_digit d) ≡ false
unfolding hex_digit is_whitespace
hex_digit-is_whitespace d h = ground arith

hex_digit-is_hexdigit : (d : ℕ) → d < 16 → is_hexdigit (hex_digit d) ≡ true
unfolding hex_digit is_hexdigit
hex_digit-is_hexdigit d h = ground arith

hex_digit-to_lower : (d : ℕ) → d < 16 → to_lower (hex_digit d) ≡ hex_digit d
unfolding hex_digit to_lower
hex_digit-to_lower d h = ground arith

hex_lower-is_whitespace :
    (bytes : Bytes)
    → All (λ b. b < 256) bytes
    → All (λ c. is_whitespace c ≡ false) (hex_lower bytes)
unfolding hex_lower
hex_lower-is_whitespace [] h = tt
hex_lower-is_whitespace (b ∷ bytes) (hb, h) = (
  hex_digit-is_whitespace (b / 16) (omega arith),
  (hex_digit-is_whitespace (b % 16) (omega arith), hex_lower-is_whitespace bytes h),
)

hex_lower-all_hexdigits :
    (bytes : Bytes) → All (λ b. b < 256) bytes → all_hexdigits (hex_lower bytes) ≡ true
unfolding hex_lower
hex_lower-all_hexdigits [] h = refl
hex_lower-all_hexdigits (b ∷ bytes) (hb, h) =
    rw (hex_digit-is_hexdigit (b / 16) (omega arith), hex_digit-is_hexdigit (b % 16) (omega arith))
      (hex_lower-all_hexdigits bytes h)

hex_lower-to_lower :
    (bytes : Bytes) → All (λ b. b < 256) bytes → map to_lower (hex_lower bytes) ≡ hex_lower bytes
unfolding hex_lower
hex_lower-to_lower [] h = refl
hex_lower-to_lower (b ∷ bytes) (hb, h) =
    rw
      (
        hex_digit-to_lower (b / 16) (omega arith),
        hex_digit-to_lower (b % 16) (omega arith),
        hex_lower-to_lower bytes h,
      )
      refl

trim_end_matches-id :
    (s : Text) → All (λ c. is_whitespace c ≡ false) s → trim_end_matches is_whitespace s ≡ s
unfolding trim_end_matches
trim_end_matches-id [] h = refl
trim_end_matches-id (c ∷ s) (hc, h) = rw (hc, trim_end_matches-id s h) refl

prefix-is_whitespace : All (λ c. is_whitespace c ≡ false) (codes "sha256:")
unfolding is_whitespace
prefix-is_whitespace = (refl, (refl, (refl, (refl, (refl, (refl, (refl, tt)))))))

trim-prefixed :
    (s : Text)
    → All (λ c. is_whitespace c ≡ false) s
    → trim (codes "sha256:" ++ s) ≡ codes "sha256:" ++ s
unfolding trim trim_start_matches is_whitespace
trim-prefixed s h =
    trim_end_matches-id (codes "sha256:" ++ s)
      (All-append (λ c. is_whitespace c ≡ false) (codes "sha256:") s prefix-is_whitespace h)

strip_sha256-prefixed : (s : Text) → strip_sha256 (codes "sha256:" ++ s) ≡ s
unfolding strip_sha256 strip_prefix
strip_sha256-prefixed s = refl

-- A hash code that the server printed is accepted as it stands: `normalize_hash_code` returns it
-- unchanged, so that the check compares it with the current one. A digest is 32 bytes.
pub normalize_hash_code-hash_bytes :
    (sha256 : Bytes → Bytes) (bytes : Bytes)
    → IsDigest sha256
    → normalize_hash_code (hash_bytes sha256 bytes) ≡ ok (hash_bytes sha256 bytes)
unfolding normalize_hash_code hash_bytes
normalize_hash_code-hash_bytes sha256 bytes digest =
    let d = sha256 bytes in
    let (size, small) = digest bytes in
    let len : byte_len (hex_lower d) ≡ 64 =
      omega (arith, byte_len-ascii (hex_lower d) (hex_lower-IsAscii d small), length-hex_lower d) in
    rw
      (
        trim-prefixed (hex_lower d) (hex_lower-is_whitespace d small),
        strip_sha256-prefixed (hex_lower d),
        len,
        hex_lower-all_hexdigits d small,
        hex_lower-to_lower d small,
      )
      refl
