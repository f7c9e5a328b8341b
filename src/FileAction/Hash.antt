-- ===== src/FileAction/Hash.antt =====
-- The hash check of tools/file_action/mod.rs, and `hash_bytes` of tools/fs/mod.rs. SHA-256 itself
-- is a library's.
pub mod Normal
use remote_executor.Base.{
  ℕ, ◌+◌, ◌<◌, ◌≡◌, Bool, true, false, not, ◌&&◌, ◌||◌, Option, none, some, [], ◌∷◌, ◌++◌, map, leb,
  ◌==◌, if◌then◌else◌, length, All,
}
use remote_executor.Base.Outcome.{Outcome, ok, ◌>>=◌, ◌>>◌, reject_if}
use remote_executor.Text.{Text, codes, byte_len, trim, text_eq, strip_prefix}
use remote_executor.Text.Replace.{to_lower}
use remote_executor.FileAction.Types.{Bytes, Error, bad_hash_code, hash_mismatch}
use remote_executor.FileAction.Hex.{hex_lower}

-- `char::is_ascii_hexdigit`
unfoldable pub is_hexdigit : ℕ → Bool
is_hexdigit c =
    (leb b'0' c && leb c b'9') || (leb b'a' c && leb c b'f') || (leb b'A' c && leb c b'F')

abbrev pub all_hexdigits : Text → Bool
all_hexdigits [] = true
all_hexdigits (c ∷ s) = is_hexdigit c && all_hexdigits s

-- `trimmed.strip_prefix("sha256:").unwrap_or(trimmed)`
unfoldable pub strip_sha256 : Text → Text
strip_sha256 trimmed = elim (strip_prefix (codes "sha256:") trimmed) [
  | some digest ↦ digest
  | none ↦ trimmed
]

unfoldable pub normalize_hash_code : Text → Outcome Error Text
normalize_hash_code value = do
  let digest = strip_sha256 (trim value)
  reject_if (not (byte_len digest == 64) || not (all_hexdigits digest)) bad_hash_code
  ok (codes "sha256:" ++ map to_lower digest)

-- `sha256` is `Sha256::digest`
unfoldable pub hash_bytes : (Bytes → Bytes) → Bytes → Text
hash_bytes sha256 bytes = codes "sha256:" ++ hex_lower (sha256 bytes)

-- a digest is 32 bytes
abbrev pub IsDigest : (Bytes → Bytes) → Type 0
IsDigest sha256 = (bytes : Bytes) → (length (sha256 bytes) ≡ 32) × All (λ b. b < 256) (sha256 bytes)

abbrev pub or_default : Option Text → Text
or_default none = []
or_default (some s) = s

-- the test of `read_existing_with_hash_check`, on the bytes that it read
unfoldable pub check_hash :
    (Bytes → Bytes) → Bool → Option Text → Text → Bytes → Outcome Error (Unit {0})
check_hash sha256 false hash_code path bytes = ok tt
check_hash sha256 true hash_code path bytes = do
  expected ← normalize_hash_code (or_default hash_code)
  let current = hash_bytes sha256 bytes
  reject_if (not (text_eq expected current)) (hash_mismatch path expected current)
