-- ===== src/FileAction/Binary/Parse.antt =====
-- `parse_binary_patch` of tools/file_action/mod.rs and the readers of its spans.
use remote_executor.Base.{
  ℕ, suc, Bool, false, not, ◌||◌, Option, none, some, List, [], ◌∷◌, ◌==◌, if◌then◌else◌,
}
use remote_executor.Base.Outcome.{Outcome, ok, err, ◌>>=◌, ◌>>◌, reject_if, ok_or}
use remote_executor.Text.{
  Text, codes, is_empty, trim, trim_end_matches, text_eq, strip_prefix, split_once, rsplit_once,
  lines,
}
use remote_executor.Text.Number.{parse_usize}
use remote_executor.FileAction.Types.{
  BinaryAppendTarget, replace, delete, append, BinaryHunk, Error, old_envelope, no_hunks,
  invalid_byte_offset, invalid_byte_length, zero_byte_length, binary_span_format,
  append_span_format, missing_hex, body_length, invalid_binary_instruction,
}
use remote_executor.FileAction.Hex.{decode_hex}
use remote_executor.Base.{length}

unfoldable pub parse_byte_offset : Text → Outcome Error ℕ
parse_byte_offset value = ok_or (parse_usize value) (invalid_byte_offset value)

unfoldable pub parse_byte_len : Text → Outcome Error ℕ
parse_byte_len value = do
  len ← ok_or (parse_usize value) (invalid_byte_length value)
  reject_if (len == 0) zero_byte_length
  ok len

unfoldable pub parse_binary_offset_len : Text → Outcome Error (ℕ × ℕ)
parse_binary_offset_len value = do
  (offset, len) ← ok_or (rsplit_once b'-' value) binary_span_format
  o ← parse_byte_offset (trim offset)
  l ← parse_byte_len (trim len)
  ok (o, l)

-- the `if` of `parse_binary_append_span`
unfoldable pub parse_append_target : Text → Outcome Error BinaryAppendTarget
parse_append_target offset =
    if text_eq offset (codes "-1")
    then ok BinaryAppendTarget.end
    else (do o ← parse_byte_offset offset; ok (BinaryAppendTarget.offset o))

unfoldable pub parse_binary_append_span : Text → Outcome Error (BinaryAppendTarget × ℕ)
parse_binary_append_span value = do
  (offset, len) ← ok_or (rsplit_once b'-' value) append_span_format
  target ← parse_append_target (trim offset)
  l ← parse_byte_len (trim len)
  ok (target, l)

abbrev trim_span : Option (Text × Text) → Option (Text × Text)
trim_span none = none
trim_span (some (span, body)) = some (trim span, body)

unfoldable pub split_binary_body : Text → Text → Outcome Error (Text × Text)
split_binary_body value line = ok_or (trim_span (split_once b':' value)) (missing_hex line)

unfoldable pub ensure_binary_body_len : ℕ → ℕ → Text → Outcome Error (Unit {0})
ensure_binary_body_len actual expected line =
    reject_if (not (actual == expected)) (body_length line expected actual)

unfoldable pub parse_delete_hunk : Text → ℕ → Outcome Error BinaryHunk
parse_delete_hunk rest order = do
  (offset, len) ← parse_binary_offset_len (trim rest)
  ok (record { anchor = delete offset len; bytes = []; order = order })

unfoldable pub parse_append_hunk : Text → Text → ℕ → Outcome Error BinaryHunk
parse_append_hunk rest line order = do
  (span, hex) ← split_binary_body (trim rest) line
  (target, len) ← parse_binary_append_span span
  bytes ← decode_hex hex
  ensure_binary_body_len (length bytes) len line
  ok (record { anchor = append target len; bytes = bytes; order = order })

unfoldable pub parse_replace_hunk : Text → Text → Text → ℕ → Outcome Error BinaryHunk
parse_replace_hunk span hex line order = do
  (offset, len) ← parse_binary_offset_len (trim span)
  bytes ← decode_hex hex
  ensure_binary_body_len (length bytes) len line
  ok (record { anchor = replace offset len; bytes = bytes; order = order })

-- the tests of one round, on a line that is not blank: the two prefixes, then the colon
unfoldable pub dispatch_instruction :
    Option Text → Option Text → Option (Text × Text) → Text → ℕ → Outcome Error BinaryHunk
dispatch_instruction (some rest) _ _ line order = parse_delete_hunk rest order
dispatch_instruction none (some rest) _ line order = parse_append_hunk rest line order
dispatch_instruction none none (some (span, hex)) line order =
    parse_replace_hunk span hex line order
dispatch_instruction none none none line order = err (invalid_binary_instruction line)

unfoldable pub parse_instruction : Text → Text → ℕ → Outcome Error BinaryHunk
parse_instruction line trimmed order =
    dispatch_instruction (strip_prefix (codes "***DELETE***") trimmed)
      (strip_prefix (codes "***APPEND***") trimmed) (split_once b':' trimmed) line order

-- `for (order, raw) in patch_text.lines().enumerate()`
unfoldable pub parse_hunks : List Text → ℕ → Outcome Error (List BinaryHunk)
parse_hunks [] order = ok []
parse_hunks (raw ∷ rest) order =
    let line = trim_end_matches (λ c. c == b'\r') raw in
    let later = parse_hunks rest (suc order) in
    if is_empty (trim line)
    then later
    else (do hunk ← parse_instruction line (trim line) order; hunks ← later; ok (hunk ∷ hunks))

-- `patch_text.lines().any(|line| line.trim() == "*** Begin Patch")`
unfoldable pub has_envelope : List Text → Bool
has_envelope [] = false
has_envelope (line ∷ rest) = text_eq (trim line) (codes "*** Begin Patch") || has_envelope rest

unfoldable pub parse_binary_patch : Text → Outcome Error (List BinaryHunk)
parse_binary_patch patch_text = do
  reject_if (has_envelope (lines patch_text)) old_envelope
  hunks ← parse_hunks (lines patch_text) 0
  reject_if (is_empty hunks) no_hunks
  ok hunks
