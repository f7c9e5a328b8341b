-- ===== src/Tests/Binary.antt =====
-- Binary patches of tools/file_action/mod.rs at concrete inputs.
use remote_executor.Base.{◌+◌, ◌≡◌, ◌≢◌, ◌⊎◌, refl, List, [], ◌∷◌, arith, length, AllPairs}
use remote_executor.Base.Outcome.{ok, err, panic}
use remote_executor.Base.Sort.{stable_sort}
use remote_executor.Text.{
  Text, codes, lines, trim, trim_end_matches, text_eq, strip_prefix, split_once, rsplit_once,
  byte_len, slice_bytes,
}
use remote_executor.Text.Number.{parse_usize, from_str_radix, to_digit}
use remote_executor.FileAction.Types.{
  Bytes, BinaryAnchor, BinaryAppendTarget, BinaryHunk, BinaryOperation, BinaryPatchApplied,
  hunks_overlap,
}
use remote_executor.FileAction.Hex.{decode_hex, compact_hex, hex_bytes}
use remote_executor.FileAction.Binary.{apply_binary_hunks, key_le, hunk_to_binary_operation}
use remote_executor.FileAction.Binary.Parse.{
  parse_byte_offset, parse_byte_len, parse_binary_offset_len, parse_append_target,
  parse_binary_append_span, split_binary_body, ensure_binary_body_len, parse_delete_hunk,
  parse_append_hunk, parse_replace_hunk, dispatch_instruction, parse_instruction, parse_hunks,
  has_envelope, parse_binary_patch,
}
use remote_executor.FileAction.Binary.Edits.{edits}
use remote_executor.FileAction.Binary.Overlap.{AreDisjoint}
use remote_executor.FileAction.Binary.Laws.{
  operations, apply_binary_hunks-edits, apply_binary_hunks-ne-panic,
}
use remote_executor.FileAction.Binary.Accepted.{binary_patch_length}

abbrev patch_text : Text
patch_text = codes "***APPEND***0-1:FE\n1-2:AA BB\r\n\n***DELETE*** 4-1\n***APPEND***-1-2:CCDD\n"

abbrev hunks : List BinaryHunk
hunks =
    record {
      anchor = BinaryAnchor.append (BinaryAppendTarget.offset 0) 1;
      bytes = 0xfe ∷ [];
      order = 0;
    }
    ∷ record { anchor = BinaryAnchor.replace 1 2; bytes = 0xaa ∷ 0xbb ∷ []; order = 1 }
    ∷ record { anchor = BinaryAnchor.delete 4 1; bytes = []; order = 3 }
    ∷ record {
      anchor = BinaryAnchor.append BinaryAppendTarget.end 2;
      bytes = 0xcc ∷ 0xdd ∷ [];
      order = 4;
    }
    ∷ []

parse-patch_text : parse_binary_patch patch_text ≡ ok hunks
unfolding parse_binary_patch has_envelope parse_hunks parse_instruction dispatch_instruction
    parse_delete_hunk parse_append_hunk parse_replace_hunk split_binary_body ensure_binary_body_len
    parse_binary_append_span parse_append_target parse_binary_offset_len parse_byte_offset
    parse_byte_len parse_usize decode_hex compact_hex hex_bytes byte_len slice_bytes from_str_radix
    to_digit lines trim trim_end_matches text_eq strip_prefix split_once rsplit_once
parse-patch_text = refl

abbrev before : Bytes
before = 0 ∷ 1 ∷ 2 ∷ 3 ∷ 4 ∷ []

abbrev applied : BinaryPatchApplied
applied = record {
  bytes = 0xfe ∷ 0 ∷ 0xaa ∷ 0xbb ∷ 3 ∷ 0xcc ∷ 0xdd ∷ [];
  additions = 5;
  deletions = 3;
}

apply-hunks : apply_binary_hunks before hunks ≡ ok applied
unfolding apply_binary_hunks
apply-hunks = refl

abbrev overlapping : List BinaryHunk
overlapping =
    record { anchor = BinaryAnchor.replace 1 2; bytes = 9 ∷ 9 ∷ []; order = 0 }
    ∷ record { anchor = BinaryAnchor.delete 2 1; bytes = []; order = 1 }
    ∷ []

apply-overlapping : apply_binary_hunks before overlapping ≡ err hunks_overlap
unfolding apply_binary_hunks
apply-overlapping = refl

abbrev found : List BinaryOperation
found =
    record { start = 1; end = 3; replacement = 9 ∷ 9 ∷ []; order = 0; additions = 2; deletions = 2 }
    ∷ record { start = 2; end = 3; replacement = []; order = 1; additions = 0; deletions = 1 }
    ∷ []

operations-overlapping : operations before overlapping ≡ ok found
unfolding hunk_to_binary_operation
operations-overlapping = refl

apply_binary_hunks-edits_example :
    (AllPairs AreDisjoint found
      × (r : BinaryPatchApplied) × (apply_binary_hunks before overlapping ≡ ok r)
      × (r.bytes ≡ edits (stable_sort key_le found) before))
    ⊎ ((¬ AllPairs AreDisjoint found) × (apply_binary_hunks before overlapping ≡ err hunks_overlap))
apply_binary_hunks-edits_example =
    apply_binary_hunks-edits before overlapping found operations-overlapping

apply_binary_hunks-ne-panic_example : apply_binary_hunks before overlapping ≢ panic
apply_binary_hunks-ne-panic_example = apply_binary_hunks-ne-panic before overlapping

binary_patch_length_example :
    length applied.bytes + applied.deletions ≡ length before + applied.additions
binary_patch_length_example =
    binary_patch_length before patch_text hunks applied (omega arith) (omega arith) parse-patch_text
      apply-hunks
