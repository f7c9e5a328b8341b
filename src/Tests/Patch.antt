-- ===== src/Tests/Patch.antt =====
-- The parser of line patches and the shape of text files of tools/file_action/mod.rs at concrete
-- inputs.
use remote_executor.Base.{◌≡◌, ◌≢◌, refl, inr, true, List, [], ◌∷◌, some}
use remote_executor.Base.Outcome.{ok, err, Ends}
use remote_executor.Text.{
  Text, codes, lines, trim, trim_end_matches, text_eq, strip_prefix, split_once, find, starts_with,
}
use remote_executor.Text.Number.{parse_usize, from_str_radix, to_digit}
use remote_executor.Text.Utf8.{from_utf8, decode, lead}
use remote_executor.FileAction.Types.{
  Bytes, LineInsertTarget, LinePatchOp, delete, move, append, replace, crlf, TextShape, binary_file,
  missing_append_end,
}
use remote_executor.FileAction.Lines.Parse.{
  parse_line_number, parse_line_range, parse_line_insert_target, parse_delete, parse_move,
  parse_append_head, parse_replace, dispatch_line, parse_line, parse_ops, parse_line_patch,
  apply_line_text_patch,
}
use remote_executor.FileAction.Lines.Laws.{snapshot_text}
use remote_executor.FileAction.Lines.Accepted.{apply_line_text_patch-snapshot}
use remote_executor.FileAction.Shape.{
  find_zero, binary_byte, choose_line_ending, detect_line_ending, replace_crlf, replace_cr,
  normalize_to_lf, replace_lf, split_bom, shape_of, from_bytes, encode,
}
use remote_executor.FileAction.Shape.RoundTrip.{IsUniform, encode-from_bytes}

abbrev patch_text : Text
patch_text =
    codes
      "***DELETE*** 2-2\n***MOVE*** 3-4,1\r\n\n***APPEND_HEAD*** 0\nzero: x\n ***APPEND_END***\n5: FIVE\n"

abbrev instructions : List LinePatchOp
instructions =
    delete 2 2
    ∷ move 3 4 (LineInsertTarget.after 1)
    ∷ append LineInsertTarget.start (codes "zero: x" ∷ [])
    ∷ replace 5 (codes " FIVE")
    ∷ []

parse-patch_text : parse_line_patch patch_text ≡ ok instructions
unfolding parse_line_patch parse_ops parse_line dispatch_line parse_delete parse_move
    parse_append_head parse_replace parse_line_range parse_line_insert_target parse_line_number
    parse_usize from_str_radix to_digit lines trim trim_end_matches text_eq strip_prefix split_once
parse-patch_text = refl

parse-open_block : parse_line_patch (codes "***APPEND_HEAD*** -1\nx") ≡ err missing_append_end
unfolding parse_line_patch parse_ops parse_line dispatch_line parse_append_head
    parse_line_insert_target lines trim trim_end_matches text_eq strip_prefix
parse-open_block = refl

apply_line_text_patch-snapshot_example :
    Ends
      (λ out.
        (ops : List LinePatchOp) × (parse_line_patch patch_text ≡ ok ops)
        × (ops ≢ [])
        × (out ≡ snapshot_text (codes "a\nb\nc\nd\ne\n") ops))
      (apply_line_text_patch (codes "a\nb\nc\nd\ne\n") patch_text)
apply_line_text_patch-snapshot_example =
    apply_line_text_patch-snapshot (codes "a\nb\nc\nd\ne\n") patch_text

-- a byte-order mark, then "é" and "\r\n"
abbrev file : Bytes
file = 0xef ∷ 0xbb ∷ 0xbf ∷ 0xc3 ∷ 0xa9 ∷ 13 ∷ 10 ∷ []

abbrev file_text : Text
file_text = 0xfeff ∷ 0xe9 ∷ 13 ∷ 10 ∷ []

decode-file : from_utf8 file ≡ some file_text
unfolding from_utf8 decode lead
decode-file = refl

abbrev file_shape : TextShape
file_shape = record { bom = true; line_ending = crlf; text = 0xe9 ∷ 10 ∷ [] }

read-file : from_bytes file ≡ ok file_shape
unfolding from_bytes binary_byte find_zero from_utf8 decode lead shape_of split_bom strip_prefix
    detect_line_ending choose_line_ending find starts_with normalize_to_lf replace_crlf replace_cr
read-file = refl

read-zero_byte : from_bytes (97 ∷ 0 ∷ []) ≡ err (binary_file 1 0)
unfolding from_bytes binary_byte find_zero
read-zero_byte = refl

file-IsUniform : IsUniform file_text
unfolding replace_lf
file-IsUniform = inr (0xfeff ∷ 0xe9 ∷ 10 ∷ [], (refl, (refl, (refl, tt))), refl)

encode-from_bytes_example : encode file_shape file_shape.text ≡ file
encode-from_bytes_example =
    encode-from_bytes file file_text file_shape decode-file file-IsUniform read-file
