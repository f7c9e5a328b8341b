-- ===== src/FileAction/Types.antt =====
-- The data of tools/file_action/mod.rs: its structs and enums, and its errors, one constructor for
-- each message with the values that the message shows.
use remote_executor.Base.{ℕ, Bool, List, Option}

-- a byte, below 256; a Unicode scalar value
abbrev pub Bytes : Type 0
Bytes = List ℕ

abbrev pub Text : Type 0
Text = List ℕ

pub data FileActionMode : Type 0 where
  patch create delete rename : FileActionMode

pub data PatchMode : Type 0 where
  text binary : PatchMode

pub record PatchFile : Type 0 where
  pub file_path : Text
  pub relative_path : Text
  pub new_file_path : Option Text
  pub new_relative_path : Option Text
  pub kind : Text
  pub additions : ℕ
  pub deletions : ℕ

pub data BinaryAppendTarget : Type 0 where
  offset : ℕ → BinaryAppendTarget
  end : BinaryAppendTarget

-- `Replace` and `Delete` hold an offset and a length, `Append` a target and a length.
pub data BinaryAnchor : Type 0 where
  replace : ℕ → ℕ → BinaryAnchor
  delete : ℕ → ℕ → BinaryAnchor
  append : BinaryAppendTarget → ℕ → BinaryAnchor

pub record BinaryHunk : Type 0 where
  pub anchor : BinaryAnchor
  pub bytes : Bytes
  pub order : ℕ

pub record BinaryOperation : Type 0 where
  pub start : ℕ
  pub end : ℕ
  pub replacement : Bytes
  pub order : ℕ
  pub additions : ℕ
  pub deletions : ℕ

pub record BinaryPatchApplied : Type 0 where
  pub bytes : Bytes
  pub additions : ℕ
  pub deletions : ℕ

pub data LineInsertTarget : Type 0 where
  start : LineInsertTarget
  after : ℕ → LineInsertTarget
  end : LineInsertTarget

-- `Delete` holds the first and the last line, `Move` also where they go, `Append` where its lines
-- go, `Replace` the line and its new text.
pub data LinePatchOp : Type 0 where
  delete : ℕ → ℕ → LinePatchOp
  move : ℕ → ℕ → LineInsertTarget → LinePatchOp
  append : LineInsertTarget → List Text → LinePatchOp
  replace : ℕ → Text → LinePatchOp

pub data PendingLineInsertionKind : Type 0 where
  literal : List Text → PendingLineInsertionKind
  move : ℕ → ℕ → PendingLineInsertionKind

pub record PendingLineInsertion : Type 0 where
  pub boundary : ℕ
  pub order : ℕ
  pub kind : PendingLineInsertionKind

pub record LineInsertion : Type 0 where
  pub order : ℕ
  pub lines : List Text

pub data LineRemoval : Type 0 where
  delete move : LineRemoval

pub data LineEnding : Type 0 where
  lf crlf : LineEnding

pub record TextShape : Type 0 where
  pub bom : Bool
  pub line_ending : LineEnding
  pub text : Text

-- what a message is about when it is passed as a label
pub data Label : Type 0 where
  delete_range move_range replaced_line move_target append_target : Label

pub data Error : Type 0 where
  patch_text_required content_required new_file_path_required : Error
  already_exists rename_over_existing : Text → Error
  create_failed read_failed write_failed delete_failed : Text → Error
  rename_failed : Text → Text → Error
  hash_mismatch : Text → Text → Text → Error
  bad_hash_code : Error
  binary_file : ℕ → ℕ → Error
  not_utf8 : Error
  old_envelope no_line_instructions : Error
  move_format line_range_format : Error
  range_start_after_end : ℕ → ℕ → Error
  expected_line_number : Text → Error
  zero_line_number : Error
  missing_append_end stray_append_end : Error
  invalid_line_instruction : Text → Error
  in_instruction : Label → Text → Error → Error
  line_range_out_of_range : Label → ℕ → ℕ → ℕ → Error
  move_into_itself : LineInsertTarget → ℕ → ℕ → Error
  line_out_of_range : Label → ℕ → ℕ → Error
  removal_overlaps : LineRemoval → ℕ → ℕ → LineRemoval → ℕ → Error
  replaced_twice : ℕ → Error
  replace_overlaps_delete : ℕ → Error
  no_hunks : Error
  invalid_byte_offset invalid_byte_length : Text → Error
  zero_byte_length : Error
  binary_span_format append_span_format : Error
  missing_hex : Text → Error
  body_length : Text → ℕ → ℕ → Error
  invalid_binary_instruction : Text → Error
  byte_range_out_of_range : ℕ → ℕ → ℕ → Error
  append_out_of_range : ℕ → ℕ → Error
  hunks_overlap : Error
  odd_hex_digits : Error
  invalid_hex_byte : ℕ → Error
