-- ===== src/FileAction/Report.antt =====
-- What an action reports: `result_from_file_with_diff`, the `PatchFile` of each action and the
-- diffs of tools/file_action/mod.rs.
use remote_executor.Base.{
  ℕ, zero, suc, ◌+◌, ◌-◌, ◌/◌, ◌%◌, not, ◌&&◌, Option, none, some, List, [], ◌∷◌, ◌++◌, ltb, ◌==◌,
  if◌then◌else◌,
}
use remote_executor.Base.Outcome.{Outcome, ok, err, panic}
use remote_executor.Text.{Text, codes, is_empty, trim, text_eq, starts_with, lines, replace_first}
use remote_executor.FileAction.Types.{Bytes, PatchFile, PatchMode, text, binary, TextShape, Error}
use remote_executor.FileAction.Shape.{from_bytes}

-- What the actions call outside this file: `Sha256::digest`, `diffy::create_patch` printed, and the
-- title of a path, which is only shown.
pub record Env : Type 0 where
  pub sha256 : Bytes → Bytes
  pub create_patch : Text → Text → Text
  pub title : Text → Text

-- `ToolResult`: the text that is shown and the metadata
pub record ActionResult : Type 0 where
  pub output : Text
  pub file : PatchFile
  pub hash_code : Option Text
  pub diff : Option Text

abbrev or_empty : Option Text → Text
or_empty none = []
or_empty (some s) = s

unfoldable pub output_head : PatchFile → Text
unfolding text_eq
output_head file =
    if text_eq file.kind (codes "create")
    then codes "Success. Created file:\nC " ++ file.relative_path
    else if text_eq file.kind (codes "delete")
    then codes "Success. Deleted file:\nD " ++ file.relative_path
    else if text_eq file.kind (codes "rename")
    then codes "Success. Renamed file:\nR "
      ++ (file.relative_path ++ (codes " -> " ++ or_empty file.new_relative_path))
    else codes "Success. Updated file:\nM " ++ file.relative_path

abbrev hash_line : Option Text → Text
hash_line none = []
hash_line (some hash_code) = codes "\nhashCode: " ++ hash_code

-- `diff.filter(|value| !value.trim().is_empty())`
abbrev keep_diff : Option Text → Option Text
keep_diff none = none
keep_diff (some diff) = if is_empty (trim diff) then none else some diff

unfoldable pub result_from_file_with_diff : PatchFile → Option Text → Option Text → ActionResult
result_from_file_with_diff file hash_code diff = record {
  output = output_head file ++ hash_line hash_code;
  file = file;
  hash_code = hash_code;
  diff = keep_diff diff;
}

unfoldable pub result_from_file : PatchFile → Option Text → ActionResult
result_from_file file hash_code = result_from_file_with_diff file hash_code none

unfoldable pub count_diff_lines : Text → ℕ → ℕ
count_diff_lines diff marker = count (lines diff)
  where
    count : List Text → ℕ
    count [] = 0
    count (line ∷ rest) =
        let later = count rest in
        if starts_with (marker ∷ []) line
          && (not (starts_with (codes "+++") line) && not (starts_with (codes "---") line))
        then suc later
        else later

-- a digit of `{:X}`, and the lowest `n` digits of a number
unfoldable pub hex_digit_upper : ℕ → ℕ
hex_digit_upper d = if ltb d 10 then b'0' + d else b'A' + d - 10

unfoldable pub low_digits : ℕ → ℕ → Text → Text
unfolding hex_digit_upper
low_digits zero n tail = tail
low_digits (suc k) n tail = low_digits k (n / 16) (hex_digit_upper (n % 16) ∷ tail)

-- removes up to `k` leading zeros
abbrev drop_zeros : ℕ → Text → Text
drop_zeros zero s = s
drop_zeros (suc k) [] = []
drop_zeros (suc k) (c ∷ s) = if c == b'0' then drop_zeros k s else c ∷ s

-- `{:08X}` of a 64-bit number, and `{:02X}` of a byte
abbrev pub offset_hex : ℕ → Text
offset_hex n = drop_zeros 8 (low_digits 16 n [])

abbrev pub byte_hex : ℕ → Text
byte_hex b = low_digits 2 b []

-- The rows of 16 bytes joined: what stands in front of byte `idx`, and the byte.
unfoldable pub binary_rows : Bytes → ℕ → Text
unfolding low_digits
binary_rows [] idx = []
binary_rows (byte ∷ bytes) idx =
    (if idx % 16 == 0
      then (if idx == 0 then [] else b'\n' ∷ []) ++ (offset_hex idx ++ codes ": ")
      else codes " ")
    ++ (byte_hex byte ++ binary_rows bytes (suc idx))

unfoldable pub binary_diff_text : Bytes → Text
binary_diff_text bytes =
    if is_empty bytes then codes "(empty)\n" else binary_rows bytes 0 ++ (b'\n' ∷ [])

module _ (env : Env) where
  unfoldable pub diff_text : Text → Text → Text → Text
  diff_text path before after =
      replace_first (codes "+++ modified") (codes "+++ " ++ path) (
        replace_first (codes "--- original") (codes "--- " ++ path) (env.create_patch before after))

  unfoldable pub diff_binary : Text → Bytes → Bytes → Text
  diff_binary path before after = diff_text path (binary_diff_text before) (binary_diff_text after)

  -- the shape of the deleted file where it has one
  abbrev shape_diff : Text → Bytes → Outcome Error TextShape → Text
  shape_diff path before (ok shape) = diff_text path shape.text []
  shape_diff path before (err e) = diff_binary path before []
  shape_diff path before panic = diff_binary path before []

  unfoldable pub delete_diff : Text → Bytes → PatchMode → Text
  delete_diff path before binary = diff_binary path before []
  delete_diff path before text = shape_diff path before (from_bytes before)

  unfoldable pub patch_file : Text → Text → PatchFile
  patch_file path diff = record {
    file_path = path;
    relative_path = env.title path;
    new_file_path = none;
    new_relative_path = none;
    kind = codes "update";
    additions = count_diff_lines diff b'+';
    deletions = count_diff_lines diff b'-';
  }

  unfoldable pub action_file : Text → Text → ℕ → ℕ → PatchFile
  action_file path kind additions deletions = record {
    file_path = path;
    relative_path = env.title path;
    new_file_path = none;
    new_relative_path = none;
    kind = kind;
    additions = additions;
    deletions = deletions;
  }

  unfoldable pub binary_patch_file : Text → ℕ → ℕ → PatchFile
  binary_patch_file path additions deletions =
      action_file path (codes "binary-update") additions deletions

  unfoldable pub rename_file : Text → Text → PatchFile
  rename_file from to = record {
    file_path = from;
    relative_path = env.title from;
    new_file_path = some to;
    new_relative_path = some (env.title to);
    kind = codes "rename";
    additions = 0;
    deletions = 0;
  }
