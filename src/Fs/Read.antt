-- ===== src/Fs/Read.antt =====
-- The tool `read` of tools/fs/mod.rs.
pub mod Listing
use remote_executor.Base.{
  ℕ, zero, suc, ◌+◌, ◌-◌, ◌≤◌, ◌<◌, arith, min, max, Bool, true, false, not, ◌&&◌, Option, none,
  some, List, [], ◌∷◌, ◌++◌, if◌then◌else◌, ltb, leb, ◌==◌, length, take, drop, map,
}
use remote_executor.Base.Options.{unwrap_or}
use remote_executor.Base.Sort.{stable_sort}
use remote_executor.Base.Outcome.{Outcome, ok, err, ◌>>=◌, reject_if, or_panic, traverse}
use remote_executor.Text.{Text, codes, join, lines, byte_len, slice_bytes, is_empty}
use remote_executor.Text.Decimal.{decimal}
use remote_executor.Text.Lossy.{from_utf8_lossy}
use remote_executor.Paths.{resolve}
use remote_executor.Dict.{text_lt}
use remote_executor.Json.{Value, string}
use remote_executor.Protocol.{ToolResult, json_object, tool_output_full}
use remote_executor.Settings.{Chain, or_cause, with_context}
use remote_executor.FileAction.Shape.{binary_byte}
use remote_executor.FileAction.Hash.{hash_bytes}
use remote_executor.FileAction.Report.{offset_hex, byte_hex}
use remote_executor.Fs.{
  Bytes, default_read_limit, binary_read_limit, max_line_length, max_line_suffix, ReadMode,
  text_mode, binary_mode, ReadOptions, FileStamp, Metadata, Found, found, not_found, unreadable,
  Disk,
}
use remote_executor.Fs.Stamp.{stamp_value, file_stamp_for_metadata}
use remote_executor.Fs.Page.{sliced, next_offset}

abbrev hash_field : Option Text → List (Text × Value)
hash_field none = []
hash_field (some hash) = (codes "hashCode", string hash) ∷ []

abbrev file_metadata : FileStamp → Option Text → Value
file_metadata file hash_code = json_object ((codes "file", stamp_value file) ∷ hash_field hash_code)

abbrev printable : ℕ → Bool
printable b = leb 0x20 b && leb b 0x7e

abbrev ascii_char : ℕ → ℕ
ascii_char b = if printable b then b else b'.'

-- two digits for each byte, and two blanks for each byte that is not there
abbrev hex_columns : ℕ → Bytes → List Text
hex_columns zero bytes = []
hex_columns (suc n) [] = codes "  " ∷ hex_columns n []
hex_columns (suc n) (b ∷ bytes) = byte_hex b ∷ hex_columns n bytes

unfoldable pub hexdump_row : ℕ → Bytes → Text
hexdump_row offset chunk =
    offset_hex offset
    ++ (codes "  "
        ++ (join (b' ' ∷ []) (hex_columns 16 chunk)
            ++ (codes "  |" ++ (map ascii_char chunk ++ (b'|' ∷ [])))))

-- the rows of at most `n` chunks of 16 bytes
unfoldable pub hexdump_rows : ℕ → ℕ → Bytes → List Text
hexdump_rows zero offset bytes = []
hexdump_rows (suc n) offset bytes =
    let rest = hexdump_rows n (offset + 16) (drop 16 bytes) in
    if is_empty bytes then [] else hexdump_row offset (take 16 bytes) ∷ rest

unfoldable pub hexdump : Bytes → ℕ → Text
hexdump bytes base = join (b'\n' ∷ []) (hexdump_rows (length bytes) base bytes)

-- `limit.clamp(1, BINARY_READ_LIMIT)`, and where the bytes end that are shown
abbrev pub binary_end : Bytes → ℕ → ℕ → ℕ
binary_end bytes offset limit = min (offset + min (max limit 1) binary_read_limit) (length bytes)

abbrev binary_info : Bytes → ℕ → ℕ → Text
binary_info bytes offset end =
    if ltb end (length bytes)
    then codes "Showing bytes "
      ++ (decimal offset
          ++ (b'-' ∷ decimal (end - 1)
              ++ (codes " of "
                  ++ (decimal (length bytes)
                      ++ (codes ". Use offset=" ++ (decimal end ++ codes " to continue."))))))
    else codes "total " ++ (decimal (length bytes) ++ codes " bytes")

unfoldable pub read_binary_file :
    Disk → Text → FileStamp → ℕ → ℕ → Option Text → Outcome Chain ToolResult
read_binary_file disk path file offset limit hash_code = do
  bytes ← or_cause (disk.read path)
  u ← reject_if (ltb (length bytes) offset) (
      (codes "Offset "
        ++ (decimal offset
            ++ (codes " is out of range for this file ("
                ++ (decimal (length bytes) ++ codes " bytes)"))))
      ∷ [])
  let end = binary_end bytes offset limit
  ok (record {
    metadata = file_metadata file hash_code;
    output =
        tool_output_full [] (hexdump (drop offset (take end bytes)) offset)
          (binary_info bytes offset end);
  })

abbrev entry_name : Text × Bool → Text
entry_name (name, is_dir) = if is_dir then name ++ (b'/' ∷ []) else name

-- `entries.sort()`
unfoldable pub sorted_names : List (Text × Bool) → List Text
sorted_names entries = stable_sort (λ a b. not (text_lt b a)) (map entry_name entries)

-- "Showing … Use offset=… to continue.", or the total
abbrev page_note : Text → ℕ → ℕ → Option ℕ → Text
page_note what total offset none = codes "total " ++ (decimal total ++ (b' ' ∷ what))
page_note what total offset (some next) =
    codes "Showing "
    ++ (what
        ++ (b' ' ∷ decimal offset
            ++ (b'-' ∷ decimal (next - 1)
                ++ (codes " of "
                    ++ (decimal total
                        ++ (codes ". Use offset=" ++ (decimal next ++ codes " to continue.")))))))

abbrev page_info : {A : Type 0} → Text → List A → ℕ → ℕ → Text
page_info what items offset limit =
    page_note what (length items) offset (next_offset items offset limit)

abbrev offset_error : Chain
offset_error = codes "offset must be greater than or equal to 1" ∷ []

unfoldable pub read_dir : Disk → Text → FileStamp → ℕ → ℕ → Outcome Chain ToolResult
read_dir disk path file offset limit = do
  u ← reject_if (ltb offset 1) offset_error
  entries ← or_cause (disk.entries path)
  let names = sorted_names entries
  ok (record {
    metadata = json_object ((codes "file", stamp_value file) ∷ []);
    output =
        tool_output_full [] (join (b'\n' ∷ []) (sliced names offset limit))
          (page_info (codes "entries") names offset limit);
  })

-- `&line[..MAX_LINE_LENGTH]` counts bytes, and is not tested for a character boundary
unfoldable pub truncate_line : Text → Outcome Chain Text
unfolding byte_len slice_bytes
truncate_line line =
    if leb (byte_len line) max_line_length
    then ok line
    else (do head ← or_panic (slice_bytes line 0 max_line_length); ok (head ++ max_line_suffix))

-- `{offset + idx}: {line}`
unfoldable pub numbered : ℕ → List Text → List Text
numbered offset [] = []
numbered offset (line ∷ rest) =
    (decimal offset ++ (codes ": " ++ line)) ∷ numbered (suc offset) rest

abbrev binary_error : Text → Option (ℕ × ℕ) → Outcome Chain (Unit {0})
binary_error path none = ok tt
binary_error path (some (offset, byte)) = err (
    (codes "Cannot read binary file: "
      ++ (path
          ++ (codes " (binary byte at offset "
              ++ (decimal offset ++ (codes ": 0x" ++ (byte_hex byte ++ codes ")"))))))
    ∷ [])

unfoldable pub read_file : Disk → Text → FileStamp → ℕ → ℕ → Option Text → Outcome Chain ToolResult
read_file disk path file offset limit hash_code = do
  u ← reject_if (ltb offset 1) offset_error
  bytes ← or_cause (disk.read path)
  v ← binary_error path (binary_byte bytes)
  let all_lines = lines (from_utf8_lossy bytes)
  w ← reject_if (ltb (length all_lines) offset && not (is_empty all_lines && offset == 1)) (
      (codes "Offset "
        ++ (decimal offset
            ++ (codes " is out of range for this file ("
                ++ (decimal (length all_lines) ++ codes " lines)"))))
      ∷ [])
  raw ← traverse truncate_line (sliced all_lines offset limit)
  ok (record {
    metadata = file_metadata file hash_code;
    output =
        tool_output_full [] (join (b'\n' ∷ []) (numbered offset raw))
          (page_info (codes "lines") all_lines offset limit);
  })

unfoldable pub file_hash_code : Disk → Text → Outcome Chain Text
file_hash_code disk path = do
  bytes ← with_context (codes "failed to read " ++ path) (disk.read path)
  ok (hash_bytes disk.sha256 bytes)

abbrev metadata_of : Text → Found → Outcome Chain Metadata
metadata_of path (found metadata) = ok metadata
metadata_of path (not_found e) = err ((codes "File not found: " ++ path) ∷ e ∷ [])
metadata_of path (unreadable e) = err ((codes "File not found: " ++ path) ∷ e ∷ [])

abbrev checked_hash : Disk → Text → Metadata → Bool → Outcome Chain (Option Text)
checked_hash disk path stat false = ok none
checked_hash disk path stat true = do
  u ← reject_if (not stat.is_file) ((codes "hashCheckMode only supports files: " ++ path) ∷ [])
  hash ← file_hash_code disk path
  ok (some hash)

abbrev read_directory : Disk → Text → FileStamp → ReadOptions → ReadMode → Outcome Chain ToolResult
read_directory disk path file options binary_mode =
    err ((codes "binary read mode only supports files: " ++ path) ∷ [])
read_directory disk path file options text_mode =
    read_dir disk path file (unwrap_or 1 options.offset)
      (unwrap_or default_read_limit options.limit)

abbrev read_regular :
    Disk → Text → FileStamp → ReadOptions → Option Text → ReadMode → Outcome Chain ToolResult
read_regular disk path file options hash_code binary_mode =
    read_binary_file disk path file (unwrap_or 0 options.offset)
      (unwrap_or binary_read_limit options.limit) hash_code
read_regular disk path file options hash_code text_mode =
    read_file disk path file (unwrap_or 1 options.offset)
      (unwrap_or default_read_limit options.limit) hash_code

unfoldable pub read_path : Disk → Text → ReadOptions → Outcome Chain ToolResult
read_path disk here options = do
  let path = resolve here options.file_path
  stat ← metadata_of path (disk.metadata path)
  let file = file_stamp_for_metadata disk path stat
  hash_code ← checked_hash disk path stat options.hash_check_mode
  let mode = unwrap_or text_mode options.mode
  (if stat.is_dir
      then read_directory disk path file options mode
      else read_regular disk path file options hash_code mode)

-- A binary page stands in the file, `&bytes[offset..end]` is in range, and holds at most 128 bytes;
-- it holds one at least where the file goes on, so that following the offsets comes to the end.
pub binary_end-le :
    (bytes : Bytes) (offset limit : ℕ)
    → offset ≤ length bytes
    → (offset ≤ binary_end bytes offset limit)
      × (binary_end bytes offset limit ≤ length bytes)
      × (binary_end bytes offset limit ≤ offset + 128)
      × (offset < length bytes → offset < binary_end bytes offset limit)
binary_end-le bytes offset limit h =
    (omega (arith, h), omega arith, omega arith, λ goes_on. omega (arith, goes_on))
