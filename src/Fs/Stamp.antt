-- ===== src/Fs/Stamp.antt =====
-- The stamps of files of tools/fs/mod.rs, and the tool `stat`.
use remote_executor.Base.{ℕ, Option, none, some, List, [], ◌∷◌, ◌++◌, if◌then◌else◌}
use remote_executor.Base.Options.{unwrap_or}
use remote_executor.Base.Outcome.{Outcome, ok, err, ◌>>=◌}
use remote_executor.Text.{Text, codes, join}
use remote_executor.Text.Decimal.{decimal}
use remote_executor.Paths.{resolve}
use remote_executor.Json.{Value, string, number, unsigned}
use remote_executor.Protocol.{ToolResult, json_object, tool_output}
use remote_executor.Settings.{Chain}
use remote_executor.Fs.{
  FileKind, regular, directory, missing, special, FileStamp, Metadata, Found, found, not_found,
  unreadable, Disk,
}

-- `{ "key": value }`, if there is a number
abbrev number_field : Text → Option ℕ → List (Text × Value)
number_field key none = []
number_field key (some n) = (key, number (unsigned n)) ∷ []

abbrev pub kind_name : FileKind → Text
kind_name regular = codes "file"
kind_name directory = codes "directory"
kind_name missing = codes "missing"
kind_name special = codes "other"

-- what `Serialize` writes for a stamp
abbrev pub stamp_value : FileStamp → Value
stamp_value file = json_object (
    (codes "fileKey", string file.file_key)
    ∷ (codes "canonicalPath", string file.canonical_path)
    ∷ (codes "kind", string (kind_name file.kind))
    ∷ (number_field (codes "size") file.size ++ number_field (codes "mtimeMs") file.mtime_ms))

abbrev number_line : Text → Option ℕ → List Text
number_line label none = []
number_line label (some n) = (label ++ decimal n) ∷ []

unfoldable pub format_file_stamp : FileStamp → Text
unfolding decimal
format_file_stamp file = join (b'\n' ∷ []) (
    (codes "kind: " ++ kind_name file.kind)
    ∷ (codes "canonicalPath: " ++ file.canonical_path)
    ∷ (codes "fileKey: " ++ file.file_key)
    ∷ (number_line (codes "size: ") file.size ++ number_line (codes "mtimeMs: ") file.mtime_ms))

unfoldable pub stable_path : Disk → Text → Text
stable_path disk path = unwrap_or path (disk.canonicalize path)

unfoldable pub physical_file_key : Disk → Text → Metadata → Text
physical_file_key disk path metadata = elim (disk.file_id path) [
  | some id ↦ codes "file-id:" ++ id
  | none ↦
      codes "path:"
      ++ (stable_path disk path
          ++ (b':' ∷ decimal metadata.len ++ (b':' ∷ decimal (unwrap_or 0 metadata.modified_ms))))
]

abbrev kind_of : Metadata → FileKind
kind_of metadata =
    if metadata.is_file then regular else if metadata.is_dir then directory else special

unfoldable pub file_stamp_for_metadata : Disk → Text → Metadata → FileStamp
file_stamp_for_metadata disk path metadata = record {
  file_key = physical_file_key disk path metadata;
  canonical_path = stable_path disk path;
  kind = kind_of metadata;
  size = if metadata.is_file then some metadata.len else none;
  mtime_ms = metadata.modified_ms;
}

abbrev stamp_found : Disk → Text → Found → Outcome Chain FileStamp
stamp_found disk path (found metadata) = ok (file_stamp_for_metadata disk path metadata)
stamp_found disk path (not_found e) = ok (record {
  file_key = codes "missing:" ++ stable_path disk path;
  canonical_path = stable_path disk path;
  kind = missing;
  size = none;
  mtime_ms = none;
})
stamp_found disk path (unreadable e) = err ((codes "failed to stat " ++ path) ∷ e ∷ [])

unfoldable pub file_stamp : Disk → Text → Outcome Chain FileStamp
file_stamp disk path = stamp_found disk path (disk.metadata path)

unfoldable pub stat_path : Disk → Text → Text → Outcome Chain ToolResult
stat_path disk here path = do
  file ← file_stamp disk (resolve here path)
  ok (record {
    metadata = json_object ((codes "file", stamp_value file) ∷ []);
    output = tool_output (format_file_stamp file);
  })
