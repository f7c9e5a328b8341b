-- ===== src/Fs.antt =====
-- `read` and `stat` of tools/fs/mod.rs. What they ask of the disk is an interface, since they change
-- nothing there.
pub mod Page
pub mod Stamp
pub mod Read
pub mod Glob
use Prim.Native.String.{String}
use remote_executor.Base.{ℕ, Bool, true, false, Option, none, some, List, [], ◌∷◌, ◌++◌}
use remote_executor.Base.Outcome.{Outcome}
use remote_executor.Text.{Text, codes}

abbrev pub Bytes : Type 0
Bytes = List ℕ

abbrev pub default_read_limit : ℕ
default_read_limit = 2000

abbrev pub binary_read_limit : ℕ
binary_read_limit = 128

abbrev pub max_line_length : ℕ
max_line_length = 2000

abbrev pub max_line_suffix : Text
max_line_suffix = codes "... (line truncated to 2000 chars)"

pub data ReadMode : Type 0 where
  text_mode binary_mode : ReadMode

pub record ReadOptions : Type 0 where
  pub file_path : Text
  pub mode : Option ReadMode
  pub offset : Option ℕ
  pub limit : Option ℕ
  pub hash_check_mode : Bool

pub data FileKind : Type 0 where
  regular directory missing special : FileKind

pub record FileStamp : Type 0 where
  pub file_key : Text
  pub canonical_path : Text
  pub kind : FileKind
  pub size : Option ℕ
  pub mtime_ms : Option ℕ

pub record Metadata : Type 0 where
  pub is_file : Bool
  pub is_dir : Bool
  pub len : ℕ
  pub modified_ms : Option ℕ

-- the answers of `fs::metadata`, the error of a missing file apart
pub data Found : Type 0 where
  found : Metadata → Found
  not_found unreadable : Text → Found

-- the disk during one call; `file_id` is the id as it is printed, `entries` the names with whether
-- they are directories, and `sort` that of texts
pub record Disk : Type 0 where
  pub metadata : Text → Found
  pub read : Text → Outcome Text Bytes
  pub entries : Text → Outcome Text (List (Text × Bool))
  pub canonicalize : Text → Option Text
  pub file_id : Text → Option Text
  pub sha256 : Bytes → Bytes
