-- ===== src/FileTransfer.antt =====
-- The data of file_transfer.rs, and what it calls: the disk, the stream of a connection, `serde_json`
-- and SHA-256. Bytes that are ASCII are the codes of their characters.
pub mod Prefix
pub mod Request
pub mod Response
pub mod Laws
pub mod Body
pub mod Handle
use Prim.Native.String.{String}
use remote_executor.Base.{ℕ, ◌*◌, Bool, Option, List, [], ◌∷◌, ◌++◌}
use remote_executor.Base.Outcome.{Outcome}
use remote_executor.Text.{Text, codes}
use remote_executor.Dict.{Dict}
use remote_executor.Json.{Value}
use remote_executor.Fs.{Disk}

abbrev pub Bytes : Type 0
Bytes = List ℕ

abbrev pub http_path : Text
http_path = codes "/re-file/v1"

abbrev pub chunk_size : ℕ
chunk_size = 1024 * 1024

abbrev pub max_header_bytes : ℕ
max_header_bytes = 64 * 1024

pub record HttpRequest : Type 0 where
  pub method : Text
  pub path : Text
  pub headers : Dict Text
  pub body_start : Bytes

pub data PrefixMatch : Type 0 where
  matches differs need_more : PrefixMatch

-- what a read of the stream gives; after the last one the connection is closed
pub data Read : Type 0 where
  got : Bytes → Read
  failed : Text → Read

-- what a connection is answered
pub record Reply : Type 0 where
  pub status : ℕ
  pub headers : List (Text × Text)
  pub body : Bytes

-- an open file: whether its metadata say that it is one, and its bytes
pub record OpenFile : Type 0 where
  pub is_file : Outcome Text Bool
  pub bytes : Bytes

-- `tokio::fs` on a disk whose states are `S`; `view` is what `stat` and the hash of a file ask
pub record TransferFiles (S : Type 0) : Type 0 where
  pub view : S → Disk
  pub open_file : S → Text → Outcome Text OpenFile
  pub try_exists : S → Text → Outcome Text Bool
  pub create : S → Text → Outcome Text (Unit {0}) × S
  pub append : S → Text → Bytes → Outcome Text (Unit {0}) × S
  pub remove : S → Text → Outcome Text (Unit {0}) × S
  pub rename : S → Text → Text → Outcome Text (Unit {0}) × S

-- `Sha256::digest`, the printing of a value, the error of bytes that are no UTF-8, the current
-- directory, the number of the process and the clock
pub record TransferEnv : Type 0 where
  pub sha256 : Bytes → Bytes
  pub print : Value → Bytes
  pub utf8_error : Bytes → Text
  pub current_dir : Option Text
  pub process_id : ℕ
  pub now_ns : ℕ
