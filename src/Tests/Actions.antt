-- ===== src/Tests/Actions.antt =====
-- The actions of tools/file_action/mod.rs on a disk that is a list of paths and bytes.
use remote_executor.Base.{
  arith, ◌≡◌, refl, true, Option, none, some, List, [], ◌∷◌, replicate, if◌then◌else◌, is_some,
}
use remote_executor.Base.Outcome.{ok, err}
use remote_executor.Text.{Text, codes, text_eq, byte_len, slice_bytes}
use remote_executor.Text.Number.{from_str_radix, to_digit}
use remote_executor.FileAction.Types.{Bytes, FileActionMode, binary, already_exists}
use remote_executor.FileAction.Hex.{decode_hex, compact_hex, hex_bytes}
use remote_executor.FileAction.Report.{Env, ActionResult}
use remote_executor.Paths.{resolve}
use remote_executor.FileAction.Actions.{FileActionOptions, Files, create_file_action, file_action}
use remote_executor.FileAction.Hash.{normalize_hash_code, hash_bytes}
use remote_executor.FileAction.Hash.Normal.{normalize_hash_code-hash_bytes}
use remote_executor.FileAction.Actions.Change.{Change, created}
use remote_executor.FileAction.Actions.Laws.{Settles, file_action-Change}
use remote_executor.FileAction.Actions.Success.{Reaches, Change-file_action}

abbrev Disk : Type 0
Disk = List (Text × Bytes)

abbrev read_disk : Disk → Text → Option Bytes
read_disk [] path = none
read_disk ((p, bytes) ∷ disk) path = if text_eq p path then some bytes else read_disk disk path

abbrev remove_disk : Disk → Text → Disk
remove_disk [] path = []
remove_disk ((p, bytes) ∷ disk) path =
    let rest = remove_disk disk path in if text_eq p path then rest else (p, bytes) ∷ rest

abbrev rename_disk : Disk → Text → Text → Disk
rename_disk [] from to = []
rename_disk ((p, bytes) ∷ disk) from to =
    let rest = rename_disk disk from to in
    if text_eq p from then (to, bytes) ∷ rest else (p, bytes) ∷ rest

abbrev files : Files Disk
files = record {
  read = read_disk;
  exists = λ disk path. is_some (read_disk disk path);
  write = λ disk path bytes. (true, (path, bytes) ∷ remove_disk disk path);
  remove = λ disk path. (true, remove_disk disk path);
  rename = λ disk from to. (true, rename_disk disk from to);
}

abbrev env : Env
env = record {
  sha256 = λ bytes. replicate 32 7;
  create_patch = λ before after. after;
  title = λ path. path;
}

abbrev disk : Disk
disk = (codes "/w/a", 1 ∷ 2 ∷ []) ∷ []

abbrev options : FileActionOptions
options = record {
  mode = FileActionMode.create;
  file_path = codes "b";
  new_file_path = none;
  patch_text = none;
  content = some (codes "FE 01");
  patch_mode = binary;
  hash_check_mode = true;
  hash_code = none;
}

abbrev after : Disk
after = (codes "/w/b", 0xfe ∷ 1 ∷ []) ∷ disk

change : Change files env (codes "/w") options disk after
unfolding resolve text_eq decode_hex compact_hex hex_bytes byte_len slice_bytes from_str_radix
    to_digit
change = created (codes "FE 01") (0xfe ∷ 1 ∷ []) refl refl refl refl refl

Change-file_action_example : Reaches after (file_action files env (codes "/w") options disk)
Change-file_action_example = Change-file_action files env (codes "/w") options disk after change

file_action-Change_example :
    Settles disk
      (λ (r : ActionResult) s. Change files env (codes "/w") options disk s)
      (file_action files env (codes "/w") options disk)
file_action-Change_example = file_action-Change files env (codes "/w") options disk

abbrev present : FileActionOptions
present = record options { file_path = codes "/w/a" }

create-present :
    file_action files env (codes "/w") present disk ≡ (disk, err (already_exists (codes "/w/a")))
unfolding file_action create_file_action resolve text_eq
create-present = refl

normalize_hash_code-hash_bytes_example :
    normalize_hash_code (hash_bytes env.sha256 (1 ∷ [])) ≡ ok (hash_bytes env.sha256 (1 ∷ []))
normalize_hash_code-hash_bytes_example =
    normalize_hash_code-hash_bytes env.sha256 (1 ∷ []) (λ bytes. (refl, omega arith))
