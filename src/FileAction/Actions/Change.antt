-- ===== src/FileAction/Actions/Change.antt =====
-- The changes of a disk that an action may make: one call each, with what was checked before it.
use remote_executor.Base.{◌≡◌, true, false, some}
use remote_executor.Base.Outcome.{Outcome, ok, ◌>>=◌}
use remote_executor.Text.{Text}
use remote_executor.FileAction.Types.{Bytes, FileActionMode, PatchMode, text, binary, Error}
use remote_executor.FileAction.Hash.{hash_bytes, normalize_hash_code, or_default}
use remote_executor.FileAction.Shape.{from_bytes, encode}
use remote_executor.FileAction.Lines.Parse.{apply_line_text_patch}
use remote_executor.FileAction.Binary.{apply_binary_hunks}
use remote_executor.FileAction.Binary.Parse.{parse_binary_patch}
use remote_executor.FileAction.Report.{Env}
use remote_executor.Paths.{resolve}
use remote_executor.FileAction.Actions.{
  FileActionOptions, Files, required_patch_text, content_bytes,
}

-- the bytes that a patch makes of a file
abbrev pub patched_bytes : PatchMode → Bytes → Text → Outcome Error Bytes
patched_bytes text before patch_text = do
  shape ← from_bytes before
  after ← apply_line_text_patch shape.text patch_text
  ok (encode shape after)
patched_bytes binary before patch_text = do
  hunks ← parse_binary_patch patch_text
  applied ← apply_binary_hunks before hunks
  ok applied.bytes

-- Where the caller asks for a check, the hash code that it gives is the one of these bytes.
abbrev pub IsCurrent : Env → FileActionOptions → Bytes → Type 0
IsCurrent env options before =
    options.hash_check_mode ≡ true
    → normalize_hash_code (or_default options.hash_code) ≡ ok (hash_bytes env.sha256 before)

-- From `st` to `s` by the one call of the options' mode.
pub data Change {S : Type 0} (files : Files S) (env : Env) (directory : Text)
    (options : FileActionOptions) (st s : S) : Type 0 where
  patched :
      (patch_text : Text) (before after : Bytes)
      → options.mode ≡ FileActionMode.patch
      → required_patch_text options.patch_text ≡ ok patch_text
      → files.read st (resolve directory options.file_path) ≡ some before
      → IsCurrent env options before
      → patched_bytes options.patch_mode before patch_text ≡ ok after
      → files.write st (resolve directory options.file_path) after ≡ (true, s)
      → Change files env directory options st s
  created :
      (content : Text) (bytes : Bytes)
      → options.mode ≡ FileActionMode.create
      → files.exists st (resolve directory options.file_path) ≡ false
      → options.content ≡ some content
      → content_bytes options.patch_mode content ≡ ok bytes
      → files.write st (resolve directory options.file_path) bytes ≡ (true, s)
      → Change files env directory options st s
  deleted :
      (before : Bytes)
      → options.mode ≡ FileActionMode.delete
      → files.read st (resolve directory options.file_path) ≡ some before
      → IsCurrent env options before
      → files.remove st (resolve directory options.file_path) ≡ (true, s)
      → Change files env directory options st s
  renamed :
      (before : Bytes) (new_path : Text)
      → options.mode ≡ FileActionMode.rename
      → files.read st (resolve directory options.file_path) ≡ some before
      → IsCurrent env options before
      → options.new_file_path ≡ some new_path
      → files.exists st (resolve directory new_path) ≡ false
      → files.rename st (resolve directory options.file_path) (resolve directory new_path)
        ≡ (true, s)
      → Change files env directory options st s
