-- ===== src/FileAction/Actions.antt =====
-- The actions of tools/file_action/mod.rs over the files of a disk, each from a state of the disk
-- to the next one and an outcome.
pub mod Change
pub mod Laws
pub mod Success
use Prim.Native.String.{String}
use remote_executor.Base.{
  ℕ, Bool, true, false, Option, none, some, List, [], ◌∷◌, ◌++◌, if◌then◌else◌, length,
}
use remote_executor.Base.Outcome.{Outcome, ok, err, panic, ok_or, reject_if}
use remote_executor.Text.{Text, codes, is_empty, trim, starts_with, join}
use remote_executor.Paths.{resolve}
use remote_executor.Text.Utf8.{into_bytes}
use remote_executor.FileAction.Types.{
  Bytes, FileActionMode, PatchMode, text, binary, TextShape, BinaryHunk, BinaryPatchApplied, Error,
  patch_text_required, content_required, new_file_path_required, already_exists,
  rename_over_existing, create_failed, read_failed, write_failed, delete_failed, rename_failed,
}
use remote_executor.FileAction.Hex.{decode_hex}
use remote_executor.FileAction.Hash.{hash_bytes, check_hash}
use remote_executor.FileAction.Shape.{from_bytes, encode}
use remote_executor.FileAction.Lines.Parse.{apply_line_text_patch}
use remote_executor.FileAction.Binary.{apply_binary_hunks}
use remote_executor.FileAction.Binary.Parse.{parse_binary_patch}
use remote_executor.FileAction.Report.{
  Env, ActionResult, result_from_file, result_from_file_with_diff, diff_text, diff_binary,
  delete_diff, patch_file, action_file, binary_patch_file, rename_file,
}

pub record FileActionOptions : Type 0 where
  pub mode : FileActionMode
  pub file_path : Text
  pub new_file_path : Option Text
  pub patch_text : Option Text
  pub content : Option Text
  pub patch_mode : PatchMode
  pub hash_check_mode : Bool
  pub hash_code : Option Text

-- `std::fs` on a disk whose states are `S`: a call that changes the disk says whether it succeeded
pub record Files (S : Type 0) : Type 0 where
  pub read : S → Text → Option Bytes
  pub exists : S → Text → Bool
  pub write : S → Text → Bytes → Bool × S
  pub remove : S → Text → Bool × S
  pub rename : S → Text → Text → Bool × S

abbrev pub Action : Type 0 → Type 0 → Type 0
Action S A = S → S × Outcome Error A

abbrev pub continue :
    {S A B : Type 0} → S × Outcome Error A → (A → Action S B) → S × Outcome Error B
continue (st, ok a) f = f a st
continue (st, err e) f = (st, err e)
continue (st, panic) f = (st, panic)

infixl 5 ◌>>=◌ ◌>>◌
abbrev pub ◌>>=◌ : {S A B : Type 0} → Action S A → (A → Action S B) → Action S B
(m >>= f) st = continue (m st) f

abbrev pub ◌>>◌ : {S B : Type 0} → Action S (Unit {0}) → Action S B → Action S B
m >> k = m >>= λ _. k

-- a step that does not touch the disk
abbrev pub lift : {S A : Type 0} → Outcome Error A → Action S A
lift m st = (st, m)

-- a call that changes the disk, with the error where it fails
abbrev pub finish : {S : Type 0} → Error → Bool × S → S × Outcome Error (Unit {0})
finish e (true, st) = (st, ok tt)
finish e (false, st) = (st, err e)

-- `hash_check_mode.then_some(hash)`
abbrev pub then_some : Bool → Text → Option Text
then_some true hash = some hash
then_some false hash = none

-- the patch text where there is one that is not blank
abbrev pub required_patch_text : Option Text → Outcome Error Text
required_patch_text none = err patch_text_required
required_patch_text (some t) = if is_empty (trim t) then err patch_text_required else ok t

abbrev pub content_bytes : PatchMode → Text → Outcome Error Bytes
content_bytes text content = ok (into_bytes content)
content_bytes binary content = decode_hex content

module _ {S : Type 0} (files : Files S) (env : Env) (directory : Text) where
  abbrev pub read_file : Text → Action S Bytes
  read_file path st = (st, ok_or (files.read st path) (read_failed path))

  abbrev pub path_exists : Text → Action S Bool
  path_exists path st = (st, ok (files.exists st path))

  unfoldable pub read_existing_with_hash_check : Text → FileActionOptions → Action S Bytes
  read_existing_with_hash_check path options = do
    bytes ← read_file path
    lift (check_hash env.sha256 options.hash_check_mode options.hash_code path bytes)
    lift (ok bytes)

  unfoldable pub apply_text_patch : Text → Bytes → Text → FileActionOptions → Action S ActionResult
  apply_text_patch target before_bytes patch_text options = do
    shape ← lift (from_bytes before_bytes)
    after_text ← lift (apply_line_text_patch shape.text patch_text)
    let after_bytes = encode shape after_text
    (λ st. finish (write_failed target) (files.write st target after_bytes))
    let diff = diff_text env target shape.text after_text
    lift (
        ok (
          result_from_file_with_diff (patch_file env target diff)
            (then_some options.hash_check_mode (hash_bytes env.sha256 after_bytes)) (some diff)))

  unfoldable pub apply_binary_patch :
      Text → Bytes → Text → FileActionOptions → Action S ActionResult
  apply_binary_patch target before_bytes patch_text options = do
    hunks ← lift (parse_binary_patch patch_text)
    applied ← lift (apply_binary_hunks before_bytes hunks)
    let after_bytes = applied.bytes
    (λ st. finish (write_failed target) (files.write st target after_bytes))
    lift (
        ok (
          result_from_file_with_diff
            (binary_patch_file env target applied.additions applied.deletions)
            (then_some options.hash_check_mode (hash_bytes env.sha256 after_bytes))
            (some (diff_binary env target before_bytes after_bytes))))

  -- the `match` on `patch_mode`
  abbrev pub apply_patch :
      PatchMode → Text → Bytes → Text → FileActionOptions → Action S ActionResult
  apply_patch text target before_bytes patch_text options =
      apply_text_patch target before_bytes patch_text options
  apply_patch binary target before_bytes patch_text options =
      apply_binary_patch target before_bytes patch_text options

  unfoldable pub patch_file_action : Text → FileActionOptions → Action S ActionResult
  patch_file_action target options = do
    patch_text ← lift (required_patch_text options.patch_text)
    before_bytes ← read_existing_with_hash_check target options
    apply_patch options.patch_mode target before_bytes patch_text options

  abbrev create_diff : PatchMode → Text → Text → Bytes → Text
  create_diff text target content bytes = diff_text env target [] content
  create_diff binary target content bytes = diff_binary env target [] bytes

  unfoldable pub create_file_action : Text → FileActionOptions → Action S ActionResult
  create_file_action target options = do
    present ← path_exists target
    lift (reject_if present (already_exists target))
    content ← lift (ok_or options.content content_required)
    bytes ← lift (content_bytes options.patch_mode content)
    (λ st. finish (create_failed target) (files.write st target bytes))
    lift (
        ok (
          result_from_file_with_diff (action_file env target (codes "create") (length bytes) 0)
            (then_some options.hash_check_mode (hash_bytes env.sha256 bytes))
            (some (create_diff options.patch_mode target content bytes))))

  unfoldable pub delete_file_action : Text → FileActionOptions → Action S ActionResult
  delete_file_action target options = do
    before ← read_existing_with_hash_check target options
    let diff = delete_diff env target before options.patch_mode
    (λ st. finish (delete_failed target) (files.remove st target))
    lift (
        ok (
          result_from_file_with_diff (action_file env target (codes "delete") 0 (length before))
            none (some diff)))

  unfoldable pub rename_file_action : Text → FileActionOptions → Action S ActionResult
  rename_file_action target options = do
    before ← read_existing_with_hash_check target options
    new_file_path ← lift (ok_or options.new_file_path new_file_path_required)
    let new_path = resolve directory new_file_path
    present ← path_exists new_path
    lift (reject_if present (rename_over_existing new_path))
    (λ st. finish (rename_failed target new_path) (files.rename st target new_path))
    lift (
        ok (
          result_from_file (rename_file env target new_path)
            (then_some options.hash_check_mode (hash_bytes env.sha256 before))))

  -- the `match` of `file_action`
  abbrev run_mode : FileActionMode → Text → FileActionOptions → Action S ActionResult
  run_mode FileActionMode.patch target options = patch_file_action target options
  run_mode FileActionMode.create target options = create_file_action target options
  run_mode FileActionMode.delete target options = delete_file_action target options
  run_mode FileActionMode.rename target options = rename_file_action target options

  unfoldable pub file_action : FileActionOptions → Action S ActionResult
  file_action options = run_mode options.mode (resolve directory options.file_path) options
