-- ===== src/FileAction/Actions/Laws.antt =====
-- What the actions promise: the changes that they make to the disk, and when they make none.
use remote_executor.Base.{
  ◌≡◌, refl, ap, ◌∙◌, ◌⊎◌, inl, inr, Bool, true, false, Option, none, some, arith, Bool-cases,
}
use remote_executor.Base.Outcome.{
  Outcome, ok, err, panic, ok_or, reject_if, bind-eq-ok, ok_or-eq-ok,
}
use remote_executor.Text.{Text, text_eq}
use remote_executor.Text.Equality.{text_eq-eq}
use remote_executor.FileAction.Types.{
  Bytes, FileActionMode, PatchMode, text, binary, Error, create_failed, write_failed, delete_failed,
  rename_failed, already_exists, rename_over_existing, content_required, new_file_path_required,
  read_failed,
}
use remote_executor.FileAction.Hash.{hash_bytes, check_hash, normalize_hash_code, or_default}
use remote_executor.FileAction.Shape.{from_bytes, encode}
use remote_executor.FileAction.Lines.Parse.{apply_line_text_patch}
use remote_executor.FileAction.Binary.{apply_binary_hunks}
use remote_executor.FileAction.Binary.Parse.{parse_binary_patch}
use remote_executor.FileAction.Report.{Env, ActionResult}
use remote_executor.FileAction.Actions.Change.{
  patched_bytes, IsCurrent, Change, patched, created, deleted, renamed,
}
use remote_executor.Paths.{resolve}
use remote_executor.FileAction.Actions.{
  FileActionOptions, Files, Action, continue, ◌>>◌, lift, finish, required_patch_text,
  content_bytes, read_existing_with_hash_check, apply_text_patch, apply_binary_patch, apply_patch,
  patch_file_action, create_file_action, delete_file_action, rename_file_action, run_mode,
  file_action,
}

-- the call that changes the disk failed
abbrev pub IsDiskError : Error → Type 0
IsDiskError (create_failed path) = Unit
IsDiskError (write_failed path) = Unit
IsDiskError (delete_failed path) = Unit
IsDiskError (rename_failed from to) = Unit
IsDiskError _ = ⊥

-- From `st`: a result has the property; after an error the disk is as it was unless a call that
-- changes it failed, and after a panic it is as it was.
abbrev pub Settles : {S A : Type 0} → S → (A → S → Type 0) → S × Outcome Error A → Type 0
Settles st Q (s, ok a) = Q a s
Settles st Q (s, err e) = (s ≡ st) ⊎ IsDiskError e
Settles st Q (s, panic) = s ≡ st

module _ {S B : Type 0} (st : S) (Q : B → S → Type 0) where
  -- A step that leaves the disk alone, then the rest.
  Settles-step :
      {A : Type 0} (m : Outcome Error A) (f : A → Action S B)
      → ((a : A) → m ≡ ok a → Settles st Q (f a st))
      → Settles st Q (continue (st, m) f)
  Settles-step (ok a) f k = k a refl
  Settles-step (err e) f k = inl refl
  Settles-step panic f k = refl

  -- The call that changes the disk, then a result.
  Settles-finish :
      (e : Error) (called : Bool × S) (b : B)
      → IsDiskError e
      → ((s : S) → called ≡ (true, s) → Q b s)
      → Settles st Q (continue (finish e called) (λ _. lift (ok b)))
  Settles-finish e (true, s) b d k = k s refl
  Settles-finish e (false, s) b d k = inr d

  Settles-after :
      {A : Type 0} (m : Outcome Error (Unit {0})) (a : A) (f : A → Action S B)
      → (m ≡ ok tt → Settles st Q (f a st))
      → Settles st Q (continue (continue (st, m) (λ _. lift (ok a))) f)
  Settles-after (ok u) a f k = k refl
  Settles-after (err e) a f k = inl refl
  Settles-after panic a f k = refl

  -- A read with a check of what was read, then the rest.
  Settles-checked :
      {A : Type 0} (o : Option A) (e : Error) (check : A → Outcome Error (Unit {0}))
      (f : A → Action S B)
      → ((a : A) → o ≡ some a → check a ≡ ok tt → Settles st Q (f a st))
      → Settles st Q (continue (continue (st, ok_or o e) (λ a. lift (check a) >> lift (ok a))) f)
  Settles-checked none e check f k = inl refl
  Settles-checked (some a) e check f k = Settles-after (check a) a f (k a refl)

pub check_hash-eq_ok :
    (sha256 : Bytes → Bytes) (mode : Bool) (hash_code : Option Text) (path : Text) (bytes : Bytes)
    → check_hash sha256 mode hash_code path bytes ≡ ok tt
    → mode ≡ true
    → normalize_hash_code (or_default hash_code) ≡ ok (hash_bytes sha256 bytes)
unfolding check_hash
check_hash-eq_ok sha256 false hash_code path bytes h asked = cc
check_hash-eq_ok sha256 true hash_code path bytes h asked =
    let (expected, e, h') = bind-eq-ok (normalize_hash_code (or_default hash_code)) _ h in
    elim (Bool-cases (text_eq expected (hash_bytes sha256 bytes))) [
      | inl same ↦ e ∙ ap ok (text_eq-eq expected (hash_bytes sha256 bytes) same)
      | inr other ↦ ground arith
    ]

reject_if-eq_ok : (b : Bool) (e : Error) {u : Unit {0}} → reject_if b e ≡ ok u → b ≡ false
reject_if-eq_ok true e h = cc
reject_if-eq_ok false e h = refl

module _ {S : Type 0} (files : Files S) (env : Env) (directory : Text) (options : FileActionOptions)
    (st : S) where
  abbrev target : Text
  target = resolve directory options.file_path

  abbrev Changes : ActionResult → S → Type 0
  Changes r s = Change files env directory options st s

  Settles-read :
      (f : Bytes → Action S ActionResult)
      → ((before : Bytes)
          → files.read st target ≡ some before
          → IsCurrent env options before
          → Settles st Changes (f before st))
      → Settles st Changes
          (continue (read_existing_with_hash_check files env directory target options st) f)
  unfolding read_existing_with_hash_check
  Settles-read f k =
      Settles-checked st Changes (files.read st target) (read_failed target)
        (λ bytes. check_hash env.sha256 options.hash_check_mode options.hash_code target bytes) f
        (λ before found checked. k before found (λ asked.
          check_hash-eq_ok env.sha256 options.hash_check_mode options.hash_code target before
            checked asked))

  abbrev Patches : PatchMode → Bytes → Text → Type 0
  Patches mode before patch_text =
      (after : Bytes)
      → patched_bytes mode before patch_text ≡ ok after
      → (s : S) → files.write st target after ≡ (true, s)
      → Change files env directory options st s

  apply_patch-Settles :
      (mode : PatchMode) (before : Bytes) (patch_text : Text)
      → Patches mode before patch_text
      → Settles st Changes
          (apply_patch files env directory mode target before patch_text options st)
  unfolding apply_text_patch apply_binary_patch
  apply_patch-Settles text before patch_text k =
      Settles-step st Changes (from_bytes before) _ (λ shape e.
        Settles-step st Changes (apply_line_text_patch shape.text patch_text) _ (λ after e'.
          Settles-finish st Changes (write_failed target)
            (files.write st target (encode shape after)) _ tt
            (k (encode shape after) (rw (e, e') refl))))
  apply_patch-Settles binary before patch_text k =
      Settles-step st Changes (parse_binary_patch patch_text) _ (λ hunks e.
        Settles-step st Changes (apply_binary_hunks before hunks) _ (λ applied e'.
          Settles-finish st Changes (write_failed target) (files.write st target applied.bytes) _ tt
            (k applied.bytes (rw (e, e') refl))))

  patch-Settles :
      options.mode ≡ FileActionMode.patch
      → Settles st Changes (patch_file_action files env directory target options st)
  unfolding patch_file_action
  patch-Settles mode =
      Settles-step st Changes (required_patch_text options.patch_text) _ (λ patch_text given.
        Settles-read _ (λ before found current.
          apply_patch-Settles options.patch_mode before patch_text (λ after made s written.
            patched patch_text before after mode given found current made written)))

  create-Settles :
      options.mode ≡ FileActionMode.create
      → Settles st Changes (create_file_action files env directory target options st)
  unfolding create_file_action
  create-Settles mode =
      Settles-step st Changes (reject_if (files.exists st target) (already_exists target)) _
        (λ u absent.
          Settles-step st Changes (ok_or options.content content_required) _ (λ content given.
            Settles-step st Changes (content_bytes options.patch_mode content) _ (λ bytes made.
              Settles-finish st Changes (create_failed target) (files.write st target bytes) _ tt
                (λ s written.
                  created content bytes mode (reject_if-eq_ok _ _ absent)
                    (ok_or-eq-ok options.content content_required given) made written))))

  delete-Settles :
      options.mode ≡ FileActionMode.delete
      → Settles st Changes (delete_file_action files env directory target options st)
  unfolding delete_file_action
  delete-Settles mode = Settles-read _ (λ before found current.
      Settles-finish st Changes (delete_failed target) (files.remove st target) _ tt
        (λ s gone. deleted before mode found current gone))

  rename-Settles :
      options.mode ≡ FileActionMode.rename
      → Settles st Changes (rename_file_action files env directory target options st)
  unfolding rename_file_action
  rename-Settles mode = Settles-read _ (λ before found current.
      Settles-step st Changes (ok_or options.new_file_path new_file_path_required) _
        (λ new_path given.
          let to = resolve directory new_path in
          Settles-step st Changes (reject_if (files.exists st to) (rename_over_existing to)) _
            (λ u absent.
              Settles-finish st Changes (rename_failed target to) (files.rename st target to) _ tt
                (λ s moved.
                  renamed before new_path mode found current
                    (ok_or-eq-ok options.new_file_path new_file_path_required given)
                    (reject_if-eq_ok _ _ absent) moved))))

  run_mode-Settles :
      (mode : FileActionMode)
      → options.mode ≡ mode
      → Settles st Changes (run_mode files env directory mode target options st)
  run_mode-Settles FileActionMode.patch same = patch-Settles same
  run_mode-Settles FileActionMode.create same = create-Settles same
  run_mode-Settles FileActionMode.delete same = delete-Settles same
  run_mode-Settles FileActionMode.rename same = rename-Settles same

  -- Whatever the disk and the options, an action that succeeds made the one change of its mode,
  -- after its checks: a patch, a deletion or a rename of a file whose hash code is the given one
  -- where a check is asked for, a new file or a new name only where none was. After an error the
  -- disk is as it was, unless the call that changes it failed itself; after a panic it is as it was.
  pub file_action-Change :
      Settles st
        (λ r s. Change files env directory options st s)
        (file_action files env directory options st)
  unfolding file_action
  file_action-Change = run_mode-Settles options.mode refl
