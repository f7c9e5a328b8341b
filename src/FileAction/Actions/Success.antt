-- ===== src/FileAction/Actions/Success.antt =====
-- The actions succeed where their checks do.
use mathlib.Core.Path.{subst}
use remote_executor.Base.{◌≡◌, refl, sym, ap, ◌∙◌, Bool, true, false, Option, some}
use remote_executor.Base.Outcome.{
  Outcome, ok, err, panic, ok_or, reject_if, ok-injective, bind-eq-ok,
}
use remote_executor.Text.{Text}
use remote_executor.Text.Equality.{text_eq_refl}
use remote_executor.FileAction.Types.{
  Bytes, FileActionMode, PatchMode, text, binary, Error, create_failed, write_failed, delete_failed,
  rename_failed, already_exists, rename_over_existing, content_required, new_file_path_required,
  read_failed,
}
use remote_executor.FileAction.Hash.{hash_bytes, check_hash, normalize_hash_code, or_default}
use remote_executor.FileAction.Shape.{from_bytes, encode}
use remote_executor.FileAction.Lines.Parse.{apply_line_text_patch}
use remote_executor.FileAction.Binary.{apply_binary_hunks}
use remote_executor.FileAction.Binary.Parse.{parse_binary_patch}
use remote_executor.FileAction.Report.{Env, ActionResult}
use remote_executor.FileAction.Actions.Change.{
  patched_bytes, IsCurrent, Change, patched, created, deleted, renamed,
}
use remote_executor.Paths.{resolve}
use remote_executor.FileAction.Actions.{
  FileActionOptions, Files, Action, continue, ◌>>◌, lift, finish, required_patch_text,
  content_bytes, read_existing_with_hash_check, apply_text_patch, apply_binary_patch, apply_patch,
  patch_file_action, create_file_action, delete_file_action, rename_file_action, run_mode,
  file_action,
}

-- A result, and the disk in the state `s`.
abbrev pub Reaches : {S A : Type 0} → S → S × Outcome Error A → Type 0
Reaches s (s', ok a) = s' ≡ s
Reaches s (s', err e) = ⊥
Reaches s (s', panic) = ⊥

check_hash_current :
    (sha256 : Bytes → Bytes) (mode : Bool) (hash_code : Option Text) (path : Text) (bytes : Bytes)
    → (mode ≡ true → normalize_hash_code (or_default hash_code) ≡ ok (hash_bytes sha256 bytes))
    → check_hash sha256 mode hash_code path bytes ≡ ok tt
unfolding check_hash
check_hash_current sha256 false hash_code path bytes k = refl
check_hash_current sha256 true hash_code path bytes k =
    rw (k refl, text_eq_refl (hash_bytes sha256 bytes)) refl

module _ {S B : Type 0} (st s : S) where
  Reaches-step :
      {A : Type 0} (m : Outcome Error A) (f : A → Action S B) (a : A)
      → m ≡ ok a
      → Reaches s (f a st)
      → Reaches s (continue (st, m) f)
  Reaches-step m f a e r = subst (λ m'. Reaches s (continue (st, m') f)) (sym e) r

  Reaches-finish :
      (e : Error) (called : Bool × S) (b : B)
      → called ≡ (true, s)
      → Reaches s (continue (finish e called) (λ _. lift (ok b)))
  Reaches-finish e called b h =
      subst (λ c. Reaches s (continue (finish e c) (λ _. lift (ok b)))) (sym h) refl

  Reaches-checked :
      {A : Type 0} (o : Option A) (e : Error) (check : A → Outcome Error (Unit {0}))
      (f : A → Action S B) (a : A)
      → o ≡ some a
      → check a ≡ ok tt
      → Reaches s (f a st)
      → Reaches s (continue (continue (st, ok_or o e) (λ a. lift (check a) >> lift (ok a))) f)
  Reaches-checked o e check f a found checked r =
      subst
        (λ o'.
          Reaches s (continue (continue (st, ok_or o' e) (λ a. lift (check a) >> lift (ok a))) f))
        (sym found)
        (subst (λ c. Reaches s (continue (continue (st, c) (λ _. lift (ok a))) f)) (sym checked) r)

module _ {S : Type 0} (files : Files S) (env : Env) (directory : Text) (options : FileActionOptions)
    (st s : S) where
  abbrev target : Text
  target = resolve directory options.file_path

  Reaches-read :
      (f : Bytes → Action S ActionResult) (before : Bytes)
      → files.read st target ≡ some before
      → IsCurrent env options before
      → Reaches s (f before st)
      → Reaches s (continue (read_existing_with_hash_check files env directory target options st) f)
  unfolding read_existing_with_hash_check
  Reaches-read f before found current r =
      Reaches-checked st s (files.read st target) (read_failed target)
        (λ bytes. check_hash env.sha256 options.hash_check_mode options.hash_code target bytes) f
        before found
        (check_hash_current env.sha256 options.hash_check_mode options.hash_code target before
          current)
        r

  apply_patch-Reaches :
      (mode : PatchMode) (before after : Bytes) (patch_text : Text)
      → patched_bytes mode before patch_text ≡ ok after
      → files.write st target after ≡ (true, s)
      → Reaches s (apply_patch files env directory mode target before patch_text options st)
  unfolding apply_text_patch apply_binary_patch
  apply_patch-Reaches text before after patch_text h written =
      let (shape, e, h') = bind-eq-ok (from_bytes before) _ h in
      let (after_text, e', h'') = bind-eq-ok (apply_line_text_patch shape.text patch_text) _ h' in
      Reaches-step st s (from_bytes before) _ shape e (
        Reaches-step st s (apply_line_text_patch shape.text patch_text) _ after_text e' (
          Reaches-finish st s (write_failed target)
            (files.write st target (encode shape after_text)) _
            (ap (λ bytes. files.write st target bytes) (ok-injective h'') ∙ written)))
  apply_patch-Reaches binary before after patch_text h written =
      let (hunks, e, h') = bind-eq-ok (parse_binary_patch patch_text) _ h in
      let (applied, e', h'') = bind-eq-ok (apply_binary_hunks before hunks) _ h' in
      Reaches-step st s (parse_binary_patch patch_text) _ hunks e (
        Reaches-step st s (apply_binary_hunks before hunks) _ applied e' (
          Reaches-finish st s (write_failed target) (files.write st target applied.bytes) _
            (ap (λ bytes. files.write st target bytes) (ok-injective h'') ∙ written)))

  run_mode-Reaches :
      (mode : FileActionMode)
      → options.mode ≡ mode
      → Reaches s (run_mode files env directory mode target options st)
      → Reaches s (file_action files env directory options st)
  unfolding file_action
  run_mode-Reaches mode e r =
      subst (λ m. Reaches s (run_mode files env directory m target options st)) (sym e) r

  -- Every change of the disk that the checks allow is made: where the conditions of one mode hold
  -- and its call of the disk succeeds, the action returns a result and leaves the disk in the state
  -- of that call.
  pub Change-file_action :
      Change files env directory options st s
      → Reaches s (file_action files env directory options st)
  unfolding patch_file_action create_file_action delete_file_action rename_file_action
  Change-file_action (patched patch_text before after mode given found current made written) =
      run_mode-Reaches FileActionMode.patch mode (
        Reaches-step st s (required_patch_text options.patch_text) _ patch_text given (
          Reaches-read _ before found current
            (apply_patch-Reaches options.patch_mode before after patch_text made written)))
  Change-file_action (created content bytes mode absent given made written) =
      run_mode-Reaches FileActionMode.create mode (
        Reaches-step st s (reject_if (files.exists st target) (already_exists target)) _ tt
          (rw absent refl)
          (Reaches-step st s (ok_or options.content content_required) _ content (rw given refl) (
            Reaches-step st s (content_bytes options.patch_mode content) _ bytes made (
              Reaches-finish st s (create_failed target) (files.write st target bytes) _ written))))
  Change-file_action (deleted before mode found current gone) =
      run_mode-Reaches FileActionMode.delete mode (
        Reaches-read _ before found current
          (Reaches-finish st s (delete_failed target) (files.remove st target) _ gone))
  Change-file_action (renamed before new_path mode found current given absent moved) =
      let to = resolve directory new_path in
      run_mode-Reaches FileActionMode.rename mode (
        Reaches-read _ before found current (
          Reaches-step st s (ok_or options.new_file_path new_file_path_required) _ new_path
            (rw given refl)
            (Reaches-step st s (reject_if (files.exists st to) (rename_over_existing to)) _ tt
              (rw absent refl)
              (Reaches-finish st s (rename_failed target to) (files.rename st target to) _ moved))))
