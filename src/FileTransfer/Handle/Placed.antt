-- ===== src/FileTransfer/Handle/Placed.antt =====
-- What `place_upload` of file_transfer.rs leaves in the target.
use remote_executor.Base.{◌≡◌, ◌≢◌, refl, ◌∙◌, Option, some, if-lem}
use remote_executor.Base.Steps.{continue-lem, continue-state}
use remote_executor.Base.Outcome.{Outcome, ok, err, panic, map_err-eq-ok}
use remote_executor.Text.{Text}
use remote_executor.Settings.{Chain, or_cause}
use remote_executor.Fs.Stamp.{file_stamp}
use remote_executor.FileTransfer.{Bytes, Reply, TransferFiles, TransferEnv}
use remote_executor.FileTransfer.Laws.{DiskLaws}
use remote_executor.FileTransfer.Response.{json_reply}
use remote_executor.FileTransfer.Handle.{Upload, place_upload, remove_target, rename_temp}

module _ {S : Type 0} (files : TransferFiles S) (content : S → Text → Option Bytes)
    (laws : DiskLaws files content) (env : TransferEnv) where
  module _ (upload : Upload) (temp : Text) (apart : temp ≢ upload.path) where
    -- where it answers, it answers 200 and the target holds the bytes
    abbrev pub Placed : Bytes → Outcome Chain Reply × S → Type 0
    Placed bytes (ok reply, st) = (reply.status ≡ 200) × (content st upload.path ≡ some bytes)
    Placed bytes (err e, st) = Unit
    Placed bytes (panic, st) = Unit

    remove_target-temp :
        (st : S) → content (remove_target files env st upload).1 temp ≡ content st temp
    remove_target-temp st =
        if-lem KeepsTemp upload.overwrite
          (continue-state (λ st'. content st' temp ≡ content st temp)
            (or_cause (files.try_exists st upload.path), st) _ refl
            (λ exists. if-lem KeepsTemp exists (laws.remove_other st upload.path temp apart) refl))
          refl
      where
        KeepsTemp : Outcome Chain (Unit {0}) × S → Type 0
        KeepsTemp r = content r.1 temp ≡ content st temp

    pub place_upload-Placed :
        (st : S) (sha : Text) (bytes : Bytes)
        → content st temp ≡ some bytes
        → Placed bytes (place_upload files env st upload temp sha)
    unfolding place_upload json_reply
    place_upload-Placed st sha bytes c =
        let removed = remove_target files env st upload in
        let renamed = rename_temp files env removed.1 temp upload.path in
        continue-lem (Placed bytes) removed _ (λ e. tt) tt
          (λ u e.
            continue-lem (Placed bytes) renamed _ (λ e'. tt) tt
              (λ v e'.
                continue-lem (Placed bytes)
                  (file_stamp (files.view renamed.1) upload.path, renamed.1) _ (λ e''. tt) tt
                  (λ stamp e''. (
                    refl,
                    laws.rename_new removed.1 temp upload.path (map_err-eq-ok _ _ e')
                        ∙ remove_target-temp st
                        ∙ c,
                  ))))
