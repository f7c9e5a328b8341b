-- ===== src/FileTransfer/Body/Kept.antt =====
-- `receive_upload_body` of file_transfer.rs touches no file but the temporary one.
use remote_executor.Base.{
  ℕ, ◌-◌, ◌≡◌, ◌≢◌, refl, ◌∙◌, min, Option, List, [], ◌∷◌, ◌++◌, ltb, length, take, if-lem,
}
use remote_executor.Base.Steps.{continue-state}
use remote_executor.Base.Outcome.{Outcome}
use remote_executor.Text.{Text, is_empty}
use remote_executor.FileTransfer.{
  Bytes, chunk_size, HttpRequest, Read, got, failed, TransferFiles, TransferEnv,
}
use remote_executor.FileTransfer.Laws.{DiskLaws}
use remote_executor.FileTransfer.Body.{
  receive_rest, receive_initial, receive_upload_body, with_message,
}

module _ {S : Type 0} (files : TransferFiles S) (content : S → Text → Option Bytes)
    (laws : DiskLaws files content) (env : TransferEnv) (temp : Text) (n : ℕ) (q : Text)
    (other : q ≢ temp) where
  abbrev KeptFrom : S → Outcome Text Text × S → Type 0
  KeptFrom st r = content r.1 q ≡ content st q

  receive_rest-other :
      (st : S) (hashed : Bytes) (reads : List Read)
      → content (receive_rest files env temp n st hashed reads).1 q ≡ content st q
  unfolding receive_rest
  receive_rest-other st hashed [] = if-lem (KeptFrom st) (ltb (length hashed) n) refl refl
  receive_rest-other st hashed (failed x ∷ reads) =
      if-lem (KeptFrom st) (ltb (length hashed) n) refl refl
  receive_rest-other st hashed (got piece ∷ reads) =
      let chunk = take (min (n - length hashed) chunk_size) piece in
      let appended = files.append st temp chunk in
      let kept : content appended.1 q ≡ content st q = laws.append_other st temp chunk q other in
      if-lem (KeptFrom st) (ltb (length hashed) n)
        (if-lem (KeptFrom st) (is_empty chunk) refl (
          continue-state (λ st'. content st' q ≡ content st q) appended _ kept
            (λ u. receive_rest-other appended.1 (hashed ++ chunk) reads ∙ kept)))
        refl

  receive_initial-other :
      (st : S) (bytes : Bytes)
      → content (receive_initial files env temp n st bytes).1 q ≡ content st q
  receive_initial-other st [] = refl
  receive_initial-other st (b ∷ bytes) = laws.append_other st temp (b ∷ bytes) q other

  -- Whatever comes of it, the reception leaves every other file as it was.
  pub receive_upload_body-other :
      (st : S) (request : HttpRequest) (reads : List Read)
      → content (receive_upload_body files env temp n st request reads).1 q ≡ content st q
  unfolding receive_upload_body
  receive_upload_body-other st request reads =
      let initial = take n request.body_start in
      let created = files.create st temp in
      let begun = receive_initial files env temp n created.1 initial in
      let kept : content created.1 q ≡ content st q = laws.create_other st temp q other in
      let kept' : content begun.1 q ≡ content st q =
        receive_initial-other created.1 initial ∙ kept in
      continue-state (λ st'. content st' q ≡ content st q) (with_message _ created) _ kept
        (λ u.
          continue-state (λ st'. content st' q ≡ content st q) begun _ kept'
            (λ v.
              if-lem (KeptFrom st) (ltb n (length request.body_start)) kept'
                (receive_rest-other begun.1 initial reads ∙ kept')))
