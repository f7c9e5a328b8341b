-- ===== src/FileTransfer/Handle/Target.antt =====
-- What `handle_upload` of file_transfer.rs leaves in the file that it was asked to write.
use remote_executor.Base.{ℕ, ◌≤◌, ◌≡◌, ◌≢◌, Option, some, List, ◌++◌, length, take, All}
use mathlib.Core.Path.{subst}
use remote_executor.Base.Outcome.{ok}
use remote_executor.Text.{Text, codes}
use remote_executor.Dict.{lookup}
use remote_executor.FileTransfer.{Bytes, HttpRequest, Read, Reply, TransferFiles, TransferEnv}
use remote_executor.FileTransfer.Laws.{DiskLaws}
use remote_executor.FileTransfer.Request.{resolve_request_path, parse_content_length}
use remote_executor.FileTransfer.Response.{sha256_from_digest}
use remote_executor.FileTransfer.Body.Received.{arrived, FitsBuffer}
use remote_executor.FileTransfer.Handle.{upload_temp_path, handle_upload}
use remote_executor.FileTransfer.Handle.Answers.{Answers, handle_upload-Answers}

module _ {S : Type 0} (files : TransferFiles S) (content : S → Text → Option Bytes)
    (laws : DiskLaws files content) (env : TransferEnv) where
  module _ (request : HttpRequest) (reads : List Read) (fits : All FitsBuffer reads) where
    -- The answer 200 to an upload says that the target holds exactly as many of the bytes sent as
    -- Content-Length announces, and that so many were sent: where the request names the target `path` and
    -- the length `n`, the temporary file is not the target, no read is larger than its buffer, and the
    -- disk does what a disk does.
    pub handle_upload_complete :
        (st : S) (path : Text) (n : ℕ) (reply : Reply) (st' : S)
        → resolve_request_path env request ≡ ok path
        → parse_content_length request.headers ≡ ok n
        → upload_temp_path env path ≢ path
        → handle_upload files env st request reads ≡ (ok reply, st')
        → reply.status ≡ 200
        → (content st' path ≡ some (take n (request.body_start ++ arrived reads)))
          × (n ≤ length (request.body_start ++ arrived reads))
    handle_upload_complete st path n reply st' e e' apart run status =
        let answers =
          subst
            (Answers files content laws env request reads fits st path n
              (lookup (codes "x-re-sha256") request.headers))
            run
            (handle_upload-Answers files content laws env request reads fits st path n e e'
              apart) in
        let (c, l, h) = answers.0 status in (c, l)

    -- The answer 200 to an upload with X-RE-Sha256 says that the bytes stored have that hash, under the conditions
    -- of `handle_upload_complete`.
    pub handle_upload-hash :
        (st : S) (path : Text) (n : ℕ) (reply : Reply) (st' : S) (sha : Text)
        → resolve_request_path env request ≡ ok path
        → parse_content_length request.headers ≡ ok n
        → upload_temp_path env path ≢ path
        → handle_upload files env st request reads ≡ (ok reply, st')
        → reply.status ≡ 200
        → lookup (codes "x-re-sha256") request.headers ≡ some sha
        → sha ≡ sha256_from_digest (env.sha256 (take n (request.body_start ++ arrived reads)))
    handle_upload-hash st path n reply st' sha e e' apart run status named =
        let answers =
          subst
            (Answers files content laws env request reads fits st path n
              (lookup (codes "x-re-sha256") request.headers))
            run
            (handle_upload-Answers files content laws env request reads fits st path n e e'
              apart) in
        let (c, l, h) = answers.0 status in h sha named

    -- Any answer to an upload but 200 says that the target is as it was: where the request names the target
    -- `path` and a length, the temporary file is not the target, no read is larger than its buffer, and
    -- the disk does what a disk does.
    pub handle_upload-untouched :
        (st : S) (path : Text) (n : ℕ) (reply : Reply) (st' : S)
        → resolve_request_path env request ≡ ok path
        → parse_content_length request.headers ≡ ok n
        → upload_temp_path env path ≢ path
        → handle_upload files env st request reads ≡ (ok reply, st')
        → reply.status ≢ 200
        → content st' path ≡ content st path
    handle_upload-untouched st path n reply st' e e' apart run status =
        let answers =
          subst
            (Answers files content laws env request reads fits st path n
              (lookup (codes "x-re-sha256") request.headers))
            run
            (handle_upload-Answers files content laws env request reads fits st path n e e'
              apart) in
        answers.1 status
