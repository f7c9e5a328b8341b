-- ===== src/FileTransfer/Handle/Download.antt =====
-- What `handle_download` of file_transfer.rs answers.
use remote_executor.Base.{
  ℕ, ◌≤◌, ◌≡◌, ◌≢◌, sym, ap, Bool, false, not, ◌⊎◌, inl, inr, Option, some, ◌++◌, ltb, ltb→le,
  length, take, take-append-drop, length-drop, Bool-cases, if-lem, arith,
}
use remote_executor.Base.Options.{unwrap_or}
use remote_executor.Base.Outcome.{ok}
use remote_executor.Base.Yields.{Yields, Yields-bind, Yields-ok}
use remote_executor.Text.{Text, codes, text_eq}
use remote_executor.Text.Decimal.{decimal}
use remote_executor.Dict.{lookup}
use remote_executor.Fs.Stamp.{file_stamp}
use remote_executor.Settings.{or_cause, with_context}
use remote_executor.FileTransfer.{Bytes, HttpRequest, Reply, OpenFile, TransferFiles, TransferEnv}
use remote_executor.FileTransfer.Request.{resolve_request_path, parse_u64_header, parse_bool_header}
use remote_executor.FileTransfer.Response.{error_reply, json_reply}
use remote_executor.FileTransfer.Handle.{handle_download, send_open, download_headers, hash_if}

-- The answer 200 carries what the file has from the offset on, and says how long that is.
abbrev Resumes : Bytes → ℕ → Reply → Type 0
Resumes bytes offset reply =
    (take offset bytes ++ reply.body ≡ bytes)
    × (offset ≤ length bytes)
    × (lookup (codes "Content-Length") reply.headers ≡ some (decimal (length reply.body)))

module _ {S : Type 0} (files : TransferFiles S) (env : TransferEnv) where
  -- an error is no answer 200
  abbrev Sends : Bytes → ℕ → Reply → Type 0
  Sends bytes offset reply = (reply.status ≢ 200) ⊎ Resumes bytes offset reply

  send_open-Sends :
      (st : S) (path : Text) (offset : ℕ) (want_hash : Bool) (file : OpenFile)
      → Yields (Sends file.bytes offset) (send_open files env st path offset want_hash (ok file))
  unfolding error_reply json_reply download_headers lookup text_eq
  send_open-Sends st path offset want_hash file =
      Yields-bind (Sends file.bytes offset)
        (with_context (codes "failed to stat " ++ path) file.is_file) _
        (λ is_file e.
          if-lem (Yields (Sends file.bytes offset)) (not is_file) (inl (omega arith))
            (elim (Bool-cases (ltb (length file.bytes) offset)) [
              | inl e' ↦ rw e' (inl (omega arith))
              | inr e' ↦ rw e' (
                  Yields-bind (Sends file.bytes offset) (file_stamp (files.view st) path) _
                    (λ stamp _.
                      Yields-bind (Sends file.bytes offset) (hash_if files env st path want_hash) _
                        (λ hash _. inr (
                          take-append-drop offset file.bytes,
                          ltb→le (length file.bytes) offset e',
                          ap (λ n. some (decimal n)) (sym (length-drop offset file.bytes)),
                        ))))
            ]))

  -- A download that is answered 200 can be resumed: the part before the offset and the answer's body are the
  -- file, the offset is within it, and Content-Length is the length of the body. The request names the
  -- path and the offset, and the file opens.
  pub handle_download-Resumes :
      (st : S) (request : HttpRequest) (path : Text) (offset : Option ℕ) (file : OpenFile)
      (reply : Reply)
      → resolve_request_path env request ≡ ok path
      → parse_u64_header request.headers (codes "x-re-offset") ≡ ok offset
      → files.open_file st path ≡ ok file
      → handle_download files env st request ≡ ok reply
      → reply.status ≡ 200
      → Resumes file.bytes (unwrap_or 0 offset) reply
  unfolding handle_download
  handle_download-Resumes st request path offset file reply e e' opened run status =
      let sends : Yields (Sends file.bytes (unwrap_or 0 offset))
          (handle_download files env st request) =
        rw (e, e', opened)
          (Yields-bind (Sends file.bytes (unwrap_or 0 offset))
            (or_cause (parse_bool_header request.headers (codes "x-re-hash"))) _
            (λ want_hash _.
              send_open-Sends st path (unwrap_or 0 offset) (unwrap_or false want_hash) file)) in
      elim (Yields-ok (Sends file.bytes (unwrap_or 0 offset)) (handle_download files env st request)
        sends run) [ inl ne ↦ absurd (ne status) | inr resumes ↦ resumes ]
