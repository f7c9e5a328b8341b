-- ===== src/FileTransfer/Handle.antt =====
-- `handle_file_transfer_http`, `handle_download` and `handle_upload` of file_transfer.rs. An error that
-- the source passes on with `?` ends the connection without an answer: it is the handler's own error.
pub mod Placed
pub mod Answers
pub mod Target
pub mod Download
use remote_executor.Base.{
  ℕ, ◌-◌, Bool, true, false, not, ◌&&◌, ◌||◌, Option, none, some, List, [], ◌∷◌, ◌++◌, ◌⊎◌, inl,
  inr, if◌then◌else◌, ltb, length, drop,
}
use remote_executor.Base.Options.{unwrap_or}
use remote_executor.Base.Steps.{continue, continue-lem, continue-state}
use remote_executor.Base.Outcome.{Outcome, ok, err, panic, ◌>>=◌}
use remote_executor.Text.{Text, codes, text_eq}
use remote_executor.Text.Decimal.{decimal}
use remote_executor.Paths.{parent, file_name, join_path}
use remote_executor.Dict.{lookup}
use remote_executor.Json.{string, number, unsigned}
use remote_executor.Protocol.{json_object}
use remote_executor.Settings.{Chain, or_cause, with_context}
use remote_executor.Fs.{FileStamp}
use remote_executor.Fs.Stamp.{file_stamp, stamp_value}
use remote_executor.Fs.Read.{file_hash_code}
use remote_executor.FileTransfer.{
  http_path, HttpRequest, Read, Reply, OpenFile, TransferFiles, TransferEnv,
}
use remote_executor.FileTransfer.Request.{
  read_http_request, resolve_request_path, parse_content_length, parse_u64_header,
  parse_bool_header,
}
use remote_executor.FileTransfer.Response.{sanitize_header_value, json_reply, error_reply}
use remote_executor.FileTransfer.Body.{receive_upload_body}

abbrev mtime_header : Option ℕ → List (Text × Text)
mtime_header none = []
mtime_header (some mtime_ms) = (codes "X-RE-Mtime-Ms", decimal mtime_ms) ∷ []

abbrev hash_header : Option Text → List (Text × Text)
hash_header none = []
hash_header (some hash) = (codes "X-RE-Sha256", hash) ∷ []

unfoldable pub download_headers : Text → ℕ → ℕ → FileStamp → Option Text → List (Text × Text)
download_headers path offset len stamp hash =
    (codes "Content-Type", codes "application/octet-stream")
    ∷ (codes "Content-Length", decimal (len - offset))
    ∷ (codes "X-RE-Protocol", codes "re.file.v1")
    ∷ (codes "X-RE-Op", codes "download")
    ∷ (codes "X-RE-Path", sanitize_header_value path)
    ∷ (codes "X-RE-Offset", decimal offset)
    ∷ (codes "X-RE-File-Size", decimal len)
    ∷ (codes "X-RE-Canonical-Path", sanitize_header_value stamp.canonical_path)
    ∷ (codes "X-RE-File-Key", sanitize_header_value stamp.file_key)
    ∷ (mtime_header stamp.mtime_ms ++ hash_header hash)

unfoldable pub upload_temp_path : TransferEnv → Text → Text
unfolding parent file_name join_path
upload_temp_path env path = join_path (unwrap_or (b'.' ∷ []) (parent path)) (
    b'.'
    ∷ (unwrap_or (codes "upload") (file_name path)
        ++ (codes ".re-upload-"
            ++ (decimal env.process_id ++ (b'-' ∷ (decimal env.now_ns ++ codes ".tmp"))))))

-- what `handle_upload` has found when it begins to receive
pub record Upload : Type 0 where
  pub path : Text
  pub content_length : ℕ
  pub overwrite : Bool
  pub expected_sha : Option Text

module _ {S : Type 0} (files : TransferFiles S) (env : TransferEnv) where
  abbrev pub hash_if : S → Text → Bool → Outcome Chain (Option Text)
  hash_if st path false = ok none
  hash_if st path true = do hash ← file_hash_code (files.view st) path; ok (some hash)

  abbrev pub send_file : S → Text → ℕ → Bool → OpenFile → Outcome Chain Reply
  send_file st path offset want_hash file = do
    stamp ← file_stamp (files.view st) path
    hash ← hash_if st path want_hash
    ok (record {
      status = 200;
      headers = download_headers path offset (length file.bytes) stamp hash;
      body = drop offset file.bytes;
    })

  abbrev pub send_open : S → Text → ℕ → Bool → Outcome Text OpenFile → Outcome Chain Reply
  send_open st path offset want_hash (err e) =
      ok (error_reply env 404 (codes "failed to open " ++ (path ++ (codes ": " ++ e))))
  send_open st path offset want_hash panic = panic
  send_open st path offset want_hash (ok file) = do
    is_file ← with_context (codes "failed to stat " ++ path) file.is_file
    (if not is_file
        then ok (error_reply env 400 (codes "download only supports files: " ++ path))
        else if ltb (length file.bytes) offset
        then ok (
            error_reply env 416 (
              codes "offset "
              ++ (decimal offset
                  ++ (codes " is out of range for this file ("
                      ++ (decimal (length file.bytes) ++ codes " bytes)")))))
        else send_file st path offset want_hash file)

  unfoldable pub handle_download : S → HttpRequest → Outcome Chain Reply
  handle_download st request = do
    path ← or_cause (resolve_request_path env request)
    offset ← or_cause (parse_u64_header request.headers (codes "x-re-offset"))
    want_hash ← or_cause (parse_bool_header request.headers (codes "x-re-hash"))
    send_open st path (unwrap_or 0 offset) (unwrap_or false want_hash) (files.open_file st path)

  abbrev pub parent_exists : S → Upload → Option Text → Outcome Chain (Reply ⊎ Upload)
  parent_exists st upload none =
      ok (inl (error_reply env 400 (codes "target path has no parent: " ++ upload.path)))
  parent_exists st upload (some directory) = do
    exists ← or_cause (files.try_exists st directory)
    ok (
        if exists
        then inr upload
        else inl (error_reply env 404 (codes "parent directory does not exist: " ++ directory)))

  abbrev pub with_length : S → HttpRequest → Text → Outcome Text ℕ → Outcome Chain (Reply ⊎ Upload)
  with_length st request path (err e) = ok (inl (error_reply env 411 e))
  with_length st request path panic = panic
  with_length st request path (ok content_length) = do
    overwrite ← or_cause (parse_bool_header request.headers (codes "x-re-overwrite"))
    let upload : Upload = record {
      path = path;
      content_length = content_length;
      overwrite = unwrap_or false overwrite;
      expected_sha = lookup (codes "x-re-sha256") request.headers;
    }
    exists ← or_cause (files.try_exists st path)
    (if exists && not upload.overwrite
        then ok (
            inl (
              error_reply env 409
                (codes "target already exists; pass X-RE-Overwrite: true: " ++ path)))
        else parent_exists st upload (parent path))

  -- up to the call of `upload_temp_path`: an answer, or what is to be received
  unfoldable pub check_upload : S → HttpRequest → Outcome Chain (Reply ⊎ Upload)
  unfolding parent
  check_upload st request = do
    path ← or_cause (resolve_request_path env request)
    with_length st request path (parse_content_length request.headers)

  abbrev pub remove_target : S → Upload → Outcome Chain (Unit {0}) × S
  remove_target st upload =
      if upload.overwrite
      then continue (or_cause (files.try_exists st upload.path), st)
          (λ exists st1.
            if exists
            then (let removed = files.remove st1 upload.path in
                (with_context (codes "failed to replace " ++ upload.path) removed.0, removed.1))
            else (ok tt, st1))
      else (ok tt, st)

  abbrev pub rename_temp : S → Text → Text → Outcome Chain (Unit {0}) × S
  rename_temp st temp path =
      let renamed = files.rename st temp path in
      (with_context (codes "failed to move upload into " ++ path) renamed.0, renamed.1)

  abbrev pub done_reply : Text → Text → FileStamp → Reply
  done_reply path sha stamp = json_reply env 200 (
      json_object (
        (codes "type", string (codes "re.file.v1.done"))
        ∷ (codes "op", string (codes "upload"))
        ∷ (codes "path", string path)
        ∷ (codes "bytes", number (unsigned (unwrap_or 0 stamp.size)))
        ∷ (codes "sha256", string sha)
        ∷ (codes "file", stamp_value stamp)
        ∷ []))

  unfoldable pub place_upload : S → Upload → Text → Text → Outcome Chain Reply × S
  place_upload st upload temp sha = continue (remove_target st upload) (λ u st1.
      continue (rename_temp st1 temp upload.path) (λ v st2.
        continue (file_stamp (files.view st2) upload.path, st2)
          (λ stamp st3. (ok (done_reply upload.path sha stamp), st3))))

  -- whether the client has named another hash
  abbrev pub is_mismatch : Option Text → Text → Bool
  is_mismatch none actual = false
  is_mismatch (some expected) actual = not (text_eq actual expected)

  abbrev pub after_receive : Upload → Text → Outcome Text Text × S → Outcome Chain Reply × S
  after_receive upload temp (err e, st) = (ok (error_reply env 400 e), (files.remove st temp).1)
  after_receive upload temp (panic, st) = (panic, st)
  after_receive upload temp (ok actual, st) =
      if is_mismatch upload.expected_sha actual
      then (
        ok (
            error_reply env 409 (
              codes "sha256 mismatch: expected "
              ++ (unwrap_or [] upload.expected_sha ++ (codes ", got " ++ actual)))),
        (files.remove st temp).1,
      )
      else place_upload st upload temp actual

  unfoldable pub store_upload : S → Upload → HttpRequest → List Read → Outcome Chain Reply × S
  unfolding place_upload
  store_upload st upload request reads =
      let temp = upload_temp_path env upload.path in
      after_receive upload temp
        (receive_upload_body files env temp upload.content_length st request reads)

  abbrev pub store_checked :
      S → HttpRequest → List Read → Outcome Chain (Reply ⊎ Upload) → Outcome Chain Reply × S
  store_checked st request reads (ok (inl reply)) = (ok reply, st)
  store_checked st request reads (ok (inr upload)) = store_upload st upload request reads
  store_checked st request reads (err e) = (err e, st)
  store_checked st request reads panic = (panic, st)

  unfoldable pub handle_upload : S → HttpRequest → List Read → Outcome Chain Reply × S
  unfolding store_upload
  handle_upload st request reads = store_checked st request reads (check_upload st request)

  abbrev handle_request : S → Outcome Text (HttpRequest × List Read) → Outcome Chain Reply × S
  handle_request st (err e) = (ok (error_reply env 400 e), st)
  handle_request st panic = (panic, st)
  handle_request st (ok (request, reads)) =
      let upload = handle_upload st request reads in
      if not (text_eq request.path http_path)
      then (ok (error_reply env 404 (codes "unknown file transfer path")), st)
      else if text_eq request.method (codes "GET")
      then (handle_download st request, st)
      else if text_eq request.method (codes "PUT") || text_eq request.method (codes "POST")
      then upload
      else (ok (error_reply env 405 (codes "use GET to download or PUT to upload")), st)

  unfoldable pub handle_file_transfer_http : S → List Read → Outcome Chain Reply × S
  handle_file_transfer_http st reads = handle_request st (read_http_request env reads)
