-- ===== src/Tests/Transfer.antt =====
-- Transfers to and from a disk in memory.
use remote_executor.Base.{
  ◌≤◌, ◌≡◌, ◌≢◌, ◌∙◌, refl, sym, true, false, Option, none, some, List, [], ◌∷◌, ◌++◌, is_some,
  length, arith,
}
use remote_executor.Base.Options.{unwrap_or}
use remote_executor.Base.Outcome.{Outcome, ok, err}
use remote_executor.Text.{Text, codes, text_eq}
use remote_executor.Text.Equality.{text_eq_refl, text_eq-ne, ne-text_eq}
use remote_executor.Text.Decimal.{decimal}
use remote_executor.Dict.{Dict, lookup, insert, remove}
use remote_executor.Dict.Laws.{lookup-insert, lookup-remove}
use remote_executor.Settings.{Chain}
use remote_executor.Fs.{Disk, Metadata, Found, found, not_found}
use remote_executor.FileTransfer.{
  Bytes, HttpRequest, PrefixMatch, differs, need_more, Read, got, failed, Reply, OpenFile,
  TransferFiles, TransferEnv, http_path,
}
use remote_executor.FileTransfer.Laws.{DiskLaws}
use remote_executor.FileTransfer.Prefix.{file_transfer_request_prefix}
use remote_executor.FileTransfer.Prefix.Stable.{file_transfer_request_prefix-append}
use remote_executor.FileTransfer.Request.{
  split_crlf, resolve_request_path, parse_content_length, parse_u64_header,
}
use remote_executor.FileTransfer.Response.{response_head}
use remote_executor.FileTransfer.Response.Lines.{response_head-lines}
use remote_executor.FileTransfer.Handle.{handle_upload, handle_download, upload_temp_path}
use remote_executor.FileTransfer.Handle.Target.{handle_upload_complete, handle_upload-untouched}
use remote_executor.FileTransfer.Handle.Download.{handle_download-Resumes}

abbrev metadata_of : Option Bytes → Found
metadata_of none = not_found (codes "No such file")
metadata_of (some bytes) =
    found (record { is_file = true; is_dir = false; len = length bytes; modified_ms = none })

abbrev view_of : Dict Bytes → Disk
view_of st = record {
  metadata = λ path. metadata_of (lookup path st);
  read = λ path. ok (unwrap_or [] (lookup path st));
  entries = λ path. ok [];
  canonicalize = λ path. none;
  file_id = λ path. none;
  sha256 = λ bytes. bytes;
}

abbrev opened : Option Bytes → Outcome Text OpenFile
opened none = err (codes "No such file")
opened (some bytes) = ok (record { is_file = ok true; bytes = bytes })

abbrev renamed : Dict Bytes → Text → Text → Option Bytes → Outcome Text (Unit {0}) × Dict Bytes
renamed st p q none = (err (codes "No such file"), st)
renamed st p q (some bytes) = (ok tt, insert q bytes (remove p st))

abbrev memory : TransferFiles (Dict Bytes)
memory = record {
  view = view_of;
  open_file = λ st p. opened (lookup p st);
  try_exists = λ st p. ok (is_some (lookup p st));
  create = λ st p. (ok tt, insert p [] st);
  append = λ st p bytes. (ok tt, insert p (unwrap_or [] (lookup p st) ++ bytes) st);
  remove = λ st p. (ok tt, remove p st);
  rename = λ st p q. renamed st p q (lookup p st);
}

abbrev content : Dict Bytes → Text → Option Bytes
content st p = lookup p st

lookup_new :
    (p : Text) (bytes : Bytes) (st : Dict Bytes) → lookup p (insert p bytes st) ≡ some bytes
lookup_new p bytes st = lookup-insert p p bytes st ∙ rw (text_eq_refl p) refl

lookup_other :
    (p q : Text) (bytes : Bytes) (st : Dict Bytes)
    → q ≢ p
    → lookup q (insert p bytes st) ≡ lookup q st
lookup_other p q bytes st ne =
    lookup-insert p q bytes st ∙ rw (text_eq-ne p q (λ e. ne (sym e))) refl

renamed_new :
    (st : Dict Bytes) (p q : Text) (o : Option Bytes)
    → (renamed st p q o).0 ≡ ok tt
    → lookup q (renamed st p q o).1 ≡ o
renamed_new st p q none h = cc
renamed_new st p q (some bytes) h = lookup_new q bytes (remove p st)

abbrev laws : DiskLaws memory content
laws = record {
  create_new = λ st p h. lookup_new p [] st;
  create_other = λ st p q ne. lookup_other p q [] st ne;
  append_new =
      λ st p bytes before c h. lookup_new p (unwrap_or [] (lookup p st) ++ bytes) st ∙ rw c refl;
  append_other = λ st p bytes q ne. lookup_other p q (unwrap_or [] (lookup p st) ++ bytes) st ne;
  remove_other = λ st p q ne. lookup-remove p q st ∙ rw (text_eq-ne p q (λ e. ne (sym e))) refl;
  rename_new = λ st p q h. renamed_new st p q (lookup p st) h;
}

abbrev env : TransferEnv
env = record {
  sha256 = λ bytes. bytes;
  print = λ value. [];
  utf8_error = λ bytes. [];
  current_dir = none;
  process_id = 7;
  now_ns = 9;
}

abbrev disk : Dict Bytes
disk = (codes "/d", []) ∷ (codes "/d/a", codes "old") ∷ []

abbrev upload_of : Text → HttpRequest
upload_of content_length = record {
  method = codes "PUT";
  path = http_path;
  headers =
      (codes "content-length", content_length)
      ∷ (codes "x-re-overwrite", codes "Yes")
      ∷ (codes "x-re-path", codes "/d/a")
      ∷ [];
  body_start = codes "he";
}

abbrev reads : List Read
reads = got (codes "llo") ∷ []

abbrev reply_or_none : Outcome Chain Reply → Reply
reply_or_none (ok reply) = reply
reply_or_none _ = record { status = 0; headers = []; body = [] }

abbrev received : Outcome Chain Reply × Dict Bytes
received = handle_upload memory env disk (upload_of (codes "5")) reads

abbrev cut_short : Outcome Chain Reply × Dict Bytes
cut_short = handle_upload memory env disk (upload_of (codes "6")) reads

handle_upload_complete_example : (lookup (codes "/d/a") received.1 ≡ some (codes "hello")) × (5 ≤ 5)
unfolding resolve_request_path lookup text_eq remote_executor.FileTransfer.Request.resolve_path
    parse_content_length remote_executor.Text.Number.parse_usize handle_upload upload_temp_path
    remote_executor.FileTransfer.Handle.check_upload
    remote_executor.FileTransfer.Request.parse_bool_header
    remote_executor.FileTransfer.Handle.store_upload
    remote_executor.FileTransfer.Handle.place_upload
    remote_executor.FileTransfer.Body.receive_upload_body
    remote_executor.FileTransfer.Body.receive_rest remote_executor.FileTransfer.Response.json_reply
    remote_executor.FileTransfer.Response.error_reply
    remote_executor.FileTransfer.Response.sha256_from_digest remote_executor.Fs.Stamp.file_stamp
    insert remove remote_executor.Text.Replace.to_lower remote_executor.Dict.text_lt decimal
    remote_executor.Text.Decimal.digits_of remote_executor.FileTransfer.Body.Received.arrived
handle_upload_complete_example =
    handle_upload_complete memory content laws env (upload_of (codes "5")) reads (omega arith, tt)
      disk (codes "/d/a") 5 (reply_or_none received.0) received.1 refl refl
      (ne-text_eq (upload_temp_path env (codes "/d/a")) (codes "/d/a") refl) refl refl

handle_upload-untouched_example : lookup (codes "/d/a") cut_short.1 ≡ some (codes "old")
unfolding resolve_request_path lookup text_eq remote_executor.FileTransfer.Request.resolve_path
    parse_content_length remote_executor.Text.Number.parse_usize handle_upload upload_temp_path
    remote_executor.FileTransfer.Handle.check_upload
    remote_executor.FileTransfer.Request.parse_bool_header
    remote_executor.FileTransfer.Handle.store_upload
    remote_executor.FileTransfer.Handle.place_upload
    remote_executor.FileTransfer.Body.receive_upload_body
    remote_executor.FileTransfer.Body.receive_rest remote_executor.FileTransfer.Response.json_reply
    remote_executor.FileTransfer.Response.error_reply
    remote_executor.FileTransfer.Response.sha256_from_digest remote_executor.Fs.Stamp.file_stamp
    insert remove remote_executor.Text.Replace.to_lower
handle_upload-untouched_example =
    handle_upload-untouched memory content laws env (upload_of (codes "6")) reads (omega arith, tt)
      disk (codes "/d/a") 6 (reply_or_none cut_short.0) cut_short.1 refl refl
      (ne-text_eq (upload_temp_path env (codes "/d/a")) (codes "/d/a") refl) refl (omega arith)

abbrev download : HttpRequest
download = record {
  method = codes "GET";
  path = http_path;
  headers = (codes "x-re-offset", codes "2") ∷ (codes "x-re-path", codes "/d/a") ∷ [];
  body_start = [];
}

abbrev file : OpenFile
file = record { is_file = ok true; bytes = codes "old" }

abbrev resumed : Reply
resumed = reply_or_none (handle_download memory env disk download)

handle_download-Resumes_example :
    (codes "ol" ++ resumed.body ≡ codes "old")
    × (2 ≤ 3)
    × (lookup (codes "Content-Length") resumed.headers ≡ some (decimal (length resumed.body)))
unfolding resolve_request_path lookup text_eq remote_executor.FileTransfer.Request.resolve_path
    parse_u64_header remote_executor.Text.Number.parse_usize handle_download
    remote_executor.FileTransfer.Request.parse_bool_header remote_executor.Fs.Stamp.file_stamp
handle_download-Resumes_example =
    handle_download-Resumes memory env disk download (codes "/d/a") (some 2) file resumed refl refl
      refl refl refl

file_transfer_request_prefix-append_example :
    file_transfer_request_prefix (codes "GET / HTTP/1.1") ≡ differs
unfolding file_transfer_request_prefix remote_executor.FileTransfer.Prefix.position
    remote_executor.FileTransfer.Prefix.is_possible_file_request_prefix
    remote_executor.Text.strip_prefix
file_transfer_request_prefix-append_example =
    file_transfer_request_prefix-append (codes "GET / ") (codes "HTTP/1.1") (λ e. cc)

response_head-lines_example :
    split_crlf (response_head 200 ((codes "X-RE-Path", codes "a\r\nX: b") ∷ []))
    ≡ codes "HTTP/1.1 200 OK"
      ∷ codes "Connection: close"
      ∷ codes "X-RE-Path: a  X: b"
      ∷ []
      ∷ []
      ∷ []
unfolding remote_executor.FileTransfer.Response.Lines.has_return response_head
    remote_executor.Text.Decimal.digits_of
    remote_executor.FileTransfer.Response.sanitize_header_value
response_head-lines_example =
    response_head-lines 200 ((codes "X-RE-Path", codes "a\r\nX: b") ∷ []) (refl, tt)
