-- ===== src/FileTransfer/Request.antt =====
-- `read_http_request` of file_transfer.rs and the headers that it reads.
use remote_executor.Base.{
  ℕ, ◌+◌, Bool, true, false, ◌&&◌, ◌||◌, Option, none, some, List, [], ◌∷◌, ◌++◌, map,
  if◌then◌else◌, ltb, ◌==◌, length, take, drop,
}
use remote_executor.Base.Options.{unwrap_or}
use remote_executor.Base.Outcome.{Outcome, ok, err, ◌>>=◌, ok_or}
use remote_executor.Text.{
  Text, codes, is_empty, is_whitespace, trim, text_eq, starts_with, split, split_once, cons_head,
  starts_lf,
}
use remote_executor.Text.Replace.{to_lower}
use remote_executor.Text.Utf8.{from_utf8}
use remote_executor.Text.Number.{parse_usize}
use remote_executor.Text.Decimal.{decimal}
use remote_executor.Paths.{is_absolute, join_path}
use remote_executor.Dict.{Dict, lookup, insert}
use remote_executor.FileTransfer.{
  Bytes, max_header_bytes, HttpRequest, Read, got, failed, TransferEnv,
}
use remote_executor.FileTransfer.Prefix.{position}

unfoldable pub find_header_end : Bytes → Option ℕ
unfolding position
find_header_end bytes = position (b'\r' ∷ b'\n' ∷ b'\r' ∷ b'\n' ∷ []) bytes

-- The loop that reads up to the empty line: the bytes so far, where the headers end, and the reads that
-- follow.
unfoldable pub read_head : Bytes → List Read → Outcome Text (Bytes × ℕ × List Read)
read_head buf [] = err (codes "connection closed before request headers")
read_head buf (failed e ∷ reads) = err e
read_head buf (got chunk ∷ reads) =
    let later = read_head (buf ++ chunk) reads in
    if is_empty chunk
    then err (codes "connection closed before request headers")
    else if ltb max_header_bytes (length (buf ++ chunk))
    then err (codes "request headers exceed " ++ (decimal max_header_bytes ++ codes " bytes"))
    else elim (find_header_end (buf ++ chunk)) [
      | none ↦ later
      | some header_end ↦ ok (buf ++ chunk, header_end, reads)
    ]

-- `s.split("\r\n")`; `skip` says that the next character is the second of a separator
unfoldable pub split_crlf_from : Bool → Text → List Text
split_crlf_from skip [] = [] ∷ []
split_crlf_from true (c ∷ s) = split_crlf_from false s
split_crlf_from false (c ∷ s) = elim (c == b'\r' && starts_lf s) [
  | true ↦ [] ∷ split_crlf_from true s
  | false ↦ cons_head c (split_crlf_from false s)
]

unfoldable pub split_crlf : Text → List Text
unfolding split_crlf_from
split_crlf s = split_crlf_from false s

abbrev drop_empty : List Text → List Text
drop_empty [] = []
drop_empty (s ∷ rest) = let kept = drop_empty rest in if is_empty s then kept else s ∷ kept

unfoldable pub split_whitespace : Text → List Text
split_whitespace s = drop_empty (split is_whitespace s)

abbrev add_header : Dict Text → Text → Option (Text × Text) → Outcome Text (Dict Text)
add_header headers line none = err (codes "invalid HTTP header line: " ++ line)
add_header headers line (some (key, value)) =
    ok (insert (map to_lower (trim key)) (trim value) headers)

unfoldable pub read_headers : Dict Text → List Text → Outcome Text (Dict Text)
read_headers headers [] = ok headers
read_headers headers (line ∷ rest) = do
  headers' ← (if is_empty line then ok headers else add_header headers line (split_once b':' line))
  read_headers headers' rest

abbrev parse_parts : List Text → Outcome Text (Text × Text)
parse_parts [] = err (codes "missing HTTP method")
parse_parts (method ∷ []) = err (codes "missing HTTP path")
parse_parts (method ∷ path ∷ []) = err (codes "missing HTTP version")
parse_parts (method ∷ path ∷ version ∷ rest) =
    if starts_with (codes "HTTP/1.") version
    then ok (method, path)
    else err (codes "unsupported HTTP version: " ++ version)

unfoldable pub parse_head : List Text → Bytes → Outcome Text HttpRequest
parse_head [] body_start = err (codes "missing HTTP request line")
parse_head (request_line ∷ lines) body_start = do
  (method, path) ← parse_parts (split_whitespace request_line)
  headers ← read_headers [] lines
  ok (record { method = method; path = path; headers = headers; body_start = body_start })

-- the request, and the reads that are left for its body
unfoldable pub read_http_request : TransferEnv → List Read → Outcome Text (HttpRequest × List Read)
read_http_request env reads = do
  (buf, header_end, rest) ← read_head [] reads
  let head_bytes = take header_end buf
  head ←
      ok_or (from_utf8 head_bytes)
        (codes "request headers must be UTF-8: " ++ env.utf8_error head_bytes)
  request ← parse_head (split_crlf head) (drop (header_end + 4) buf)
  ok (request, rest)

unfoldable pub resolve_path : TransferEnv → Option Text → Text → Text
unfolding is_absolute
resolve_path env directory path =
    if is_absolute path
    then path
    else join_path (unwrap_or (unwrap_or (codes ".") env.current_dir) directory) path

unfoldable pub resolve_request_path : TransferEnv → HttpRequest → Outcome Text Text
resolve_request_path env request = do
  path ← ok_or (lookup (codes "x-re-path") request.headers) (codes "X-RE-Path header is required")
  ok (resolve_path env (lookup (codes "x-re-directory") request.headers) path)

unfoldable pub parse_content_length : Dict Text → Outcome Text ℕ
parse_content_length headers = do
  value ←
      ok_or (lookup (codes "content-length") headers)
        (codes "Content-Length is required for upload")
  ok_or (parse_usize value) (codes "Content-Length must be an unsigned integer")

abbrev u64_value : Text → Option Text → Outcome Text (Option ℕ)
u64_value key none = ok none
u64_value key (some value) = do
  n ← ok_or (parse_usize value) (key ++ codes " must be an unsigned integer")
  ok (some n)

unfoldable pub parse_u64_header : Dict Text → Text → Outcome Text (Option ℕ)
parse_u64_header headers key = u64_value key (lookup key headers)

abbrev is_one_of : Text → List Text → Bool
is_one_of value [] = false
is_one_of value (word ∷ words) = text_eq value word || is_one_of value words

abbrev bool_value : Text → Option Text → Outcome Text (Option Bool)
bool_value key none = ok none
bool_value key (some value) =
    let word = map to_lower value in
    if is_one_of word (codes "1" ∷ codes "true" ∷ codes "yes" ∷ [])
    then ok (some true)
    else if is_one_of word (codes "0" ∷ codes "false" ∷ codes "no" ∷ [])
    then ok (some false)
    else err (key ++ codes " must be true or false")

unfoldable pub parse_bool_header : Dict Text → Text → Outcome Text (Option Bool)
parse_bool_header headers key = bool_value key (lookup key headers)
