-- ===== src/FileTransfer/Response.antt =====
-- The responses of file_transfer.rs.
pub mod Lines
use Prim.Native.String.{String}
use remote_executor.Base.{
  ℕ, Bool, true, false, ◌||◌, Option, none, some, List, [], ◌∷◌, ◌++◌, map, if◌then◌else◌, ◌==◌,
  length,
}
use remote_executor.Text.{Text, codes}
use remote_executor.Text.Decimal.{decimal}
use remote_executor.Text.Utf8.{into_bytes}
use remote_executor.Json.{Value, string}
use remote_executor.Protocol.{json_object}
use remote_executor.FileAction.Hex.{hex_lower}
use remote_executor.FileTransfer.{Bytes, Reply, TransferEnv}

-- `value.replace(['\r', '\n'], " ")`
unfoldable pub sanitize_header_value : Text → Text
sanitize_header_value value = map (λ c. if (c == b'\r') || (c == b'\n') then b' ' else c) value

unfoldable pub reason_phrase : ℕ → Text
reason_phrase status =
    if status == 200
    then codes "OK"
    else if status == 400
    then codes "Bad Request"
    else if status == 404
    then codes "Not Found"
    else if status == 405
    then codes "Method Not Allowed"
    else if status == 409
    then codes "Conflict"
    else if status == 411
    then codes "Length Required"
    else if status == 416
    then codes "Range Not Satisfiable"
    else codes "Error"

abbrev pub line_end : Text
line_end = b'\r' ∷ b'\n' ∷ []

abbrev pub header_text : Text × Text → Text
header_text (key, value) = key ++ (codes ": " ++ sanitize_header_value value)

abbrev pub header_texts : List (Text × Text) → Text
header_texts [] = line_end
header_texts (header ∷ rest) = header_text header ++ (line_end ++ header_texts rest)

abbrev pub status_line : ℕ → Text
status_line status = codes "HTTP/1.1 " ++ (decimal status ++ (codes " " ++ reason_phrase status))

-- the text that `write_response_head` writes
unfoldable pub response_head : ℕ → List (Text × Text) → Text
unfolding decimal reason_phrase
response_head status headers =
    status_line status
    ++ (line_end ++ (codes "Connection: close" ++ (line_end ++ header_texts headers)))

-- what goes over the wire
unfoldable pub reply_bytes : Reply → Bytes
reply_bytes reply = into_bytes (response_head reply.status reply.headers) ++ reply.body

unfoldable pub json_reply : TransferEnv → ℕ → Value → Reply
json_reply env status value =
    let body = env.print value in
    record {
      status = status;
      headers =
          (codes "Content-Type", codes "application/json")
          ∷ (codes "Content-Length", decimal (length body))
          ∷ [];
      body = body;
    }

-- `write_error`
unfoldable pub error_reply : TransferEnv → ℕ → Text → Reply
error_reply env status message = json_reply env status (
    json_object
      ((codes "type", string (codes "re.file.v1.error")) ∷ (codes "message", string message) ∷ []))

unfoldable pub sha256_from_digest : Bytes → Text
sha256_from_digest digest = codes "sha256:" ++ hex_lower digest
