-- ===== src/Caller/Transfer.antt =====
-- `file_transfer_result` and `http_file_transfer_url` of caller/mod.rs.
use remote_executor.Base.{
  Bool, true, false, Option, none, some, [], ◌∷◌, ◌++◌, if◌then◌else◌, map, not,
}
use remote_executor.Base.Outcome.{Outcome, ok, err, ◌>>=◌, reject_if}
use remote_executor.Text.{Text, codes, is_empty, strip_prefix, join}
use remote_executor.Dict.{Dict}
use remote_executor.Json.{string}
use remote_executor.Protocol.{ToolResult, json_object, labels_value, tool_output}
use remote_executor.Caller.{
  ExecutorEndpoint, FileTransferMode, download, upload, FileTransferOptions,
}

abbrev pub https_url : Text → Option Text → Outcome Text Text
https_url control_url (some rest) = ok (codes "https://" ++ (rest ++ codes "/re-file/v1"))
https_url control_url none =
    err (codes "unsupported executor URL for file transfer: " ++ control_url)

abbrev pub http_url : Text → Option Text → Outcome Text Text
http_url control_url (some rest) = ok (codes "http://" ++ (rest ++ codes "/re-file/v1"))
http_url control_url none = https_url control_url (strip_prefix (codes "wss://") control_url)

unfoldable pub http_file_transfer_url : Text → Outcome Text Text
unfolding strip_prefix
http_file_transfer_url control_url = http_url control_url (strip_prefix (codes "ws://") control_url)

abbrev transfer_method : FileTransferMode → Text
transfer_method download = codes "GET"
transfer_method upload = codes "PUT"

abbrev mode_name : FileTransferMode → Text
mode_name download = codes "download"
mode_name upload = codes "upload"

abbrev directory_header : Option Text → Dict Text
directory_header none = []
directory_header (some directory) = (codes "X-RE-Directory", directory) ∷ []

abbrev overwrite_header : Option Bool → Dict Text
overwrite_header none = []
overwrite_header (some true) = (codes "X-RE-Overwrite", codes "true") ∷ []
overwrite_header (some false) = (codes "X-RE-Overwrite", codes "false") ∷ []

-- the headers in the order of their names
unfoldable pub transfer_headers : FileTransferOptions → Option Text → Dict Text
transfer_headers options directory =
    directory_header directory
    ++ (overwrite_header options.overwrite ++ ((codes "X-RE-Path", options.target_path) ∷ []))

abbrev header_line : Text × Text → Text
header_line (key, value) = key ++ (codes ": " ++ value)

abbrev transfer_text : Text → Text → Text → Text
transfer_text method url header_lines =
    if is_empty header_lines
    then method ++ (b' ' ∷ url)
    else method ++ (b' ' ∷ url ++ (b'\n' ∷ header_lines))

abbrev pub transfer_plan : ExecutorEndpoint → FileTransferOptions → Option Text → Text → ToolResult
transfer_plan endpoint options directory url =
    let headers = transfer_headers options directory in
    record {
      metadata = json_object (
          (codes "executor", string endpoint.info.id)
          ∷ (codes "mode", string (mode_name options.mode))
          ∷ (codes "localPath", string options.local_path)
          ∷ (codes "targetPath", string options.target_path)
          ∷ (codes "method", string (transfer_method options.mode))
          ∷ (codes "url", string url)
          ∷ (codes "headers", labels_value headers)
          ∷ []);
      output = tool_output (
          transfer_text (transfer_method options.mode) url
            (join (b'\n' ∷ []) (map header_line headers)));
    }

unfoldable pub file_transfer_result :
    ExecutorEndpoint → FileTransferOptions → Option Text → Outcome Text ToolResult
file_transfer_result endpoint options directory = do
  u ←
      reject_if (not endpoint.file_transfer) (
        codes "executor "
        ++ (endpoint.info.id ++ codes " does not advertise file transfer support"))
  url ← http_file_transfer_url endpoint.url
  ok (transfer_plan endpoint options directory url)
