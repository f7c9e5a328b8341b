-- ===== src/FileTransfer/Prefix.antt =====
-- How the first bytes of a connection tell a file transfer from a WebSocket: `file_transfer_request_prefix`
-- of file_transfer.rs.
pub mod Stable
use Prim.Native.String.{String}
use remote_executor.Base.{
  ℕ, zero, suc, Bool, true, false, ◌||◌, Option, none, some, List, [], ◌∷◌, ◌++◌, if◌then◌else◌,
  take,
}
use remote_executor.Text.{Text, codes, is_empty, starts_with, strip_prefix}
use remote_executor.FileTransfer.{Bytes, http_path, PrefixMatch, matches, differs, need_more}

abbrev pub next_position : Option ℕ → Option ℕ
next_position none = none
next_position (some i) = some (suc i)

-- `bytes.windows(n).position(|window| window == pat)` for a `pat` of `n` bytes
unfoldable pub position : Bytes → Bytes → Option ℕ
unfolding starts_with
position pat [] = none
position pat (b ∷ bytes) =
    let rest = position pat bytes in
    if starts_with pat (b ∷ bytes) then some 0 else next_position rest

abbrev pub crlf : Bytes
crlf = b'\r' ∷ b'\n' ∷ []

abbrev pub methods : List Text
methods = codes "GET " ∷ codes "PUT " ∷ codes "POST " ∷ []

abbrev pub path_part : Text
path_part = http_path ++ codes " "

abbrev pub is_candidate : Bytes → List Text → Bool
is_candidate bytes [] = false
is_candidate bytes (method ∷ rest) =
    (starts_with bytes (method ++ path_part) || starts_with (method ++ path_part) bytes)
    || is_candidate bytes rest

unfoldable pub is_possible_file_request_prefix : Bytes → Bool
unfolding starts_with
is_possible_file_request_prefix bytes = is_candidate bytes methods

abbrev pub if_path : Bool → PrefixMatch
if_path true = matches
if_path false = differs

-- `if let Some(rest) = line.strip_prefix(method)`, with what the later methods give
abbrev pub after_method : PrefixMatch → Option Bytes → PrefixMatch
after_method later (some after) = if_path (starts_with path_part after)
after_method later none = later

-- the loop over the methods
abbrev pub match_line : Bytes → List Text → PrefixMatch
match_line line [] = differs
match_line line (method ∷ rest) = after_method (match_line line rest) (strip_prefix method line)

abbrev pub match_at : Bytes → Option ℕ → PrefixMatch
match_at bytes (some line_end) = match_line (take line_end bytes) methods
match_at bytes none = if is_possible_file_request_prefix bytes then need_more else differs

unfoldable pub file_transfer_request_prefix : Bytes → PrefixMatch
file_transfer_request_prefix bytes = match_at bytes (position crlf bytes)

-- what `is_file_transfer_http_request` finds in its peeks, of which it makes `rounds`
unfoldable pub decide_peeks : ℕ → List Bytes → Bool
decide_peeks zero peeks = false
decide_peeks (suc rounds) [] = false
decide_peeks (suc rounds) (bytes ∷ peeks) =
    let later = decide_peeks rounds peeks in
    if is_empty bytes then false else elim (file_transfer_request_prefix bytes) [
      | matches ↦ true
      | differs ↦ false
      | need_more ↦ later
    ]

unfoldable pub is_file_transfer_http_request : List Bytes → Bool
is_file_transfer_http_request peeks = decide_peeks 20 peeks
