-- ===== src/Paths.antt =====
-- Paths as `std::path` reads them, with "/" as the separator, and `ToolContext::resolve` of
-- src/context.rs.
use remote_executor.Base.{Bool, false, ◌==◌, ◌||◌, Option, none, some, [], ◌∷◌, ◌++◌, if◌then◌else◌}
use remote_executor.Text.{Text, is_empty, text_eq, starts_with, rsplit_once, trim_end_matches}

-- `path.is_absolute()`
unfoldable pub is_absolute : Text → Bool
unfolding starts_with
is_absolute path = starts_with (b'/' ∷ []) path

unfoldable pub ends_with_slash : Text → Bool
unfolding starts_with
ends_with_slash [] = false
ends_with_slash (c ∷ []) = starts_with (b'/' ∷ []) (c ∷ [])
ends_with_slash (c ∷ d ∷ s) = ends_with_slash (d ∷ s)

-- `directory.join(path)`
unfoldable pub join_path : Text → Text → Text
unfolding is_absolute ends_with_slash
join_path directory path =
    if is_absolute path
    then path
    else if is_empty directory
    then path
    else directory ++ ((if ends_with_slash directory then [] else b'/' ∷ []) ++ path)

-- `path.parent()`, for a path with no repeated separators and no "." in it
unfoldable pub parent : Text → Option Text
unfolding rsplit_once trim_end_matches
parent path =
    let short = trim_end_matches (λ c. c == b'/') path in
    if is_empty short then none else elim (rsplit_once b'/' short) [
      | none ↦ some []
      | some (directory, name) ↦ some (if is_empty directory then b'/' ∷ [] else directory)
    ]

-- `path.file_name()`, for such a path
unfoldable pub file_name : Text → Option Text
unfolding rsplit_once trim_end_matches
file_name path =
    let short = trim_end_matches (λ c. c == b'/') path in
    let name : Text = elim (rsplit_once b'/' short) [
      | none ↦ short
      | some (directory, name) ↦ name
    ] in
    if is_empty name || text_eq name (b'.' ∷ b'.' ∷ []) then none else some name

-- `ToolContext::resolve`
unfoldable pub resolve : Text → Text → Text
unfolding is_absolute join_path
resolve directory path = if is_absolute path then path else join_path directory path
