-- ===== src/Settings/Shell.antt =====
-- The pure functions of settings/mod.rs on profiles, candidates and arguments, on a system that is
-- not Windows.
use remote_executor.Base.{
  Bool, false, not, ◌&&◌, ◌||◌, Option, none, some, List, [], ◌∷◌, ◌++◌, map, ◌==◌, if◌then◌else◌,
  is_some,
}
use remote_executor.Base.Outcome.{Outcome, ok, err, ◌>>=◌}
use remote_executor.Text.{Text, codes, is_empty, trim, split, join}
use remote_executor.Text.Replace.{contains, replace, eq_ignore_ascii_case}
use remote_executor.Paths.{is_absolute, join_path}
use remote_executor.Dict.{Dict, lookup, or_insert, contains_key}
use remote_executor.Settings.{
  Chain, auto_string, command_placeholder, ShellProfile, ReSettings, SettingsStore, ShellResolution,
  default_profiles, Machine,
}

unfoldable pub resolve_profile_name : Text → Text
unfolding eq_ignore_ascii_case
resolve_profile_name name =
    if is_empty (trim name) || eq_ignore_ascii_case name auto_string then codes "bash" else name

abbrev pub any : {A : Type 0} → (A → Bool) → List A → Bool
any p [] = false
any p (x ∷ xs) = p x || any p xs

unfoldable pub expand_command_args : List Text → Text → List Text
unfolding contains replace
expand_command_args args command =
    if any (contains command_placeholder) args
    then map (replace command_placeholder command) args
    else args ++ (command ∷ [])

unfoldable pub has_path_separator : Text → Bool
unfolding contains
has_path_separator value = contains (b'/' ∷ []) value || contains (b'\\' ∷ []) value

-- the loop of `find_in_path`; a program has one executable name
unfoldable pub first_existing : (Text → Bool) → Text → List Text → Option Text
first_existing exists program [] = none
first_existing exists program (dir ∷ dirs) =
    if exists (join_path dir program)
    then some (join_path dir program)
    else first_existing exists program dirs

unfoldable pub find_in_path : Machine → (Text → Bool) → Text → Option Text
unfolding first_existing split
find_in_path machine exists program = elim machine.path_var [
  | none ↦ none
  | some paths ↦ first_existing exists program (split (λ c. c == b':') paths)
]

unfoldable pub resolve_program : Machine → (Text → Bool) → Text → Text → Option Text
resolve_program machine exists raw root =
    let candidate = trim raw in
    if is_empty candidate
    then none
    else if is_absolute candidate || has_path_separator candidate
    then (let path = if is_absolute candidate then candidate else join_path root candidate in
        if exists path then some path else none)
    else if is_some (find_in_path machine exists candidate)
    then some candidate
    else none

abbrev or_else : {A : Type 0} → Option A → Option A → Option A
or_else none o = o
or_else (some a) o = some a

abbrev try_root : (Text → Option Text) → Option Text → Option Text
try_root f none = none
try_root f (some root) = f root

-- the candidates in order, each at the search root, the store's root and the base's root
unfoldable pub first_candidate :
    (Text → Text → Option Text) → SettingsStore → Option Text → List Text → Option Text
first_candidate program_at store search_root [] = none
first_candidate program_at store search_root (candidate ∷ rest) =
    or_else (try_root (program_at candidate) search_root) (
      or_else (program_at candidate store.root) (
        or_else (try_root (program_at candidate) store.base_root)
          (first_candidate program_at store search_root rest)))

abbrev pub no_candidate : Text → ShellProfile → Chain
no_candidate name profile =
    (codes "no candidate found for shell profile `"
      ++ (name ++ (codes "`; checked: " ++ join (codes ", ") profile.candidates)))
    ∷ []

abbrev found_program : Text → ShellProfile → Option Text → Outcome Chain Text
found_program name profile (some program) = ok program
found_program name profile none = err (no_candidate name profile)

unfoldable pub resolve_candidate :
    Machine → (Text → Bool) → SettingsStore → Text → ShellProfile → Option Text → Outcome Chain Text
unfolding first_candidate resolve_program
resolve_candidate machine exists store name profile search_root =
    found_program name profile
      (first_candidate (resolve_program machine exists) store search_root profile.candidates)

abbrev pub or_blank : Option Text → Text
or_blank none = []
or_blank (some s) = s

-- the profile that is asked for, or the configured one
unfoldable pub configured_shell : ReSettings → Text → Bool → Text
configured_shell settings requested interactive =
    if is_empty requested
    then (if interactive && not (is_empty (trim settings.shells.interactive))
        then settings.shells.interactive
        else settings.shells.default)
    else requested

abbrev pub profile_of : Text → Text → Option ShellProfile → Outcome Chain ShellProfile
profile_of path name (some profile) = ok profile
profile_of path name none =
    err ((codes "shell profile `" ++ (name ++ (codes "` is not configured in " ++ path))) ∷ [])

abbrev pub resolution :
    SettingsStore → Text → Text → Option Text → Bool → ShellProfile → Text → ShellResolution
resolution store requested configured command interactive profile program = record {
  requested = if is_empty requested then configured else requested;
  profile = resolve_profile_name configured;
  program = program;
  args =
      if interactive
      then profile.interactive_args
      else expand_command_args profile.command_args (or_blank command);
  settings_path = store.path;
}

unfoldable pub resolve_shell :
    Machine
    → (Text → Bool)
    → SettingsStore
    → ReSettings
    → Text
    → Option Text
    → Bool
    → Option Text
    → Outcome Chain ShellResolution
resolve_shell machine exists store settings raw command interactive search_root = do
  let requested = trim raw
  let configured = configured_shell settings requested interactive
  let profile_name = resolve_profile_name configured
  profile ← profile_of store.path profile_name (lookup profile_name settings.shells.profiles)
  program ← resolve_candidate machine exists store profile_name profile search_root
  ok (resolution store requested configured command interactive profile program)

-- `for (name, profile) in defaults`
unfoldable pub insert_defaults : Dict ShellProfile → Dict ShellProfile → Dict ShellProfile
insert_defaults [] profiles = profiles
insert_defaults ((name, profile) ∷ rest) profiles =
    insert_defaults rest (or_insert name profile profiles)

abbrev auto_if_blank : Text → Text
auto_if_blank name = if is_empty (trim name) then auto_string else name

unfoldable pub with_default_profiles : ReSettings → ReSettings
with_default_profiles settings = record settings {
  shells = record {
    default = auto_if_blank settings.shells.default;
    interactive = auto_if_blank settings.shells.interactive;
    profiles = insert_defaults default_profiles settings.shells.profiles;
  };
}

unfoldable pub validate_shell_profile_ref :
    Text → Text → ReSettings → Text → Outcome Chain (Unit {0})
validate_shell_profile_ref field value settings path =
    let profile_name = resolve_profile_name value in
    if contains_key profile_name settings.shells.profiles
    then ok tt
    else err (
        (codes "shells."
          ++ (field
              ++ (codes " references missing profile `"
                  ++ (profile_name ++ (codes "` in " ++ path)))))
        ∷ [])

unfoldable pub validate_shell_settings : ReSettings → Text → Outcome Chain (Unit {0})
validate_shell_settings settings path = do
  u ← validate_shell_profile_ref (codes "default") settings.shells.default settings path
  validate_shell_profile_ref (codes "interactive") settings.shells.interactive settings path
