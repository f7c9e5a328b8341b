-- ===== src/Fs/Glob.antt =====
-- The tool `glob` of tools/fs/mod.rs, on the entries that the walk of the directory gives.
use remote_executor.Base.{
  ℕ, ◌+◌, ◌≤◌, ◌≡◌, refl, Bool, true, false, not, Option, List, [], ◌∷◌, ◌++◌, arith, leb,
  if◌then◌else◌, length, length-append, map,
}
use remote_executor.Base.Sort.{stable_sort}
use remote_executor.Base.Outcome.{Outcome, ok, ◌>>=◌, reject_if}
use remote_executor.Base.Tests.{if-lem}
use remote_executor.Base.Yields.{Yields, Yields-bind, Yields-ok}
use remote_executor.Text.{Text, codes, is_empty, join}
use remote_executor.Json.{Value, Number, unsigned, number, bool}
use remote_executor.Protocol.{ToolResult, json_object, tool_output}
use remote_executor.Settings.{Chain, or_cause}
use remote_executor.SoftTimeout.{SoftTimeout, from_millis, expired}

abbrev pub glob_limit : ℕ
glob_limit = 100

-- an entry of the walk or its error, with the time at which it is looked at, whether it is a file,
-- whether the pattern matches, and the time of its last change
pub record Entry : Type 0 where
  pub now : ℕ
  pub path : Outcome Text Text
  pub is_file : Bool
  pub matches : Bool
  pub mtime_ms : ℕ

-- the variables of the loop
pub record Walk : Type 0 where
  pub deadline : SoftTimeout
  pub files : List (Text × ℕ)
  pub truncated : Bool
  pub files_walked : ℕ

-- a file that is met, and whether the walk goes on
abbrev pub take_file : Entry → Text → Walk → Bool × Walk
take_file entry path walk =
    if not entry.matches
    then (true, walk)
    else if leb glob_limit (length walk.files)
    then (false, record walk { truncated = true })
    else (true, record walk { files = walk.files ++ ((path, entry.mtime_ms) ∷ []) })

unfoldable pub visit : Entry → Walk → Outcome Chain (Bool × Walk)
unfolding expired
visit entry walk =
    let (stop, timer) = expired entry.now walk.deadline in
    let walk' = record walk { deadline = timer } in
    if stop then ok (false, walk') else (do
      path ← or_cause entry.path
      ok (
          if not entry.is_file
          then (true, walk')
          else take_file entry path (record walk' { files_walked = walk.files_walked + 1 })))

unfoldable pub walk_entries : List Entry → Walk → Outcome Chain Walk
walk_entries [] walk = ok walk
walk_entries (entry ∷ entries) walk = do
  (goes_on, walk') ← visit entry walk
  elim goes_on [ true ↦ walk_entries entries walk' | false ↦ ok walk' ]

abbrev result_lines : Bool → List (Text × ℕ) → List Text
result_lines truncated [] = codes "No files found" ∷ []
result_lines truncated (f ∷ files) =
    map (λ (p : Text × ℕ). p.0) (f ∷ files)
    ++ (if truncated
        then []
          ∷ codes
              "(Results are truncated: showing first 100 results. Consider using a more specific path or pattern.)"
          ∷ []
        else [])

abbrev count_value : ℕ → Value
count_value n = number (unsigned n)

abbrev walk_result : Walk → ToolResult
walk_result walk =
    let files = stable_sort (λ (a b : Text × ℕ). leb b.1 a.1) walk.files in
    record {
      metadata = json_object (
          (codes "count", count_value (length files))
          ∷ (codes "truncated", bool walk.truncated)
          ∷ (codes "filesWalked", count_value walk.files_walked)
          ∷ (codes "timedOut", bool walk.deadline.timed_out)
          ∷ []);
      output = tool_output (join (b'\n' ∷ []) (result_lines walk.truncated files));
    }

-- `globset` says whether the pattern can be built; `start` is the time at which the search starts
unfoldable pub glob_paths :
    Text → Outcome Text (Unit {0}) → ℕ → Option Number → List Entry → Outcome Chain ToolResult
glob_paths pattern globset start timeout entries = do
  u ← reject_if (is_empty pattern) (codes "pattern is required" ∷ [])
  v ← or_cause globset
  deadline ← from_millis start timeout
  walk ←
      walk_entries entries
        (record { deadline = deadline; files = []; truncated = false; files_walked = 0 })
  ok (walk_result walk)

-- at most 100 files, and 100 where the result says that it was cut
abbrev pub IsBounded : Walk → Type 0
IsBounded walk = (length walk.files ≤ 100) × (walk.truncated ≡ true → length walk.files ≡ 100)

-- what a step leaves; the loop goes on only with a walk that was not cut
abbrev Visited : Bool × Walk → Type 0
Visited (goes_on, walk) = IsBounded walk × (goes_on ≡ true → walk.truncated ≡ false)

take_file-Visited :
    (entry : Entry) (path : Text) (walk : Walk)
    → walk.truncated ≡ false
    → IsBounded walk
    → Visited (take_file entry path walk)
take_file-Visited entry path walk uncut (few, cut) =
    let longer = length-append walk.files ((path, entry.mtime_ms) ∷ []) in ground arith

visit-Visited :
    (entry : Entry) (walk : Walk)
    → walk.truncated ≡ false
    → IsBounded walk
    → Yields Visited (visit entry walk)
unfolding visit
visit-Visited entry walk uncut bounded =
    let timer = (expired entry.now walk.deadline).1 in
    let walk' = record walk { deadline = timer } in
    if-lem (Yields Visited) (expired entry.now walk.deadline).0 (bounded, λ u. uncut)
      (Yields-bind Visited (or_cause entry.path) _ (λ path e.
        if-lem Visited (not entry.is_file) (bounded, λ u. uncut)
          (take_file-Visited entry path (record walk' { files_walked = walk.files_walked + 1 })
            uncut bounded)))

-- However many files match, and whether or not the time runs out, the walk collects at most 100, and
-- exactly 100 where it says that the results were cut.
pub walk_entries-IsBounded :
    (entries : List Entry) (walk : Walk)
    → walk.truncated ≡ false
    → length walk.files ≤ 100
    → Yields IsBounded (walk_entries entries walk)
unfolding walk_entries
walk_entries-IsBounded [] walk uncut few = (few, λ cut. absurd (cc))
walk_entries-IsBounded (entry ∷ entries) walk uncut few =
    Yields-bind IsBounded (visit entry walk) _ (λ r e.
      after r
        (Yields-ok Visited (visit entry walk)
          (visit-Visited entry walk uncut (few, λ cut. absurd (cc))) e)
        (λ walk' uncut' few'. walk_entries-IsBounded entries walk' uncut' few'))
  where
    after :
        (r : Bool × Walk)
        → Visited r
        → ((walk' : Walk)
            → walk'.truncated ≡ false
            → length walk'.files ≤ 100
            → Yields IsBounded (walk_entries entries walk'))
        → Yields IsBounded (elim r.0 as (λ b. Outcome Chain Walk) [
          | true ↦ walk_entries entries r.1
          | false ↦ ok r.1
        ])
    after (true, walk') ((few', cut'), goes) ih = ih walk' (goes refl) few'
    after (false, walk') (bounded, goes) ih = bounded
