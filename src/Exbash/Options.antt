-- ===== src/Exbash/Options.antt =====
-- The checks and readings of `ExbashOptions` in tools/exbash/mod.rs and tools/exbash/runs.rs.
pub mod Limits
use Prim.Native.String.{String}
use remote_executor.Base.{
  ℕ, zero, suc, ◌+◌, min, Bool, true, false, not, ◌&&◌, ◌||◌, Option, none, some, List, [], ◌∷◌,
  ◌++◌, if◌then◌else◌, ltb, leb, length, is_some,
}
use remote_executor.Base.Options.{unwrap_or, filter}
use remote_executor.Base.Outcome.{
  Outcome, ok, err, panic, ◌>>=◌, ◌>>◌, reject_if, map_err, or_panic,
}
use remote_executor.Text.{Text, codes, is_empty, byte_len, trim, slice_bytes}
use remote_executor.Text.Decimal.{decimal}
use remote_executor.Text.Utf8.{into_bytes}
use remote_executor.Paths.{resolve}
use remote_executor.Settings.{Chain, or_cause}
use remote_executor.Shell.{Bytes}
use remote_executor.Exbash.{
  ℤ, pos, negsuc, input_timeout_ms, input_bytes_limit, description_bytes_limit,
  async_id_bytes_limit, output_limit, tmp_running_description, ExbashOptions, Context,
}

-- `anyhow!(…)`
abbrev pub fail {ℓ} : {A : Type ℓ} → Text → Outcome Chain A
fail message = err (message ∷ [])

abbrev exceeds : Text → ℕ → ℕ → Text
exceeds name limit len =
    name
    ++ (codes " exceeds "
        ++ (decimal limit ++ (codes " bytes (" ++ (decimal len ++ codes " bytes)"))))

unfoldable pub validate_bytes : Text → Text → ℕ → Outcome Chain (Unit {0})
unfolding byte_len
validate_bytes name value limit =
    if ltb limit (byte_len value) then fail (exceeds name limit (byte_len value)) else ok tt

unfoldable pub validate_optional_bytes : Text → Option Text → ℕ → Outcome Chain (Unit {0})
unfolding validate_bytes
validate_optional_bytes name none limit = ok tt
validate_optional_bytes name (some value) limit = validate_bytes name value limit

-- `option.filter(|s| !s.is_empty())`
abbrev pub not_empty : Option Text → Option Text
not_empty o = filter (λ s. not (is_empty s)) o

abbrev pub text_input : ExbashOptions → Option Text
text_input options = not_empty options.text

abbrev pub file_path_input : ExbashOptions → Option Text
file_path_input options = not_empty options.file_path

unfoldable pub validate_input_limits : ExbashOptions → Outcome Chain (Unit {0})
unfolding validate_optional_bytes
validate_input_limits options =
    validate_optional_bytes (codes "command") options.command input_bytes_limit
    >> (validate_optional_bytes (codes "description") options.description description_bytes_limit
        >> (validate_optional_bytes (codes "asyncID") options.async_id async_id_bytes_limit
            >> (validate_optional_bytes (codes "text") options.text input_bytes_limit
                >> (validate_optional_bytes (codes "shell") options.shell_profile input_bytes_limit
                    >> (validate_optional_bytes (codes "filePath") (file_path_input options)
                          input_bytes_limit
                        >> validate_optional_bytes (codes "workdir") (not_empty options.workdir)
                            input_bytes_limit)))))

abbrev timeout_of : Option ℤ → Outcome Chain (Option ℕ)
timeout_of none = ok none
timeout_of (some (pos zero)) = ok none
timeout_of (some (pos (suc n))) = ok (some (suc n))
timeout_of (some (negsuc zero)) = ok none
timeout_of (some (negsuc (suc n))) = fail (codes "timeout must be -1 or non-negative")

unfoldable pub timeout_ms : ExbashOptions → Outcome Chain (Option ℕ)
timeout_ms options = timeout_of options.timeout

abbrev attach_timeout : Option ℤ → Outcome Chain ℕ
attach_timeout none = ok input_timeout_ms
attach_timeout (some (negsuc n)) = fail (codes "timeout must be non-negative for mode attach")
attach_timeout (some (pos n)) = ok (min n input_timeout_ms)

abbrev attach_wait : Option ℕ → Option ℤ → Outcome Chain ℕ
attach_wait (some read_timeout) timeout = ok read_timeout
attach_wait none timeout = attach_timeout timeout

unfoldable pub attach_read_timeout : ExbashOptions → Outcome Chain ℕ
attach_read_timeout options = attach_wait options.read_timeout options.timeout

unfoldable pub requested_input_source : ExbashOptions → Text
requested_input_source options =
    let has_file = is_some (file_path_input options) in
    if is_some (text_input options)
    then (if has_file then codes "input" else codes "text")
    else if has_file
    then codes "file"
    else codes "attach"

unfoldable pub stopped_attach_message : Text → Bool → Text
stopped_attach_message exit_code input_failed =
    let message = codes "task already exited with code " ++ exit_code in
    if input_failed then codes "input failed: " ++ message else message

unfoldable pub description : ExbashOptions → Text
description options =
    unwrap_or tmp_running_description (filter (λ s. not (is_empty (trim s))) options.description)

unfoldable pub validate_input_bytes : Text → ℕ → Outcome Chain (Unit {0})
validate_input_bytes name len =
    if ltb input_bytes_limit len then fail (exceeds name input_bytes_limit len) else ok tt

abbrev text_data : Context → Text → Outcome Chain (Bytes × Text)
text_data ctx text = do
  unescaped ←
      map_err (λ e. (codes "failed to parse attach text escapes: " ++ e) ∷ []) (ctx.unescape text)
  let bytes = into_bytes unescaped
  validate_input_bytes (codes "text") (length bytes)
  ok (bytes, codes "text")

abbrev file_data : Context → Text → Outcome Chain (Bytes × Text)
file_data ctx path = do
  bytes ← or_cause (ctx.read_file (resolve ctx.directory path))
  validate_input_bytes (codes "file input") (length bytes)
  ok (bytes, codes "file")

abbrev input_of : Context → Option Text → Option Text → Outcome Chain (Bytes × Text)
input_of ctx (some text) (some path) =
    fail (codes "Provide only one of text or filePath for attach.")
input_of ctx (some text) none = text_data ctx text
input_of ctx none (some path) = file_data ctx path
input_of ctx none none = ok ([], codes "attach")

unfoldable pub input_data : Context → ExbashOptions → Outcome Chain (Bytes × Text)
unfolding resolve validate_input_bytes
input_data ctx options = input_of ctx (text_input options) (file_path_input options)

-- `&text[..OUTPUT_LIMIT]` is a slice by bytes
unfoldable pub clip : Text → Outcome Chain Text
unfolding byte_len slice_bytes
clip text =
    if leb (byte_len text) output_limit
    then ok text
    else (do head ← or_panic (slice_bytes text 0 output_limit); ok (head ++ codes "\n\n..."))
