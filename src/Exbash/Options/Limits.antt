-- ===== src/Exbash/Options/Limits.antt =====
-- What passes the checks of the options of exbash, and how long an attach may wait.
use remote_executor.Base.{
  ℕ, ◌≤◌, ◌≡◌, ◌↔◌, inl, inr, refl, min, Option, none, some, ltb, ltb→lt, ltb→le, Bool-cases, arith,
}
use remote_executor.Base.Options.{unwrap_or}
use remote_executor.Base.Outcome.{Outcome, ok, err, panic, ◌>>◌}
use remote_executor.Text.{Text, codes, byte_len}
use remote_executor.Settings.{Chain}
use remote_executor.Exbash.{
  ℤ, pos, negsuc, input_timeout_ms, input_bytes_limit, description_bytes_limit,
  async_id_bytes_limit, ExbashOptions,
}
use remote_executor.Exbash.Options.{
  validate_bytes, validate_optional_bytes, validate_input_limits, not_empty, file_path_input,
  attach_read_timeout, attach_wait,
}

abbrev pub Within : Option Text → ℕ → Type 0
Within none limit = Unit
Within (some value) limit = byte_len value ≤ limit

abbrev Valid : Outcome Chain (Unit {0}) → Type 0
Valid m = m ≡ ok tt

validate_optional_bytes_iff :
    (name : Text) (value : Option Text) (limit : ℕ)
    → Valid (validate_optional_bytes name value limit) ↔ Within value limit
unfolding validate_optional_bytes validate_bytes
validate_optional_bytes_iff name none limit = ((λ h. tt), (λ h. refl))
validate_optional_bytes_iff name (some value) limit =
    elim (Bool-cases (ltb limit (byte_len value))) [
      | inl e ↦ rw e ((λ h. cc), (λ h. absurd (omega (arith, ltb→lt limit (byte_len value) e))))
      | inr e ↦ rw e ((λ h. ltb→le limit (byte_len value) e), (λ h. refl))
    ]

both_iff :
    (m n : Outcome Chain (Unit {0})) {A B : Type 0}
    → Valid m ↔ A
    → Valid n ↔ B
    → Valid (m >> n) ↔ (A × B)
both_iff (ok u) n f g = ((λ h. (f.0 refl, g.0 h)), (λ h. g.1 h.1))
both_iff (err e) n f g = ((λ h. cc), (λ h. let impossible = f.1 h.0 in cc))
both_iff panic n f g = ((λ h. cc), (λ h. let impossible = f.1 h.0 in cc))

-- every text of the options is within its limit
abbrev pub WithinLimits : ExbashOptions → Type 0
WithinLimits options =
    Within options.command input_bytes_limit
    × (Within options.description description_bytes_limit
        × (Within options.async_id async_id_bytes_limit
            × (Within options.text input_bytes_limit
                × (Within options.shell_profile input_bytes_limit
                    × (Within (file_path_input options) input_bytes_limit
                        × Within (not_empty options.workdir) input_bytes_limit)))))

-- The options are accepted exactly where every text of them is, in bytes, within its limit. The `text` is
-- measured as it was given, before its escapes are read.
pub validate_input_limits_iff :
    (options : ExbashOptions) → (validate_input_limits options ≡ ok tt) ↔ WithinLimits options
unfolding validate_input_limits
validate_input_limits_iff options =
    both_iff _ _ (validate_optional_bytes_iff (codes "command") options.command input_bytes_limit) (
      both_iff _ _
        (validate_optional_bytes_iff (codes "description") options.description
          description_bytes_limit)
        (both_iff _ _
          (validate_optional_bytes_iff (codes "asyncID") options.async_id async_id_bytes_limit)
          (both_iff _ _ (validate_optional_bytes_iff (codes "text") options.text input_bytes_limit)
            (both_iff _ _
              (validate_optional_bytes_iff (codes "shell") options.shell_profile input_bytes_limit)
              (both_iff _ _
                (validate_optional_bytes_iff (codes "filePath") (file_path_input options)
                  input_bytes_limit)
                (validate_optional_bytes_iff (codes "workdir") (not_empty options.workdir)
                  input_bytes_limit))))))

attach_wait-le :
    (read_timeout : Option ℕ) (timeout : Option ℤ) (wait : ℕ)
    → attach_wait read_timeout timeout ≡ ok wait
    → wait ≤ unwrap_or input_timeout_ms read_timeout
attach_wait-le (some n) timeout wait h = let same : n ≡ wait = cc in omega arith
attach_wait-le none none wait h = let same : input_timeout_ms ≡ wait = cc in omega arith
attach_wait-le none (some (pos n)) wait h =
    let same : min n input_timeout_ms ≡ wait = cc in omega arith
attach_wait-le none (some (negsuc n)) wait h = cc

pub attach_read_timeout-le :
    (options : ExbashOptions) (wait : ℕ)
    → attach_read_timeout options ≡ ok wait
    → wait ≤ unwrap_or input_timeout_ms options.read_timeout
unfolding attach_read_timeout
attach_read_timeout-le options wait h = attach_wait-le options.read_timeout options.timeout wait h
