-- ===== src/SoftTimeout.antt =====
-- `SoftTimeout` of tools/soft_timeout.rs: a deadline that a search looks at itself. The clock is a
-- number of milliseconds.
use remote_executor.Base.{
  ℕ, zero, suc, ◌+◌, ◌≤◌, ◌≡◌, ◌↔◌, refl, Bool, true, false, Option, none, some, [], ◌∷◌, arith,
  leb, if◌then◌else◌,
}
use remote_executor.Base.Options.{unwrap_or}
use remote_executor.Base.Outcome.{Outcome, ok, err}
use remote_executor.Text.{codes}
use remote_executor.Json.{Number, unsigned, negative, float}
use remote_executor.Settings.{Chain}

abbrev pub default_search_timeout_ms : ℕ
default_search_timeout_ms = 10000

pub record SoftTimeout : Type 0 where
  pub deadline : Option ℕ
  pub timed_out : Bool

abbrev pub bad_timeout : Chain
bad_timeout = codes "timeout must be -1 or non-negative" ∷ []

abbrev of_number : ℕ → Number → Outcome Chain SoftTimeout
of_number now (unsigned n) = ok (record { deadline = some (now + n); timed_out = false })
of_number now (negative zero) = ok (record { deadline = none; timed_out = false })
of_number now (negative (suc n)) = err bad_timeout
of_number now (float n) = err bad_timeout

-- an `i64` is `unsigned n`, or `negative n` for -(n + 1)
unfoldable pub from_millis : ℕ → Option Number → Outcome Chain SoftTimeout
from_millis now timeout = of_number now (unwrap_or (unsigned default_search_timeout_ms) timeout)

abbrev expired_at : ℕ → SoftTimeout → Option ℕ → Bool × SoftTimeout
expired_at now timer none = (false, timer)
expired_at now timer (some deadline) =
    if leb deadline now then (true, record timer { timed_out = true }) else (false, timer)

unfoldable pub expired : ℕ → SoftTimeout → Bool × SoftTimeout
expired now timer = expired_at now timer timer.deadline

-- A search that was given `ms` milliseconds at the time `start` is stopped at the time `now` exactly
-- if they have passed, and then, and not before, it says that it timed out.
pub from_millis-expired :
    (start ms now : ℕ)
    → (timer : SoftTimeout) × (from_millis start (some (unsigned ms)) ≡ ok timer)
      × (((expired now timer).0 ≡ true) ↔ (start + ms ≤ now))
      × ((expired now timer).1.timed_out ≡ (expired now timer).0)
unfolding from_millis expired
from_millis-expired start ms now =
    (record { deadline = some (start + ms); timed_out = false }, refl, ground arith, ground arith)
