-- ===== src/Base/Options.antt =====
-- `and_then`, `filter` and `unwrap_or` of `Option`.
use mathlib.Core.Bool.{Bool}
use mathlib.Core.Option.{Option, none, some}
use remote_executor.Base.Tests.{if◌then◌else◌}

abbrev pub and_then {ℓ κ} : {A : Type ℓ} {B : Type κ} → Option A → (A → Option B) → Option B
and_then none f = none
and_then (some a) f = f a

abbrev pub filter {ℓ} : {A : Type ℓ} → (A → Bool) → Option A → Option A
filter p none = none
filter p (some a) = if p a then some a else none

abbrev pub unwrap_or {ℓ} : {A : Type ℓ} → A → Option A → A
unwrap_or b none = b
unwrap_or b (some a) = a

-- `first.or_else(|| second)`
abbrev pub or_option {ℓ} : {A : Type ℓ} → Option A → Option A → Option A
or_option none o = o
or_option (some a) o = some a
