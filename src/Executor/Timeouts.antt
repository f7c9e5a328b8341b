-- ===== src/Executor/Timeouts.antt =====
-- The time that an executor gives a tool beside the time that the caller waits for it.
use mathlib.Core.Path.{subst}
use remote_executor.Base.{
  ℕ, ◌+◌, ◌^◌, ◌≤◌, ◌<◌, ◌≡◌, refl, ap, inl, inr, true, false, ◌||◌, Option, none, some, ltb, arith,
}
use remote_executor.Text.{Text, codes, text_eq}
use remote_executor.Text.Equality.{text_eq-cases}
use remote_executor.Json.{object, number, unsigned, Fields, get_field}
use remote_executor.Protocol.{ExecutorRequest}
use remote_executor.Caller.{call_timeout_ms_for}
use remote_executor.Executor.{
  effective_tool_timeout_ms, apply_soft_timeout_param, is_soft_timeout_method,
}

-- A tool that is cut off is given ten minutes at most, and what was asked for up to there.
pub effective_tool_timeout_ms-le :
    (requested : ℕ)
    → (effective_tool_timeout_ms (some requested) ≤ 600000)
      × (effective_tool_timeout_ms (some requested) ≤ requested)
      × (requested ≤ 600000 → effective_tool_timeout_ms (some requested) ≡ requested)
unfolding effective_tool_timeout_ms
effective_tool_timeout_ms-le requested = (omega arith, omega arith, λ h. omega arith)

is_soft_timeout_method-exbash :
    (method : Text) → is_soft_timeout_method method ≡ true → text_eq method (codes "exbash") ≡ false
unfolding text_eq
is_soft_timeout_method-exbash method soft = elim (text_eq-cases method (codes "exbash")) [
  | inl same ↦
      let neither : false ≡ true = subst (λ m. is_soft_timeout_method m ≡ true) same soft in cc
  | inr (different, distinct) ↦ different
]

-- A search that names its timeout `ms`, below 2 ^ 63, in its parameters keeps it: the executor leaves the parameters
-- as they are, whatever `toolTimeoutMs` is, and the caller waits five seconds longer than the search
-- may take.
pub call_timeout_ms_for-search :
    (request : ExecutorRequest) (fs : Fields) (ms : ℕ)
    → is_soft_timeout_method request.method ≡ true
    → request.params ≡ object fs
    → get_field (codes "timeout") fs ≡ some (number (unsigned ms))
    → ms < 2 ^ 63
    → (call_timeout_ms_for request ≡ some (ms + 5000))
      × (apply_soft_timeout_param request.method request.params request.tool_timeout_ms
          ≡ request.params)
unfolding call_timeout_ms_for apply_soft_timeout_param
call_timeout_ms_for-search request fs ms soft params named small =
    let searches : text_eq request.method (codes "rg") || text_eq request.method (codes "glob")
        ≡ true =
      soft in
    (
      rw (is_soft_timeout_method-exbash request.method soft, params, searches, named, fits)
          (ap some (omega arith)),
      kept request.tool_timeout_ms,
    )
  where
    fits : ltb ms (2 ^ 63) ≡ true
    fits = ground arith

    kept :
        (o : Option ℕ) → apply_soft_timeout_param request.method request.params o ≡ request.params
    kept none = refl
    kept (some t) = rw (soft, params, named) refl
