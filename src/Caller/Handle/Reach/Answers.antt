-- ===== src/Caller/Handle/Reach/Answers.antt =====
-- How a well-formed caller answers.
use remote_executor.Base.{
  ◌≡◌, ◌⊎◌, refl, inl, inr, Bool, true, false, ◌&&◌, ◌||◌, Option, none, some, Option-cases,
}
use remote_executor.Base.Options.{unwrap_or}
use remote_executor.Base.Tests.{if-cases}
use remote_executor.Base.Outcome.{Outcome, ok, err, panic, ok_or}
use remote_executor.Text.{Text, codes, text_eq}
use remote_executor.Dict.{lookup, text_lt}
use remote_executor.Json.{Value, string, get, get_field, insert_field}
use remote_executor.Protocol.{ExecutorRequest, ExecutorResponse, ToolResult, json_object}
use remote_executor.Caller.{
  ExecutorEndpoint, CallerState, Network, FileTransferOptions, ConnectExecutorOptions,
  SetDefaultExecutorOptions, is_list_executor, is_connect_executor, is_set_default_executor,
  is_file_transfer, is_write_method, call_timeout_ms_for,
}
use remote_executor.Caller.Remote.{call, call_ws, finish_call}
use remote_executor.Caller.Transfer.{transfer_plan, file_transfer_result}
use remote_executor.Caller.Handle.{
  select_executor, handle_inner, handle, respond, transfer_with, report_change, connect_with,
  connect_executor_response, set_default_response, file_transfer_response, set_default_with,
  forward,
}
use remote_executor.Caller.Handle.Laws.{TransferUrl, http_file_transfer_url-HasWsUrl}
use remote_executor.Caller.Handle.Reach.{IsWellFormed}

-- the tools that the caller itself serves
abbrev pub is_own : Text → Bool
is_own method =
    is_list_executor method
    || (is_connect_executor method || (is_set_default_executor method || is_file_transfer method))

-- In a well-formed state a request for a tool that is not the caller's own and that names no executor
-- always reaches one: the default, whose answer is
-- passed on while the caller's state stays. Only a write beside another write is refused.
pub handle-default :
    {local : ExecutorEndpoint} (net : Network) (locked : Bool) (state : CallerState)
    (request : ExecutorRequest)
    → IsWellFormed local state
    → request.executor ≡ none
    → is_own request.method ≡ false
    → (is_write_method request.method && locked) ≡ false
    → (endpoint : ExecutorEndpoint) × (lookup state.default_executor state.executors
        ≡ some endpoint)
      × (endpoint.info.id ≡ state.default_executor)
      × (handle net locked state request ≡ (call net endpoint request, state))
unfolding handle handle_inner select_executor
handle-default net locked state request h unnamed other free =
    elim (Option-cases (lookup state.default_executor state.executors)) [
      | inl absent ↦ absurd (cc (rw absent at h.default_there))
      | inr (endpoint, there) ↦
          let (l, rest) = or_false (is_list_executor request.method) _ other in
          let (c, rest') = or_false (is_connect_executor request.method) _ rest in
          let (d, t) = or_false (is_set_default_executor request.method) _ rest' in
          (
            endpoint,
            there,
            (h.each_named state.default_executor endpoint there).0,
            rw (free, l, c, d, t, unnamed, there) refl,
          )
    ]
  where
    or_false : (a b : Bool) → (a || b) ≡ false → (a ≡ false) × (b ≡ false)
    or_false false b e = (refl, e)
    or_false true b e = cc

-- what the plan of a file transfer tells: where to send which request
abbrev pub Plans : ExecutorEndpoint → FileTransferOptions → Text → ToolResult → Type 0
Plans endpoint options http plan =
    (get (codes "executor") plan.metadata ≡ some (string endpoint.info.id))
    × (get (codes "url") plan.metadata ≡ some (string http))
    × (get (codes "localPath") plan.metadata ≡ some (string options.local_path))
    × (get (codes "targetPath") plan.metadata ≡ some (string options.target_path))

transfer_plan-Plans :
    (endpoint : ExecutorEndpoint) (options : FileTransferOptions) (directory : Option Text)
    (http : Text)
    → Plans endpoint options http (transfer_plan endpoint options directory http)
unfolding json_object get_field insert_field text_eq text_lt
transfer_plan-Plans endpoint options directory http = (refl, refl, refl, refl)

-- A plan is made for each executor of a well-formed state that advertises file transfers: it bears the
-- executor's name, both paths of the options and the address that belongs to the executor's, "http://" for
-- "ws://" and "https://" for "wss://", the same host, and always the path "/re-file/v1".
pub file_transfer_result-eq_ok :
    {local : ExecutorEndpoint} (state : CallerState) (id : Text) (endpoint : ExecutorEndpoint)
    (options : FileTransferOptions) (directory : Option Text)
    → IsWellFormed local state
    → lookup id state.executors ≡ some endpoint
    → endpoint.file_transfer ≡ true
    → (http : Text) × (plan : ToolResult) × (file_transfer_result endpoint options directory
        ≡ ok plan)
      × TransferUrl endpoint.url http
      × Plans endpoint options http plan
unfolding file_transfer_result
file_transfer_result-eq_ok state id endpoint options directory h there advertised =
    let (http, e, address) =
      http_file_transfer_url-HasWsUrl endpoint.url (h.each_named id endpoint there).1 in
    (
      http,
      transfer_plan endpoint options directory http,
      rw (advertised, e) refl,
      address,
      transfer_plan-Plans endpoint options directory http,
    )

-- the caller answered
abbrev Tells : ExecutorResponse × CallerState → Type 0
Tells (response, state) = response.executor ≡ some (codes "caller")

-- The name that an answer bears, by what the call to an endpoint gave: that of the endpoint, unless the
-- executor's own answer names one.
abbrev pub Bears : ExecutorEndpoint → Outcome Text ExecutorResponse → Option Text → Type 0
Bears endpoint (ok answer) name = name ≡ some (unwrap_or endpoint.info.id answer.executor)
Bears endpoint (err e) name = name ≡ some endpoint.info.id
Bears endpoint panic name = name ≡ some endpoint.info.id

module _ (net : Network) (state : CallerState) (locked : Bool) (request : ExecutorRequest) where
  -- The caller answers its own tools, and where a write is refused or the executor is not there. Every other
  -- request is one call to the executor that it names, or the default, whose answer it is.
  abbrev pub Answerer : Option Text → Type 0
  Answerer name =
      ((name ≡ some (codes "caller"))
        × ((is_own request.method ≡ true)
            ⊎ ((is_write_method request.method && locked) ≡ true)
            ⊎ (lookup (unwrap_or state.default_executor request.executor) state.executors ≡ none)))
      ⊎ ((endpoint : ExecutorEndpoint) × (lookup (unwrap_or state.default_executor request.executor)
              state.executors
            ≡ some endpoint)
          × Bears endpoint
              (call_ws net endpoint.url (record request { executor = none })
                (call_timeout_ms_for request))
              name)

module _ (net : Network) (state : CallerState) where
  report_change-Tells :
      (id : Value) (changed : Outcome Text CallerState) → Tells (report_change net state id changed)
  report_change-Tells id (ok after) = refl
  report_change-Tells id (err e) = refl
  report_change-Tells id panic = refl

  connect_with-Tells :
      (id : Value) (options : Outcome Text ConnectExecutorOptions)
      → Tells (connect_with net state id options)
  connect_with-Tells id (ok options) = report_change-Tells id _
  connect_with-Tells id (err e) = refl
  connect_with-Tells id panic = refl

  set_default_with-Tells :
      (id : Value) (options : Outcome Text SetDefaultExecutorOptions)
      → Tells (set_default_with net state id options)
  set_default_with-Tells id (ok options) = report_change-Tells id _
  set_default_with-Tells id (err e) = refl
  set_default_with-Tells id panic = refl

  respond-Tells : (id : Value) (result : Outcome Text ToolResult) → Tells (respond id result, state)
  respond-Tells id (ok result) = refl
  respond-Tells id (err e) = refl
  respond-Tells id panic = refl

  transfer_with-Tells :
      (request : ExecutorRequest) (options : Outcome Text FileTransferOptions)
      → Tells (transfer_with state request options, state)
  transfer_with-Tells request (ok options) = respond-Tells request.id _
  transfer_with-Tells request (err e) = refl
  transfer_with-Tells request panic = refl

  finish_call-Bears :
      (endpoint : ExecutorEndpoint) (id : Value) (answer : Outcome Text ExecutorResponse)
      → Bears endpoint answer (finish_call endpoint id answer).executor
  finish_call-Bears endpoint id (ok response) = refl
  finish_call-Bears endpoint id (err e) = refl
  finish_call-Bears endpoint id panic = refl

  forward-Answerer :
      (locked : Bool) (request : ExecutorRequest) (o : Option ExecutorEndpoint) (e : Text)
      → lookup (unwrap_or state.default_executor request.executor) state.executors ≡ o
      → Answerer net state locked request (forward net request (ok_or o e)).executor
  unfolding call
  forward-Answerer locked request (some endpoint) e there =
      inr (endpoint, there, finish_call-Bears endpoint request.id _)
  forward-Answerer locked request none e absent = inl (refl, inr (inr absent))

  -- Every answer, errors of the caller and of the network included, bears the name of the side that gave it.
  -- The caller's own tools, a write that is refused beside another, and an executor that is not there
  -- are answered by "caller"; every other answer bears the name that the executor's answer gives, or else the
  -- name of the endpoint that the request names, or of the default.
  pub handle-Tells :
      (locked : Bool) (request : ExecutorRequest)
      → Answerer net state locked request (handle net locked state request).0.executor
  unfolding handle handle_inner connect_executor_response set_default_response
      file_transfer_response select_executor
  handle-Tells locked request =
      if-cases P (is_write_method request.method && locked) (λ w. inl (refl, inr (inl w)))
        (λ free.
          if-cases P (is_list_executor request.method) (λ l. inl (refl, inl (rw l refl)))
            (λ l.
              if-cases P (is_connect_executor request.method)
                (λ c. inl (
                  connect_with-Tells request.id (net.connect_options request.params),
                  inl (rw (l, c) refl),
                ))
                (λ c.
                  if-cases P (is_set_default_executor request.method)
                    (λ d. inl (
                      set_default_with-Tells request.id (net.set_default_options request.params),
                      inl (rw (l, c, d) refl),
                    ))
                    (λ d.
                      if-cases P (is_file_transfer request.method)
                        (λ t. inl (
                          transfer_with-Tells request (net.transfer_options request.params),
                          inl (rw (l, c, d, t) refl),
                        ))
                        (λ t.
                          forward-Answerer locked request
                            (lookup (unwrap_or state.default_executor request.executor)
                              state.executors)
                            _ refl)))))
    where
      P : ExecutorResponse × CallerState → Type 0
      P r = Answerer net state locked request r.0.executor
