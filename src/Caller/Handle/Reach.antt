-- ===== src/Caller/Handle/Reach.antt =====
-- The caller's state over any sequence of requests, with any network at each.
pub mod Answers
use Prim.Native.String.{String}
use mathlib.Core.Path.{subst}
use remote_executor.Base.{
  ◌≡◌, ◌≢◌, ◌⊎◌, refl, sym, ap, ◌∙◌, inl, inr, Bool, true, false, ◌&&◌, Option, none, some, List,
  [], ◌∷◌, ◌++◌, if◌then◌else◌, arith, is_some, Bool-cases,
}
use remote_executor.Base.Outcome.{Outcome, ok, err, panic}
use remote_executor.Text.{Text, codes, text_eq, starts_with}
use remote_executor.Text.Equality.{text_eq_iff, text_eq-cases}
use remote_executor.Dict.{Dict, lookup, insert, contains_key}
use remote_executor.Json.{Value}
use remote_executor.Protocol.{ExecutorInfo, ExecutorRequest, ExecutorResponse}
use remote_executor.Caller.{
  ConnectExecutorOptions, SetDefaultExecutorOptions, ExecutorEndpoint, CallerState, Network,
  initial_state, default_transfer_path, normalize_ws_url,
}
use remote_executor.Caller.Handle.{
  connect_to_executor, set_default_executor, report_change, connect_with, set_default_with,
  connect_executor_response, set_default_response, handle_inner, handle,
}
use remote_executor.Caller.Handle.Cases.{handle-cases}
use remote_executor.Caller.Handle.Laws.{
  HasWsUrl, normalize_ws_url-HasWsUrl, connect_to_executor-eq_ok,
}

-- The default names an executor, "local" is the caller's own, and every executor stands under its own
-- name, at an address with a scheme, and has told its version.
pub record IsWellFormed (local : ExecutorEndpoint) (state : CallerState) : Type 0 where
  pub default_there : contains_key state.default_executor state.executors ≡ true
  pub local_there : lookup (codes "local") state.executors ≡ some local
  pub each_named :
      (id : Text) (endpoint : ExecutorEndpoint)
      → lookup id state.executors ≡ some endpoint
      → (endpoint.info.id ≡ id) × HasWsUrl endpoint.url × (is_some endpoint.version ≡ true)

-- the caller's own endpoint
abbrev pub local_endpoint : ExecutorInfo → Text → Text → ExecutorEndpoint
local_endpoint info address version = record {
  info = info;
  url = codes "ws://" ++ address;
  protocol = some (codes "remote-executor");
  version = some version;
  file_transfer = true;
  file_transfer_path = default_transfer_path;
}

initial_state-IsWellFormed :
    (info : ExecutorInfo) (address version : Text)
    → info.id ≡ codes "local"
    → IsWellFormed (local_endpoint info address version) (initial_state info address version)
unfolding initial_state lookup text_eq starts_with
initial_state-IsWellFormed info address version named = record {
  default_there = refl;
  local_there = refl;
  each_named = λ id endpoint there. elim (text_eq-cases (codes "local") id) [
    | inl same ↦
        let found : some (local_endpoint info address version) ≡ some endpoint =
          rw ((text_eq_iff (codes "local") id).1 same) at there in
        subst
          (λ o. elim o [
            | none ↦ ⊥
            | some e ↦ (e.info.id ≡ id) × HasWsUrl e.url × (is_some e.version ≡ true)
          ])
          found (named ∙ same, refl, refl)
    | inr (different, distinct) ↦ absurd (cc (rw different at there))
  ];
}

connect_to_executor-IsWellFormed :
    {local : ExecutorEndpoint} (net : Network) (state after : CallerState)
    (options : ConnectExecutorOptions)
    → IsWellFormed local state
    → connect_to_executor net state options ≡ ok after
    → IsWellFormed local after
connect_to_executor-IsWellFormed net state after options h e =
    let (other, same_default, others, endpoint, there, named, url, told) =
      connect_to_executor-eq_ok net state after options e in
    let kept : (id : Text)
        → is_some (lookup id state.executors) ≡ true
        → is_some (lookup id after.executors) ≡ true =
      λ id present. elim (text_eq-cases id options.id) [
        | inl same ↦ rw (same, there) refl
        | inr (different, distinct) ↦ rw (others id distinct) present
      ] in
    record {
      default_there = rw same_default (kept state.default_executor h.default_there);
      local_there = others (codes "local") (λ same. other (sym same)) ∙ h.local_there;
      each_named = λ id found at_id. elim (text_eq-cases id options.id) [
        | inl same ↦
            let equal : some endpoint ≡ some found =
              sym there ∙ ap (λ i. lookup i after.executors) (sym same) ∙ at_id in
            subst
              (λ o. elim o [
                | none ↦ ⊥
                | some x ↦ (x.info.id ≡ id) × HasWsUrl x.url × (is_some x.version ≡ true)
              ])
              equal
              (
                named ∙ sym same,
                subst HasWsUrl (sym url) (normalize_ws_url-HasWsUrl options.url),
                told,
              )
        | inr (different, distinct) ↦ h.each_named id found (sym (others id distinct) ∙ at_id)
      ];
    }

set_default_executor-IsWellFormed :
    {local : ExecutorEndpoint} (state after : CallerState) (id : Text)
    → IsWellFormed local state
    → set_default_executor state id ≡ ok after
    → IsWellFormed local after
unfolding set_default_executor
set_default_executor-IsWellFormed {local} state after id h e =
    elim (Bool-cases (contains_key id state.executors)) [
      | inl there ↦
          let found : ◌≡◌ {A = Outcome Text CallerState}
              (ok (record state { default_executor = id })) (ok after) =
            rw there at e in
          subst
            (λ (o : Outcome Text CallerState). elim o [
              | ok s ↦ IsWellFormed local s
              | err x ↦ ⊥
              | panic ↦ ⊥
            ])
            found
            (record {
              default_there = there;
              local_there = h.local_there;
              each_named = h.each_named;
            })
      | inr absent ↦ absurd (cc (rw absent at e))
    ]

module _ {local : ExecutorEndpoint} (net : Network) (state : CallerState)
    (h : IsWellFormed local state) where
  report_change-IsWellFormed :
      (id : Value) (changed : Outcome Text CallerState)
      → ((after : CallerState) → changed ≡ ok after → IsWellFormed local after)
      → IsWellFormed local ((report_change net state id changed).1)
  report_change-IsWellFormed id (ok after) k = k after refl
  report_change-IsWellFormed id (err e) k = h
  report_change-IsWellFormed id panic k = h

  connect_with-IsWellFormed :
      (id : Value) (options : Outcome Text ConnectExecutorOptions)
      → IsWellFormed local ((connect_with net state id options).1)
  connect_with-IsWellFormed id (ok options) =
      report_change-IsWellFormed id (connect_to_executor net state options)
        (λ after e. connect_to_executor-IsWellFormed net state after options h e)
  connect_with-IsWellFormed id (err e) = h
  connect_with-IsWellFormed id panic = h

  set_default_with-IsWellFormed :
      (id : Value) (options : Outcome Text SetDefaultExecutorOptions)
      → IsWellFormed local ((set_default_with net state id options).1)
  set_default_with-IsWellFormed id (ok options) =
      report_change-IsWellFormed id (set_default_executor state options.id)
        (λ after e. set_default_executor-IsWellFormed state after options.id h e)
  set_default_with-IsWellFormed id (err e) = h
  set_default_with-IsWellFormed id panic = h

  handle-IsWellFormed :
      (locked : Bool) (request : ExecutorRequest)
      → IsWellFormed local ((handle net locked state request).1)
  handle-IsWellFormed locked request =
      handle-cases (λ (r : ExecutorResponse × CallerState). IsWellFormed local r.1) net locked state
        request (λ response own. h)
        (connect_with-IsWellFormed request.id (net.connect_options request.params))
        (set_default_with-IsWellFormed request.id (net.set_default_options request.params)) h h

-- one request, whatever the network does and whether or not another write runs
pub data Step : CallerState → CallerState → Type 0 where
  handles :
      (net : Network) (locked : Bool) (state : CallerState) (request : ExecutorRequest)
      {after : CallerState}
      → (handle net locked state request).1 ≡ after
      → Step state after

pub data Reach (start : CallerState) : CallerState → Type 0 where
  here : Reach start start
  next : {s t : CallerState} → Reach start s → Step s t → Reach start t

-- Whatever requests a new caller has handled and whatever the network did, its default names an
-- executor that it has, "local" is still its own executor, and every executor stands under its own
-- name, at an address with a scheme, and has told its version.
pub Reach-IsWellFormed :
    (info : ExecutorInfo) (address version : Text) {state : CallerState}
    → info.id ≡ codes "local"
    → Reach (initial_state info address version) state
    → IsWellFormed (local_endpoint info address version) state
Reach-IsWellFormed info address version named here =
    initial_state-IsWellFormed info address version named
Reach-IsWellFormed info address version named (next r (handles net locked s request e)) =
    subst (IsWellFormed (local_endpoint info address version)) e
      (handle-IsWellFormed net s (Reach-IsWellFormed info address version named r) locked request)
