-- ===== src/Caller/Handle/Laws.antt =====
-- What an endpoint keeps when its executor is asked, and what a connection does to the state.
use mathlib.Core.Path.{subst}
use remote_executor.Base.{
  ◌≡◌, ◌≢◌, refl, sym, ap, ◌∙◌, ◌==◌, ==_iff, inl, inr, Bool, true, false, not, ◌&&◌, ◌||◌, none,
  some, [], ◌∷◌, ◌++◌, arith, is_some, Bool-cases,
}
use remote_executor.Base.Options.{and_then, filter, unwrap_or}
use remote_executor.Base.Outcome.{ok, reject_if, ok_or}
use remote_executor.Base.Yields.{Yields, Yields-bind, Yields-ok}
use remote_executor.Text.{Text, codes, text_eq, starts_with, strip_prefix, is_empty, trim}
use remote_executor.Text.Equality.{text_eq_iff}
use remote_executor.Dict.{lookup, insert}
use remote_executor.Dict.Laws.{lookup-insert}
use remote_executor.Json.{null, get, get_field, as_object}
use remote_executor.Caller.{
  ConnectExecutorOptions, ExecutorEndpoint, CallerState, Network, normalize_ws_url,
}
use remote_executor.Caller.Remote.{apply_info, refresh_info, call_ws, text_at, transfer_flag}
use remote_executor.Caller.Transfer.{http_file_transfer_url}
use remote_executor.Caller.Handle.{new_endpoint, connect_to_executor}

-- the address has one of the two schemes
abbrev pub HasWsUrl : Text → Type 0
HasWsUrl url = starts_with (codes "ws://") url || starts_with (codes "wss://") url ≡ true

scheme-HasWsUrl : (url : Text) → HasWsUrl (codes "ws://" ++ url)
unfolding starts_with
scheme-HasWsUrl url = refl

pub normalize_ws_url-HasWsUrl : (url : Text) → HasWsUrl (normalize_ws_url url)
unfolding normalize_ws_url
normalize_ws_url-HasWsUrl url =
    elim (Bool-cases (starts_with (codes "ws://") url || starts_with (codes "wss://") url)) [
      | inl e ↦ rw e e
      | inr e ↦ rw e (scheme-HasWsUrl url)
    ]

starts_with-strip_prefix :
    (p s : Text)
    → starts_with p s ≡ true
    → (rest : Text) × (strip_prefix p s ≡ some rest) × (s ≡ p ++ rest)
unfolding starts_with strip_prefix
starts_with-strip_prefix [] s h = (s, refl, refl)
starts_with-strip_prefix (c ∷ p) [] h = cc
starts_with-strip_prefix (c ∷ p) (d ∷ s) h = elim (Bool-cases (c == d)) [
  | inl e ↦
      let (rest, stripped, whole) = starts_with-strip_prefix p s (rw e at h) in
      let same : d ≡ c = omega (arith, (==_iff c d).0 e) in
      (rest, rw e stripped, ap (λ x. x ∷ s) same ∙ ap (λ t. c ∷ t) whole)
  | inr e ↦ let none_left : false ≡ true = rw e at h in cc
]

-- The address of file transfers beside a WebSocket's: the same host, on HTTP, or on HTTPS where the
-- WebSocket is a secure one.
pub data TransferUrl : Text → Text → Type 0 where
  plain :
      (host : Text)
      → TransferUrl (codes "ws://" ++ host) (codes "http://" ++ (host ++ codes "/re-file/v1"))
  secure :
      (host : Text)
      → TransferUrl (codes "wss://" ++ host) (codes "https://" ++ (host ++ codes "/re-file/v1"))

pub http_file_transfer_url-HasWsUrl :
    (url : Text)
    → HasWsUrl url
    → (http : Text) × (http_file_transfer_url url ≡ ok http) × TransferUrl url http
unfolding http_file_transfer_url strip_prefix
http_file_transfer_url-HasWsUrl url h = elim (Bool-cases (starts_with (codes "ws://") url)) [
  | inl s ↦
      let (host, stripped, whole) = starts_with-strip_prefix (codes "ws://") url s in
      (
        codes "http://" ++ (host ++ codes "/re-file/v1"),
        rw stripped refl,
        subst (λ u. TransferUrl u (codes "http://" ++ (host ++ codes "/re-file/v1"))) (sym whole)
            (plain host),
      )
  | inr s ↦
      let (host, stripped, whole) = starts_with-strip_prefix (codes "wss://") url (rw s at h) in
      let other : strip_prefix (codes "ws://") url ≡ none = rw whole (not_ws host) in
      (
        codes "https://" ++ (host ++ codes "/re-file/v1"),
        rw (other, stripped) refl,
        subst (λ u. TransferUrl u (codes "https://" ++ (host ++ codes "/re-file/v1"))) (sym whole)
            (secure host),
      )
]
  where
    not_ws : (host : Text) → strip_prefix (codes "ws://") (codes "wss://" ++ host) ≡ none
    not_ws host = refl

-- The new description of an endpoint has its name and its address, and a version.
abbrev pub Describes : ExecutorEndpoint → ExecutorEndpoint → Type 0
Describes old new = (new.info.id ≡ old.info.id) × (new.url ≡ old.url) × (is_some new.version ≡ true)

pub refresh_info-Describes :
    (net : Network) (endpoint : ExecutorEndpoint)
    → Yields (Describes endpoint) (refresh_info net endpoint)
unfolding refresh_info apply_info
refresh_info-Describes net endpoint = Yields-bind _ (call_ws net endpoint.url _ _) _ (λ response e.
    Yields-bind _ (reject_if (not response.is_ok) _) _ (λ u e'.
      let result = unwrap_or null response.result in
      let metadata = unwrap_or result (get (codes "metadata") result) in
      Yields-bind _ (ok_or (filter _ (text_at (codes "version") metadata)) _) _ (λ version e''.
        Yields-bind _ (ok_or (and_then (get (codes "capabilities") metadata) as_object) _) _
          (λ capabilities e3.
            Yields-bind {E = Text} {B = ExecutorEndpoint} (Describes endpoint)
              (reject_if
                (transfer_flag metadata
                  && not (is_some (get_field (codes "fileTransfer") capabilities)))
                _)
              _ (λ w e4. (refl, refl, refl))))))

-- What a connection leaves: the new endpoint under its name, and all else as it was.
abbrev pub Connected : CallerState → ConnectExecutorOptions → CallerState → Type 0
Connected state options after =
    (options.id ≢ codes "local")
    × (after.default_executor ≡ state.default_executor)
    × (endpoint : ExecutorEndpoint) × Describes (new_endpoint options) endpoint
    × (after.executors ≡ insert options.id endpoint state.executors)

reject_if-eq_ok : {E : Type 0} (b : Bool) (e : E) {u : Unit {0}} → reject_if b e ≡ ok u → b ≡ false
reject_if-eq_ok true e h = cc
reject_if-eq_ok false e h = refl

connect_to_executor-Connected :
    (net : Network) (state : CallerState) (options : ConnectExecutorOptions)
    → Yields (Connected state options) (connect_to_executor net state options)
unfolding connect_to_executor
connect_to_executor-Connected net state options =
    Yields-bind _ (reject_if (is_empty (trim options.id)) _) _ (λ u e.
      Yields-bind _ (reject_if (text_eq options.id (codes "local")) _) _ (λ w e'.
        Yields-bind _ (refresh_info net (new_endpoint options)) _ (λ endpoint e''.
          let other = reject_if-eq_ok (text_eq options.id (codes "local")) _ e' in
          (
            λ same. cc (other, (text_eq_iff options.id (codes "local")).1 same),
            refl,
            endpoint,
            Yields-ok _ _ (refresh_info-Describes net (new_endpoint options)) e'',
            refl,
          ))))

-- After a connection that succeeds the executor is found under its name, at the address that was
-- given, with a version that it told. Every other executor and the default are as before, and the
-- caller's own executor is never replaced.
pub connect_to_executor-eq_ok :
    (net : Network) (state after : CallerState) (options : ConnectExecutorOptions)
    → connect_to_executor net state options ≡ ok after
    → (options.id ≢ codes "local")
      × (after.default_executor ≡ state.default_executor)
      × ((id : Text) → id ≢ options.id → lookup id after.executors ≡ lookup id state.executors)
      × (endpoint : ExecutorEndpoint) × (lookup options.id after.executors ≡ some endpoint)
      × (endpoint.info.id ≡ options.id)
      × (endpoint.url ≡ normalize_ws_url options.url)
      × (is_some endpoint.version ≡ true)
unfolding new_endpoint
connect_to_executor-eq_ok net state after options h =
    let (other, same_default, endpoint, (same_id, same_url, told), inserted) =
      Yields-ok (Connected state options) _ (connect_to_executor-Connected net state options) h in
    (
      other,
      same_default,
      (λ id distinct.
          rw (inserted, lookup-insert options.id id endpoint state.executors)
            (ground (arith, text_eq_iff options.id id))),
      endpoint,
      rw (inserted, lookup-insert options.id options.id endpoint state.executors)
          (rw ((text_eq_iff options.id options.id).1 refl) refl),
      same_id,
      same_url,
      told,
    )
