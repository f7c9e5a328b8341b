-- ===== src/Caller/Handle/Cases.antt =====
-- A property of each branch of `handle` is one of `handle`.
use remote_executor.Base.{◌≡◌, refl, Bool, ◌&&◌}
use remote_executor.Base.Tests.{if-lem}
use remote_executor.Protocol.{ExecutorRequest, ExecutorResponse}
use remote_executor.Caller.{
  CallerState, Network, is_list_executor, is_connect_executor, is_set_default_executor,
  is_file_transfer, is_write_method,
}
use remote_executor.Caller.Handle.{
  caller_name, connect_with, set_default_with, transfer_with, forward, select_executor,
  connect_executor_response, set_default_response, file_transfer_response, handle_inner, handle,
}

pub handle-cases :
    (P : ExecutorResponse × CallerState → Type 0) (net : Network) (locked : Bool)
    (state : CallerState) (request : ExecutorRequest)
    → ((response : ExecutorResponse) → response.executor ≡ caller_name → P (response, state))
    → P (connect_with net state request.id (net.connect_options request.params))
    → P (set_default_with net state request.id (net.set_default_options request.params))
    → P (transfer_with state request (net.transfer_options request.params), state)
    → P (forward net request (select_executor state request.executor), state)
    → P (handle net locked state request)
unfolding handle handle_inner connect_executor_response set_default_response file_transfer_response
handle-cases P net locked state request own connects sets transfers forwards =
    if-lem P (is_write_method request.method && locked) (own _ refl) (
      if-lem P (is_list_executor request.method) (own _ refl) (
        if-lem P (is_connect_executor request.method) connects (
          if-lem P (is_set_default_executor request.method) sets
            (if-lem P (is_file_transfer request.method) transfers forwards))))
