-- ===== src/Tests/Mcp.antt =====
-- Messages of the model context protocol to a caller.
use remote_executor.Base.{◌≡◌, ◌⊎◌, refl, false, Option, some}
use remote_executor.Text.{codes, text_eq}
use remote_executor.Json.{Value, string, object, end, field, get_field}
use remote_executor.Caller.{CallerState}
use remote_executor.Caller.Mcp.Messages.{handle_mcp_message}
use remote_executor.Caller.Mcp.Messages.Answers.{IsAnswer, handle_mcp_message-answers}
use remote_executor.Caller.Handle.Reach.{Step}
use remote_executor.Tests.Caller.{network, start}

abbrev message : Value
message =
    object
      (field (codes "id") (string (codes "7")) (field (codes "method") (string (codes "ping")) end))

abbrev after : Option Value × CallerState
after = handle_mcp_message network false (codes "0.1.0") start message

handle_mcp_message-answers_example :
    ((v : Value) × (after.0 ≡ some v) × IsAnswer (string (codes "7")) v)
    × ((after.1 ≡ start) ⊎ Step start after.1)
unfolding get_field text_eq
handle_mcp_message-answers_example =
    handle_mcp_message-answers network false (codes "0.1.0") start message (string (codes "7")) refl
