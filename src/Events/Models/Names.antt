-- ===== src/Events/Models/Names.antt =====
-- The names of the event kinds of crates/common/src/events/models.rs.
use snarkops.Common.{◌≡◌, refl, some}
use snarkops.Common.Text.{text_eq}
use snarkops.Events.Models.{
  EventKindFilter, agent_connected, agent_handshake_complete, agent_disconnected,
  agent_reconcile_complete, agent_reconcile, agent_reconcile_error, agent_node_status,
  agent_block_info, transaction_authorization_received, transaction_execute_aborted,
  transaction_execute_awaiting_compute, transaction_execute_exceeded, transaction_execute_failed,
  transaction_executing, transaction_execute_complete, transaction_broadcasted,
  transaction_broadcast_exceeded, transaction_confirmed, kind_text, parse_kind,
}

-- Every kind is parsed back from its name.
pub parse_kind-kind_text : (k : EventKindFilter) → parse_kind (kind_text k) ≡ some k
unfolding parse_kind kind_text text_eq
parse_kind-kind_text agent_connected = refl
parse_kind-kind_text agent_handshake_complete = refl
parse_kind-kind_text agent_disconnected = refl
parse_kind-kind_text agent_reconcile_complete = refl
parse_kind-kind_text agent_reconcile = refl
parse_kind-kind_text agent_reconcile_error = refl
parse_kind-kind_text agent_node_status = refl
parse_kind-kind_text agent_block_info = refl
parse_kind-kind_text transaction_authorization_received = refl
parse_kind-kind_text transaction_execute_aborted = refl
parse_kind-kind_text transaction_execute_awaiting_compute = refl
parse_kind-kind_text transaction_execute_exceeded = refl
parse_kind-kind_text transaction_execute_failed = refl
parse_kind-kind_text transaction_executing = refl
parse_kind-kind_text transaction_execute_complete = refl
parse_kind-kind_text transaction_broadcasted = refl
parse_kind-kind_text transaction_broadcast_exceeded = refl
parse_kind-kind_text transaction_confirmed = refl
