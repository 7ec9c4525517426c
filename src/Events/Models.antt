-- ===== src/Events/Models.antt =====
-- crates/common/src/events/models.rs: events, and the kinds that they are filtered by.
pub mod Names
use snarkops.Common.{ℕ, ◌≡◌, refl, Bool, Option, none, some, ◌==◌, if◌then◌else◌}
use snarkops.Common.Int.{ℤ}
use snarkops.Common.Text.{Text, codes, text_eq}
use snarkops.State.NodeKey.{NodeKey}

pub data EventKindFilter : Type 0 where
  agent_connected : EventKindFilter
  agent_handshake_complete : EventKindFilter
  agent_disconnected : EventKindFilter
  agent_reconcile_complete : EventKindFilter
  agent_reconcile : EventKindFilter
  agent_reconcile_error : EventKindFilter
  agent_node_status : EventKindFilter
  agent_block_info : EventKindFilter
  transaction_authorization_received : EventKindFilter
  transaction_execute_aborted : EventKindFilter
  transaction_execute_awaiting_compute : EventKindFilter
  transaction_execute_exceeded : EventKindFilter
  transaction_execute_failed : EventKindFilter
  transaction_executing : EventKindFilter
  transaction_execute_complete : EventKindFilter
  transaction_broadcasted : EventKindFilter
  transaction_broadcast_exceeded : EventKindFilter
  transaction_confirmed : EventKindFilter

-- The payloads that no filter looks at are values of `D`.
pub data AgentEvent (D : Type 0) : Type 0 where
  connected : (version : Text) → AgentEvent D
  handshake_complete disconnected reconcile_complete : AgentEvent D
  reconcile reconcile_error node_status block_info : D → AgentEvent D

pub data TransactionEvent (D : Type 0) : Type 0 where
  authorization_received execute_aborted execute_complete broadcasted : D → TransactionEvent D
  execute_awaiting_compute executing : TransactionEvent D
  execute_exceeded broadcast_exceeded : (attempts : ℕ) → TransactionEvent D
  execute_failed confirmed : Text → TransactionEvent D

pub data EventKind (D : Type 0) : Type 0 where
  agent : AgentEvent D → EventKind D
  transaction : TransactionEvent D → EventKind D

pub record Event (D : Type 0) : Type 0 where
  pub created_at : ℤ
  pub agent : Option Text
  pub node_key : Option NodeKey
  pub env : Option Text
  pub transaction : Option Text
  pub cannon : Option Text
  pub content : EventKind D

-- `EventKind::filter`
unfoldable pub filter : {D : Type 0} → EventKind D → EventKindFilter
filter (EventKind.agent (connected _)) = agent_connected
filter (EventKind.agent handshake_complete) = agent_handshake_complete
filter (EventKind.agent disconnected) = agent_disconnected
filter (EventKind.agent reconcile_complete) = agent_reconcile_complete
filter (EventKind.agent (reconcile _)) = agent_reconcile
filter (EventKind.agent (reconcile_error _)) = agent_reconcile_error
filter (EventKind.agent (node_status _)) = agent_node_status
filter (EventKind.agent (block_info _)) = agent_block_info
filter (EventKind.transaction (authorization_received _)) = transaction_authorization_received
filter (EventKind.transaction (execute_aborted _)) = transaction_execute_aborted
filter (EventKind.transaction execute_awaiting_compute) = transaction_execute_awaiting_compute
filter (EventKind.transaction (execute_exceeded _)) = transaction_execute_exceeded
filter (EventKind.transaction (execute_failed _)) = transaction_execute_failed
filter (EventKind.transaction executing) = transaction_executing
filter (EventKind.transaction (execute_complete _)) = transaction_execute_complete
filter (EventKind.transaction (broadcasted _)) = transaction_broadcasted
filter (EventKind.transaction (broadcast_exceeded _)) = transaction_broadcast_exceeded
filter (EventKind.transaction (confirmed _)) = transaction_confirmed

-- `Display`
unfoldable pub kind_text : EventKindFilter → Text
kind_text agent_connected = codes "agent-connected"
kind_text agent_handshake_complete = codes "agent-handshake-complete"
kind_text agent_disconnected = codes "agent-disconnected"
kind_text agent_reconcile_complete = codes "agent-reconcile-complete"
kind_text agent_reconcile = codes "agent-reconcile"
kind_text agent_reconcile_error = codes "agent-reconcile-error"
kind_text agent_node_status = codes "agent-node-status"
kind_text agent_block_info = codes "agent-block-info"
kind_text transaction_authorization_received = codes "transaction-authorization-received"
kind_text transaction_execute_aborted = codes "transaction-execute-aborted"
kind_text transaction_execute_awaiting_compute = codes "transaction-execute-awaiting-compute"
kind_text transaction_execute_exceeded = codes "transaction-execute-exceeded"
kind_text transaction_execute_failed = codes "transaction-execute-failed"
kind_text transaction_executing = codes "transaction-executing"
kind_text transaction_execute_complete = codes "transaction-execute-complete"
kind_text transaction_broadcasted = codes "transaction-broadcasted"
kind_text transaction_broadcast_exceeded = codes "transaction-broadcast-exceeded"
kind_text transaction_confirmed = codes "transaction-confirmed"

-- `FromStr`; its error, a message, is `none`.
unfoldable pub parse_kind : Text → Option EventKindFilter
parse_kind s =
    if text_eq s (codes "agent-connected")
    then some agent_connected
    else if text_eq s (codes "agent-handshake-complete")
    then some agent_handshake_complete
    else if text_eq s (codes "agent-disconnected")
    then some agent_disconnected
    else if text_eq s (codes "agent-reconcile-complete")
    then some agent_reconcile_complete
    else if text_eq s (codes "agent-reconcile")
    then some agent_reconcile
    else if text_eq s (codes "agent-reconcile-error")
    then some agent_reconcile_error
    else if text_eq s (codes "agent-node-status")
    then some agent_node_status
    else if text_eq s (codes "agent-block-info")
    then some agent_block_info
    else if text_eq s (codes "transaction-authorization-received")
    then some transaction_authorization_received
    else if text_eq s (codes "transaction-execute-aborted")
    then some transaction_execute_aborted
    else if text_eq s (codes "transaction-execute-awaiting-compute")
    then some transaction_execute_awaiting_compute
    else if text_eq s (codes "transaction-execute-exceeded")
    then some transaction_execute_exceeded
    else if text_eq s (codes "transaction-execute-failed")
    then some transaction_execute_failed
    else if text_eq s (codes "transaction-executing")
    then some transaction_executing
    else if text_eq s (codes "transaction-execute-complete")
    then some transaction_execute_complete
    else if text_eq s (codes "transaction-broadcasted")
    then some transaction_broadcasted
    else if text_eq s (codes "transaction-broadcast-exceeded")
    then some transaction_broadcast_exceeded
    else if text_eq s (codes "transaction-confirmed")
    then some transaction_confirmed
    else none

-- The discriminant, which the derived `PartialEq` compares.
unfoldable pub discriminant : EventKindFilter → ℕ
discriminant agent_connected = 0
discriminant agent_handshake_complete = 1
discriminant agent_disconnected = 2
discriminant agent_reconcile_complete = 3
discriminant agent_reconcile = 4
discriminant agent_reconcile_error = 5
discriminant agent_node_status = 6
discriminant agent_block_info = 7
discriminant transaction_authorization_received = 8
discriminant transaction_execute_aborted = 9
discriminant transaction_execute_awaiting_compute = 10
discriminant transaction_execute_exceeded = 11
discriminant transaction_execute_failed = 12
discriminant transaction_executing = 13
discriminant transaction_execute_complete = 14
discriminant transaction_broadcasted = 15
discriminant transaction_broadcast_exceeded = 16
discriminant transaction_confirmed = 17

unfoldable pub kind_eq : EventKindFilter → EventKindFilter → Bool
unfolding discriminant
kind_eq a b = discriminant a == discriminant b
