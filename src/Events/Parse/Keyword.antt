-- ===== src/Events/Parse/Keyword.antt =====
-- The names of the filters in crates/common/src/events/filter_parse.rs.
use snarkops.Common.{if◌then◌else◌}
use snarkops.Common.Text.{Text, codes, text_eq}

-- The alternatives of `match filter_name.trim()`.
pub data Keyword : Type 0 where
  unfiltered any_of all_of one_of not_of agent_is has_agent env_is has_env : Keyword
  transaction_is has_transaction cannon_is has_cannon event_is : Keyword
  node_key_is has_node_key node_target_is unknown : Keyword

unfoldable pub keyword : Text → Keyword
keyword s =
    if text_eq s (codes "unfiltered")
    then Keyword.unfiltered
    else if text_eq s (codes "any-of")
    then Keyword.any_of
    else if text_eq s (codes "all-of")
    then Keyword.all_of
    else if text_eq s (codes "one-of")
    then Keyword.one_of
    else if text_eq s (codes "not")
    then Keyword.not_of
    else if text_eq s (codes "agent-is")
    then Keyword.agent_is
    else if text_eq s (codes "has-agent")
    then Keyword.has_agent
    else if text_eq s (codes "env-is")
    then Keyword.env_is
    else if text_eq s (codes "has-env")
    then Keyword.has_env
    else if text_eq s (codes "transaction-is")
    then Keyword.transaction_is
    else if text_eq s (codes "has-transaction")
    then Keyword.has_transaction
    else if text_eq s (codes "cannon-is")
    then Keyword.cannon_is
    else if text_eq s (codes "has-cannon")
    then Keyword.has_cannon
    else if text_eq s (codes "event-is")
    then Keyword.event_is
    else if text_eq s (codes "node-key-is")
    then Keyword.node_key_is
    else if text_eq s (codes "has-node-key")
    then Keyword.has_node_key
    else if text_eq s (codes "node-target-is")
    then Keyword.node_target_is
    else Keyword.unknown
