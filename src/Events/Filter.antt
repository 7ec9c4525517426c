-- ===== src/Events/Filter.antt =====
-- crates/common/src/events/filter.rs and filter_ops.rs: event filters, which events they let
-- through, and the operators `&`, `|`, `^` and `!` that combine them.
pub mod Meaning
use snarkops.Common.{
  is_some, ℕ, zero, suc, Bool, true, false, not, ◌&&◌, ◌||◌, Option, none, some, ◌==◌,
  if◌then◌else◌,
}
use snarkops.Common.Text.{Text, text_eq}
use snarkops.State.NodeType.{type_eq}
use snarkops.State.NodeKey.{key_eq, NodeKey}
use snarkops.State.NodeTarget.{WildMatch, NodeTargets, targets_match}
use snarkops.Events.Models.{EventKindFilter, Event, filter, kind_eq}

-- `Filters` is `Vec<EventFilter>`. Agents, environments and cannons go by their interned names.
mutual
  pub data EventFilter (P : Type 0) : Type 0 where
    unfiltered : EventFilter P
    all_of : Filters P → EventFilter P
    any_of : Filters P → EventFilter P
    one_of : Filters P → EventFilter P
    not_of : EventFilter P → EventFilter P
    agent_is : Text → EventFilter P
    has_agent : EventFilter P
    env_is : Text → EventFilter P
    has_env : EventFilter P
    transaction_is : Text → EventFilter P
    has_transaction : EventFilter P
    cannon_is : Text → EventFilter P
    has_cannon : EventFilter P
    event_is : EventKindFilter → EventFilter P
    has_node_key : EventFilter P
    node_key_is : NodeKey → EventFilter P
    node_target_is : NodeTargets P → EventFilter P

  pub data Filters (P : Type 0) : Type 0 where
    no_filters : Filters P
    filter_then : EventFilter P → Filters P → Filters P

-- `self.agent == Some(*agent)`
unfoldable pub is_some_text : Option Text → Text → Bool
is_some_text none t = false
is_some_text (some s) t = text_eq s t

-- `self.node_key.as_ref() == Some(node_key)`, by the derived `PartialEq` of `NodeKey`.
unfoldable pub is_some_key : Option NodeKey → NodeKey → Bool
unfolding key_eq
is_some_key none k = false
is_some_key (some j) k = key_eq j k

module _ {P : Type 0} (W : WildMatch P) where
  unfoldable pub key_matches : Option NodeKey → NodeTargets P → Bool
  key_matches none targets = false
  key_matches (some key) targets = targets_match W targets key

module _ {P D : Type 0} (W : WildMatch P) (e : Event D) where
  unfoldable mutual
    -- `Event::matches`
    pub matches : EventFilter P → Bool
    matches unfiltered = true
    matches (all_of fs) = all_match fs
    matches (any_of fs) = any_match fs
    matches (one_of fs) = count_matches fs == 1
    matches (not_of f) = not (matches f)
    matches (agent_is agent) = is_some_text e.agent agent
    matches has_agent = is_some e.agent
    matches (env_is env) = is_some_text e.env env
    matches has_env = is_some e.env
    matches (transaction_is transaction) = is_some_text e.transaction transaction
    matches has_transaction = is_some e.transaction
    matches (cannon_is cannon) = is_some_text e.cannon cannon
    matches has_cannon = is_some e.cannon
    matches (event_is kind) = kind_eq (filter e.content) kind
    matches has_node_key = is_some e.node_key
    matches (node_key_is key) = is_some_key e.node_key key
    matches (node_target_is targets) = key_matches W e.node_key targets

    -- `filters.iter().all(..)`, `.any(..)`, `.filter(..).count()`
    pub all_match : Filters P → Bool
    all_match no_filters = true
    all_match (filter_then f fs) = matches f && all_match fs

    pub any_match : Filters P → Bool
    any_match no_filters = false
    any_match (filter_then f fs) = matches f || any_match fs

    pub count_matches : Filters P → ℕ
    count_matches no_filters = 0
    count_matches (filter_then f fs) =
        if matches f then suc (count_matches fs) else count_matches fs

module _ {P : Type 0} where
  -- `filters.extend(rhs_filters)`
  unfoldable pub extend : Filters P → Filters P → Filters P
  extend no_filters gs = gs
  extend (filter_then f fs) gs = filter_then f (extend fs gs)

  -- `filters.push(f)`, and `vec![lhs, rhs]`
  unfoldable pub push : Filters P → EventFilter P → Filters P
  unfolding extend
  push fs f = extend fs (filter_then f no_filters)

  unfoldable pub two : EventFilter P → EventFilter P → Filters P
  two f g = filter_then f (filter_then g no_filters)

  -- `BitAnd`
  unfoldable pub bitand : EventFilter P → EventFilter P → EventFilter P
  unfolding push two
  bitand unfiltered rhs = rhs
  bitand (all_of fs) unfiltered = all_of fs
  bitand (all_of fs) (all_of gs) = all_of (extend fs gs)
  bitand (all_of fs) rhs = all_of (push fs rhs)
  bitand lhs unfiltered = lhs
  bitand lhs (all_of gs) = all_of (push gs lhs)
  bitand lhs rhs = all_of (two lhs rhs)

  -- `BitOr`
  unfoldable pub bitor : EventFilter P → EventFilter P → EventFilter P
  unfolding push two
  bitor unfiltered rhs = unfiltered
  bitor (any_of fs) unfiltered = unfiltered
  bitor (any_of fs) (any_of gs) = any_of (extend fs gs)
  bitor (any_of fs) rhs = any_of (push fs rhs)
  bitor lhs unfiltered = unfiltered
  bitor lhs (any_of gs) = any_of (push gs lhs)
  bitor lhs rhs = any_of (two lhs rhs)

  -- `BitXor`
  unfoldable pub bitxor : EventFilter P → EventFilter P → EventFilter P
  unfolding push two
  bitxor unfiltered rhs = rhs
  bitxor (one_of fs) unfiltered = one_of fs
  bitxor (one_of fs) (one_of gs) = one_of (extend fs gs)
  bitxor (one_of fs) rhs = one_of (push fs rhs)
  bitxor lhs unfiltered = lhs
  bitxor lhs (one_of gs) = one_of (push gs lhs)
  bitxor lhs rhs = one_of (two lhs rhs)
