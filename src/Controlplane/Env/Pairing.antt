-- ===== src/Controlplane/Env/Pairing.antt =====
-- `pair_with_nodes` of crates/controlplane/src/env/set.rs. The threads of its two loops take the
-- nodes in any order, one claim after the other; the lists of nodes stand for that order.
pub mod Served
pub mod Assigned
pub mod Chosen
pub mod Every
use snarkops.Common.Text.{text_eq, Text}
use snarkops.Common.{
  ltb, not, ◌+◌, ◌&&◌, ◌++◌, Option, length, Bool, if◌then◌else◌, Result, ℕ, List, [], ◌∷◌, refl,
  none, some, true, false, arith, ok, err,
}
use snarkops.State.NodeKey.{NodeKey}
use snarkops.State.NodeType.{bit}
use snarkops.Controlplane.Env.BitSet.{BitSet}
use snarkops.Controlplane.Env.Mask.{Node, has_label, node_mask}

-- An agent of the pool that was free for the environment when the mapping was made.
pub record AgentMapping (S : Type 0) : Type 0 where
  pub id : Text
  pub mask : S

pub data DelegationError : Type 0 where
  agent_already_claimed agent_missing_mode agent_not_found : Text → NodeKey → DelegationError
  insufficient_agent_count : ℕ → ℕ → DelegationError
  no_available_agents : NodeKey → DelegationError

pub data EnvNodeState : Type 0 where
  internal : Node → EnvNodeState
  external : EnvNodeState

-- The channels of claimed nodes and of errors, and the agents whose claim is held.
pub record Pairs : Type 0 where
  pub claimed : List (NodeKey × Text)
  pub errors : List DelegationError
  pub busy : List Text

abbrev pub is_busy : List Text → Text → Bool
is_busy busy id = has_label busy id

unfoldable pub settle : Pairs → NodeKey → Result DelegationError Text → Pairs
settle p key (err e) = record p { errors = p.errors ++ e ∷ [] }
settle p key (ok id) = record p { claimed = p.claimed ++ (key, id) ∷ []; busy = id ∷ p.busy }

-- `into_par_iter().for_each(..)`, with what it does for a node.
unfoldable pub pair_all :
    {W : Type 0}
    → (List Text → NodeKey × W → Result DelegationError Text)
    → List (NodeKey × W)
    → Pairs
    → Pairs
unfolding settle
pair_all choose [] p = p
pair_all choose (w ∷ ws) p = pair_all choose ws (settle p w.0 (choose p.busy w))

module _ {S : Type 0} (B : BitSet S) where
  -- The nodes that want an agent, with its identifier, and the others, with their mask.
  unfoldable pub want_ids : List (NodeKey × EnvNodeState) → List (NodeKey × Text)
  want_ids [] = []
  want_ids ((key, external) ∷ nodes) = want_ids nodes
  want_ids ((key, internal n) ∷ nodes) = elim n.agent [
    | none ↦ want_ids nodes
    | some agent ↦ (key, agent) ∷ want_ids nodes
  ]

  unfoldable pub want_labels : List Text → List (NodeKey × EnvNodeState) → List (NodeKey × S)
  want_labels labels [] = []
  want_labels labels ((key, external) ∷ nodes) = want_labels labels nodes
  want_labels labels ((key, internal n) ∷ nodes) = elim n.agent [
    | none ↦ (key, node_mask B n key.ty labels) ∷ want_labels labels nodes
    | some agent ↦ want_labels labels nodes
  ]

  -- `agent_map.get(&id)`: of agents with the same identifier the last one is in the map.
  unfoldable pub find_agent : Text → List (AgentMapping S) → Option (AgentMapping S)
  find_agent id [] = none
  find_agent id (a ∷ agents) = elim (find_agent id agents) [
    | some b ↦ some b
    | none ↦ if text_eq a.id id then some a else none
  ]

  unfoldable pub claim_agent :
      List Text → NodeKey → Text → AgentMapping S → Result DelegationError Text
  claim_agent busy key id a =
      if not (B.contains a.mask (bit key.ty))
      then err (agent_missing_mode id key)
      else if is_busy busy a.id
      then err (agent_already_claimed id key)
      else ok id

  unfoldable pub choose_by_id :
      List (AgentMapping S) → List Text → NodeKey × Text → Result DelegationError Text
  unfolding find_agent claim_agent
  choose_by_id agents busy (key, id) = elim (find_agent id agents) [
    | none ↦ err (agent_not_found id key)
    | some a ↦ claim_agent busy key id a
  ]

  -- `agents.iter().find_map(|a| a.claim_if_subset(&mask).map(..))`
  unfoldable pub choose_by_mask :
      List (AgentMapping S) → List Text → NodeKey × S → Result DelegationError Text
  choose_by_mask [] busy (key, mask) = err (no_available_agents key)
  choose_by_mask (a ∷ agents) busy (key, mask) =
      if B.is_subset mask a.mask && not (is_busy busy a.id)
      then ok a.id
      else choose_by_mask agents busy (key, mask)

  -- If there is an error, the claims are dropped again.
  unfoldable pub finish : Pairs → Result (List DelegationError) (List (NodeKey × Text))
  finish p = elim p.errors [ [] ↦ ok p.claimed | e ∷ es ↦ err (e ∷ es) ]

  unfoldable pub pair_with_nodes :
      List (AgentMapping S)
      → List (NodeKey × EnvNodeState)
      → List Text
      → List Text
      → Result (List DelegationError) (List (NodeKey × Text))
  unfolding want_ids want_labels choose_by_id choose_by_mask pair_all finish
  pair_with_nodes agents nodes labels busy =
      let ids = want_ids nodes in
      let masks = want_labels labels nodes in
      let num_needed = length ids + length masks in
      if ltb (length agents) num_needed
      then err (insufficient_agent_count (length agents) num_needed ∷ [])
      else finish (
          pair_all (choose_by_mask agents) masks (
            pair_all (choose_by_id agents) ids (record { claimed = []; errors = []; busy = busy })))
