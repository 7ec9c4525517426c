-- ===== src/Agent/Node.antt =====
-- The node and the environment that an agent reconciles with, of crates/common/src/api.rs and
-- crates/agent/src/reconcile/state.rs, as far as its reconciler reads them.
use snarkops.Common.{◌++◌, ℕ, ◌==◌, Option, none, Bool, not, ◌||◌, unwrap_or}
use snarkops.Common.Text.{Text, text_eq, codes}
use snarkops.Common.Dict.{Dict, lookup}
use snarkops.State.HeightRequest.{HeightRequest}
use snarkops.State.NetworkId.{NetworkId, network_eq, network_text}
use snarkops.State.Binaries.{BinaryEntry, path}

pub record AgentEnvInfo : Type 0 where
  pub network : NetworkId
  pub storage_id : Text
  pub storage_version : ℕ
  pub binaries : Dict Text BinaryEntry

pub record NodeState : Type 0 where
  pub height : ℕ × HeightRequest
  pub online : Bool
  pub binary : Option Text

unfoldable pub default_binary : AgentEnvInfo → BinaryEntry
unfolding network_text
default_binary info = record {
  source = path (
      codes "/content/storage/"
      ++ network_text info.network
      ++ codes "/"
      ++ info.storage_id
      ++ codes "/binaries/default");
  sha256 = none;
  size = none;
}

-- The binary of a node: that of its id, `default` if it has none, or the default one.
unfoldable pub target_binary : NodeState → AgentEnvInfo → BinaryEntry
unfolding default_binary
target_binary node info =
    unwrap_or (default_binary info)
      (lookup text_eq (unwrap_or (codes "default") node.binary) info.binaries)

pub record EnvState : Type 0 where
  pub env_network : NetworkId
  pub env_storage_id : Text
  pub env_storage_version : ℕ

-- `EnvState::changed`
unfoldable pub changed : EnvState → AgentEnvInfo → Bool
unfolding network_eq
changed e info =
    not (info.storage_version == e.env_storage_version)
    || (not (text_eq info.storage_id e.env_storage_id)
        || not (network_eq info.network e.env_network))

unfoldable pub env_state_of : AgentEnvInfo → EnvState
env_state_of info = record {
  env_network = info.network;
  env_storage_id = info.storage_id;
  env_storage_version = info.storage_version;
}
