-- ===== src/Tests/Persist.antt =====
-- Runs of the formats of crates/controlplane/src/persist and of the sources of keys.
use snarkops.Common.Index.{member}
use snarkops.Controlplane.Agents.{from_components}
use snarkops.Controlplane.Persist.Agent.{
  read_agent, write_agent, latest_agent_header, read_agent-write_agent,
}
use snarkops.Controlplane.Persist.Env.{
  persist_env_format, persist_env_format-IsLawful, IsPersistEnv,
}
use snarkops.Controlplane.Persist.Storage.{storage_format, storage_format-IsLawful, IsStorage}
use snarkops.State.NodeState.{node_state_format}
use snarkops.State.NodeState.RoundTrip.{node_state_format-IsLawful, IsNodeState}
use snarkops.State.KeySource.{committee, key_source_from_str, key_source_text}
use snarkops.State.KeySource.RoundTrip.{key_source_from_str-key_source_text}
use snarkops.Format.Laws.{IsLawful}
use snarkops.Tests.Nodes.{exact, any_text}
use snarkops.Tests.Environments.{agent_x}
use snarkops.Common.{some, ok, [], ◌++◌, ◌≡◌, refl, arith}

persist_env_format-IsLawful_example :
    IsLawful (persist_env_format exact any_text) (IsPersistEnv exact any_text)
persist_env_format-IsLawful_example = persist_env_format-IsLawful exact any_text

storage_format-IsLawful_example : IsLawful (storage_format some any_text) (IsStorage some any_text)
storage_format-IsLawful_example = storage_format-IsLawful some any_text

node_state_format-IsLawful_example : IsLawful (node_state_format any_text) (IsNodeState any_text)
node_state_format-IsLawful_example = node_state_format-IsLawful any_text

key_source_from_str-key_source_text_example :
    key_source_from_str (key_source_text (committee (some 3))) ≡ ok (committee (some 3))
key_source_from_str-key_source_text_example =
    key_source_from_str-key_source_text (committee (some 3)) (omega arith)

read_agent-write_agent_example :
    read_agent any_text {C = Unit {0}} latest_agent_header
      ((write_agent any_text agent_x).bytes ++ [])
    ≡ ok
        (from_components agent_x.claims agent_x.state agent_x.flags agent_x.ports agent_x.addrs, [])
unfolding member
read_agent-write_agent_example = read_agent-write_agent any_text agent_x [] (record {
  id_valid = (omega arith, refl);
  nonce_fits = omega arith;
  state_valid = tt;
  labels_valid = (omega arith, ((omega arith, refl), tt), (refl, tt));
  ports_valid = tt;
  addrs_valid = (refl, (omega arith, tt));
})
