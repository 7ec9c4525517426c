-- ===== src/Agent/Parts.antt =====
-- What `AgentStateReconciler` of crates/agent/src/reconcile/agent.rs works with: the reconcilers that
-- it runs, each of a file of its own, are an interface; `W` is what they change outside of the
-- context: files, the database, the status of the node.
use snarkops.Checkpoint.Retention.{second}
use snarkops.Agent.Node.{NodeState, AgentEnvInfo, EnvState}
use snarkops.State.Binaries.{BinaryEntry}
use snarkops.Common.{ℕ, ◌*◌, Option, some, Bool, Result}
use snarkops.Common.Text.{Text, codes}
use snarkops.State.HeightRequest.{HeightRequest}
use snarkops.State.Reconcile.{ReconcileStatus, status_of, empty, requeue_after}

pub data SnarkosStatus : Type 0 where
  starting ledger_loading started : SnarkosStatus
  ledger_failure : Text → SnarkosStatus
  halted : Option Text → SnarkosStatus

abbrev pub Status : Type 0
Status = ReconcileStatus (Unit {0})

-- `ReconcileStatus::default()`
abbrev pub done : Status
done = status_of (some tt)

-- A process `P`, a command `C`, the state `X` of transfers, and errors `E`.
pub record Reconcilers (P C X W E : Type 0) : Type 0 where
  pub get_env_info : W → Result E AgentEnvInfo
  pub end_process : P → W → Result E Status × (P × W)
  pub address_resolve : NodeState → W → Result E Status × W
  pub reconcile_version : AgentEnvInfo → W → Result E Status × W
  pub genesis : AgentEnvInfo → X → W → Result E Status × (X × W)
  pub reconcile_binary : AgentEnvInfo → NodeState → X → W → Result E Status × (X × W)
  pub ledger :
      AgentEnvInfo
      → NodeState
      → X
      → Option (ℕ × HeightRequest)
      → W
      → Result E Status × (X × (Option (ℕ × HeightRequest) × W))
  pub new_command : NodeState → AgentEnvInfo → W → Result E C
  pub start_process : C → W → Result E P × W
  pub is_running : P → Bool
  pub has_command : P → C → Bool
  pub is_sha256_eq : P → Text → Bool
  pub no_transfers : X
  pub binary_transfer : X → Option BinaryEntry
  pub is_node_online : W → Bool
  pub node_status : W → Option SnarkosStatus
  pub clear_node_status : W → W
  pub save_env_state : Option EnvState → W → W
  pub clear_last_height : W → W

-- `AgentStateReconcilerContext`, and the rest.
pub record Agent (P X W : Type 0) : Type 0 where
  pub env_state : Option EnvState
  pub ledger_last_height : Option (ℕ × HeightRequest)
  pub transfers : Option X
  pub process : Option P
  pub shutdown_pending : Bool
  pub world : W

unfoldable pub status_answer : SnarkosStatus → Status
unfolding requeue_after
status_answer started = done
status_answer (ledger_failure e) = empty
status_answer (halted e) = empty
status_answer starting = requeue_after (5 * second) empty
status_answer ledger_loading = requeue_after (5 * second) empty

unfoldable pub label : SnarkosStatus → Text
label starting = codes "starting"
label ledger_loading = codes "loading"
label (ledger_failure e) = codes "failure"
label started = codes "started"
label (halted e) = codes "halted"
