-- ===== src/Tests/Reconcile.antt =====
-- An agent of crates/agent/src/reconcile/agent.rs whose reconcilers are all done at once; the world
-- counts them.
use snarkops.Common.Dict.{lookup}
use snarkops.Common.{List, ◌∷◌, ℕ, ◌+◌, ◌≡◌, refl, none, some, ok, true, false, []}
use snarkops.Common.Text.{text_eq, codes}
use snarkops.Agent.Node.{env_state_of, NodeState, AgentEnvInfo}
use snarkops.State.NetworkId.{mainnet}
use snarkops.Agent.Parts.{Agent, Reconcilers, done}
use snarkops.State.Reconcile.{ReconcileOptions}
use snarkops.Agent.Loop.{Schedule, no_options, forced_shutdown, apply_options, gather}
use snarkops.Agent.Reconcile.{is_shutdown_pending, reconcile_node}
use snarkops.Agent.Reconcile.Order.{started_after_all, IsReady, IsBuilt}
use snarkops.Agent.Reconcile.Running.{running_kept}
use snarkops.State.HeightRequest.{top}

abbrev info : AgentEnvInfo
info = record { network = mainnet; storage_id = codes "base"; storage_version = 1; binaries = [] }

abbrev node : NodeState
node = record { height = (0, top); online = true; binary = none }

abbrev ready : Reconcilers ℕ ℕ ℕ ℕ ℕ
ready = record {
  get_env_info = λ w. ok info;
  end_process = λ p w. (ok done, (p, w + 1));
  address_resolve = λ n w. (ok done, w + 1);
  reconcile_version = λ i w. (ok done, w + 1);
  genesis = λ i x w. (ok done, (x, w + 1));
  reconcile_binary = λ i n x w. (ok done, (x, w + 1));
  ledger = λ i n x height w. (ok done, (x, (some n.height, w + 1)));
  new_command = λ n i w. ok w;
  start_process = λ c w. (ok c, w + 1);
  is_running = λ p. true;
  has_command = λ p c. true;
  is_sha256_eq = λ p sha256. true;
  no_transfers = 0;
  binary_transfer = λ x. none;
  is_node_online = λ w. true;
  node_status = λ w. none;
  clear_node_status = λ w. w;
  save_env_state = λ e w. w;
  clear_last_height = λ w. w;
}

abbrev idle : Agent ℕ ℕ ℕ
idle = record {
  env_state = none;
  ledger_last_height = none;
  transfers = none;
  process = none;
  shutdown_pending = false;
  world = 0;
}

abbrev busy : Agent ℕ ℕ ℕ
busy = record idle {
  env_state = some (env_state_of info);
  ledger_last_height = some (0, top);
  process = some 7;
}

-- The process is started with the command that is made after five reconcilers.
start_run : (reconcile_node ready node idle).1.process ≡ some 5
unfolding reconcile_node
start_run = refl

started_after_all_example :
    (node.online ≡ true)
    × IsReady ready (ready.address_resolve node 0).0
    × IsBuilt ready node info none 1 5
started_after_all_example = started_after_all ready node info idle 5 refl refl start_run

stays_run : is_shutdown_pending ready node info busy ≡ false
unfolding is_shutdown_pending env_state_of text_eq lookup
stays_run = refl

running_kept_example : (reconcile_node ready node busy).1.process ≡ some 7
running_kept_example = running_kept ready node info busy 7 refl refl refl stays_run

abbrev schedule : Schedule
schedule = record { err_backoff = 0; next_reconcile_at = 9; next_opts = no_options }

abbrev requests : List (ℕ × ReconcileOptions)
requests = (3, no_options) ∷ (5, record no_options { force_shutdown = true }) ∷ []

forced_shutdown_example :
    is_shutdown_pending ready node info
      (apply_options ready (λ w. w) (gather requests schedule).next_opts busy)
    ≡ true
forced_shutdown_example =
    forced_shutdown ready (λ w. w) requests schedule busy 7 node info refl refl
