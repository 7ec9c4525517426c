-- ===== src/Agent/Reconcile.antt =====
-- `AgentStateReconciler` of crates/agent/src/reconcile/agent.rs: the order in which an agent stops,
-- prepares and starts its node.
pub mod Order
pub mod Running
use snarkops.Agent.Parts.{Reconcilers, Agent, Status, done, SnarkosStatus, label, status_answer}
use snarkops.Checkpoint.Retention.{second}
use snarkops.Agent.Node.{NodeState, AgentEnvInfo, EnvState, changed, env_state_of, target_binary}
use snarkops.State.Binaries.{BinaryEntry, entry_eq}
use snarkops.Common.{
  ◌++◌, ℕ, ◌*◌, ◌==◌, Option, none, some, Bool, true, false, not, ◌||◌, ◌&&◌, Result, ok, err,
  is_some, if◌then◌else◌,
}
use snarkops.Common.Text.{Text, codes}
use snarkops.State.HeightRequest.{HeightRequest, request_eq, is_top}
use snarkops.State.Reconcile.{
  ReconcileStatus, status_of, empty, is_requeue, requeue_after, add_scope, add_condition,
  pending_startup,
}

abbrev same_height : Option (ℕ × HeightRequest) → ℕ × HeightRequest → Bool
same_height none h = false
same_height (some g) h = (g.0 == h.0) && request_eq g.1 h.1

module _ {P C X W E : Type 0} (R : Reconcilers P C X W E) where
  abbrev pub Outcome : Type 0
  Outcome = Result E Status × Agent P X W

  -- The macro `reconcile!`: an error or a requeue ends the reconciliation.
  abbrev pub and_reconcile :
      Text → Result E Status × Agent P X W → (Status → Agent P X W → Outcome) → Outcome
  and_reconcile scope (err e, s) onward = (err e, s)
  and_reconcile scope (ok v, s) onward =
      if is_requeue v then (ok (add_scope scope v), s) else onward v s

  -- `reconcile!(end_process, ..)`
  unfoldable pub end_node : P → Agent P X W → (Agent P X W → Outcome) → Outcome
  unfolding is_requeue add_scope
  end_node p s onward =
      let (result, (p', w)) = R.end_process p s.world in
      and_reconcile (codes "end_process/requeue")
        (result, record s { process = some p'; world = w })
        λ v s'. onward (
          if is_some v.inner
          then record s' {
            process = none;
            world = R.clear_node_status s'.world;
            shutdown_pending = false;
          }
          else s')

  unfoldable pub reset_transfers : Agent P X W → Outcome
  unfolding add_scope
  reset_transfers s = elim s.transfers [
    | none ↦ (ok (add_scope (codes "agent_state/inventory") done), s)
    | some x ↦ (
      ok (add_scope (codes "agent_state/inventory") done),
      record s {
        env_state = none;
        ledger_last_height = none;
        transfers = none;
        world = R.clear_last_height (R.save_env_state none s.world);
      },
    )
  ]

  unfoldable pub reconcile_inventory : Agent P X W → Outcome
  unfolding end_node reset_transfers
  reconcile_inventory s = elim s.process [
    | none ↦ reset_transfers s
    | some p ↦ end_node p s reset_transfers
  ]

  -- The last tests of `is_shutdown_pending`, on the binary of a process.
  unfoldable pub is_binary_changed : P → Option X → BinaryEntry → Bool
  unfolding entry_eq
  is_binary_changed p transfers target =
      elim target.sha256 [ none ↦ false | some sha256 ↦ not (R.is_sha256_eq p sha256) ]
      || elim transfers [
        | none ↦ false
        | some x ↦ elim (R.binary_transfer x) [
          | none ↦ false
          | some entry ↦ not (entry_eq entry target)
        ]
      ]

  unfoldable pub is_shutdown_pending : NodeState → AgentEnvInfo → Agent P X W → Bool
  unfolding changed is_top is_binary_changed target_binary
  is_shutdown_pending node info s = elim s.process [
    | none ↦ false
    | some p ↦
        s.shutdown_pending
        || (not node.online
            || (elim s.env_state [ none ↦ true | some e ↦ changed e info ]
                || ((not (same_height s.ledger_last_height node.height)
                      && not (is_top node.height.1))
                    || is_binary_changed p s.transfers (target_binary node info))))
  ]

  -- While the node is running.
  unfoldable pub watch_node : NodeState → AgentEnvInfo → P → Agent P X W → Outcome
  unfolding add_scope requeue_after add_condition status_answer label
  watch_node node info p s =
      if not (R.is_running p)
      then (
        ok (add_scope (codes "agent_state/exited") (requeue_after 0 empty)),
        record s { process = none },
      )
      else elim (R.new_command node info s.world) [
        | err e ↦ (err e, s)
        | ok command ↦
            if not (R.has_command p command)
            then (
              ok (requeue_after 0 (add_scope (codes "agent_state/command_changed") empty)),
              record s { shutdown_pending = true },
            )
            else if R.is_node_online s.world
            then elim (R.node_status s.world) [
              | none ↦ (ok (add_scope (codes "agent_state/node/booting") empty), s)
              | some status ↦ (
                ok (add_scope (codes "agent_state/node/" ++ label status) (status_answer status)),
                s,
              )
            ]
            else (
              ok (
                  add_scope (codes "agent_state/node/booting")
                    (add_condition pending_startup (requeue_after second empty))),
              s,
            )
      ]

  unfoldable pub start_node : NodeState → AgentEnvInfo → Agent P X W → Outcome
  unfolding add_scope requeue_after
  start_node node info s = elim (R.new_command node info s.world) [
    | err e ↦ (err e, s)
    | ok command ↦
        let (outcome, w) = R.start_process command s.world in
        elim outcome [
          | err e ↦ (err e, record s { world = w })
          | ok p ↦ (
            ok (requeue_after second (add_scope (codes "agent_state/node/booting") empty)),
            record s { process = some p; shutdown_pending = false; world = R.clear_node_status w },
          )
        ]
  ]

  -- The genesis block, the binary and the ledger, in this order, with the state of transfers.
  unfoldable pub prepare_files : NodeState → AgentEnvInfo → X → Agent P X W → Outcome
  unfolding is_requeue add_scope start_node
  prepare_files node info x s =
      let (genesis, (x1, w1)) = R.genesis info x s.world in
      and_reconcile (codes "genesis/requeue")
        (genesis, record s { transfers = some x1; world = w1 })
        λ _ s1.
          let (binary, (x2, w2)) = R.reconcile_binary info node x1 w1 in
          and_reconcile (codes "binary/requeue")
            (binary, record s1 { transfers = some x2; world = w2 })
            λ _ s2.
              let (ledger, (x3, (height, w3))) = R.ledger info node x2 s2.ledger_last_height w2 in
              and_reconcile (codes "ledger/requeue")
                (ledger, record s2 { transfers = some x3; ledger_last_height = height; world = w3 })
                λ _ s3. start_node node info s3

  -- The storage version, which clears the transfers when it succeeds, and the start of the transfers.
  unfoldable pub prepare_node : NodeState → AgentEnvInfo → Agent P X W → Outcome
  unfolding is_requeue add_scope prepare_files env_state_of
  prepare_node node info s =
      let (version, w) = R.reconcile_version info s.world in
      and_reconcile (codes "storage_version/requeue") (version, record s { world = w })
        λ v s1. elim (if is_some v.inner then none else s1.transfers) [
          | some x ↦ prepare_files node info x s1
          | none ↦ prepare_files node info R.no_transfers (record s1 {
            env_state = some (env_state_of info);
            transfers = some R.no_transfers;
            world = R.save_env_state (some (env_state_of info)) s1.world;
          })
        ]

  -- The addresses, and then what is left to do for a node that is online.
  unfoldable pub resume_online : NodeState → AgentEnvInfo → Agent P X W → Outcome
  unfolding is_requeue add_scope watch_node prepare_node
  resume_online node info s =
      let (address, w) = R.address_resolve node s.world in
      and_reconcile (codes "address_resolve/requeue") (address, record s { world = w })
        λ _ s1. elim s1.process [
          | some p ↦ watch_node node info p s1
          | none ↦ prepare_node node info s1
        ]

  -- What follows once no shutdown is pending.
  unfoldable pub resume_node : NodeState → AgentEnvInfo → Agent P X W → Outcome
  unfolding resume_online
  resume_node node info s =
      if not node.online
      then (ok (add_scope (codes "agent_state/offline") done), s)
      else resume_online node info s

  -- `reconcile` of an agent that has a node. A shutdown is pending only if there is a process.
  unfoldable pub reconcile_node : NodeState → Agent P X W → Outcome
  unfolding is_shutdown_pending end_node resume_node
  reconcile_node node s = elim (R.get_env_info s.world) [
    | err e ↦ (err e, s)
    | ok info ↦
        if is_shutdown_pending node info s
        then elim s.process [
          | none ↦ resume_node node info s
          | some p ↦ end_node p (record s { shutdown_pending = true }) (resume_node node info)
        ]
        else resume_node node info s
  ]
