-- ===== src/Agent/Reconcile/Order.antt =====
-- In which order `reconcile` of crates/agent/src/reconcile/agent.rs stops and starts a node.
use snarkops.Agent.Reconcile.Running.{resume_node-online, resume_node-offline}
use snarkops.State.HeightRequest.{HeightRequest}
use mathlib.Core.Option.{some-injective}
use snarkops.Agent.Node.{env_state_of, NodeState, AgentEnvInfo}
use snarkops.Agent.Parts.{Agent, Reconcilers, Status}
use snarkops.Agent.Reconcile.{
  resume_online, is_shutdown_pending, resume_node, prepare_node, reconcile_node, prepare_files,
  start_node, and_reconcile, Outcome,
}
use snarkops.Common.{
  sym, is_some, true, if◌then◌else◌, Option-cases, ◌⊎◌, ℕ, ◌≡◌, ◌∙◌, Option, none, some, false,
  Result, ok, err, inl, inr, refl, Bool-cases, Result-cases, ap,
}
use snarkops.Common.Text.{Text}
use snarkops.State.Reconcile.{is_requeue}

module _ {P C X W E : Type 0} (R : Reconcilers P C X W E) where
  -- A reconciler that is done: no error, and no requeue.
  abbrev pub IsReady : Result E Status → Type 0
  IsReady result = (v : Status) × (result ≡ ok v) × (is_requeue v ≡ false)

  and_reconcile-some :
      (scope : Text) (result : Result E Status) (s : Agent P X W)
      (onward : Status → Agent P X W → Outcome R) (p : P)
      → s.process ≡ none
      → (and_reconcile R scope (result, s) onward).1.process ≡ some p
      → (v : Status) × (result ≡ ok v) × (is_requeue v ≡ false) × ((onward v s).1.process ≡ some p)
  and_reconcile-some scope (err e) s onward p h started = absurd (cc (h, started))
  and_reconcile-some scope (ok v) s onward p h started = elim (Bool-cases (is_requeue v)) [
    | inl again ↦ absurd (cc (h, rw again at started))
    | inr ready ↦ (v, refl, ready, rw ready at started)
  ]

  -- A process `p` is the start of the node's command, at a state of the world.
  abbrev pub IsStart : NodeState → AgentEnvInfo → W → P → Type 0
  IsStart node info w p =
      (c : C) × (R.new_command node info w ≡ ok c) × ((R.start_process c w).0 ≡ ok p)

  start_node-IsStart :
      (node : NodeState) (info : AgentEnvInfo) (s : Agent P X W) (p : P)
      → s.process ≡ none
      → (start_node R node info s).1.process ≡ some p
      → IsStart node info s.world p
  unfolding start_node
  start_node-IsStart node info s p h e = elim (Result-cases (R.new_command node info s.world)) [
    | inr (_, failed) ↦ absurd (cc (h, rw (failed, start_node) at e))
    | inl (c, made) ↦ elim (Result-cases (R.start_process c s.world).0) [
      | inr (_, failed) ↦ absurd (cc (h, rw (made, failed, start_node) at e))
      | inl (q, started) ↦
          let same : q ≡ p = some-injective _ _ (rw (made, started, start_node) at e) in
          (c, made, started ∙ ap ok same)
    ]
  ]

  -- Genesis block, binary and ledger are ready one after the other, and then the process is started.
  abbrev pub IsPrepared : NodeState → AgentEnvInfo → X → Option (ℕ × HeightRequest) → W → P → Type 0
  IsPrepared node info x height w p =
      let genesis = R.genesis info x w in
      let binary = R.reconcile_binary info node genesis.1.0 genesis.1.1 in
      let ledger = R.ledger info node binary.1.0 height binary.1.1 in
      IsReady genesis.0 × IsReady binary.0 × IsReady ledger.0 × IsStart node info ledger.1.1.1 p

  prepare_files-IsPrepared :
      (node : NodeState) (info : AgentEnvInfo) (x : X) (s : Agent P X W) (p : P)
      → s.process ≡ none
      → (prepare_files R node info x s).1.process ≡ some p
      → IsPrepared node info x s.ledger_last_height s.world p
  unfolding prepare_files
  prepare_files-IsPrepared node info x s p h e =
      let (g, g_ok, g_ready, e1) = and_reconcile-some _ _ _ _ p h e in
      let (b, b_ok, b_ready, e2) = and_reconcile-some _ _ _ _ p h e1 in
      let (l, l_ok, l_ready, e3) = and_reconcile-some _ _ _ _ p h e2 in
      (
        (g, g_ok, g_ready),
        (b, b_ok, b_ready),
        (l, l_ok, l_ready),
        start_node-IsStart node info _ p h e3,
      )

  -- The storage has the version of the environment, and the files are prepared, from the state of
  -- transfers that is left or from the start.
  abbrev pub IsBuilt : NodeState → AgentEnvInfo → Option (ℕ × HeightRequest) → W → P → Type 0
  IsBuilt node info height w p =
      let version = R.reconcile_version info w in
      IsReady version.0
      × (x : X) × (w' : W) × ((w' ≡ version.1)
          ⊎ (w' ≡ R.save_env_state (some (env_state_of info)) version.1))
      × IsPrepared node info x height w' p

  prepare_node-IsBuilt :
      (node : NodeState) (info : AgentEnvInfo) (s : Agent P X W) (p : P)
      → s.process ≡ none
      → (prepare_node R node info s).1.process ≡ some p
      → IsBuilt node info s.ledger_last_height s.world p
  unfolding prepare_node
  prepare_node-IsBuilt node info s p h e =
      let version = R.reconcile_version info s.world in
      let s1 = record s { world = version.1 } in
      let (v, v_ok, v_ready, e1) = and_reconcile-some _ _ _ _ p h e in
      elim (Option-cases (if is_some v.inner then none else s.transfers)) [
        | inr (x, left) ↦ (
          (v, v_ok, v_ready),
          x,
          version.1,
          inl refl,
          prepare_files-IsPrepared node info x s1 p h (rw left at e1),
        )
        | inl none_left ↦
            let s2 = record s1 {
              env_state = some (env_state_of info);
              transfers = some R.no_transfers;
              world = R.save_env_state (some (env_state_of info)) version.1;
            } in
            (
              (v, v_ok, v_ready),
              R.no_transfers,
              s2.world,
              inr refl,
              prepare_files-IsPrepared node info R.no_transfers s2 p h (rw none_left at e1),
            )
      ]

  no_shutdown :
      (node : NodeState) (info : AgentEnvInfo) (s : Agent P X W)
      → s.process ≡ none
      → is_shutdown_pending R node info s ≡ false
  unfolding is_shutdown_pending
  no_shutdown node info s h = rw (h, is_shutdown_pending) refl

  -- If an agent without a process has one after a reconciliation, then its node is online, the
  -- addresses, the storage version, the genesis block, the binary and the ledger were all ready, one
  -- after the other, and the process is the start of the node's command after them.
  pub started_after_all :
      (node : NodeState) (info : AgentEnvInfo) (s : Agent P X W) (p : P)
      → R.get_env_info s.world ≡ ok info
      → s.process ≡ none
      → (reconcile_node R node s).1.process ≡ some p
      → (node.online ≡ true)
        × IsReady (R.address_resolve node s.world).0
        × IsBuilt node info s.ledger_last_height (R.address_resolve node s.world).1 p
  unfolding reconcile_node resume_online
  started_after_all node info s p known h e =
      let resumed : (resume_node R node info s).1.process ≡ some p =
        rw (known, no_shutdown node info s h, reconcile_node) at e in
      elim (Bool-cases node.online) [
        | inr offline ↦
            let stays = resume_node-offline R node info s offline in
            absurd (cc (h, ap (λ o. o.1.process) (sym stays) ∙ resumed))
        | inl online ↦
            let goes = resume_node-online R node info s online in
            let at_address : (resume_online R node info s).1.process ≡ some p =
              ap (λ o. o.1.process) (sym goes) ∙ resumed in
            let (v, v_ok, v_ready, e1) = and_reconcile-some _ _ _ _ p h at_address in
            (
              online,
              (v, v_ok, v_ready),
              prepare_node-IsBuilt node info
                  (record s { world = (R.address_resolve node s.world).1 }) p h (rw h at e1),
            )
      ]
