-- ===== src/Agent/Reconcile/Running.antt =====
-- What `reconcile` of crates/agent/src/reconcile/agent.rs does to a node that runs.
use snarkops.Agent.Node.{NodeState, AgentEnvInfo}
use snarkops.Agent.Parts.{Agent, Reconcilers, Status}
use snarkops.Agent.Parts.{done}
use snarkops.Common.{arith, not, ap, ◌∙◌, if◌then◌else◌}
use snarkops.State.Reconcile.{add_scope}
use snarkops.Common.Text.{codes}
use snarkops.Agent.Reconcile.{
  resume_online, reconcile_node, and_reconcile, Outcome, watch_node, resume_node,
  is_shutdown_pending,
}
use snarkops.Common.{
  ◌≡◌, some, Bool, true, false, Result, ok, err, inl, inr, Bool-cases, Option-cases, Result-cases,
}
use snarkops.Common.Text.{Text}
use snarkops.State.Reconcile.{is_requeue}

choose-true : {A : Type 0} (b : Bool) (x y : A) → b ≡ true → (if not b then x else y) ≡ y
choose-true b x y h = ground (arith, h)

choose-false : {A : Type 0} (b : Bool) (x y : A) → b ≡ false → (if not b then x else y) ≡ x
choose-false b x y h = ground (arith, h)

module _ {P C X W E : Type 0} (R : Reconcilers P C X W E) where
  pub resume_node-online :
      (node : NodeState) (info : AgentEnvInfo) (s : Agent P X W)
      → node.online ≡ true
      → resume_node R node info s ≡ resume_online R node info s
  unfolding resume_node
  resume_node-online node info s h =
      choose-true node.online (ok (add_scope (codes "agent_state/offline") done), s)
        (resume_online R node info s) h

  pub resume_node-offline :
      (node : NodeState) (info : AgentEnvInfo) (s : Agent P X W)
      → node.online ≡ false
      → resume_node R node info s ≡ (ok (add_scope (codes "agent_state/offline") done), s)
  unfolding resume_node
  resume_node-offline node info s h =
      choose-false node.online (ok (add_scope (codes "agent_state/offline") done), s)
        (resume_online R node info s) h

  watch_node-keeps :
      (node : NodeState) (info : AgentEnvInfo) (s : Agent P X W) (p : P)
      → s.process ≡ some p
      → R.is_running p ≡ true
      → (watch_node R node info p s).1.process ≡ some p
  unfolding watch_node
  watch_node-keeps node info s p h running = elim (Result-cases (R.new_command node info s.world)) [
    | inr (_, failed) ↦ rw (running, failed, watch_node) h
    | inl (c, made) ↦ elim (Bool-cases (R.has_command p c)) [
      | inr other ↦ rw (running, made, other, watch_node) h
      | inl same ↦ elim (Bool-cases (R.is_node_online s.world)) [
        | inr away ↦ rw (running, made, same, away, watch_node) h
        | inl online ↦ elim (Option-cases (R.node_status s.world)) [
          | inl e ↦ rw (running, made, same, online, e, watch_node) h
          | inr (status, e) ↦ rw (running, made, same, online, e, watch_node) h
        ]
      ]
    ]
  ]

  and_reconcile-keeps :
      (scope : Text) (result : Result E Status) (s : Agent P X W)
      (onward : Status → Agent P X W → Outcome R) (p : P)
      → s.process ≡ some p
      → ((v : Status) → (onward v s).1.process ≡ some p)
      → (and_reconcile R scope (result, s) onward).1.process ≡ some p
  and_reconcile-keeps scope (err e) s onward p h k = h
  and_reconcile-keeps scope (ok v) s onward p h k = elim (Bool-cases (is_requeue v)) [
    | inl again ↦ rw again h
    | inr ready ↦ rw ready (k v)
  ]

  resume_node-keeps :
      (node : NodeState) (info : AgentEnvInfo) (s : Agent P X W) (p : P)
      → s.process ≡ some p
      → R.is_running p ≡ true
      → (resume_node R node info s).1.process ≡ some p
  unfolding resume_online
  resume_node-keeps node info s p h running =
      let s1 = record s { world = (R.address_resolve node s.world).1 } in
      elim (Bool-cases node.online) [
        | inr offline ↦ ap (λ o. o.1.process) (resume_node-offline node info s offline) ∙ h
        | inl online ↦
            ap (λ o. o.1.process) (resume_node-online node info s online)
            ∙ and_reconcile-keeps _ (R.address_resolve node s.world).0 s1 _ p h
                (λ v. rw h (watch_node-keeps node info s1 p h running))
      ]

  -- A process that runs while no shutdown is pending is left running, whatever else happens.
  pub running_kept :
      (node : NodeState) (info : AgentEnvInfo) (s : Agent P X W) (p : P)
      → R.get_env_info s.world ≡ ok info
      → s.process ≡ some p
      → R.is_running p ≡ true
      → is_shutdown_pending R node info s ≡ false
      → (reconcile_node R node s).1.process ≡ some p
  unfolding reconcile_node resume_node
  running_kept node info s p known h running stays =
      rw (known, stays, reconcile_node) (resume_node-keeps node info s p h running)
