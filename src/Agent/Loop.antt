-- ===== src/Agent/Loop.antt =====
-- `loop_forever` of crates/agent/src/reconcile/agent.rs: when an agent reconciles, with which options,
-- and when it tries again. A time is a number of nanoseconds.
use Prim.Native.Nat.{min}
use snarkops.Agent.Node.{AgentEnvInfo, NodeState}
use snarkops.Agent.Parts.{Agent, Reconcilers, Status}
use snarkops.Agent.Reconcile.{is_shutdown_pending, Outcome, reconcile_inventory, reconcile_node}
use snarkops.Checkpoint.Retention.{second}
use snarkops.Common.{
  Option-cases, inl, inr, refl, ◌∙◌, ℕ, ◌+◌, ◌*◌, ◌≤◌, ◌≡◌, ◌&&◌, ◌||◌, Bool, true, false, none,
  some, List, [], ◌∷◌, Result, ok, err, is_some, if◌then◌else◌, arith,
}
use snarkops.State.Reconcile.{ReconcileOptions, union}

pub data AgentState : Type 0 where
  inventory : AgentState
  node_state : NodeState → AgentState

-- The variables of the loop.
pub record Schedule : Type 0 where
  pub err_backoff : ℕ
  pub next_reconcile_at : ℕ
  pub next_opts : ReconcileOptions

abbrev pub no_options : ReconcileOptions
no_options = record { refetch_info = false; force_shutdown = false; clear_last_height = false }

-- The requests that arrive before the loop wakes.
unfoldable pub gather : List (ℕ × ReconcileOptions) → Schedule → Schedule
unfolding union
gather [] schedule = schedule
gather ((time, opts) ∷ requests) schedule = gather requests (record schedule {
  next_reconcile_at = min schedule.next_reconcile_at time;
  next_opts = union schedule.next_opts opts;
})

-- The match on the result, with the time at the start of the round and at its end.
unfoldable pub reschedule : {E : Type 0} → ℕ → ℕ → Result E Status → Schedule → Schedule
reschedule start now (ok status) schedule = record {
  err_backoff = if is_some status.inner then 0 else schedule.err_backoff;
  next_reconcile_at = elim status.requeue_time [
    | none ↦ start + 60 * second
    | some duration ↦ now + duration
  ];
  next_opts = no_options;
}
reschedule start now (err e) schedule =
    let backoff = min (schedule.err_backoff + 5) 30 in
    record {
      err_backoff = backoff;
      next_reconcile_at = now + backoff * second;
      next_opts = no_options;
    }

module _ {P C X W E : Type 0} (R : Reconcilers P C X W E) (clear_env_info : W → W) where
  -- `if next_opts.refetch_info`
  unfoldable pub refetch : Bool → Agent P X W → Agent P X W
  refetch true s = record s { world = clear_env_info s.world }
  refetch false s = s

  -- `if next_opts.force_shutdown && self.has_process()`
  unfoldable pub shut_down : Bool → Agent P X W → Agent P X W
  shut_down asked s = if asked && is_some s.process then record s { shutdown_pending = true } else s

  -- `if next_opts.clear_last_height`
  unfoldable pub clear_height : Bool → Agent P X W → Agent P X W
  clear_height true s = record s { ledger_last_height = none; world = R.clear_last_height s.world }
  clear_height false s = s

  unfoldable pub apply_options : ReconcileOptions → Agent P X W → Agent P X W
  unfolding refetch shut_down clear_height
  apply_options opts s =
      clear_height opts.clear_last_height
        (shut_down opts.force_shutdown (refetch opts.refetch_info s))

  unfoldable pub reconcile : AgentState → Agent P X W → Outcome R
  unfolding reconcile_inventory reconcile_node
  reconcile inventory s = reconcile_inventory R s
  reconcile (node_state node) s = reconcile_node R node s

  -- A round of the loop: the requests that it waits with, and the state of the agent that it reads.
  -- What else is in the queue when it wakes is dropped with its options.
  unfoldable pub loop_round :
      ℕ
      → ℕ
      → List (ℕ × ReconcileOptions)
      → AgentState
      → Schedule × Agent P X W
      → Schedule × Agent P X W
  unfolding gather apply_options reconcile reschedule
  loop_round start now requests state (schedule, s) =
      let waited = gather requests schedule in
      let (result, s') = reconcile state (apply_options waited.next_opts s) in
      (reschedule start now result waited, s')

-- A request among some asks for a shutdown.
abbrev pub asks_shutdown : List (ℕ × ReconcileOptions) → Bool
asks_shutdown [] = false
asks_shutdown ((time, opts) ∷ requests) = opts.force_shutdown || asks_shutdown requests

gather-force_shutdown :
    (requests : List (ℕ × ReconcileOptions)) (schedule : Schedule)
    → (gather requests schedule).next_opts.force_shutdown
      ≡ (schedule.next_opts.force_shutdown || asks_shutdown requests)
unfolding gather union
gather-force_shutdown [] schedule = ground arith
gather-force_shutdown ((time, opts) ∷ requests) schedule = ground (
  arith,
  gather-force_shutdown requests (record schedule {
    next_reconcile_at = min schedule.next_reconcile_at time;
    next_opts = union schedule.next_opts opts;
  }),
)

gather-err_backoff :
    (requests : List (ℕ × ReconcileOptions)) (schedule : Schedule)
    → (gather requests schedule).err_backoff ≡ schedule.err_backoff
unfolding gather
gather-err_backoff [] schedule = refl
gather-err_backoff ((time, opts) ∷ requests) schedule = gather-err_backoff requests _

reschedule-err_backoff :
    {E : Type 0} (start now : ℕ) (result : Result E Status) (schedule : Schedule)
    → schedule.err_backoff ≤ 30
    → (reschedule start now result schedule).err_backoff ≤ 30
unfolding reschedule
reschedule-err_backoff start now (ok status) schedule h = ground (arith, h)
reschedule-err_backoff start now (err e) schedule h = omega arith

module _ {P C X W E : Type 0} (R : Reconcilers P C X W E) (clear_env_info : W → W) where
  -- Whatever is requested and whatever fails, the backoff stays at most 30 seconds.
  loop_round-err_backoff :
      (start now : ℕ) (requests : List (ℕ × ReconcileOptions)) (state : AgentState)
      (schedule : Schedule) (s : Agent P X W)
      → schedule.err_backoff ≤ 30
      → (loop_round R clear_env_info start now requests state (schedule, s)).0.err_backoff ≤ 30
  unfolding loop_round
  loop_round-err_backoff start now requests state schedule s h =
      reschedule-err_backoff start now _ (gather requests schedule)
        (rw (gather-err_backoff requests schedule) h)

  refetch-process :
      (b : Bool) (s : Agent P X W) → (refetch R clear_env_info b s).process ≡ s.process
  unfolding refetch
  refetch-process true s = refl
  refetch-process false s = refl

  shut_down-force :
      (b : Bool) (s : Agent P X W) (p : P)
      → b ≡ true
      → s.process ≡ some p
      → ((shut_down R clear_env_info b s).shutdown_pending ≡ true)
        × ((shut_down R clear_env_info b s).process ≡ some p)
  unfolding shut_down
  shut_down-force true s p h e = elim (Option-cases s.process) [
    | inl gone ↦ absurd (cc (gone, e))
    | inr (q, held) ↦
        let some_process : is_some s.process ≡ true = rw held refl in
        (rw (some_process, shut_down) refl, rw (some_process, shut_down) e)
  ]
  shut_down-force false s p h e = absurd (cc h)

  clear_height-same :
      (b : Bool) (s : Agent P X W)
      → ((clear_height R clear_env_info b s).shutdown_pending ≡ s.shutdown_pending)
        × ((clear_height R clear_env_info b s).process ≡ s.process)
  unfolding clear_height
  clear_height-same true s = (refl, refl)
  clear_height-same false s = (refl, refl)

  apply_options-force_shutdown :
      (opts : ReconcileOptions) (s : Agent P X W) (p : P)
      → opts.force_shutdown ≡ true
      → s.process ≡ some p
      → ((apply_options R clear_env_info opts s).shutdown_pending ≡ true)
        × ((apply_options R clear_env_info opts s).process ≡ some p)
  unfolding apply_options
  apply_options-force_shutdown opts s p h e =
      let fetched = refetch-process opts.refetch_info s ∙ e in
      let after = shut_down-force opts.force_shutdown _ p h fetched in
      let cleared = clear_height-same opts.clear_last_height _ in
      (cleared.0 ∙ after.0, cleared.1 ∙ after.1)

  -- If the agent has a process and a request that the loop waited with asks for a shutdown, then a
  -- shutdown is pending in the round's reconciliation, whatever the node and its environment.
  pub forced_shutdown :
      (requests : List (ℕ × ReconcileOptions)) (schedule : Schedule) (s : Agent P X W) (p : P)
      (node : NodeState) (info : AgentEnvInfo)
      → asks_shutdown requests ≡ true
      → s.process ≡ some p
      → is_shutdown_pending R node info
          (apply_options R clear_env_info (gather requests schedule).next_opts s)
        ≡ true
  unfolding is_shutdown_pending
  forced_shutdown requests schedule s p node info h e =
      let asked : (gather requests schedule).next_opts.force_shutdown ≡ true =
        gather-force_shutdown requests schedule ∙ ground (arith, h) in
      let (pending, kept) =
        apply_options-force_shutdown (gather requests schedule).next_opts s p asked e in
      rw (kept, pending, is_shutdown_pending) refl
