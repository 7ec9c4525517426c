-- ===== src/Controlplane/Transactions.antt =====
-- crates/controlplane/src/state/transactions.rs: which transactions of a cannon are executed,
-- broadcast, confirmed or given up in a round of the tracking task.
pub mod Sorting
pub mod Queues
use snarkops.State.DateTime.{DateTime}
use snarkops.State.DateTime.{nanos}
use snarkops.Events.Models.{TransactionEvent, execute_exceeded, broadcast_exceeded}
use snarkops.State.NodeTarget.{NodeTargets}
use snarkops.Checkpoint.Retention.{second}
use snarkops.Common.{
  is_some, none, some, true, ◌*◌, false, ltb, ◌++◌, Bool, map, if◌then◌else◌, Option, ℕ, List, [],
  ◌∷◌,
}
use snarkops.Common.Int.{ltb_ℤ, ℤ, pos, ◌+ℤ◌, ◌-ℤ◌, ◌*ℤ◌}
use snarkops.Common.Text.{Text}
use snarkops.State.TransactionSendState.{
  TransactionSendState, authorized, executing, unsent, broadcasted,
}

-- `TxSink` of crates/controlplane/src/cannon/sink.rs, as far as the task reads it; the timeouts are
-- seconds.
pub record TxSink (P : Type 0) : Type 0 where
  pub target : Option (NodeTargets P)
  pub broadcast_attempts : Option ℕ
  pub broadcast_timeout : ℕ
  pub authorize_attempts : Option ℕ
  pub authorize_timeout : ℕ

-- `TransactionTracker` of crates/controlplane/src/cannon/tracker.rs, as far as the task reads it,
-- with the number of attempts that the database has for it.
pub record Tracker : Type 0 where
  pub tx_id : Text
  pub index : ℕ
  pub status : TransactionSendState
  pub attempts : ℕ

-- The vectors of the loop over the transactions of a cannon, and the events that it emits, which
-- carry no JSON.
pub record Pending : Type 0 where
  pub to_execute : List (Text × ℕ)
  pub to_broadcast : List (Text × ℕ)
  pub to_remove : List Text
  pub to_confirm : List ((Text × Option ℕ) × ℕ)
  pub emitted : List (Text × TransactionEvent Unit)

-- `is_some_and(|a| attempts > a)`
unfoldable pub is_exceeded : Option ℕ → ℕ → Bool
is_exceeded none attempts = false
is_exceeded (some a) attempts = ltb a attempts

-- `now - start > TimeDelta::seconds(timeout as i64)`
unfoldable pub has_expired : DateTime → DateTime → ℕ → Bool
unfolding nanos
has_expired now start timeout = ltb_ℤ (pos (timeout * second)) (nanos now -ℤ nanos start)

unfoldable pub height_changed : Option ℕ → Option ℕ → Bool
height_changed (some height) (some latest_height) = ltb height latest_height
height_changed none none = false
height_changed _ _ = true

module _ {P : Type 0} (sink : TxSink P) where
  unfoldable pub execute_or_remove : Tracker → Pending → Pending
  execute_or_remove tx q =
      if is_exceeded sink.authorize_attempts tx.attempts
      then record q {
        to_remove = q.to_remove ++ tx.tx_id ∷ [];
        emitted = q.emitted ++ (tx.tx_id, execute_exceeded tx.attempts) ∷ [];
      }
      else record q { to_execute = q.to_execute ++ (tx.tx_id, tx.index) ∷ [] }

  unfoldable pub broadcast_or_remove : Tracker → Pending → Pending
  broadcast_or_remove tx q =
      if is_exceeded sink.broadcast_attempts tx.attempts
      then record q {
        to_remove = q.to_remove ++ tx.tx_id ∷ [];
        emitted = q.emitted ++ (tx.tx_id, broadcast_exceeded tx.attempts) ∷ [];
      }
      else record q { to_broadcast = q.to_broadcast ++ (tx.tx_id, tx.index) ∷ [] }

  -- A confirm needs a node to ask.
  unfoldable pub queue_confirm : Tracker → Option ℕ → Pending → Pending
  queue_confirm tx height q =
      if is_some sink.target
      then record q { to_confirm = q.to_confirm ++ ((tx.tx_id, height), tx.index) ∷ [] }
      else q

  -- `match tx.status`
  unfoldable pub queue_status :
      DateTime → Option ℕ → Tracker → Pending → TransactionSendState → Pending
  unfolding execute_or_remove broadcast_or_remove queue_confirm
  queue_status now latest tx q authorized = execute_or_remove tx q
  queue_status now latest tx q (executing start_time) =
      if has_expired now start_time sink.authorize_timeout then execute_or_remove tx q else q
  queue_status now latest tx q unsent = broadcast_or_remove tx q
  queue_status now latest tx q (broadcasted height broadcast_time) =
      if height_changed height latest
      then (let confirming = queue_confirm tx height q in
          if has_expired now broadcast_time sink.broadcast_timeout
          then broadcast_or_remove tx confirming
          else confirming)
      else q

  -- `for tx in cannon.transactions.iter()`
  unfoldable pub queue_all : DateTime → Option ℕ → List Tracker → Pending → Pending
  unfolding queue_status
  queue_all now latest [] q = q
  queue_all now latest (tx ∷ txs) q =
      queue_all now latest txs (queue_status now latest tx q tx.status)

-- `sort_by_key`, which is stable: an element is inserted before those of the same index.
unfoldable pub insert_by_index : {A : Type 0} → A × ℕ → List (A × ℕ) → List (A × ℕ)
insert_by_index x [] = x ∷ []
insert_by_index x (y ∷ ys) = if ltb y.1 x.1 then y ∷ insert_by_index x ys else x ∷ y ∷ ys

unfoldable pub sort_by_index : {A : Type 0} → List (A × ℕ) → List (A × ℕ)
unfolding insert_by_index
sort_by_index [] = []
sort_by_index (x ∷ xs) = insert_by_index x (sort_by_index xs)

unfoldable pub sorted_by_index : {A : Type 0} → List (A × ℕ) → List A
unfolding sort_by_index
sorted_by_index xs = map (λ x. x.0) (sort_by_index xs)

pub record PendingTransactions : Type 0 where
  pub to_execute : List Text
  pub to_broadcast : List Text
  pub to_remove : List Text
  pub to_confirm : List (Text × Option ℕ)

abbrev pub no_pending : Pending
no_pending = record {
  to_execute = [];
  to_broadcast = [];
  to_remove = [];
  to_confirm = [];
  emitted = [];
}

unfoldable pub pending_of_queues : Pending → PendingTransactions
unfolding sorted_by_index
pending_of_queues q = record {
  to_execute = sorted_by_index q.to_execute;
  to_broadcast = sorted_by_index q.to_broadcast;
  to_remove = q.to_remove;
  to_confirm = sorted_by_index q.to_confirm;
}

-- A cannon of an environment: its identifiers, its sink and its transactions.
pub record Cannon (P : Type 0) : Type 0 where
  pub cannon_id : Text
  pub sink : TxSink P
  pub transactions : List Tracker

pub record Env (P : Type 0) : Type 0 where
  pub env_id : Text
  -- `get_env_block_info(env_id).map(|b| b.height)`
  pub latest_height : Option ℕ
  pub cannons : List (Cannon P)

module _ {P : Type 0} (now : DateTime) where
  unfoldable pub pending_of_cannon : Env P → Cannon P → (Text × Text) × PendingTransactions
  unfolding queue_all pending_of_queues
  pending_of_cannon env cannon = (
    (env.env_id, cannon.cannon_id),
    pending_of_queues (queue_all cannon.sink now env.latest_height cannon.transactions no_pending),
  )

  unfoldable pub get_pending_transactions :
      List (Env P) → List ((Text × Text) × PendingTransactions)
  unfolding pending_of_cannon
  get_pending_transactions [] = []
  get_pending_transactions (env ∷ envs) =
      map (pending_of_cannon env) env.cannons ++ get_pending_transactions envs
