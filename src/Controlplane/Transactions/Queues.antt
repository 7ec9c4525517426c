-- ===== src/Controlplane/Transactions/Queues.antt =====
-- The queues that `get_pending_transactions` of crates/controlplane/src/state/transactions.rs fills,
-- told by what a transaction waits for.
use snarkops.State.DateTime.{DateTime}
use snarkops.Events.Models.{TransactionEvent, execute_exceeded, broadcast_exceeded}
use snarkops.Common.Text.{Text}
use snarkops.State.TransactionSendState.{unsent, authorized, TransactionSendState}
use snarkops.Controlplane.Transactions.{
  sorted_by_index, Cannon, Env, pending_of_cannon, no_pending, queue_all, height_changed,
  broadcasted, has_expired, executing, is_exceeded, Pending, queue_status, Tracker, TxSink,
}
use snarkops.Common.{
  is_some, refl, arith, inr, append_assoc, inl, Bool-cases, sym, List, none, true, ◌&&◌, append-nil,
  filter, map, ◌++◌, ◌≡◌, false, not, Option, Bool, ℕ, [], ◌∷◌, arith,
}

-- What the sending of a transaction waits for at a time and a height of the network.
pub data Wait : Type 0 where
  for_execution for_broadcast for_nothing : Wait

abbrev pub wait_for : Wait → Bool → Wait
wait_for w true = w
wait_for w false = for_nothing

abbrev pub queued : Tracker → Text × ℕ
queued tx = (tx.tx_id, tx.index)

abbrev pub id_of : Tracker → Text
id_of tx = tx.tx_id

abbrev pub confirming : Tracker → (Text × Option ℕ) × ℕ
confirming tx = elim tx.status [
  | authorized ↦ ((tx.tx_id, none), tx.index)
  | executing start ↦ ((tx.tx_id, none), tx.index)
  | unsent ↦ ((tx.tx_id, none), tx.index)
  | broadcasted height start ↦ ((tx.tx_id, height), tx.index)
]

module _ {P : Type 0} (sink : TxSink P) (now : DateTime) (latest : Option ℕ) where
  abbrev pub waits_for : TransactionSendState → Wait
  waits_for authorized = for_execution
  waits_for (executing start) =
      wait_for for_execution (has_expired now start sink.authorize_timeout)
  waits_for unsent = for_broadcast
  waits_for (broadcasted height start) =
      wait_for for_broadcast
        (height_changed height latest && has_expired now start sink.broadcast_timeout)

  -- Whether it is tried again, or was tried too often.
  abbrev pub is_to_execute : Tracker → Bool
  is_to_execute tx = elim (waits_for tx.status) [
    | for_execution ↦ not (is_exceeded sink.authorize_attempts tx.attempts)
    | for_broadcast ↦ false
    | for_nothing ↦ false
  ]

  abbrev pub is_to_broadcast : Tracker → Bool
  is_to_broadcast tx = elim (waits_for tx.status) [
    | for_execution ↦ false
    | for_broadcast ↦ not (is_exceeded sink.broadcast_attempts tx.attempts)
    | for_nothing ↦ false
  ]

  abbrev pub is_given_up : Tracker → Bool
  is_given_up tx = elim (waits_for tx.status) [
    | for_execution ↦ is_exceeded sink.authorize_attempts tx.attempts
    | for_broadcast ↦ is_exceeded sink.broadcast_attempts tx.attempts
    | for_nothing ↦ false
  ]

  abbrev pub is_to_confirm : Tracker → Bool
  is_to_confirm tx = elim tx.status [
    | authorized ↦ false
    | executing start ↦ false
    | unsent ↦ false
    | broadcasted height start ↦ is_some sink.target && height_changed height latest
  ]

  abbrev pub exceeded_event : Tracker → Text × TransactionEvent Unit
  exceeded_event tx = elim (waits_for tx.status) [
    | for_execution ↦ (tx.tx_id, execute_exceeded tx.attempts)
    | for_broadcast ↦ (tx.tx_id, broadcast_exceeded tx.attempts)
    | for_nothing ↦ (tx.tx_id, broadcast_exceeded tx.attempts)
  ]

  queue_status-to_execute :
      (tx : Tracker) (q : Pending) (status : TransactionSendState)
      → tx.status ≡ status
      → (queue_status sink now latest tx q status).to_execute
        ≡ q.to_execute ++ map queued (filter is_to_execute (tx ∷ []))
  unfolding queue_status
  queue_status-to_execute tx q authorized e = rw e (ground (arith, append-nil q.to_execute))
  queue_status-to_execute tx q (executing start) e = rw e (ground (arith, append-nil q.to_execute))
  queue_status-to_execute tx q unsent e = rw e (ground (arith, append-nil q.to_execute))
  queue_status-to_execute tx q (broadcasted height start) e =
      rw e (ground (arith, append-nil q.to_execute))

  queue_status-to_broadcast :
      (tx : Tracker) (q : Pending) (status : TransactionSendState)
      → tx.status ≡ status
      → (queue_status sink now latest tx q status).to_broadcast
        ≡ q.to_broadcast ++ map queued (filter is_to_broadcast (tx ∷ []))
  unfolding queue_status
  queue_status-to_broadcast tx q authorized e = rw e (ground (arith, append-nil q.to_broadcast))
  queue_status-to_broadcast tx q (executing start) e =
      rw e (ground (arith, append-nil q.to_broadcast))
  queue_status-to_broadcast tx q unsent e = rw e (ground (arith, append-nil q.to_broadcast))
  queue_status-to_broadcast tx q (broadcasted height start) e =
      rw e (ground (arith, append-nil q.to_broadcast))

  queue_status-to_remove :
      (tx : Tracker) (q : Pending) (status : TransactionSendState)
      → tx.status ≡ status
      → (queue_status sink now latest tx q status).to_remove
        ≡ q.to_remove ++ map id_of (filter is_given_up (tx ∷ []))
  unfolding queue_status
  queue_status-to_remove tx q authorized e = rw e (ground (arith, append-nil q.to_remove))
  queue_status-to_remove tx q (executing start) e = rw e (ground (arith, append-nil q.to_remove))
  queue_status-to_remove tx q unsent e = rw e (ground (arith, append-nil q.to_remove))
  queue_status-to_remove tx q (broadcasted height start) e =
      rw e (ground (arith, append-nil q.to_remove))

  queue_status-to_confirm :
      (tx : Tracker) (q : Pending) (status : TransactionSendState)
      → tx.status ≡ status
      → (queue_status sink now latest tx q status).to_confirm
        ≡ q.to_confirm ++ map confirming (filter is_to_confirm (tx ∷ []))
  unfolding queue_status
  queue_status-to_confirm tx q authorized e = rw e (ground (arith, append-nil q.to_confirm))
  queue_status-to_confirm tx q (executing start) e = rw e (ground (arith, append-nil q.to_confirm))
  queue_status-to_confirm tx q unsent e = rw e (ground (arith, append-nil q.to_confirm))
  queue_status-to_confirm tx q (broadcasted height start) e =
      rw e (ground (arith, append-nil q.to_confirm))

  queue_status-emitted :
      (tx : Tracker) (q : Pending) (status : TransactionSendState)
      → tx.status ≡ status
      → (queue_status sink now latest tx q status).emitted
        ≡ q.emitted ++ map exceeded_event (filter is_given_up (tx ∷ []))
  unfolding queue_status
  queue_status-emitted tx q authorized e = rw e (ground (arith, append-nil q.emitted))
  queue_status-emitted tx q (executing start) e = rw e (ground (arith, append-nil q.emitted))
  queue_status-emitted tx q unsent e = rw e (ground (arith, append-nil q.emitted))
  queue_status-emitted tx q (broadcasted height start) e =
      rw e (ground (arith, append-nil q.emitted))

  -- What one transaction adds to a queue, over all transactions.
  queue_all_gathers :
      {B : Type 0} (queue : Pending → List B) (entry : Tracker → B) (wanted : Tracker → Bool)
      → ((tx : Tracker) (q : Pending)
          → queue (queue_status sink now latest tx q tx.status)
            ≡ queue q ++ map entry (filter wanted (tx ∷ [])))
      → (txs : List Tracker) (q : Pending)
      → queue (queue_all sink now latest txs q) ≡ queue q ++ map entry (filter wanted txs)
  unfolding queue_all
  queue_all_gathers queue entry wanted step [] q = sym (append-nil (queue q))
  queue_all_gathers queue entry wanted step (tx ∷ txs) q =
      rw
        (
          queue_all_gathers queue entry wanted step txs
              (queue_status sink now latest tx q tx.status),
          step tx q,
        )
        (elim (Bool-cases (wanted tx)) [
          | inl e ↦ rw e (append_assoc (queue q) (entry tx ∷ []) (map entry (filter wanted txs)))
          | inr e ↦ rw e (rw (append-nil (queue q)) refl)
        ])

  -- In a round that starts with nothing queued, each transaction that is given up, and no other, is
  -- told by an event with its attempts.
  pub queue_all-emitted :
      (txs : List Tracker)
      → (queue_all sink now latest txs no_pending).emitted
        ≡ map exceeded_event (filter is_given_up txs)
  queue_all-emitted txs =
      queue_all_gathers (λ q. q.emitted) exceeded_event is_given_up
        (λ tx q. queue_status-emitted tx q tx.status refl) txs no_pending

-- In a round, those transactions of a cannon are executed or broadcast, in the order of their
-- index, that wait for it and have attempts left; those that wait and have no attempts left are
-- removed; and those that were broadcast at another height are confirmed if the sink has a target.
pub pending_of_cannon_queues :
    {P : Type 0} (now : DateTime) (env : Env P) (cannon : Cannon P)
    → let sink = cannon.sink in
      let latest = env.latest_height in
      let txs = cannon.transactions in
      (pending_of_cannon now env cannon).1 ≡ record {
        to_execute = sorted_by_index (map queued (filter (is_to_execute sink now latest) txs));
        to_broadcast = sorted_by_index (map queued (filter (is_to_broadcast sink now latest) txs));
        to_remove = map id_of (filter (is_given_up sink now latest) txs);
        to_confirm = sorted_by_index (map confirming (filter (is_to_confirm sink now latest) txs));
      }
unfolding pending_of_cannon
pending_of_cannon_queues now env cannon =
    let sink = cannon.sink in
    let latest = env.latest_height in
    let txs = cannon.transactions in
    rw (
      queue_all_gathers sink now latest (λ q. q.to_execute) queued (is_to_execute sink now latest)
          (λ tx q. queue_status-to_execute sink now latest tx q tx.status refl) txs no_pending,
      queue_all_gathers sink now latest (λ q. q.to_broadcast) queued
          (is_to_broadcast sink now latest)
          (λ tx q. queue_status-to_broadcast sink now latest tx q tx.status refl) txs no_pending,
      queue_all_gathers sink now latest (λ q. q.to_remove) id_of (is_given_up sink now latest)
          (λ tx q. queue_status-to_remove sink now latest tx q tx.status refl) txs no_pending,
      queue_all_gathers sink now latest (λ q. q.to_confirm) confirming
          (is_to_confirm sink now latest)
          (λ tx q. queue_status-to_confirm sink now latest tx q tx.status refl) txs no_pending,
    )
