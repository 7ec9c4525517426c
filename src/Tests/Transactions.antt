-- ===== src/Tests/Transactions.antt =====
-- The transactions of a cannon.
use snarkops.State.DateTime.{DateTime}
use snarkops.Controlplane.Transactions.Queues.{
  pending_of_cannon_queues, is_to_confirm, confirming, id_of, is_to_broadcast, queue_all-emitted,
  is_to_execute, is_given_up, exceeded_event, queued,
}
use snarkops.Common.{map, filter, ◌≡◌, ℕ, List, [], ◌∷◌, refl, none, some}
use snarkops.Common.Int.{◌+ℤ◌, ◌*ℤ◌, ◌-ℤ◌, pos}
use snarkops.Common.Text.{codes}
use snarkops.State.TransactionSendState.{authorized, executing, unsent, broadcasted}
use snarkops.Controlplane.Transactions.{
  height_changed, is_exceeded, sorted_by_index, no_pending, has_expired, queue_all,
  pending_of_cannon, TxSink, Env, Cannon,
}

abbrev at_second : ℕ → DateTime
at_second n = record { timestamp = pos n; subsec_nanos = 0 }

abbrev sink : TxSink (List ℕ)
sink = record {
  target = none;
  broadcast_attempts = some 3;
  broadcast_timeout = 60;
  authorize_attempts = none;
  authorize_timeout = 60;
}

abbrev cannon : Cannon (List ℕ)
cannon = record {
  cannon_id = codes "c";
  sink = sink;
  transactions =
      record { tx_id = codes "a"; index = 2; status = authorized; attempts = 9 }
      ∷ record { tx_id = codes "b"; index = 1; status = executing (at_second 10); attempts = 0 }
      ∷ record { tx_id = codes "c"; index = 3; status = unsent; attempts = 4 }
      ∷ record {
        tx_id = codes "d";
        index = 4;
        status = broadcasted (some 5) (at_second 20);
        attempts = 3;
      }
      ∷ [];
}

abbrev env : Env (List ℕ)
env = record { env_id = codes "e"; latest_height = some 6; cannons = cannon ∷ [] }

cannon_runs : (pending_of_cannon (at_second 100) env cannon).1 ≡ record {
  to_execute = codes "b" ∷ codes "a" ∷ [];
  to_broadcast = codes "d" ∷ [];
  to_remove = codes "c" ∷ [];
  to_confirm = [];
}
unfolding pending_of_cannon has_expired ◌-ℤ◌ height_changed ◌+ℤ◌ ◌*ℤ◌ is_exceeded
cannon_runs = refl

pending_of_cannon_queues_example : (pending_of_cannon (at_second 100) env cannon).1 ≡ record {
  to_execute =
      sorted_by_index
        (map queued (filter (is_to_execute sink (at_second 100) (some 6)) cannon.transactions));
  to_broadcast =
      sorted_by_index
        (map queued (filter (is_to_broadcast sink (at_second 100) (some 6)) cannon.transactions));
  to_remove = map id_of (filter (is_given_up sink (at_second 100) (some 6)) cannon.transactions);
  to_confirm =
      sorted_by_index
        (map confirming (filter (is_to_confirm sink (at_second 100) (some 6)) cannon.transactions));
}
pending_of_cannon_queues_example = pending_of_cannon_queues (at_second 100) env cannon

queue_all-emitted_example :
    (queue_all sink (at_second 100) (some 6) cannon.transactions no_pending).emitted
    ≡ map
        (exceeded_event sink (at_second 100) (some 6))
        (filter (is_given_up sink (at_second 100) (some 6)) cannon.transactions)
queue_all-emitted_example = queue_all-emitted sink (at_second 100) (some 6) cannon.transactions
