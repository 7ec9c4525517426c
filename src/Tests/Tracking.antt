-- ===== src/Tests/Tracking.antt =====
-- A round of the tracking task of crates/controlplane/src/state/transactions.rs.
use snarkops.Common.Dict.{lookup}
use snarkops.Controlplane.Cache.{find_transaction, NetworkCache}
use snarkops.State.TransactionSendState.{unsent}
use snarkops.Common.{ℕ, ◌≡◌, refl, List, [], ◌∷◌, none, some, Option, ◌&&◌, ◌||◌, not, is_some, map}
use snarkops.Common.Text.{text_eq, Text, codes}
use snarkops.Controlplane.Cache.Blocks.{is_listed}
use snarkops.Controlplane.Tracking.{track_round, track_round_left, confirm_hash}
use snarkops.Controlplane.Transactions.{PendingTransactions, Tracker, TxSink}

abbrev sink : TxSink (Unit {0})
sink = record {
  target = none;
  broadcast_attempts = none;
  broadcast_timeout = 60;
  authorize_attempts = none;
  authorize_timeout = 60;
}

abbrev tracker : Text → Tracker
tracker id = record { tx_id = id; index = 0; status = unsent; attempts = 0 }

abbrev cache : NetworkCache (List ℕ)
cache = record {
  height_and_hash = [];
  block_to_transaction = [];
  transaction_to_block_hash = (codes "t2", codes "b7") ∷ [];
  blocks = [];
  external_peer_infos = [];
  external_peer_record = [];
  latest = none;
}

abbrev ask : Text → Option Text
ask tx = none

abbrev pending : PendingTransactions
pending = record {
  to_execute = [];
  to_broadcast = [];
  to_remove = codes "t1" ∷ [];
  to_confirm = (codes "t2", some 3) ∷ (codes "t3", some 3) ∷ [];
}

abbrev trackers : List Tracker
trackers = tracker (codes "t1") ∷ tracker (codes "t2") ∷ tracker (codes "t3") ∷ []

round_run : (track_round (some cache) ask sink pending trackers).left ≡ tracker (codes "t3") ∷ []
unfolding track_round text_eq find_transaction lookup
round_run = refl

track_round_left_example :
    is_listed
      (codes "t2")
      (map (λ t. t.tx_id) (track_round (some cache) ask sink pending trackers).left)
    ≡ (is_listed (codes "t2") (map (λ t. t.tx_id) trackers)
        && not (
            is_listed (codes "t2") pending.to_remove
            || (is_listed (codes "t2") (map (λ t. t.0) pending.to_confirm)
                && is_some (confirm_hash (some cache) ask sink (codes "t2")))))
track_round_left_example = track_round_left (some cache) ask sink pending trackers (codes "t2")
