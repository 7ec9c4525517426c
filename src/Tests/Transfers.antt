-- ===== src/Tests/Transfers.antt =====
-- Transfers of an agent, of crates/agent/src/transfers.rs, and what the control plane has of them.
use snarkops.Controlplane.Rpc.{post_transfer_status}
use snarkops.Common.Int.{◌*ℤ◌, ◌+ℤ◌, ◌-ℤ◌, pos}
use snarkops.State.DateTime.{nanos, DateTime}
use snarkops.Common.{Bool, is_some, ℕ, ◌≡◌, refl, List, [], ◌∷◌, none, true, false}
use snarkops.Common.Text.{codes}
use snarkops.Common.Dict.{retain, lookup, insert}
use snarkops.Agent.Transfers.{dropped_ids, monitor_tick, monitor_update, same_id}
use snarkops.Agent.Transfers.Follows.{
  NetworkEvent, happened, arrived, lost, network_steps, Transfers, TransferEvent, begun, progressed,
  finished, ticked, prompt_steps,
}
use snarkops.State.TransferStatus.{cleanup}
use snarkops.Agent.Transfers.Run.{post_transfer_status-keeps}

abbrev at_time : ℕ → DateTime
at_time seconds = record { timestamp = pos seconds; subsec_nanos = 0 }

abbrev no_transfers : Transfers ℕ
no_transfers = record { next = 0; agent = []; in_flight = []; control = []; log = [] }

-- A download of ten bytes that ends, and is cleaned up a minute later.
abbrev download : List (DateTime × DateTime × TransferEvent ℕ)
download =
    (at_time 1, at_time 1, begun (codes "ledger") 10 (at_time 1))
    ∷ (at_time 2, at_time 2, progressed 0 4)
    ∷ (at_time 3, at_time 3, finished 0 none)
    ∷ []

abbrev cleaned : List (DateTime × DateTime × TransferEvent ℕ)
cleaned = (at_time 63, at_time 63, ticked) ∷ []

control_run : is_some (lookup same_id 0 (prompt_steps download no_transfers).control) ≡ true
unfolding lookup prompt_steps monitor_update insert post_transfer_status
control_run = refl

download_run : is_some (lookup same_id 0 (prompt_steps download no_transfers).agent) ≡ true
unfolding lookup prompt_steps monitor_update insert
download_run = refl

-- The agent has forgotten the transfer, the control plane has it still.
abbrev forgotten : Transfers ℕ → Bool × Bool
forgotten s = (is_some (lookup same_id 0 s.agent), is_some (lookup same_id 0 s.control))

cleaned_run : forgotten (prompt_steps cleaned (prompt_steps download no_transfers)) ≡ (false, true)
unfolding lookup prompt_steps monitor_tick dropped_ids retain monitor_update insert ◌-ℤ◌ nanos ◌+ℤ◌
    ◌*ℤ◌ post_transfer_status
cleaned_run = refl

post_transfer_status-keeps_example :
    is_some (
      lookup same_id 0
        (post_transfer_status (at_time 9) 0 cleanup (prompt_steps download no_transfers).control))
    ≡ true
post_transfer_status-keeps_example =
    post_transfer_status-keeps (at_time 9) 0 cleanup (prompt_steps download no_transfers).control 0
      control_run

-- The end of the download arrives before its begin, and its progress is lost.
abbrev unordered : List (NetworkEvent ℕ)
unordered =
    happened (at_time 1) (begun (codes "ledger") 10 (at_time 1))
    ∷ happened (at_time 2) (progressed 0 4)
    ∷ happened (at_time 3) (finished 0 none)
    ∷ arrived (at_time 4) 2
    ∷ lost 1
    ∷ arrived (at_time 5) 0
    ∷ []

unordered_run :
    (is_some (lookup same_id 0 (network_steps unordered no_transfers).control) ≡ true)
    × ((network_steps unordered no_transfers).in_flight ≡ [])
unfolding network_steps lookup monitor_update insert
unordered_run = (refl, refl)
