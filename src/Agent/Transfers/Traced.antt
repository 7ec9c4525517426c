-- ===== src/Agent/Transfers/Traced.antt =====
-- Where what the control plane has of the transfers of an agent comes from, whatever becomes of the
-- messages of crates/agent/src/transfers.rs.
use snarkops.Agent.Transfers.{same_id}
use snarkops.Agent.Transfers.Follows.{Message, status, statuses, Transfers}
use snarkops.Common.Dict.{Dict, lookup}
use snarkops.Common.Text.{Text}
use snarkops.State.DateTime.{DateTime}
use snarkops.State.TransferStatus.{TransferStatus, start}
use snarkops.Common.{All, ℕ, ◌≤◌, ◌≡◌, Option, none, some}

module _ {A : Type 0} where
  abbrev pub summary : TransferStatus A → Text × ℕ × DateTime
  summary t = (t.desc, t.total_bytes, t.started_at)

  -- A transfer was begun under its id with its description, size and start.
  abbrev pub IsBegun : Dict ℕ (Text × ℕ × DateTime) → ℕ × TransferStatus A → Type 0
  IsBegun log (id, t) = lookup same_id id log ≡ some (summary t)

  abbrev pub IsSent : Dict ℕ (Text × ℕ × DateTime) → Message A → Type 0
  IsSent log (status id (start desc total time)) = lookup same_id id log ≡ some (desc, total, time)
  IsSent log (status id _) = Unit
  IsSent log (statuses ts) = All (IsBegun log) ts

  pub record IsTraced (s : Transfers A) : Type 0 where
    pub agent_begun : All (IsBegun s.log) s.agent
    pub control_begun : All (IsBegun s.log) s.control
    pub messages_sent : All (IsSent s.log) s.in_flight
    pub ids_unused : (id : ℕ) → s.next ≤ id → lookup same_id id s.log ≡ none
