-- ===== src/Agent/Transfers/Run.antt =====
-- Any run of transfers of crates/agent/src/transfers.rs, as the control plane sees it.
use snarkops.Common.Text.{Text}
use snarkops.State.DateTime.{DateTime}
use snarkops.State.TransferStatus.{
  started, start, progress, ended, cleanup, handle, TransferStatusUpdate, end_transfer,
  progress_transfer, TransferStatus,
}
use snarkops.Common.{true, is_some, ℕ, ◌≡◌, ◌≤◌, none, [], arith, ==_iff, inl, inr, Option-cases}
use snarkops.Common.Dict.{lookup-insert, Dict, lookup, insert, IsDict}
use snarkops.Agent.Transfers.{same_id}
use snarkops.Agent.Transfers.Follows.{Follows, Transfers}
use snarkops.Controlplane.Rpc.{post_transfer_status}

module _ {A : Type 0} where
  -- The control plane has what the agent has, and no id that is still to come is used.
  pub record IsFollowed (s : Transfers A) : Type 0 where
    pub idle : s.in_flight ≡ []
    pub agent_dict : IsDict same_id s.agent
    pub follows : Follows s.agent s.control
    pub unused :
        (id : ℕ)
        → s.next ≤ id
        → (lookup same_id id s.agent ≡ none) × (lookup same_id id s.control ≡ none)

  insert_keeps :
      (id j : ℕ) (t : TransferStatus A) (d : Dict ℕ (TransferStatus A))
      → is_some (lookup same_id j d) ≡ true
      → is_some (lookup same_id j (insert same_id id t d)) ≡ true
  insert_keeps id j t d h = ground (arith, h, lookup-insert same_id ==_iff id j t d)

  -- No call that a transfer is told by, a cleanup included, makes the control plane forget one.
  pub post_transfer_status-keeps :
      (now : DateTime) (id : ℕ) (update : TransferStatusUpdate A) (d : Dict ℕ (TransferStatus A))
      (j : ℕ)
      → is_some (lookup same_id j d) ≡ true
      → is_some (lookup same_id j (post_transfer_status now id update d)) ≡ true
  unfolding post_transfer_status
  post_transfer_status-keeps now id (start desc total time) d j h =
      elim (Option-cases (lookup same_id id d)) [
        | inl e ↦ rw (e, post_transfer_status) (insert_keeps id j (started desc total time now) d h)
        | inr (t, e) ↦ rw (e, post_transfer_status) h
      ]
  post_transfer_status-keeps now id (progress downloaded) d j h =
      elim (Option-cases (lookup same_id id d)) [
        | inl e ↦ rw (e, post_transfer_status) h
        | inr (t, e) ↦
            rw (e, post_transfer_status)
              (insert_keeps id j (progress_transfer now downloaded t) d h)
      ]
  post_transfer_status-keeps now id (ended interruption) d j h =
      elim (Option-cases (lookup same_id id d)) [
        | inl e ↦ rw (e, post_transfer_status) h
        | inr (t, e) ↦
            rw (e, post_transfer_status) (insert_keeps id j (end_transfer now interruption t) d h)
      ]
  post_transfer_status-keeps now id cleanup d j h = h
  post_transfer_status-keeps now id (handle a) d j h = h
