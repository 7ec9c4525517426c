-- ===== src/Agent/Transfers/Follows.antt =====
-- The transfers of an agent and what the control plane has of them: crates/agent/src/transfers.rs with
-- crates/controlplane/src/server/rpc.rs. Each message is sent by a task of its own, so it is in flight
-- until it arrives or is lost, and messages may overtake each other; after a handshake all transfers
-- are told at once (crates/agent/src/rpc/control.rs). The ids come from a counter.
use mathlib.Core.Option.{some-injective}
use snarkops.State.DateTime.{DateTime}
use snarkops.Common.Text.{Text}
use snarkops.Common.{
  Bool, inr, ◌∙◌, refl, Option-cases, sym, ap, inl, Bool-cases, arith, ==_iff, ◌≡◌, zero, suc, ℕ,
  ◌++◌, get_elem?, Option, none, some, List, [], ◌∷◌,
}
use snarkops.Common.Dict.{insert, lookup-retain, keep_if, lookup-insert, IsDict, lookup, Dict}
use snarkops.Agent.Transfers.{same_id, is_kept, monitor_update, monitor_tick, dropped_ids}
use snarkops.Controlplane.Rpc.{post_transfer_status, post_transfer_statuses}
use snarkops.State.TransferStatus.{
  TransferStatus, TransferStatusUpdate, start, progress, ended, cleanup, handle,
}

-- A call of the control plane: `post_transfer_status` and, after a handshake,
-- `post_transfer_statuses`.
pub data Message (A : Type 0) : Type 0 where
  status : ℕ → TransferStatusUpdate A → Message A
  statuses : List (ℕ × TransferStatus A) → Message A

-- `log` says how each transfer was begun; the program does not keep it.
pub record Transfers (A : Type 0) : Type 0 where
  pub next : ℕ
  pub agent : Dict ℕ (TransferStatus A)
  pub in_flight : List (Message A)
  pub control : Dict ℕ (TransferStatus A)
  pub log : Dict ℕ (Text × ℕ × DateTime)

-- On the agent a transfer is begun with the next id, a task of a transfer tells of it, the monitor
-- ticks, or all transfers are told after a handshake.
pub data TransferEvent (A : Type 0) : Type 0 where
  begun : Text → ℕ → DateTime → TransferEvent A
  progressed : ℕ → ℕ → TransferEvent A
  finished : ℕ → Option Text → TransferEvent A
  handled : ℕ → A → TransferEvent A
  ticked shaken : TransferEvent A

-- An event on the agent; or the message at an index arrives; or it is lost, since there is no client
-- or the call fails.
pub data NetworkEvent (A : Type 0) : Type 0 where
  happened : DateTime → TransferEvent A → NetworkEvent A
  arrived : DateTime → ℕ → NetworkEvent A
  lost : ℕ → NetworkEvent A

module _ {A : Type 0} where
  -- What the monitor sends for a transfer.
  abbrev pub sent : ℕ → Option (TransferStatusUpdate A) → List (Message A)
  sent id none = []
  sent id (some update) = status id update ∷ []

  abbrev pub sent_cleanups : List ℕ → List (Message A)
  sent_cleanups [] = []
  sent_cleanups (id ∷ ids) = status id cleanup ∷ sent_cleanups ids

  -- A message of the channel, as the monitor handles it.
  abbrev pub monitored : DateTime → ℕ → TransferStatusUpdate A → Transfers A → Transfers A
  monitored now id update s = record s {
    agent = (monitor_update now id update s.agent).0;
    in_flight = s.in_flight ++ sent id (monitor_update now id update s.agent).1;
  }

  unfoldable pub transfer_step : DateTime → TransferEvent A → Transfers A → Transfers A
  transfer_step now (begun desc total time) s =
      monitored now s.next (start desc total time)
        (record s { next = suc s.next; log = insert same_id s.next (desc, total, time) s.log })
  transfer_step now (progressed id downloaded) s = monitored now id (progress downloaded) s
  transfer_step now (finished id interruption) s = monitored now id (ended interruption) s
  transfer_step now (handled id h) s = monitored now id (handle h) s
  transfer_step now ticked s = record s {
    agent = monitor_tick now s.agent;
    in_flight = s.in_flight ++ sent_cleanups (dropped_ids now s.agent);
  }
  transfer_step now shaken s = record s { in_flight = s.in_flight ++ statuses s.agent ∷ [] }

  unfoldable pub deliver :
      DateTime → Message A → Dict ℕ (TransferStatus A) → Dict ℕ (TransferStatus A)
  unfolding post_transfer_status post_transfer_statuses
  deliver now (status id update) d = post_transfer_status now id update d
  deliver now (statuses ts) d = post_transfer_statuses ts

  abbrev pub drop_at : ℕ → List (Message A) → List (Message A)
  drop_at i [] = []
  drop_at zero (m ∷ ms) = ms
  drop_at (suc i) (m ∷ ms) = m ∷ drop_at i ms

  unfoldable pub network_step : NetworkEvent A → Transfers A → Transfers A
  unfolding transfer_step deliver
  network_step (happened now e) s = transfer_step now e s
  network_step (arrived now i) s = elim (get_elem? s.in_flight i) [
    | none ↦ s
    | some m ↦ record s { in_flight = drop_at i s.in_flight; control = deliver now m s.control }
  ]
  network_step (lost i) s = record s { in_flight = drop_at i s.in_flight }

  unfoldable pub network_steps : List (NetworkEvent A) → Transfers A → Transfers A
  unfolding network_step
  network_steps [] s = s
  network_steps (e ∷ es) s = network_steps es (network_step e s)

  -- All that is in flight arrives, in the order of sending.
  unfoldable pub deliver_all :
      DateTime → List (Message A) → Dict ℕ (TransferStatus A) → Dict ℕ (TransferStatus A)
  unfolding deliver
  deliver_all now [] d = d
  deliver_all now (m ∷ ms) d = deliver_all now ms (deliver now m d)

  unfoldable pub flushed : DateTime → Transfers A → Transfers A
  unfolding deliver_all
  flushed now s = record s { in_flight = []; control = deliver_all now s.in_flight s.control }

  -- Events on the agent, at its time and one of the control plane, each of whose messages arrive
  -- before the next event.
  unfoldable pub prompt_steps :
      List (DateTime × DateTime × TransferEvent A) → Transfers A → Transfers A
  unfolding transfer_step flushed
  prompt_steps [] s = s
  prompt_steps ((now, there, e) ∷ es) s = prompt_steps es (flushed there (transfer_step now e s))

  -- The same transfer, but for the time of its last update and the handle of its task.
  abbrev pub IsSame : TransferStatus A → TransferStatus A → Type 0
  IsSame t u =
      (t.desc ≡ u.desc)
      × (t.started_at ≡ u.started_at)
      × (t.downloaded_bytes ≡ u.downloaded_bytes)
      × (t.total_bytes ≡ u.total_bytes)
      × (t.interruption ≡ u.interruption)

  -- What the agent has, the control plane has.
  abbrev pub Follows : Dict ℕ (TransferStatus A) → Dict ℕ (TransferStatus A) → Type 0
  Follows a c =
      (id : ℕ) (t : TransferStatus A)
      → lookup same_id id a ≡ some t
      → (u : TransferStatus A) × (lookup same_id id c ≡ some u) × IsSame t u

  pub insert-Follows :
      (a c : Dict ℕ (TransferStatus A)) (id : ℕ) (t u : TransferStatus A)
      → Follows a c
      → IsSame t u
      → Follows (insert same_id id t a) (insert same_id id u c)
  insert-Follows a c id t u f same j v e =
      let here = lookup-insert same_id ==_iff id j t a in
      let there = lookup-insert same_id ==_iff id j u c in
      elim (Bool-cases (same_id id j)) [
        | inl h ↦
            let eq : v ≡ t = some-injective _ _ (sym e ∙ rw h at here) in
            (u, rw h at there, rw (eq) same)
        | inr h ↦
            let (w, found, same_w) = f j v (sym (rw h at here) ∙ e) in
            (w, rw h at there ∙ found, same_w)
      ]

  -- A change that the control plane is not told of.
  pub insert_agent-Follows :
      (a c : Dict ℕ (TransferStatus A)) (id : ℕ) (t u : TransferStatus A)
      → Follows a c
      → lookup same_id id c ≡ some u
      → IsSame t u
      → Follows (insert same_id id t a) c
  insert_agent-Follows a c id t u f known same j v e =
      let here = lookup-insert same_id ==_iff id j t a in
      elim (Bool-cases (same_id id j)) [
        | inl h ↦
            let eq : v ≡ t = some-injective _ _ (sym e ∙ rw h at here) in
            (u, rw ((==_iff id j).0 h) at known, rw (eq) same)
        | inr h ↦ f j v (sym (rw h at here) ∙ e)
      ]

  pub deliver_all-sent_cleanups :
      (now : DateTime) (ids : List ℕ) (d : Dict ℕ (TransferStatus A))
      → deliver_all now (sent_cleanups ids) d ≡ d
  unfolding post_transfer_status deliver_all
  deliver_all-sent_cleanups now [] d = refl
  deliver_all-sent_cleanups now (id ∷ ids) d = deliver_all-sent_cleanups now ids d

  pub monitor_tick-Follows :
      (now : DateTime) (a c : Dict ℕ (TransferStatus A))
      → IsDict same_id a
      → Follows a c
      → Follows (monitor_tick now a) c
  unfolding monitor_tick
  monitor_tick-Follows now a c d f id t e =
      let kept = lookup-retain same_id ==_iff (λ _ t. is_kept now t) id a d in
      elim (Option-cases (lookup same_id id a)) [
        | inl none_here ↦ absurd (cc (e, rw none_here at kept))
        | inr (v, found) ↦
            let eq : v ≡ t = kept_same (is_kept now) v t (sym (rw found at kept) ∙ e) in
            f id t (found ∙ ap some eq)
      ]
    where
      kept_same :
          (p : TransferStatus A → Bool) (v t : TransferStatus A)
          → keep_if p (some v) ≡ some t
          → v ≡ t
      kept_same p v t e = ground (arith, e)
