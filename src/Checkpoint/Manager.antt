-- ===== src/Checkpoint/Manager.antt =====
-- `CheckpointManager` of crates/checkpoint/src/manager.rs: the checkpoints of a ledger, by their
-- times. What is done to the files is told by the paths that are deleted; an error of a deletion is
-- only logged by the code.
pub mod Culls
pub mod Polls
pub mod Nearest
use snarkops.Common.Text.{text_eq}
use snarkops.Checkpoint.Ledger.{Ledger, read_ledger, HeaderReadError}
use snarkops.Common.Int.{pos, ltb_ℤ, ℤ}
use snarkops.Common.{
  length, false, ◌==◌, ◌||◌, ok, map_err, and_then, err, Result, ℕ, ◌&&◌, true, not, Option, Bool,
  if◌then◌else◌, map, List, [], ◌∷◌, none, some,
}
use snarkops.Checkpoint.Header.{time, CheckpointHeader}
use snarkops.Checkpoint.Retention.{
  as_timestamp, RetentionSpan, RetentionPolicy, reject_with_time, is_ready_with_time,
}
use snarkops.Common.Dict.{Dict, lookup, remove}

-- Equality of the ordered keys.
abbrev pub same_time : ℤ → ℤ → Bool
same_time a b = not (ltb_ℤ a b) && not (ltb_ℤ b a)

-- `CheckpointManager`; the checkpoints are a `BTreeMap`, so in the order of their times.
pub record CheckpointManager (P : Type 0) : Type 0 where
  pub policy : RetentionPolicy
  pub checkpoints : Dict ℤ (CheckpointHeader × P)

-- `ManagerInsertError`; the errors of the file are one.
pub data InsertError (E : Type 0) : Type 0 where
  invalid_storage_path : InsertError E
  file_error : E → InsertError E

pub data PollError (E H : Type 0) : Type 0 where
  header_error : HeaderReadError E H → PollError E H
  content_error : E → PollError E H
  insert_error : InsertError E → PollError E H

module _ {P : Type 0} where
  unfoldable pub last_time : Dict ℤ (CheckpointHeader × P) → Option ℤ
  last_time [] = none
  last_time ((t, c) ∷ []) = some t
  last_time ((t, c) ∷ d ∷ ds) = last_time (d ∷ ds)

  -- `BTreeMap::insert`
  unfoldable pub insert_checkpoint :
      ℤ → CheckpointHeader × P → Dict ℤ (CheckpointHeader × P) → Dict ℤ (CheckpointHeader × P)
  insert_checkpoint t c [] = (t, c) ∷ []
  insert_checkpoint t c ((u, d) ∷ ds) =
      if ltb_ℤ t u
      then (t, c) ∷ (u, d) ∷ ds
      else if ltb_ℤ u t
      then (u, d) ∷ insert_checkpoint t c ds
      else (t, c) ∷ ds

  unfoldable pub is_ready : CheckpointManager P → ℤ → Bool
  unfolding last_time
  is_ready m timestamp = elim (last_time m.checkpoints) [
    | none ↦ true
    | some last ↦ is_ready_with_time m.policy timestamp last
  ]

  -- `for time in rejected { if let Some((_, path)) = checkpoints.remove(&time) { remove_file(path) } }`
  unfoldable pub delete_times :
      List ℤ → Dict ℤ (CheckpointHeader × P) → Dict ℤ (CheckpointHeader × P) × List P
  delete_times [] d = (d, [])
  delete_times (t ∷ ts) d =
      let (left, paths) = delete_times ts (remove same_time t d) in
      elim (lookup same_time t d) [
        | none ↦ (left, paths)
        | some (header, path) ↦ (left, path ∷ paths)
      ]

  unfoldable pub cull_timestamp : CheckpointManager P → ℤ → Option (CheckpointManager P × List P)
  unfolding delete_times
  cull_timestamp m timestamp =
      elim (reject_with_time m.policy timestamp (map (λ c. c.0) m.checkpoints)) [
        | none ↦ none
        | some rejected ↦
            let (left, paths) = delete_times rejected m.checkpoints in
            some (record m { checkpoints = left }, paths)
      ]

  unfoldable pub wipe : CheckpointManager P → CheckpointManager P × List P
  wipe m = (record m { checkpoints = [] }, map (λ c. c.1.1) m.checkpoints)

  -- `self.checkpoints().sorted_by(|a, b| key(b).cmp(&key(a)))`: the highest key first.
  unfoldable pub insert_by :
      (CheckpointHeader → ℤ)
      → CheckpointHeader × P
      → List (CheckpointHeader × P)
      → List (CheckpointHeader × P)
  insert_by key c [] = c ∷ []
  insert_by key c (d ∷ ds) =
      if ltb_ℤ (key c.0) (key d.0) then d ∷ insert_by key c ds else c ∷ d ∷ ds

  unfoldable pub sorted_by :
      (CheckpointHeader → ℤ) → List (CheckpointHeader × P) → List (CheckpointHeader × P)
  unfolding insert_by
  sorted_by key [] = []
  sorted_by key (c ∷ cs) = insert_by key c (sorted_by key cs)

  -- `.find(|c| key(c) <= limit)`
  unfoldable pub find_below :
      (CheckpointHeader → ℤ) → ℤ → List (CheckpointHeader × P) → Option (CheckpointHeader × P)
  find_below key limit [] = none
  find_below key limit (c ∷ cs) = if ltb_ℤ limit (key c.0) then find_below key limit cs else some c

  unfoldable pub nearest_with_height : CheckpointManager P → ℕ → Option (CheckpointHeader × P)
  unfolding sorted_by find_below
  nearest_with_height m height =
      find_below (λ h. pos h.block_height) (pos height)
        (sorted_by (λ h. pos h.block_height) (map (λ c. c.1) m.checkpoints))

  unfoldable pub nearest_with_timestamp : CheckpointManager P → ℤ → Option (CheckpointHeader × P)
  unfolding sorted_by find_below
  nearest_with_timestamp m timestamp =
      find_below (λ h. h.timestamp) timestamp
        (sorted_by (λ h. h.timestamp) (map (λ c. c.1) m.checkpoints))

  -- `nearest_with_span`, where `now` is in seconds.
  unfoldable pub nearest_with_span :
      CheckpointManager P → ℤ → RetentionSpan → Option (CheckpointHeader × P)
  unfolding nearest_with_timestamp
  nearest_with_span m now span = elim (as_timestamp now span) [
    | none ↦ none
    | some timestamp ↦ nearest_with_timestamp m timestamp
  ]

-- `ManagerCullError`
pub data CullError (E : Type 0) : Type 0 where
  storage_open_error cull_read_error : E → CullError E

module _ {P E H C : Type 0} where
  -- The loop of `cull_incompatible`: the times whose block is not in the ledger, or another one.
  unfoldable pub incompatible_times :
      Ledger E H C → Dict ℤ (CheckpointHeader × P) → Result (CullError E) (List ℤ)
  incompatible_times l [] = ok []
  incompatible_times l ((t, (header, path)) ∷ d) =
      and_then (map_err cull_read_error (l.get_block_hash header.block_height)) λ found.
        and_then (incompatible_times l d) λ rejected. ok (elim found [
          | none ↦ t ∷ rejected
          | some hash ↦
              if text_eq (l.block_bytes hash) header.block_hash then rejected else t ∷ rejected
        ])

  -- `cull_incompatible`: the count, the manager, and the files that are deleted.
  unfoldable pub cull_incompatible :
      Result E (Ledger E H C)
      → CheckpointManager P
      → Result (CullError E) (ℕ × CheckpointManager P × List P)
  unfolding incompatible_times delete_times
  cull_incompatible opened m = and_then (map_err storage_open_error opened) λ l.
      and_then (incompatible_times l m.checkpoints) λ rejected.
        let (left, paths) = delete_times rejected m.checkpoints in
        ok (length rejected, record m { checkpoints = left }, paths)

module _ {P E C : Type 0} (path_from_height : ℕ → Option P)
    (write_file : P → CheckpointHeader → C → Result E (Unit {0})) where
  unfoldable pub write_and_insert :
      CheckpointManager P → CheckpointHeader → C → Result (InsertError E) (CheckpointManager P)
  unfolding insert_checkpoint time
  write_and_insert m header content = elim (path_from_height header.block_height) [
    | none ↦ err invalid_storage_path
    | some path ↦ and_then (map_err file_error (write_file path header content)) λ _.
        ok (record m { checkpoints = insert_checkpoint (time header) (header, path) m.checkpoints })
  ]

  module _ {H : Type 0} where
    -- `poll`: whether a checkpoint was taken, the manager, and the files that are deleted.
    unfoldable pub poll :
        Result E (Ledger E H C)
        → CheckpointManager P
        → Result (PollError E H) (Option (Bool × CheckpointManager P × List P))
    unfolding read_ledger is_ready write_and_insert cull_timestamp time
    poll opened m = and_then (map_err header_error (read_ledger opened)) λ header.
        if not (is_ready m (time header)) || (header.block_height == 0)
        then ok (some (false, m, []))
        else and_then (map_err content_error (and_then opened λ l. l.read_content)) λ content.
          and_then (map_err insert_error (write_and_insert m header content)) λ m'.
            ok (elim (cull_timestamp m' (time header)) [
              | none ↦ none
              | some (culled, paths) ↦ some (true, culled, paths)
            ])
