-- ===== src/Checkpoint/Manager/Polls.antt =====
-- `CheckpointManager::poll` of crates/checkpoint/src/manager.rs keeps the checkpoint that it takes.
use snarkops.Checkpoint.Ledger.{read_ledger, Ledger}
use mathlib.Core.Option.{some-injective}
use snarkops.Checkpoint.Retention.{reject_with_time}
use snarkops.Checkpoint.Header.{time, CheckpointHeader}
use snarkops.Checkpoint.Retention.Newest.{reject_with_time-Earlier, IsEarlier}
use snarkops.Common.Int.{ℤ}
use snarkops.Common.{
  Bool, map_err-eq-ok, and_then, ok-injective, ◌==◌, ◌||◌, map_err, not, and_then-eq-ok, Bool-cases,
  ◌∙◌, sym, ap, Result, Option-cases, map, ℕ, ◌≡◌, ◌++◌, List, [], ◌∷◌, All, Option, none, some, ok,
  arith, true, false, inl, inr, refl,
}
use snarkops.Common.Dict.{Dict, lookup}
use snarkops.Checkpoint.Manager.{
  insert_error, content_error, file_error, write_and_insert, is_ready, delete_times, same_time,
  CheckpointManager, cull_timestamp, poll, insert_checkpoint,
}
use snarkops.Checkpoint.Manager.Culls.{has_time, lookup-delete_times}

module _ {P : Type 0} where
  lookup-insert_checkpoint :
      (t : ℤ) (c : CheckpointHeader × P) (d : Dict ℤ (CheckpointHeader × P))
      → lookup same_time t (insert_checkpoint t c d) ≡ some c
  unfolding insert_checkpoint lookup
  lookup-insert_checkpoint t c [] = ground arith
  lookup-insert_checkpoint t c ((u, e) ∷ d) = ground (arith, lookup-insert_checkpoint t c d)

  -- A time after all others comes last.
  insert_checkpoint-append :
      (t : ℤ) (c : CheckpointHeader × P) (d : Dict ℤ (CheckpointHeader × P))
      → All (IsEarlier t) (map (λ e. e.0) d)
      → map (λ e. e.0) (insert_checkpoint t c d) ≡ map (λ e. e.0) d ++ t ∷ []
  unfolding insert_checkpoint
  insert_checkpoint-append t c [] h = refl
  insert_checkpoint-append t c ((u, e) ∷ d) h =
      let onward = insert_checkpoint-append t c d h.1 in
      let early = h.0 in ground (arith, onward, early)

has_time-Earlier : (t : ℤ) (ts : List ℤ) → All (IsEarlier t) ts → has_time t ts ≡ false
has_time-Earlier t [] h = refl
has_time-Earlier t (u ∷ us) h =
    let onward = has_time-Earlier t us h.1 in let early = h.0 in ground (arith, onward, early)

cull_newest :
    {P : Type 0} (m m' : CheckpointManager P) (now : ℤ) (earlier : List ℤ) (paths : List P)
    → All (IsEarlier now) earlier
    → map (λ c. c.0) m.checkpoints ≡ earlier ++ now ∷ []
    → cull_timestamp m now ≡ some (m', paths)
    → lookup same_time now m'.checkpoints ≡ lookup same_time now m.checkpoints
unfolding cull_timestamp
cull_newest m m' now earlier paths h e done =
    elim (Option-cases (reject_with_time m.policy now (map (λ c. c.0) m.checkpoints))) [
      | inl none_left ↦ absurd (cc (rw (none_left, cull_timestamp) at done))
      | inr (rejected, all_done) ↦
          let early =
            has_time-Earlier now rejected
              (reject_with_time-Earlier m.policy now earlier rejected h (rw e at all_done)) in
          let left = lookup-delete_times rejected m.checkpoints now in
          let same : (
            record m { checkpoints = (delete_times rejected m.checkpoints).0 },
            (delete_times rejected m.checkpoints).1,
          )
              ≡ (m', paths) =
            some-injective _ _ (rw (all_done, cull_timestamp) at done) in
          ap (λ r. lookup same_time now r.0.checkpoints) (sym same) ∙ rw early at left
    ]

taken_back :
    {M P : Type 0} (m : M) (paths : List P) (o : Option (M × List P))
    → ◌≡◌ {A = Option (Bool × M × List P)}
        (elim o [ none ↦ none | some r ↦ some (true, r.0, r.1) ])
        (some (true, m, paths))
    → o ≡ some (m, paths)
taken_back m paths none e = absurd (cc e)
taken_back m paths (some (m', paths')) e = cc e

module _ {P E C : Type 0} (path_from_height : ℕ → Option P)
    (write_file : P → CheckpointHeader → C → Result E (Unit {0})) where
  write_and_insert-eq-ok :
      (m m' : CheckpointManager P) (header : CheckpointHeader) (content : C)
      → write_and_insert path_from_height write_file m header content ≡ ok m'
      → (path : P) × (path_from_height header.block_height ≡ some path)
        × (m' ≡ record m {
          checkpoints = insert_checkpoint (time header) (header, path) m.checkpoints;
        })
  unfolding write_and_insert
  write_and_insert-eq-ok m m' header content done =
      elim (Option-cases (path_from_height header.block_height)) [
        | inl e ↦ absurd (cc (rw (e, write_and_insert) at done))
        | inr (path, e) ↦
            let (_, _, eq) =
              and_then-eq-ok (map_err file_error (write_file path header content)) _
                (rw (e, write_and_insert) at done) in
            (path, e, sym (ok-injective eq))
      ]

  module _ {H : Type 0} where
    -- A poll that takes a checkpoint of a block that is newer than all checkpoints was due by the
    -- policy, and the manager has that checkpoint, at its time, after the cull that follows.
    pub poll_takes :
        (opened : Result E (Ledger E H C)) (m m' : CheckpointManager P) (header : CheckpointHeader)
        (paths : List P)
        → read_ledger opened ≡ ok header
        → All (IsEarlier (time header)) (map (λ c. c.0) m.checkpoints)
        → poll path_from_height write_file opened m ≡ ok (some (true, m', paths))
        → (is_ready m (time header) ≡ true)
          × (path : P) × (path_from_height header.block_height ≡ some path)
          × (lookup same_time (time header) m'.checkpoints ≡ some (header, path))
    unfolding poll
    poll_takes opened m m' header paths read early done =
        elim (Bool-cases (not (is_ready m (time header)) || (header.block_height == 0))) [
          | inl stays ↦ absurd (cc (rw (read, stays, poll) at done))
          | inr due ↦
              let (content, _, done') =
                and_then-eq-ok (map_err content_error (and_then opened λ l. l.read_content)) _
                  (rw (read, due, poll) at done) in
              let (inserted, wrote, done'') =
                and_then-eq-ok
                  (map_err insert_error
                    (write_and_insert path_from_height write_file m header content))
                  _ done' in
              let (path, named, eq) =
                write_and_insert-eq-ok m inserted header content
                  (map_err-eq-ok _ insert_error wrote) in
              let with_it : CheckpointManager P = record m {
                checkpoints = insert_checkpoint (time header) (header, path) m.checkpoints;
              } in
              let culled : cull_timestamp with_it (time header) ≡ some (m', paths) =
                rw eq at (taken_back m' paths _ (ok-injective done'')) in
              let last =
                insert_checkpoint-append (time header) (header, path) m.checkpoints early in
              (
                ground (arith, due),
                path,
                named,
                cull_newest with_it m' (time header) (map (λ c. c.0) m.checkpoints) paths early last
                      culled
                    ∙ lookup-insert_checkpoint (time header) (header, path) m.checkpoints,
              )
        ]
