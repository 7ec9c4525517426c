-- ===== src/Checkpoint/Manager/Culls.antt =====
-- What `CheckpointManager` of crates/checkpoint/src/manager.rs deletes and what stays.
use snarkops.Checkpoint.Retention.Partition.{reject_with_time-perm}
use snarkops.Checkpoint.Retention.Terminates.{reject_with_time_total}
use snarkops.Checkpoint.Retention.{reject_with_time}
use snarkops.Checkpoint.Header.{CheckpointHeader}
use snarkops.Common.Dict.{length-remove, remove, remove-IsDict, lookup-remove, IsDict, lookup, Dict}
use snarkops.Checkpoint.Manager.{CheckpointManager, cull_timestamp, same_time, delete_times}
use snarkops.Common.Int.{eq_of_parts, ℤ}
use mathlib.Core.List.{Permᴰ, Perm}
use mathlib.Core.Logic.{∥∥₁_elim}
use snarkops.Common.{
  length-map, ◌++◌, length-append, ◌<◌, ◌≢◌, map, inl, inr, List, [], ◌∷◌, arith, none, some,
  Option-cases, ◌||◌, ◌≤◌, if◌then◌else◌, ◌+◌, ◌↔◌, true, false, Bool, ◌≡◌, length, refl, ◌∙◌, ap,
  suc,
}

length-permᴰ : {A : Type 0} {xs ys : List A} → Permᴰ xs ys → length xs ≡ length ys
length-permᴰ Permᴰ.nil = refl
length-permᴰ (Permᴰ.cons e p) = ap suc (length-permᴰ p)
length-permᴰ (Permᴰ.swap e f) = refl
length-permᴰ (Permᴰ.trans p q) = length-permᴰ p ∙ length-permᴰ q

length-perm : {A : Type 0} {xs ys : List A} → Perm xs ys → length xs ≡ length ys
length-perm p = ∥∥₁_elim p (hlevel) length-permᴰ

pub same_time_iff : (a b : ℤ) → (same_time a b ≡ true) ↔ (a ≡ b)
same_time_iff a b = (λ h. eq_of_parts a b (ground arith), λ e. rw e (ground arith))

abbrev pub has_time : ℤ → List ℤ → Bool
has_time t [] = false
has_time t (u ∷ us) = same_time u t || has_time t us

map-nil : {A B : Type 0} (f : A → B) (xs : List A) → map f xs ≡ [] → xs ≡ []
map-nil f [] e = refl
map-nil f (x ∷ xs) e = absurd (cc e)

module _ {P : Type 0} where
  length-delete_times :
      (ts : List ℤ) (d : Dict ℤ (CheckpointHeader × P))
      → IsDict same_time d
      → (length (delete_times ts d).0 + length (delete_times ts d).1 ≡ length d)
        × (length (delete_times ts d).1 ≤ length ts)
  unfolding delete_times
  length-delete_times [] d h = (omega arith, omega arith)
  length-delete_times (t ∷ ts) d h =
      let onward =
        length-delete_times ts (remove same_time t d)
          (remove-IsDict same_time same_time_iff t d h) in
      let taken = length-remove same_time same_time_iff t d h in
      elim (Option-cases (lookup same_time t d)) [
        | inl e ↦
            let size = rw e at taken in
            rw (e, delete_times) (omega (arith, size, onward.0), omega (arith, onward.1))
        | inr (c, e) ↦
            let size = rw e at taken in
            rw (e, delete_times) (omega (arith, size, onward.0), omega (arith, onward.1))
      ]

  pub lookup-delete_times :
      (ts : List ℤ) (d : Dict ℤ (CheckpointHeader × P)) (t : ℤ)
      → lookup same_time t (delete_times ts d).0
        ≡ (if has_time t ts then none else lookup same_time t d)
  unfolding delete_times
  lookup-delete_times [] d t = refl
  lookup-delete_times (u ∷ ts) d t =
      let onward = lookup-delete_times ts (remove same_time u d) t in
      let step = lookup-remove same_time same_time_iff u t d in
      elim (Option-cases (lookup same_time u d)) [
        | inl e ↦ rw (e, delete_times) (ground (arith, onward, step))
        | inr (c, e) ↦ rw (e, delete_times) (ground (arith, onward, step))
      ]

  -- A cull of a manager that has checkpoints deletes exactly those whose times the policy rejects,
  -- each with one file, and keeps at least one.
  pub cull_timestamp_keeps :
      (m : CheckpointManager P) (now : ℤ)
      → IsDict same_time m.checkpoints
      → m.checkpoints ≢ []
      → (rejected : List ℤ) × (m' : CheckpointManager P) × (paths : List P) × (reject_with_time
            m.policy now
            (map (λ c. c.0) m.checkpoints)
          ≡ some rejected)
        × (cull_timestamp m now ≡ some (m', paths))
        × (0 < length m'.checkpoints)
        × (length m'.checkpoints + length paths ≡ length m.checkpoints)
        × ((t : ℤ)
            → lookup same_time t m'.checkpoints
              ≡ (if has_time t rejected then none else lookup same_time t m.checkpoints))
  unfolding cull_timestamp
  cull_timestamp_keeps m now d some_checkpoint =
      let times = map (λ c. c.0) m.checkpoints in
      let (rejected, done) = reject_with_time_total m.policy now times in
      let (kept, last_kept, p) =
        reject_with_time-perm m.policy now times rejected
          (λ e. some_checkpoint (map-nil (λ c. c.0) m.checkpoints e)) done in
      let sizes = length-delete_times rejected m.checkpoints d in
      let left = delete_times rejected m.checkpoints in
      let fewer : length left.1 < length m.checkpoints = omega (
        arith,
        sizes.1,
        length-perm p,
        length-append rejected (kept ++ last_kept ∷ []),
        length-append kept (last_kept ∷ []),
        length-map m.checkpoints (λ c. c.0),
      ) in
      (
        rejected,
        record m { checkpoints = left.0 },
        left.1,
        done,
        rw (done, cull_timestamp) refl,
        omega (arith, sizes.0, fewer),
        sizes.0,
        λ t. lookup-delete_times rejected m.checkpoints t,
      )
