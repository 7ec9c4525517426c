-- ===== src/Controlplane/Tracker/Attempts.antt =====
-- The attempts of crates/controlplane/src/cannon/tracker.rs count.
use snarkops.Common.{
  ap, if◌then◌else◌, ℕ, zero, suc, ◌+◌, ◌^◌, ◌<◌, ◌≡◌, ◌↔◌, Bool, true, Option, none, some, Result,
  ok, and_then, unwrap_or, arith, refl, Bool-cases, inl, inr, ok-injective, and_then-eq-ok, ◌∙◌,
}
use snarkops.Database.{delete, Sled, IsSled, DatabaseError, restore}
use snarkops.Database.Refinement.{restore-save, restore-delete}
use snarkops.Format.{DataFormat}
use snarkops.Format.Laws.{IsLawful}
use snarkops.Format.Packed.{packed_format}
use snarkops.Format.Packed.RoundTrip.{packed_format-IsLawful}
use snarkops.Controlplane.Tracker.{attempts_of, inc_attempts, get_attempts, clear_attempts}

attempts_of-ok :
    (E : Type 0) (prev : Option ℕ)
    → unwrap_or 0 prev < 2 ^ 32
    → attempts_of {E = E} (ok prev) ≡ unwrap_or 0 prev
unfolding attempts_of
attempts_of-ok E none h = refl
attempts_of-ok E (some v) h = omega arith

module _ {T E : Type 0} (S : Sled T E) (sled_law : IsSled S) {H K : Type 0}
    (key_format : DataFormat H K) {IsKey : K → Type 0} (key_law : IsLawful key_format IsKey)
    (same : K → K → Bool) (same_iff : (k j : K) → (same k j ≡ true) ↔ (k ≡ j)) where
  -- Some increments, one after the other.
  unfoldable pub inc_times : ℕ → T → K → Result (DatabaseError E) T
  unfolding inc_attempts
  inc_times zero t key = ok t
  inc_times (suc n) t key = and_then (inc_attempts S key_format t key) λ t'. inc_times n t' key

  restore-inc_attempts :
      (t t' : T) (key j : K) (prev : Option ℕ)
      → IsKey key
      → IsKey j
      → unwrap_or 0 prev + 1 < 2 ^ 64
      → restore S key_format packed_format t key ≡ ok prev
      → inc_attempts S key_format t key ≡ ok t'
      → restore S key_format packed_format t' j ≡ (
          if same key j
          then ok (some (unwrap_or 0 prev + 1))
          else restore S key_format packed_format t j)
  unfolding inc_attempts
  restore-inc_attempts t t' key j prev vk vj fits had done =
      restore-save S sled_law key_format packed_format key_law packed_format-IsLawful same same_iff
        t t' key j (unwrap_or 0 prev + 1) vk vj fits (rw (had, inc_attempts) at done)

  get_attempts-inc_times :
      (n : ℕ) (t t' : T) (key j : K) (prev : Option ℕ)
      → IsKey key
      → IsKey j
      → unwrap_or 0 prev + n < 2 ^ 32
      → restore S key_format packed_format t key ≡ ok prev
      → inc_times n t key ≡ ok t'
      → get_attempts S key_format t' j
        ≡ (if same key j then unwrap_or 0 prev + n else get_attempts S key_format t j)
  unfolding inc_times get_attempts
  get_attempts-inc_times zero t t' key j prev vk vj fits had done = elim (Bool-cases (same key j)) [
    | inl e ↦
        let same_key : restore S key_format packed_format t' j ≡ ok prev =
          rw (← ok-injective done, ← (same_iff key j).0 e) had in
        rw e (ap attempts_of same_key ∙ attempts_of-ok E prev (omega arith) ∙ omega arith)
    | inr e ↦ rw (e, ← ok-injective done) refl
  ]
  get_attempts-inc_times (suc n) t t' key j prev vk vj fits had done =
      let (u, first, rest) =
        and_then-eq-ok (inc_attempts S key_format t key) (λ u. inc_times n u key) done in
      let at_key = restore-inc_attempts t u key key prev vk vk (omega arith) had first in
      let at_j = restore-inc_attempts t u key j prev vk vj (omega arith) had first in
      let now : restore S key_format packed_format u key ≡ ok (some (unwrap_or 0 prev + 1)) =
        rw ((same_iff key key).1 refl) at at_key in
      let onward =
        get_attempts-inc_times n u t' key j (some (unwrap_or 0 prev + 1)) vk vj (omega arith) now
          rest in
      elim (Bool-cases (same key j)) [
        | inl e ↦ rw e (rw e at onward ∙ omega arith)
        | inr e ↦ rw e (rw e at onward ∙ ap attempts_of (rw e at at_j))
      ]

  -- Over a tree that keeps what it inserts: once the attempts of a transaction are cleared, a number
  -- of increments that all succeed is what is read, below 2^32, and no other transaction's attempts
  -- change.
  pub attempts_counted :
      (n : ℕ) (t cleared t' : T) (key j : K)
      → IsKey key
      → IsKey j
      → n < 2 ^ 32
      → clear_attempts S key_format t key ≡ ok cleared
      → inc_times n cleared key ≡ ok t'
      → get_attempts S key_format t' j ≡ (if same key j then n else get_attempts S key_format t j)
  unfolding clear_attempts get_attempts
  attempts_counted n t cleared t' key j vk vj fits done counted =
      let ((found, left), removed, same_tree) =
        and_then-eq-ok (delete S key_format packed_format t key) (λ (found, u). ok u) done in
      let gone : delete S key_format packed_format t key ≡ ok (found, cleared) =
        removed ∙ ap (λ u. ok (found, u)) (ok-injective same_tree) in
      let at_key =
        restore-delete S sled_law key_format packed_format key_law packed_format-IsLawful same
          same_iff t cleared key key found vk vk gone in
      let at_j =
        restore-delete S sled_law key_format packed_format key_law packed_format-IsLawful same
          same_iff t cleared key j found vk vj gone in
      let onward =
        get_attempts-inc_times n cleared t' key j none vk vj (omega arith)
          (rw ((same_iff key key).1 refl) at at_key) counted in
      elim (Bool-cases (same key j)) [
        | inl e ↦ rw e (rw e at onward ∙ omega arith)
        | inr e ↦ rw e (rw e at onward ∙ ap attempts_of (rw e at at_j))
      ]
