-- ===== src/Controlplane/Env/BitSet.antt =====
-- What crates/controlplane relies on of the crate `fixedbitset`.
use snarkops.Common.{ℕ, Bool, true, false, ◌≡◌, ◌<◌, ◌||◌, ◌==◌, ◌↔◌}

pub record BitSet (S : Type 0) : Type 0 where
  pub with_capacity : ℕ → S
  pub capacity : S → ℕ
  pub insert : ℕ → S → S
  pub contains : S → ℕ → Bool
  pub is_subset : S → S → Bool

-- A bit is inserted below the capacity, which stays as it is.
pub record IsBitSet {S : Type 0} (B : BitSet S) : Type 0 where
  pub capacity-with_capacity : (n : ℕ) → B.capacity (B.with_capacity n) ≡ n
  pub contains-with_capacity : (n i : ℕ) → B.contains (B.with_capacity n) i ≡ false
  pub capacity-insert :
      (i : ℕ) (s : S) → i < B.capacity s → B.capacity (B.insert i s) ≡ B.capacity s
  pub contains-insert :
      (i j : ℕ) (s : S)
      → i < B.capacity s
      → B.contains (B.insert i s) j ≡ ((i == j) || B.contains s j)
  pub is_subset_iff :
      (s t : S)
      → (B.is_subset s t ≡ true) ↔ ((i : ℕ) → B.contains s i ≡ true → B.contains t i ≡ true)
