-- ===== src/Checkpoint/Manager/Nearest.antt =====
-- `nearest_with_height` and `nearest_with_timestamp` of crates/checkpoint/src/manager.rs.
use mathlib.Core.Option.{some-injective}
use mathlib.Core.Path.{subst}
use snarkops.Common.Int.{pos, ◌≤ℤ◌, ltb_ℤ, ℤ}
use snarkops.Checkpoint.Header.{CheckpointHeader}
use mathlib.Core.List.{Mem, mem-cons_self, mem-cons_of_mem}
use snarkops.Common.{
  map, ℕ, Option-cases, Bool-cases, ◌≡◌, List, [], ◌∷◌, All, Option, none, some, arith, true, inl,
  inr,
}
use snarkops.Checkpoint.Manager.{
  CheckpointManager, nearest_with_timestamp, nearest_with_height, sorted_by, insert_by, find_below,
}

All-mono :
    {A : Type 0} {P Q : A → Type 0} → ((a : A) → P a → Q a) → (xs : List A) → All P xs → All Q xs
All-mono f [] h = tt
All-mono f (x ∷ xs) h = (f x h.0, All-mono f xs h.1)

All-Mem : {A : Type 0} (xs : List A) → All (λ x. Mem x xs) xs
All-Mem [] = tt
All-Mem (x ∷ xs) = (mem-cons_self, All-mono (λ y m. mem-cons_of_mem x m) xs (All-Mem xs))

module _ {P : Type 0} (key : CheckpointHeader → ℤ) where
  -- The highest keys first.
  abbrev IsDescending : List (CheckpointHeader × P) → Type 0
  IsDescending [] = Unit
  IsDescending (c ∷ cs) = All (λ d. key d.0 ≤ℤ key c.0) cs × IsDescending cs

  All-insert_by :
      (Q : CheckpointHeader × P → Type 0) (c : CheckpointHeader × P)
      (cs : List (CheckpointHeader × P))
      → (Q c × All Q cs → All Q (insert_by key c cs))
        × (All Q (insert_by key c cs) → Q c × All Q cs)
  unfolding insert_by
  All-insert_by Q c [] = (λ h. h, λ h. h)
  All-insert_by Q c (d ∷ ds) =
      let (there, back) = All-insert_by Q c ds in
      elim (Bool-cases (ltb_ℤ (key c.0) (key d.0))) [
        | inl e ↦
            rw (e, insert_by)
              (
                λ (qc, (qd, qs)). (qd, there (qc, qs)),
                λ (qd, qs). let (qc, rest) = back qs in (qc, (qd, rest)),
              )
        | inr e ↦ rw (e, insert_by) (λ h. h, λ h. h)
      ]

  All-sorted_by :
      (Q : CheckpointHeader × P → Type 0) (cs : List (CheckpointHeader × P))
      → (All Q cs → All Q (sorted_by key cs)) × (All Q (sorted_by key cs) → All Q cs)
  unfolding sorted_by
  All-sorted_by Q [] = (λ h. h, λ h. h)
  All-sorted_by Q (c ∷ cs) =
      let (in_there, in_back) = All-insert_by Q c (sorted_by key cs) in
      let (there, back) = All-sorted_by Q cs in
      (λ (q, qs). in_there (q, there qs), λ h. let (q, qs) = in_back h in (q, back qs))

  insert_by-IsDescending :
      (c : CheckpointHeader × P) (cs : List (CheckpointHeader × P))
      → IsDescending cs
      → IsDescending (insert_by key c cs)
  unfolding insert_by
  insert_by-IsDescending c [] h = (tt, tt)
  insert_by-IsDescending c (d ∷ ds) h = elim (Bool-cases (ltb_ℤ (key c.0) (key d.0))) [
    | inl e ↦
        let low : key c.0 ≤ℤ key d.0 = ground (arith, e) in
        rw (e, insert_by)
          (
            (All-insert_by (λ b. key b.0 ≤ℤ key d.0) c ds).0 (low, h.0),
            insert_by-IsDescending c ds h.1,
          )
    | inr e ↦
        let high : key d.0 ≤ℤ key c.0 = ground (arith, e) in
        rw (e, insert_by) ((high, All-mono (λ b le. omega (arith, le, high)) ds h.0), h)
  ]

  sorted_by-IsDescending : (cs : List (CheckpointHeader × P)) → IsDescending (sorted_by key cs)
  unfolding sorted_by
  sorted_by-IsDescending [] = tt
  sorted_by-IsDescending (c ∷ cs) =
      insert_by-IsDescending c (sorted_by key cs) (sorted_by-IsDescending cs)

  -- The entry with the highest key that is not above a limit, or nothing if all are above.
  abbrev pub IsNearest : ℤ → List (CheckpointHeader × P) → Option (CheckpointHeader × P) → Type 0
  IsNearest limit cs none = All (λ d. ltb_ℤ limit (key d.0) ≡ true) cs
  IsNearest limit cs (some c) =
      Mem c cs × (key c.0 ≤ℤ limit) × All (λ d. key d.0 ≤ℤ limit → key d.0 ≤ℤ key c.0) cs

  find_below-All :
      (Q : CheckpointHeader × P → Type 0) (limit : ℤ) (cs : List (CheckpointHeader × P))
      → All Q cs
      → (found : CheckpointHeader × P) → find_below key limit cs ≡ some found
      → Q found
  unfolding find_below
  find_below-All Q limit [] h found e = absurd (cc e)
  find_below-All Q limit (c ∷ cs) h found e = elim (Bool-cases (ltb_ℤ limit (key c.0))) [
    | inl high ↦ find_below-All Q limit cs h.1 found (rw (high, find_below) at e)
    | inr low ↦ subst Q (some-injective _ _ (rw (low, find_below) at e)) h.0
  ]

  above :
      (limit : ℤ) (c : CheckpointHeader × P) (cs : List (CheckpointHeader × P))
      → ltb_ℤ limit (key c.0) ≡ true
      → (found : Option (CheckpointHeader × P)) → IsNearest limit cs found
      → IsNearest limit (c ∷ cs) found
  above limit c cs e none h = (e, h)
  above limit c cs e (some d) (m, low, best) =
      (mem-cons_of_mem (c) m, low, (λ le. absurd (ground (arith, e, le)), best))

  find_below-IsNearest :
      (limit : ℤ) (cs : List (CheckpointHeader × P))
      → IsDescending cs
      → IsNearest limit cs (find_below key limit cs)
  unfolding find_below
  find_below-IsNearest limit [] h = tt
  find_below-IsNearest limit (c ∷ cs) h =
      let onward = find_below-IsNearest limit cs h.1 in
      elim (Bool-cases (ltb_ℤ limit (key c.0))) [
        | inl e ↦ rw (e, find_below) (above limit c cs e (find_below key limit cs) onward)
        | inr e ↦
            rw (e, find_below)
              (mem-cons_self, ground (arith, e), (λ _. omega arith, All-mono (λ d le _. le) cs h.0))
      ]

  find_below-sorted_by :
      (limit : ℤ) (cs : List (CheckpointHeader × P))
      → IsNearest limit cs (find_below key limit (sorted_by key cs))
  find_below-sorted_by limit cs =
      let nearest = find_below-IsNearest limit (sorted_by key cs) (sorted_by-IsDescending cs) in
      let members = (All-sorted_by (λ c. Mem c cs) cs).0 (All-Mem cs) in
      elim (Option-cases (find_below key limit (sorted_by key cs))) [
        | inl e ↦ rw e ((All-sorted_by (λ d. ltb_ℤ limit (key d.0) ≡ true) cs).1 (rw e at nearest))
        | inr (c, e) ↦
            let (_, low, best) = rw e at nearest in
            rw e (
              find_below-All (λ d. Mem d cs) limit (sorted_by key cs) members c e,
              low,
              (All-sorted_by (λ d. key d.0 ≤ℤ limit → key d.0 ≤ℤ key c.0) cs).1 best,
            )
      ]

-- The nearest checkpoint of a height is the highest that is not above it, and there is none exactly
-- where all are above it; and so for a timestamp.
pub highest_below :
    {P : Type 0} (m : CheckpointManager P) (height : ℕ) (timestamp : ℤ)
    → IsNearest
        (λ h. pos h.block_height)
        (pos height)
        (map (λ c. c.1) m.checkpoints)
        (nearest_with_height m height)
      × IsNearest
          (λ h. h.timestamp)
          timestamp
          (map (λ c. c.1) m.checkpoints)
          (nearest_with_timestamp m timestamp)
unfolding nearest_with_height nearest_with_timestamp
highest_below m height timestamp = (
  find_below-sorted_by (λ h. pos h.block_height) (pos height) (map (λ c. c.1) m.checkpoints),
  find_below-sorted_by (λ h. h.timestamp) timestamp (map (λ c. c.1) m.checkpoints),
)
