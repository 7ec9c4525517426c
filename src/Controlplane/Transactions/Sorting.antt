-- ===== src/Controlplane/Transactions/Sorting.antt =====
-- `sorted_by_index` of crates/controlplane/src/state/transactions.rs and the order of what it gives.
use snarkops.Controlplane.Transactions.{insert_by_index, sort_by_index}
use mathlib.Core.List.{Perm}
use mathlib.Core.List.Perm
use snarkops.Common.{
  filter, not_ltb→le, inr, ltb→lt, ◌≡◌, inl, ltb, Bool-cases, ◌==◌, All, Bool, ◌≤◌, ℕ, List, [],
  ◌∷◌, refl, arith,
}

module _ {A : Type 0} where
  -- No element has a smaller index than one before it.
  abbrev pub IsSorted : List (A × ℕ) → Type 0
  IsSorted [] = Unit
  IsSorted (x ∷ xs) = All (λ y. x.1 ≤ y.1) xs × IsSorted xs

  abbrev pub has_index : ℕ → A × ℕ → Bool
  has_index i x = x.1 == i

  insert_by_index-perm : (x : A × ℕ) (xs : List (A × ℕ)) → Perm (insert_by_index x xs) (x ∷ xs)
  unfolding insert_by_index
  insert_by_index-perm x [] = Perm.refl (x ∷ [])
  insert_by_index-perm x (y ∷ ys) = elim (Bool-cases (ltb y.1 x.1)) [
    | inl h ↦ rw h (Perm.trans (Perm.cons y (insert_by_index-perm x ys)) (Perm.swap x y ys))
    | inr h ↦ rw h (Perm.refl (x ∷ y ∷ ys))
  ]

  All-weaken : (n m : ℕ) (xs : List (A × ℕ)) → n ≤ m → All (λ y. m ≤ y.1) xs → All (λ y. n ≤ y.1) xs
  All-weaken n m [] h a = tt
  All-weaken n m (x ∷ xs) h a = (omega (arith, a.0), All-weaken n m xs h a.1)

  All-insert_by_index :
      (n : ℕ) (x : A × ℕ) (xs : List (A × ℕ))
      → n ≤ x.1
      → All (λ y. n ≤ y.1) xs
      → All (λ y. n ≤ y.1) (insert_by_index x xs)
  unfolding insert_by_index
  All-insert_by_index n x [] h a = (h, tt)
  All-insert_by_index n x (y ∷ ys) h a = elim (Bool-cases (ltb y.1 x.1)) [
    | inl e ↦ rw e (a.0, All-insert_by_index n x ys h a.1)
    | inr e ↦ rw e (h, a)
  ]

  insert_by_index-IsSorted :
      (x : A × ℕ) (xs : List (A × ℕ)) → IsSorted xs → IsSorted (insert_by_index x xs)
  unfolding insert_by_index
  insert_by_index-IsSorted x [] h = (tt, tt)
  insert_by_index-IsSorted x (y ∷ ys) h = elim (Bool-cases (ltb y.1 x.1)) [
    | inl e ↦ rw e (
      All-insert_by_index y.1 x ys (omega (arith, ltb→lt y.1 x.1 e)) h.0,
      insert_by_index-IsSorted x ys h.1,
    )
    | inr e ↦ let le = not_ltb→le y.1 x.1 e in rw e ((le, All-weaken x.1 y.1 ys le h.0), h)
  ]

  filter-insert_by_index :
      (i : ℕ) (x : A × ℕ) (xs : List (A × ℕ))
      → filter (has_index i) (insert_by_index x xs) ≡ filter (has_index i) (x ∷ xs)
  unfolding insert_by_index
  filter-insert_by_index i x [] = refl
  filter-insert_by_index i x (y ∷ ys) =
      let onward = filter-insert_by_index i x ys in ground (arith, onward)

  pub sort_by_index-perm : (xs : List (A × ℕ)) → Perm (sort_by_index xs) xs
  unfolding sort_by_index
  sort_by_index-perm [] = Perm.refl []
  sort_by_index-perm (x ∷ xs) =
      Perm.trans (insert_by_index-perm x (sort_by_index xs)) (Perm.cons x (sort_by_index-perm xs))

  sort_by_index-IsSorted : (xs : List (A × ℕ)) → IsSorted (sort_by_index xs)
  unfolding sort_by_index
  sort_by_index-IsSorted [] = tt
  sort_by_index-IsSorted (x ∷ xs) =
      insert_by_index-IsSorted x (sort_by_index xs) (sort_by_index-IsSorted xs)

  filter-sort_by_index :
      (i : ℕ) (xs : List (A × ℕ))
      → filter (has_index i) (sort_by_index xs) ≡ filter (has_index i) xs
  unfolding sort_by_index
  filter-sort_by_index i [] = refl
  filter-sort_by_index i (x ∷ xs) =
      rw (filter-insert_by_index i x (sort_by_index xs), filter-sort_by_index i xs)

  -- What the task queues comes in the order of the index: the sorted elements are those given, each
  -- as often, none has a smaller index than one before it, and those of the same index keep their
  -- order.
  pub sort_by_index_stable :
      (xs : List (A × ℕ))
      → Perm (sort_by_index xs) xs
        × IsSorted (sort_by_index xs)
        × ((i : ℕ) → filter (has_index i) (sort_by_index xs) ≡ filter (has_index i) xs)
  sort_by_index_stable xs =
      (sort_by_index-perm xs, sort_by_index-IsSorted xs, λ i. filter-sort_by_index i xs)
