-- ===== src/Common/Dict.antt =====
-- A hash map as a list of pairs whose keys differ. The order of the pairs is that of an iteration.
use snarkops.Common.Tests.{if◌then◌else◌, Bool-cases}
use mathlib.Core.Path.{◌≡◌, refl, ◌∙◌}
use mathlib.Core.Logic.{◌↔◌, inl, inr}
use mathlib.Core.Bool.{Bool, true}
use mathlib.Core.Option.{Option, none, some}
use mathlib.Core.List.{List, [], ◌∷◌}
use Prim.Native.Nat.{◌+◌}
use snarkops.Common.Lists.{length}
use native.Mathlib.Omega.{arith}

abbrev pub Dict : Type 0 → Type 0 → Type 0
Dict K V = List (K × V)

module _ {K V : Type 0} (same : K → K → Bool) where
  unfoldable pub lookup : K → Dict K V → Option V
  lookup k [] = none
  lookup k ((j, v) ∷ d) = if same j k then some v else lookup k d

  unfoldable pub remove : K → Dict K V → Dict K V
  remove k [] = []
  remove k ((j, v) ∷ d) = if same j k then remove k d else (j, v) ∷ remove k d

  unfoldable pub insert : K → V → Dict K V → Dict K V
  unfolding remove
  insert k v d = (k, v) ∷ remove k d

-- `retain(|k, v| ..)`
unfoldable pub retain : {K V : Type 0} → (K → V → Bool) → Dict K V → Dict K V
retain p [] = []
retain p ((k, v) ∷ d) = if p k v then (k, v) ∷ retain p d else retain p d

abbrev pub keep_if : {V : Type 0} → (V → Bool) → Option V → Option V
keep_if p none = none
keep_if p (some v) = if p v then some v else none

module _ {K V : Type 0} (same : K → K → Bool) where
  -- No key stands twice.
  abbrev pub IsDict : Dict K V → Type 0
  IsDict [] = Unit
  IsDict ((k, v) ∷ d) = (lookup same k d ≡ none) × IsDict d

module _ {K V : Type 0} (same : K → K → Bool)
    (same_iff : (k j : K) → (same k j ≡ true) ↔ (k ≡ j)) where
  pub lookup-remove :
      (k j : K) (d : Dict K V)
      → lookup same j (remove same k d) ≡ (if same k j then none else lookup same j d)
  unfolding lookup remove
  lookup-remove k j [] = ground arith
  lookup-remove k j ((i, v) ∷ d) =
      ground (arith, lookup-remove k j d, same_iff i k, same_iff k j, same_iff i j)

  pub lookup-insert :
      (k j : K) (v : V) (d : Dict K V)
      → lookup same j (insert same k v d) ≡ (if same k j then some v else lookup same j d)
  unfolding lookup insert
  lookup-insert k j v d = ground (arith, lookup-remove k j d)

  pub remove_absent : (k : K) (d : Dict K V) → lookup same k d ≡ none → remove same k d ≡ d
  unfolding lookup remove
  remove_absent k [] h = refl
  remove_absent k ((i, v) ∷ d) h = ground (arith, remove_absent k d)

  -- The removal of a key takes one pair, or none if the key is not there.
  pub length-remove :
      (k : K) (d : Dict K V)
      → IsDict same d
      → length d ≡ length (remove same k d) + (elim (lookup same k d) [ none ↦ 0 | some v ↦ 1 ])
  unfolding lookup remove
  length-remove k [] h = refl
  length-remove k ((i, v) ∷ d) h =
      let onward = length-remove k d h.1 in
      elim (Bool-cases (same i k)) [
        | inl e ↦
            let gone : lookup same k d ≡ none = rw ((same_iff i k).0 e) at h.0 in
            rw (e, remove_absent k d gone) (omega arith)
        | inr e ↦ rw e (omega (arith, onward))
      ]

  pub lookup-retain-none :
      (p : K → V → Bool) (j : K) (d : Dict K V)
      → lookup same j d ≡ none
      → lookup same j (retain p d) ≡ none
  unfolding lookup retain
  lookup-retain-none p j [] h = refl
  lookup-retain-none p j ((i, v) ∷ d) h = ground (arith, lookup-retain-none p j d)

  pub lookup-retain :
      (p : K → V → Bool) (j : K) (d : Dict K V)
      → IsDict same d
      → lookup same j (retain p d) ≡ keep_if (p j) (lookup same j d)
  unfolding lookup retain
  lookup-retain p j [] h = refl
  lookup-retain p j ((i, v) ∷ d) h =
      let onward = lookup-retain p j d h.1 in
      elim (Bool-cases (same i j)) [
        | inl e ↦
            let found : same i i ≡ true = (same_iff i i).1 refl in
            rw (← (same_iff i j).0 e) (ground (arith, found, lookup-retain-none p i d h.0))
        | inr e ↦ ground (arith, e, onward)
      ]

  pub remove-IsDict : (k : K) (d : Dict K V) → IsDict same d → IsDict same (remove same k d)
  unfolding remove
  remove-IsDict k [] h = tt
  remove-IsDict k ((i, v) ∷ d) h =
      ground (arith, lookup-remove k i d, remove-IsDict k d h.1, same_iff i k)

  pub insert-IsDict :
      (k : K) (v : V) (d : Dict K V) → IsDict same d → IsDict same (insert same k v d)
  unfolding insert
  insert-IsDict k v d h =
      (lookup-remove k k d ∙ rw ((same_iff k k).1 refl) refl, remove-IsDict k d h)

  pub retain-IsDict : (p : K → V → Bool) (d : Dict K V) → IsDict same d → IsDict same (retain p d)
  unfolding retain
  retain-IsDict p [] h = tt
  retain-IsDict p ((i, v) ∷ d) h = ground (arith, lookup-retain-none p i d, retain-IsDict p d h.1)
