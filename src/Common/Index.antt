-- ===== src/Common/Index.antt =====
-- Maps and sets in the order of insertion (`IndexMap`, `IndexSet`), as lists: of a key that is
-- inserted again the value changes and the place stays.
use snarkops.Common.{inl, inr, some, Bool-cases, ◌↔◌, true}
use snarkops.Common.Dict.{IsDict, Dict, lookup}
use snarkops.Common.Tests.{if◌then◌else◌}
use mathlib.Core.Bool.{Bool, false, ◌||◌}
use mathlib.Core.List.{List, [], ◌∷◌, ◌++◌, append_assoc, append-nil}
use mathlib.Core.Option.{none}
use mathlib.Core.Path.{◌≡◌, refl, sym, ◌∙◌}
use native.Mathlib.Omega.{arith}

module _ {A : Type 0} (same : A → A → Bool) where
  unfoldable pub member : List A → A → Bool
  member [] a = false
  member (b ∷ s) a = same b a || member s a

  -- `IndexSet::insert`
  unfoldable pub set_insert : List A → A → List A
  unfolding member
  set_insert s a = if member s a then s else s ++ a ∷ []

  -- `extend`, and `collect` from the empty set.
  unfoldable pub set_extend : List A → List A → List A
  unfolding set_insert
  set_extend s [] = s
  set_extend s (a ∷ bs) = set_extend (set_insert s a) bs

  -- Nothing of the second list is in the first one, or in it twice.
  abbrev pub IsFreshSet : List A → List A → Type 0
  IsFreshSet s [] = Unit
  IsFreshSet s (a ∷ bs) = (member s a ≡ false) × IsFreshSet (s ++ a ∷ []) bs

  pub set_insert-fresh : (s : List A) (a : A) → member s a ≡ false → set_insert s a ≡ s ++ a ∷ []
  unfolding set_insert
  set_insert-fresh s a h = rw h

  pub set_extend-fresh : (s bs : List A) → IsFreshSet s bs → set_extend s bs ≡ s ++ bs
  unfolding set_extend
  set_extend-fresh s [] h = sym (append-nil s)
  set_extend-fresh s (a ∷ bs) h =
      rw (set_insert-fresh s a h.0)
        (set_extend-fresh (s ++ a ∷ []) bs h.1 ∙ append_assoc s (a ∷ []) bs)

module _ {K V : Type 0} (same : K → K → Bool) where
  -- `IndexMap::insert`
  unfoldable pub index_insert : Dict K V → K → V → Dict K V
  index_insert [] k v = (k, v) ∷ []
  index_insert ((j, w) ∷ d) k v = if same j k then (j, v) ∷ d else (j, w) ∷ index_insert d k v

  unfoldable pub index_extend : Dict K V → Dict K V → Dict K V
  unfolding index_insert
  index_extend d [] = d
  index_extend d ((k, v) ∷ es) = index_extend (index_insert d k v) es

  abbrev pub IsFreshMap : Dict K V → Dict K V → Type 0
  IsFreshMap d [] = Unit
  IsFreshMap d ((k, v) ∷ es) = (lookup same k d ≡ none) × IsFreshMap (d ++ (k, v) ∷ []) es

  pub index_insert-fresh :
      (d : Dict K V) (k : K) (v : V)
      → lookup same k d ≡ none
      → index_insert d k v ≡ d ++ (k, v) ∷ []
  unfolding index_insert lookup
  index_insert-fresh [] k v h = refl
  index_insert-fresh ((j, w) ∷ d) k v h = ground (arith, index_insert-fresh d k v)

  pub index_extend-fresh : (d es : Dict K V) → IsFreshMap d es → index_extend d es ≡ d ++ es
  unfolding index_extend
  index_extend-fresh d [] h = sym (append-nil d)
  index_extend-fresh d ((k, v) ∷ es) h =
      rw (index_insert-fresh d k v h.0)
        (index_extend-fresh (d ++ (k, v) ∷ []) es h.1 ∙ append_assoc d ((k, v) ∷ []) es)

module _ {A : Type 0} (same : A → A → Bool)
    (same_iff : (a b : A) → (same a b ≡ true) ↔ (a ≡ b)) where
  member-snoc : (s : List A) (a b : A) → member same (s ++ a ∷ []) b ≡ (member same s b || same a b)
  unfolding member
  member-snoc [] a b = ground arith
  member-snoc (c ∷ s) a b = ground (arith, member-snoc s a b)

  pub member-set_insert :
      (s : List A) (a b : A) → member same (set_insert same s a) b ≡ (member same s b || same a b)
  unfolding set_insert
  member-set_insert s a b = elim (Bool-cases (member same s a)) [
    | inr e ↦ rw e (member-snoc s a b)
    | inl e ↦ elim (Bool-cases (same a b)) [
      | inr f ↦ rw (e, f) (ground arith)
      | inl f ↦ let there : member same s b ≡ true = rw (← (same_iff a b).0 f) e in rw (e, f, there)
    ]
  ]

module _ {K V : Type 0} (same : K → K → Bool)
    (same_iff : (k j : K) → (same k j ≡ true) ↔ (k ≡ j)) where
  pub lookup-index_insert :
      (d : Dict K V) (k j : K) (v : V)
      → lookup same j (index_insert same d k v) ≡ (if same k j then some v else lookup same j d)
  unfolding lookup index_insert
  lookup-index_insert [] k j v = ground arith
  lookup-index_insert ((i, w) ∷ d) k j v =
      ground (arith, lookup-index_insert d k j v, same_iff i k, same_iff k j, same_iff i j)

  pub index_insert-IsDict :
      (d : Dict K V) (k : K) (v : V) → IsDict same d → IsDict same (index_insert same d k v)
  unfolding index_insert lookup
  index_insert-IsDict [] k v h = (refl, tt)
  index_insert-IsDict ((i, w) ∷ d) k v h = ground (
    arith,
    lookup-index_insert d k i v,
    index_insert-IsDict d k v h.1,
    h,
    same_iff i k,
    same_iff k i,
  )
