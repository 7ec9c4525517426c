-- ===== src/Controlplane/Env/Pairing/Chosen.antt =====
-- What the loops of `pair_with_nodes` in crates/controlplane/src/env/set.rs choose, element by element.
use snarkops.Common.Text.{Text}
use snarkops.Controlplane.Env.Pairing.{DelegationError, Pairs, pair_all, settle}
use snarkops.Controlplane.Env.Pairing.Served.{pair_all_keys}
use snarkops.State.NodeKey.{NodeKey}
use snarkops.Common.{
  In, length, length-append, ◌≡◌, ◌⊎◌, ◌∙◌, ◌++◌, List, [], ◌∷◌, Result, ok, err, inl, inr, refl,
  ap, arith,
}

In-snoc : {A : Type 0} (xs : List A) (x y : A) → In y (xs ++ x ∷ []) → In y xs ⊎ (x ≡ y)
In-snoc [] x y (inl e) = inr e
In-snoc [] x y (inr i) = elim i [ ]
In-snoc (z ∷ xs) x y (inl e) = inl (inl e)
In-snoc (z ∷ xs) x y (inr i) = elim (In-snoc xs x y i) [ inl j ↦ inl (inr j) | inr e ↦ inr e ]

In-append_left : {A : Type 0} (xs ys : List A) (y : A) → In y xs → In y (xs ++ ys)
In-append_left (x ∷ xs) ys y (inl e) = inl e
In-append_left (x ∷ xs) ys y (inr i) = inr (In-append_left xs ys y i)
In-append_left [] ys y i = elim i [ ]

In-append_last : {A : Type 0} (xs : List A) (x : A) → In x (xs ++ x ∷ [])
In-append_last [] x = inl refl
In-append_last (z ∷ xs) x = inr (In-append_last xs x)

module _ {W : Type 0} (choose : List Text → NodeKey × W → Result DelegationError Text) where
  -- What a loop has chosen for one of what it works with.
  pub record IsChosen (w : NodeKey × W) (pair : NodeKey × Text) : Type 0 where
    pub busy : List Text
    pub chosen : choose busy w ≡ ok pair.1
    pub own_key : w.0 ≡ pair.0

  pub claimed_stays :
      (ws : List (NodeKey × W)) (p : Pairs) (pair : NodeKey × Text)
      → In pair p.claimed
      → In pair (pair_all choose ws p).claimed
  unfolding pair_all settle
  claimed_stays [] p pair i = i
  claimed_stays (w ∷ ws) p pair i =
      claimed_stays ws (settle p w.0 (choose p.busy w)) pair (stays (choose p.busy w))
    where
      stays : (r : Result DelegationError Text) → In pair (settle p w.0 r).claimed
      stays (ok id) = In-append_left p.claimed ((w.0, id) ∷ []) pair i
      stays (err e) = i

  -- A loop without errors has chosen for each.
  pub found_for_each :
      (ws : List (NodeKey × W)) (p : Pairs) (w : NodeKey × W)
      → (pair_all choose ws p).errors ≡ []
      → In w ws
      → (id : Text) × IsChosen w (w.0, id) × In (w.0, id) (pair_all choose ws p).claimed
  unfolding pair_all settle
  found_for_each [] p w h i = elim i [ ]
  found_for_each (v ∷ ws) p w h (inr i) = found_for_each ws (settle p v.0 (choose p.busy v)) w h i
  found_for_each (v ∷ ws) p w h (inl same) =
      let clear = (pair_all_keys choose ws (settle p v.0 (choose p.busy v)) h).0 in
      rw (← same) (here (choose p.busy v) refl clear)
    where
      here :
          (r : Result DelegationError Text)
          → choose p.busy v ≡ r
          → (settle p v.0 r).errors ≡ []
          → (id : Text) × IsChosen v (v.0, id)
            × In (v.0, id) (pair_all choose ws (settle p v.0 (choose p.busy v))).claimed
      here (err e) q clear =
          absurd (omega (arith, length-append p.errors (e ∷ []), ap length clear))
      here (ok id) q clear = (
        id,
        record { busy = p.busy; chosen = q; own_key = refl },
        claimed_stays ws (settle p v.0 (choose p.busy v)) (v.0, id)
            (rw q (In-append_last p.claimed (v.0, id))),
      )

  -- What a loop has claimed it has chosen.
  pub claimed_from :
      (ws : List (NodeKey × W)) (p : Pairs) (pair : NodeKey × Text)
      → In pair (pair_all choose ws p).claimed
      → In pair p.claimed ⊎ ((w : NodeKey × W) × In w ws × IsChosen w pair)
  unfolding pair_all settle
  claimed_from [] p pair i = inl i
  claimed_from (w ∷ ws) p pair i = elim (claimed_from ws (settle p w.0 (choose p.busy w)) pair i) [
    | inr (v, j, c) ↦ inr (v, inr j, c)
    | inl j ↦ before (choose p.busy w) refl j
  ]
    where
      before :
          (r : Result DelegationError Text)
          → choose p.busy w ≡ r
          → In pair (settle p w.0 r).claimed
          → In pair p.claimed ⊎ ((v : NodeKey × W) × In v (w ∷ ws) × IsChosen v pair)
      before (err e) q j = inl j
      before (ok id) q j = elim (In-snoc p.claimed (w.0, id) pair j) [
        | inl k ↦ inl k
        | inr e ↦ inr (
          w,
          inl refl,
          record { busy = p.busy; chosen = q ∙ ap (λ x. ok x.1) e; own_key = ap (λ x. x.0) e },
        )
      ]
