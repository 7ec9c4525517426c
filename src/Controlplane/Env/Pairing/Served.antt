-- ===== src/Controlplane/Env/Pairing/Served.antt =====
-- What a pairing of nodes with agents by crates/controlplane/src/env/set.rs gives.
use snarkops.Controlplane.Env.Pairing.{pair_all, DelegationError, Pairs, settle, is_busy}
use snarkops.Common.Text.{text_eq_iff, text_eq-false, text_eq, Text}
use mathlib.Core.List.{map-append, Mem, mem-cons_self, mem-cons_of_mem}
use snarkops.Common.{
  length, ap, length-append, append_assoc, append-nil, All-append, All, sym, Result, ◌||◌, ◌∙◌,
  ◌++◌, ◌≡◌, map, List, [], ◌∷◌, refl, false, arith, ok, err,
}
use snarkops.State.NodeKey.{NodeKey}
use snarkops.Controlplane.Env.Mask.{has_label}

-- No agent is given twice, and none that was busy before.
abbrev pub IsFresh : List Text → List (NodeKey × Text) → Type 0
IsFresh busy [] = Unit
IsFresh busy (p ∷ ps) =
    (is_busy busy p.1 ≡ false) × (is_busy (map (λ q. q.1) ps) p.1 ≡ false) × IsFresh busy ps

has_label-snoc :
    (ids : List (NodeKey × Text)) (p : NodeKey × Text) (id : Text)
    → is_busy (map (λ q. q.1) (ids ++ p ∷ [])) id
      ≡ (is_busy (map (λ q. q.1) ids) id || text_eq p.1 id)
unfolding has_label
has_label-snoc [] p id = ground arith
has_label-snoc (q ∷ ids) p id = let onward = has_label-snoc ids p id in ground (arith, onward)

text_eq_comm : (s t : Text) → text_eq s t ≡ false → text_eq t s ≡ false
text_eq_comm s t h =
    text_eq-false t s (λ e. let same = (text_eq_iff s t).1 (sym e) in absurd (cc (h, same)))

IsFresh-snoc :
    (busy : List Text) (ps : List (NodeKey × Text)) (p : NodeKey × Text)
    → IsFresh busy ps
    → is_busy busy p.1 ≡ false
    → is_busy (map (λ q. q.1) ps) p.1 ≡ false
    → IsFresh busy (ps ++ p ∷ [])
unfolding has_label
IsFresh-snoc busy [] p f free new = (free, refl, tt)
IsFresh-snoc busy (q ∷ ps) p f free new =
    let other : text_eq q.1 p.1 ≡ false = ground (arith, new) in
    let later : is_busy (map (λ q. q.1) ps) p.1 ≡ false = ground (arith, new) in
    (
      f.0,
      has_label-snoc ps p q.1 ∙ ground (arith, f.1, text_eq_comm q.1 p.1 other),
      IsFresh-snoc busy ps p f.2 free later,
    )

-- The pairs of a loop that began with some agents busy; `Serving` says what is right of a pair.
pub record IsPaired (Serving : NodeKey × Text → Type 0) (busy : List Text) (p : Pairs)
    : Type 0 where
  pub fresh : IsFresh busy p.claimed
  pub held :
      (id : Text) → is_busy p.busy id ≡ (is_busy busy id || is_busy (map (λ q. q.1) p.claimed) id)
  pub serving : All Serving p.claimed

settle-IsPaired :
    {Serving : NodeKey × Text → Type 0} (busy : List Text) (p : Pairs) (key : NodeKey)
    (outcome : Result DelegationError Text)
    → IsPaired Serving busy p
    → ((id : Text) → outcome ≡ ok id → (is_busy p.busy id ≡ false) × Serving (key, id))
    → IsPaired Serving busy (settle p key outcome)
unfolding settle has_label
settle-IsPaired busy p key (err e) v right = record {
  fresh = v.fresh;
  held = v.held;
  serving = v.serving;
}
settle-IsPaired {Serving} busy p key (ok id) v right =
    let (free, serves) = right id refl in
    let held = v.held in
    let was_held = held id in
    record {
      fresh =
          IsFresh-snoc busy p.claimed (key, id) v.fresh (ground (arith, was_held, free))
            (ground (arith, was_held, free));
      held = λ other.
          let was = held other in
          rw (has_label-snoc p.claimed (key, id) other) (ground (arith, was));
      serving = All-append Serving p.claimed ((key, id) ∷ []) v.serving (serves, tt);
    }

module _ {W : Type 0} (choose : List Text → NodeKey × W → Result DelegationError Text)
    (Serving : NodeKey × Text → Type 0) (busy : List Text) where
  pub pair_all-IsPaired :
      (ws : List (NodeKey × W)) (p : Pairs)
      → ((w : NodeKey × W) (held : List Text) (id : Text)
          → Mem w ws
          → choose held w ≡ ok id
          → (is_busy held id ≡ false) × Serving (w.0, id))
      → IsPaired Serving busy p
      → IsPaired Serving busy (pair_all choose ws p)
  unfolding pair_all
  pair_all-IsPaired [] p right v = v
  pair_all-IsPaired (w ∷ ws) p right v =
      pair_all-IsPaired ws (settle p w.0 (choose p.busy w))
        (λ u held id m. right u held id (mem-cons_of_mem w m))
        (settle-IsPaired busy p w.0 (choose p.busy w) v (λ id. right w p.busy id mem-cons_self))

-- Errors stay, so a loop without errors has paired every node.
module _ {W : Type 0} (choose : List Text → NodeKey × W → Result DelegationError Text) where
  pub settle-errors :
      (p : Pairs) (key : NodeKey) (outcome : Result DelegationError Text)
      → (settle p key outcome).errors ≡ []
      → (p.errors ≡ [])
        × (map (λ q. q.0) (settle p key outcome).claimed ≡ map (λ q. q.0) p.claimed ++ key ∷ [])
  unfolding settle
  settle-errors p key (ok id) h = (h, map-append (λ q. q.0) p.claimed ((key, id) ∷ []))
  settle-errors p key (err e) h =
      absurd (omega (arith, length-append p.errors (e ∷ []), ap length h))

  pub pair_all_keys :
      (ws : List (NodeKey × W)) (p : Pairs)
      → (pair_all choose ws p).errors ≡ []
      → (p.errors ≡ [])
        × (map (λ q. q.0) (pair_all choose ws p).claimed
            ≡ map (λ q. q.0) p.claimed ++ map (λ w. w.0) ws)
  unfolding pair_all
  pair_all_keys [] p h = (h, sym (append-nil (map (λ q. q.0) p.claimed)))
  pair_all_keys (w ∷ ws) p h =
      let (no_errors, keys) = pair_all_keys ws (settle p w.0 (choose p.busy w)) h in
      let (none_before, key) = settle-errors p w.0 (choose p.busy w) no_errors in
      (
        none_before,
        keys ∙ rw key (append_assoc (map (λ q. q.0) p.claimed) (w.0 ∷ []) (map (λ w. w.0) ws)),
      )
