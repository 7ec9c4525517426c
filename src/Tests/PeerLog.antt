-- ===== src/Tests/PeerLog.antt =====
-- A set of peers as the log of its changes, latest first: test data for
-- crates/controlplane/src/env/mod.rs.
use snarkops.Controlplane.Environment.Peers.{
  BiMap, IsBiMap, EnvPeer, drop_if, peer_eq, peer_eq_iff, key_eq_iff,
}
use snarkops.State.NodeKey.{NodeKey, key_eq}
use mathlib.Core.Option.{some-injective}
use snarkops.Common.{
  In, true, false, Option, none, some, List, [], ◌∷◌, ◌≡◌, refl, sym, ◌∙◌, inl, inr, ap, Bool-cases,
  Option-cases, if◌then◌else◌,
}

pub data Change : Type 0 where
  added : NodeKey → EnvPeer → Change
  removed : NodeKey → Change

unfoldable pub peer_of : List Change → NodeKey → Option EnvPeer
peer_of [] k = none
peer_of (added j w ∷ m) k = let rest = peer_of m k in if key_eq j k then some w else drop_if w rest
peer_of (removed j ∷ m) k = let rest = peer_of m k in if key_eq j k then none else rest

unfoldable pub changed_keys : List Change → List NodeKey
changed_keys [] = []
changed_keys (added j w ∷ m) = j ∷ changed_keys m
changed_keys (removed j ∷ m) = changed_keys m

abbrev pub with_peer :
    NodeKey → Option EnvPeer → List (NodeKey × EnvPeer) → List (NodeKey × EnvPeer)
with_peer k none es = es
with_peer k (some v) es = (k, v) ∷ es

unfoldable pub collect : List Change → List NodeKey → List (NodeKey × EnvPeer)
unfolding peer_of
collect m [] = []
collect m (k ∷ ks) = with_peer k (peer_of m k) (collect m ks)

unfoldable pub key_of : List (NodeKey × EnvPeer) → EnvPeer → Option NodeKey
key_of [] v = none
key_of (e ∷ es) v = let rest = key_of es v in if peer_eq e.1 v then some e.0 else rest

unfoldable pub logged : BiMap (List Change)
unfolding peer_of changed_keys collect key_of
logged = record {
  new = [];
  get_by_left = peer_of;
  get_by_right = λ m v. key_of (collect m (changed_keys m)) v;
  insert = λ m k v. added k v ∷ m;
  remove_by_left = λ m k. removed k ∷ m;
  entries = λ m. collect m (changed_keys m);
}

dropped :
    (w v : EnvPeer) (x : Option EnvPeer)
    → drop_if w x ≡ some v
    → (x ≡ some v) × (peer_eq v w ≡ false)
dropped w v none h = absurd (cc h)
dropped w v (some u) h = elim (Bool-cases (peer_eq u w)) [
  | inl e ↦ absurd (cc (rw e at h))
  | inr e ↦
      let same : u ≡ v = some-injective _ _ (rw e at h) in (ap (λ x. some x) same, rw (← same) e)
]

-- A peer has one key.
one_key :
    (m : List Change) (j k : NodeKey) (v : EnvPeer)
    → peer_of m j ≡ some v
    → peer_of m k ≡ some v
    → j ≡ k
unfolding peer_of
one_key [] j k v g h = absurd (cc g)
one_key (removed l ∷ m) j k v g h = elim (Bool-cases (key_eq l j)) [
  | inl e ↦ absurd (cc (rw e at g))
  | inr e ↦ elim (Bool-cases (key_eq l k)) [
    | inl f ↦ absurd (cc (rw f at h))
    | inr f ↦ one_key m j k v (rw e at g) (rw f at h)
  ]
]
one_key (added l w ∷ m) j k v g h =
    let own : peer_eq w w ≡ true = (peer_eq_iff w w).1 refl in
    elim (Bool-cases (key_eq l j)) [
      | inl e ↦ elim (Bool-cases (key_eq l k)) [
        | inl f ↦ sym ((key_eq_iff l j).0 e) ∙ (key_eq_iff l k).0 f
        | inr f ↦
            let same : w ≡ v = some-injective _ _ (rw e at g) in
            let differs : peer_eq w w ≡ false =
              ap (λ x. peer_eq x w) same ∙ (dropped w v (peer_of m k) (rw f at h)).1 in
            absurd (cc (own, differs))
      ]
      | inr e ↦ elim (Bool-cases (key_eq l k)) [
        | inl f ↦
            let same : w ≡ v = some-injective _ _ (rw f at h) in
            let differs : peer_eq w w ≡ false =
              ap (λ x. peer_eq x w) same ∙ (dropped w v (peer_of m j) (rw e at g)).1 in
            absurd (cc (own, differs))
        | inr f ↦
            one_key m j k v (dropped w v (peer_of m j) (rw e at g)).0
              (dropped w v (peer_of m k) (rw f at h)).0
      ]
    ]

key_changed :
    (m : List Change) (k : NodeKey) (v : EnvPeer) → peer_of m k ≡ some v → In k (changed_keys m)
unfolding peer_of changed_keys
key_changed [] k v h = absurd (cc h)
key_changed (removed l ∷ m) k v h = elim (Bool-cases (key_eq l k)) [
  | inl e ↦ absurd (cc (rw e at h))
  | inr e ↦ key_changed m k v (rw e at h)
]
key_changed (added l w ∷ m) k v h = elim (Bool-cases (key_eq l k)) [
  | inl e ↦ inl ((key_eq_iff l k).0 e)
  | inr e ↦ inr (key_changed m k v (dropped w v (peer_of m k) (rw e at h)).0)
]

peer_of_collected :
    (m : List Change) (ks : List NodeKey) (k : NodeKey) (v : EnvPeer)
    → In (k, v) (collect m ks)
    → peer_of m k ≡ some v
unfolding collect
peer_of_collected m [] k v i = elim i [ ]
peer_of_collected m (j ∷ ks) k v i = elim (Option-cases (peer_of m j)) [
  | inl e ↦ peer_of_collected m ks k v (rw e at i)
  | inr (w, e) ↦
      let cases : In {A = NodeKey × EnvPeer} (k, v) ((j, w) ∷ collect m ks) = rw e at i in
      elim cases [
        | inl f ↦
            let key : j ≡ k = ap (λ x. x.0) f in
            let peer : w ≡ v = ap (λ x. x.1) f in
            ap (peer_of m) (sym key) ∙ e ∙ ap (λ x. some x) peer
        | inr o ↦ peer_of_collected m ks k v o
      ]
]

collected_of_peer :
    (m : List Change) (ks : List NodeKey) (k : NodeKey) (v : EnvPeer)
    → In k ks
    → peer_of m k ≡ some v
    → In (k, v) (collect m ks)
unfolding collect
collected_of_peer m [] k v i h = elim i [ ]
collected_of_peer m (j ∷ ks) k v (inl e) h =
    let found : peer_of m j ≡ some v = rw e h in rw found (inl (ap (λ x. (x, v)) e))
collected_of_peer m (j ∷ ks) k v (inr i) h =
    let onward = collected_of_peer m ks k v i h in
    elim (Option-cases (peer_of m j)) [ inl e ↦ rw e onward | inr (w, e) ↦ rw e (inr onward) ]

key_of_sound :
    (es : List (NodeKey × EnvPeer)) (k : NodeKey) (v : EnvPeer)
    → key_of es v ≡ some k
    → In (k, v) es
unfolding key_of
key_of_sound [] k v h = absurd (cc h)
key_of_sound (e ∷ es) k v h = elim (Bool-cases (peer_eq e.1 v)) [
  | inr f ↦ inr (key_of_sound es k v (rw f at h))
  | inl f ↦
      let peer : e.1 ≡ v = (peer_eq_iff e.1 v).0 f in
      let key : e.0 ≡ k = some-injective _ _ (rw f at h) in inl (λ i. (key i, peer i))
]

key_of_found :
    (es : List (NodeKey × EnvPeer)) (k : NodeKey) (v : EnvPeer)
    → In (k, v) es
    → (j : NodeKey) × (key_of es v ≡ some j)
unfolding key_of
key_of_found [] k v i = elim i [ ]
key_of_found (e ∷ es) k v i = elim (Bool-cases (peer_eq e.1 v)) [
  | inl f ↦ (e.0, rw f refl)
  | inr f ↦ elim i [
    | inl g ↦ absurd (cc (f, (peer_eq_iff e.1 v).1 (ap (λ x. x.1) g)))
    | inr o ↦ let (j, found) = key_of_found es k v o in (j, rw f found)
  ]
]

pub logged-IsBiMap : IsBiMap logged
unfolding peer_of logged
logged-IsBiMap = record {
  get-new = λ k. refl;
  get-insert = λ m j k v. refl;
  get-remove = λ m j k. refl;
  in-entries_iff = λ m k v. (
    peer_of_collected m (changed_keys m) k v,
    λ h. collected_of_peer m (changed_keys m) k v (key_changed m k v h) h,
  );
  get_by_right_iff = λ m k v.
      let es = collect m (changed_keys m) in
      (
        λ h. peer_of_collected m (changed_keys m) k v (key_of_sound es k v h),
        λ h.
            let (j, found) =
              key_of_found es k v
                (collected_of_peer m (changed_keys m) k v (key_changed m k v h) h) in
            let same : j ≡ k =
              one_key m j k v (peer_of_collected m (changed_keys m) j v (key_of_sound es j v found))
                h in
            found ∙ ap (λ x. some x) same,
      );
}
