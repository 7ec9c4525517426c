-- ===== src/Controlplane/Env/Mask/Meaning.antt =====
-- What the subset test of the masks of crates/controlplane says of a node and an agent.
use snarkops.State.NodeType.{mask_bit, NodeType, bit}
use snarkops.Common.Text.{Text}
use snarkops.Controlplane.Env.Mask.{
  has_mode, AgentFlags, Node, node_mask, agent_mask, has_label, insert_labels, insert_if,
}
use snarkops.Common.{
  ltb→lt, ◌∙◌, ltb, sym, inr, ==_iff, inl, Bool-cases, ◌||◌, All, ◌≤◌, ◌&&◌, ◌↔◌, ◌==◌, suc, ◌+◌,
  ◌≡◌, length, ◌<◌, Bool, ℕ, List, [], ◌∷◌, refl, true, false, arith,
}
use snarkops.Controlplane.Env.BitSet.{BitSet, IsBitSet}

-- The bits of the labels, from bit `o`.
abbrev pub label_bit : List Text → ℕ → List Text → ℕ → Bool
label_bit has o [] j = false
label_bit has o (l ∷ ls) j = (o == j) && has_label has l || label_bit has (suc o) ls j

label_bit_below :
    (has : List Text) (o : ℕ) (ls : List Text) (j : ℕ) → j < o → label_bit has o ls j ≡ false
label_bit_below has o [] j h = refl
label_bit_below has o (l ∷ ls) j h =
    let onward = label_bit_below has (suc o) ls j (omega (arith, h)) in ground (arith, onward)

-- A label bit of the one is a label bit of the other exactly if the labels are.
label_bits_iff :
    (some_has other_has : List Text) (o : ℕ) (ls : List Text)
    → ((j : ℕ) → label_bit some_has o ls j ≡ true → label_bit other_has o ls j ≡ true)
      ↔ All (λ l. has_label some_has l ≡ true → has_label other_has l ≡ true) ls
label_bits_iff a b o [] = (λ h. tt, λ h j e. e)
label_bits_iff a b o (l ∷ ls) =
    let onward = label_bits_iff a b (suc o) ls in
    (
      λ h. (
        λ e.
            let here = h o (ground (arith, e)) in
            let below = label_bit_below b (suc o) ls o (omega arith) in ground (arith, here, below),
        onward.0 (λ j e.
            let both = h j (ground (arith, e)) in
            let below = label_bit_below a (suc o) ls o (omega arith) in
            elim (Bool-cases (o == j)) [
              | inl same ↦ absurd (ground (arith, rw (← (==_iff o j).0 same) at e, below))
              | inr other ↦ ground (arith, both, other)
            ]),
      ),
      λ h j e.
          let here = h.0 in
          elim (Bool-cases (label_bit a (suc o) ls j)) [
            | inl later ↦ ground (arith, onward.1 h.1 j later)
            | inr now ↦ ground (arith, e, now, here)
          ],
    )

module _ {S : Type 0} (B : BitSet S) (law : IsBitSet B) where
  contains-insert_if :
      (b : Bool) (i j : ℕ) (s : S)
      → i < B.capacity s
      → B.contains (insert_if B b i s) j ≡ ((i == j) && b || B.contains s j)
  unfolding insert_if
  contains-insert_if b i j s h = ground (arith, law.contains-insert i j s h)

  capacity-insert_if :
      (b : Bool) (i : ℕ) (s : S) → i < B.capacity s → B.capacity (insert_if B b i s) ≡ B.capacity s
  unfolding insert_if
  capacity-insert_if b i s h = ground (arith, law.capacity-insert i s h)

  contains-insert_labels :
      (has : List Text) (o : ℕ) (ls : List Text) (s : S) (j : ℕ)
      → length ls + o ≤ B.capacity s
      → B.contains (insert_labels B has o ls s) j ≡ (label_bit has o ls j || B.contains s j)
  unfolding insert_labels
  contains-insert_labels has o [] s j h = refl
  contains-insert_labels has o (l ∷ ls) s j h =
      let fits : o < B.capacity s = omega (arith, h) in
      let inserted = insert_if B (has_label has l) o s in
      let keeps = capacity-insert_if (has_label has l) o s fits in
      let onward = contains-insert_labels has (suc o) ls inserted j (omega (arith, h, keeps)) in
      let here = contains-insert_if (has_label has l) o j s fits in ground (arith, onward, here)

-- The bits before those of the labels.
abbrev node_bit : Node → NodeType → ℕ → Bool
node_bit node ty j = (4 == j) && node.local_key || bit ty == j

abbrev agent_bit : AgentFlags → ℕ → Bool
agent_bit flags j =
    (4 == j) && flags.local_pk
    || ((3 == j) && flags.mode.compute
        || ((2 == j) && flags.mode.client
            || ((1 == j) && flags.mode.prover || (0 == j) && flags.mode.validator)))

bit_below : (ty : NodeType) → bit ty < 3
unfolding bit
bit_below ty = ground arith

module _ {S : Type 0} (B : BitSet S) (law : IsBitSet B) where
  contains-node_mask :
      (node : Node) (ty : NodeType) (ls : List Text) (j : ℕ)
      → B.contains (node_mask B node ty ls) j ≡ (label_bit node.labels 5 ls j || node_bit node ty j)
  unfolding node_mask mask_bit
  contains-node_mask node ty ls j =
      let empty = B.with_capacity (length ls + 5) in
      let room = law.capacity-with_capacity (length ls + 5) in
      let typed = B.insert (bit ty) empty in
      let fits : bit ty < B.capacity empty = omega (arith, bit_below ty, room) in
      let typed_room = law.capacity-insert (bit ty) empty fits in
      let local_fits : 4 < B.capacity typed = omega (arith, typed_room, room) in
      let local_room = capacity-insert_if B law node.local_key 4 typed local_fits in
      rw
        (
          contains-insert_labels B law node.labels 5 ls (insert_if B node.local_key 4 typed) j
              (omega (arith, local_room, typed_room, room)),
          contains-insert_if B law node.local_key 4 j typed local_fits,
          law.contains-insert (bit ty) j empty fits,
          law.contains-with_capacity (length ls + 5) j,
        )
        (ground arith)

  contains-agent_mask :
      (flags : AgentFlags) (ls : List Text) (j : ℕ)
      → B.contains (agent_mask B flags ls) j ≡ (label_bit flags.labels 5 ls j || agent_bit flags j)
  unfolding agent_mask mask_bit
  contains-agent_mask flags ls j =
      let m = flags.mode in
      let s0 = B.with_capacity (length ls + 5) in
      let r0 = law.capacity-with_capacity (length ls + 5) in
      let f0 : 0 < B.capacity s0 = omega (arith, r0) in
      let s1 = insert_if B m.validator 0 s0 in
      let r1 = capacity-insert_if B law m.validator 0 s0 f0 in
      let f1 : 1 < B.capacity s1 = omega (arith, r0, r1) in
      let s2 = insert_if B m.prover 1 s1 in
      let r2 = capacity-insert_if B law m.prover 1 s1 f1 in
      let f2 : 2 < B.capacity s2 = omega (arith, r0, r1, r2) in
      let s3 = insert_if B m.client 2 s2 in
      let r3 = capacity-insert_if B law m.client 2 s2 f2 in
      let f3 : 3 < B.capacity s3 = omega (arith, r0, r1, r2, r3) in
      let s4 = insert_if B m.compute 3 s3 in
      let r4 = capacity-insert_if B law m.compute 3 s3 f3 in
      let f4 : 4 < B.capacity s4 = omega (arith, r0, r1, r2, r3, r4) in
      let r5 = capacity-insert_if B law flags.local_pk 4 s4 f4 in
      rw
        (
          contains-insert_labels B law flags.labels 5 ls (insert_if B flags.local_pk 4 s4) j
              (omega (arith, r0, r1, r2, r3, r4, r5)),
          contains-insert_if B law flags.local_pk 4 j s4 f4,
          contains-insert_if B law m.compute 3 j s3 f3,
          contains-insert_if B law m.client 2 j s2 f2,
          contains-insert_if B law m.prover 1 j s1 f1,
          contains-insert_if B law m.validator 0 j s0 f0,
          law.contains-with_capacity (length ls + 5) j,
        )
        (ground arith)

-- What an agent has of what a node needs: the mode, the private key, and the labels among those
-- that the environment uses.
pub record Serves (flags : AgentFlags) (node : Node) (ty : NodeType) (ls : List Text) : Type 0 where
  pub mode : has_mode flags.mode ty ≡ true
  pub key : node.local_key ≡ true → flags.local_pk ≡ true
  pub labels : All (λ l. has_label node.labels l ≡ true → has_label flags.labels l ≡ true) ls

bits-Serves :
    (flags : AgentFlags) (node : Node) (ty : NodeType) (ls : List Text)
    → ((j : ℕ)
        → (label_bit node.labels 5 ls j || node_bit node ty j) ≡ true
        → (label_bit flags.labels 5 ls j || agent_bit flags j) ≡ true)
    → Serves flags node ty ls
unfolding has_mode bit
bits-Serves flags node ty ls h = record {
  mode =
      let needed = h (bit ty) in
      let none_needed = label_bit_below node.labels 5 ls (bit ty) (omega (arith, bit_below ty)) in
      let none_given = label_bit_below flags.labels 5 ls (bit ty) (omega (arith, bit_below ty)) in
      ground (arith, needed, none_needed, none_given);
  key = λ local.
      let needed = h 4 in
      let none_given = label_bit_below flags.labels 5 ls 4 (omega arith) in
      ground (arith, needed, none_given, local);
  labels = (label_bits_iff node.labels flags.labels 5 ls).0 (λ j e.
      let needed = h j in
      elim (Bool-cases (ltb j 5)) [
        | inl early ↦
            let none_needed = label_bit_below node.labels 5 ls j (ltb→lt j 5 early) in
            absurd (cc (e, none_needed))
        | inr late ↦ ground (arith, needed, e, late)
      ]);
}

Serves-bits :
    (flags : AgentFlags) (node : Node) (ty : NodeType) (ls : List Text)
    → Serves flags node ty ls
    → (j : ℕ) → (label_bit node.labels 5 ls j || node_bit node ty j) ≡ true
    → (label_bit flags.labels 5 ls j || agent_bit flags j) ≡ true
unfolding has_mode bit
Serves-bits flags node ty ls s j e = elim (Bool-cases (label_bit node.labels 5 ls j)) [
  | inl labelled ↦
      ground (arith, (label_bits_iff node.labels flags.labels 5 ls).1 s.labels j labelled)
  | inr plain ↦ ground (arith, e, plain, s.mode, s.key)
]

module _ {S : Type 0} (B : BitSet S) (law : IsBitSet B) where
  -- For every set of bits with the laws of `fixedbitset`: the mask of a node is a subset of that of
  -- an agent exactly if the agent has the node's mode, a local private key if the node needs one,
  -- and every label that the node has of those of the environment.
  pub is_subset-node_mask_iff :
      (flags : AgentFlags) (node : Node) (ty : NodeType) (ls : List Text)
      → (B.is_subset (node_mask B node ty ls) (agent_mask B flags ls) ≡ true)
        ↔ Serves flags node ty ls
  is_subset-node_mask_iff flags node ty ls =
      let subset = law.is_subset_iff (node_mask B node ty ls) (agent_mask B flags ls) in
      let needs = contains-node_mask B law node ty ls in
      let has = contains-agent_mask B law flags ls in
      (
        λ h. bits-Serves flags node ty ls (λ j e. sym (has j) ∙ subset.0 h j (needs j ∙ e)),
        λ serves.
            subset.1 (λ j e. has j ∙ Serves-bits flags node ty ls serves j (sym (needs j) ∙ e)),
      )
