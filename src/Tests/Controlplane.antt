-- ===== src/Tests/Controlplane.antt =====
-- The control plane: the choice of transactions and of agents, on small examples.
use snarkops.Controlplane.Env.Mask.Meaning.{is_subset-node_mask_iff, Serves}
use snarkops.Controlplane.Env.Pairing.Every.{pair_with_nodes-IsDelegated, IsDelegated}
use snarkops.State.NodeType.{client, bit}
use snarkops.State.NodeKey.{NodeKey}
use snarkops.Controlplane.Env.Pairing.{internal, EnvNodeState, AgentMapping, pair_with_nodes}
use snarkops.Controlplane.Env.Mask.{has_label, agent_mask, Node, node_mask, AgentFlags}
use snarkops.Common.{
  ◌≤◌, ==_iff, ◌||◌, Bool-cases, ◌&&◌, ◌↔◌, ◌==◌, get_elem?, ◌≡◌, Bool, ℕ, List, [], ◌∷◌, refl,
  none, some, true, false, arith, ok, inl, inr,
}
use snarkops.Common.Text.{text_eq, codes, Text}
use snarkops.Controlplane.Env.Claim.{
  lone_claim, refused, claimed, unclaimed, advance, owns, advance_claimant, total, run, one_claim,
}
use snarkops.Controlplane.Env.BitSet.{BitSet, IsBitSet}

one_claim_example :
    total owns
      (run (advance 0 ∷ advance 1 ∷ advance 0 ∷ advance 0 ∷ advance 1 ∷ []) (unclaimed 2)).claimants
    ≤ 1
one_claim_example = one_claim 2 (advance 0 ∷ advance 1 ∷ advance 0 ∷ advance 0 ∷ advance 1 ∷ [])

-- Two threads at once can both go without the claim of a free agent.
both_refused :
    (run
      (advance 0
        ∷ advance 1
        ∷ advance 0
        ∷ advance 1
        ∷ advance 0
        ∷ advance 1
        ∷ advance 0
        ∷ advance 1
        ∷ [])
      (unclaimed 2)).claimants
    ≡ refused ∷ refused ∷ []
unfolding run advance_claimant
both_refused = refl

lone_claim_example :
    get_elem? (run (advance 1 ∷ advance 1 ∷ advance 1 ∷ []) (unclaimed 2)).claimants 1
    ≡ some claimed
lone_claim_example = lone_claim (unclaimed 2) 1 refl refl

-- Sets of bits as lists.
abbrev pub Bits : Type 0
Bits = ℕ × List ℕ

abbrev has_bit : List ℕ → ℕ → Bool
has_bit [] j = false
has_bit (b ∷ bs) j = (b == j) || has_bit bs j

abbrev are_bits_of : List ℕ → List ℕ → Bool
are_bits_of [] cs = true
are_bits_of (b ∷ bs) cs = has_bit cs b && are_bits_of bs cs

abbrev pub list_bits : BitSet Bits
list_bits = record {
  with_capacity = λ n. (n, []);
  capacity = λ s. s.0;
  insert = λ i s. (s.0, i ∷ s.1);
  contains = λ s i. has_bit s.1 i;
  is_subset = λ s t. are_bits_of s.1 t.1;
}

are_bits_of_iff :
    (bs cs : List ℕ)
    → (are_bits_of bs cs ≡ true) ↔ ((i : ℕ) → has_bit bs i ≡ true → has_bit cs i ≡ true)
are_bits_of_iff [] cs = (λ h i e. absurd (cc e), λ h. refl)
are_bits_of_iff (b ∷ bs) cs =
    let onward = are_bits_of_iff bs cs in
    (
      λ h i e. elim (Bool-cases (b == i)) [
        | inl same ↦ rw (← (==_iff b i).0 same) (ground (arith, h))
        | inr other ↦ onward.0 (ground (arith, h)) i (ground (arith, e, other))
      ],
      λ h.
          let here = h b (ground arith) in
          let rest = onward.1 (λ i e. h i (ground (arith, e))) in ground (arith, here, rest),
    )

list_bits-IsBitSet : IsBitSet list_bits
list_bits-IsBitSet = record {
  capacity-with_capacity = λ n. refl;
  contains-with_capacity = λ n i. refl;
  capacity-insert = λ i s h. refl;
  contains-insert = λ i j s h. refl;
  is_subset_iff = λ s t. are_bits_of_iff s.1 t.1;
}

abbrev pub fast : Text
fast = codes "fast"

abbrev pub flags : AgentFlags
flags = record {
  mode = record { validator = false; prover = false; client = true; compute = false };
  labels = fast ∷ [];
  local_pk = true;
}

abbrev node : Node
node = record { local_key = true; labels = fast ∷ []; agent = none }

is_subset-node_mask_iff_example :
    (list_bits.is_subset
        (node_mask list_bits node client (fast ∷ []))
        (agent_mask list_bits flags (fast ∷ []))
      ≡ true)
    ↔ Serves flags node client (fast ∷ [])
is_subset-node_mask_iff_example =
    is_subset-node_mask_iff list_bits list_bits-IsBitSet flags node client (fast ∷ [])

abbrev pub key_a : NodeKey
key_a = record { ty = client; id = codes "a"; ns = none }

abbrev pub key_b : NodeKey
key_b = record { ty = client; id = codes "b"; ns = none }

abbrev mappings : List (AgentMapping Bits)
mappings =
    record { id = codes "x"; mask = agent_mask list_bits flags (fast ∷ []) }
    ∷ record { id = codes "y"; mask = agent_mask list_bits flags (fast ∷ []) }
    ∷ []

abbrev env_nodes : List (NodeKey × EnvNodeState)
env_nodes =
    (key_a, internal node) ∷ (key_b, internal (record node { agent = some (codes "x") })) ∷ []

pairing_runs :
    pair_with_nodes list_bits mappings env_nodes (fast ∷ []) []
    ≡ ok ((key_b, codes "x") ∷ (key_a, codes "y") ∷ [])
unfolding pair_with_nodes agent_mask has_label bit node_mask text_eq
pairing_runs = refl

pair_with_nodes-IsDelegated_example :
    IsDelegated list_bits mappings
      (fast ∷ [])
      env_nodes
      []
      ((key_b, codes "x") ∷ (key_a, codes "y") ∷ [])
pair_with_nodes-IsDelegated_example =
    pair_with_nodes-IsDelegated list_bits mappings (fast ∷ []) env_nodes []
      ((key_b, codes "x") ∷ (key_a, codes "y") ∷ []) pairing_runs
