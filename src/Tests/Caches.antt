-- ===== src/Tests/Caches.antt =====
-- The cache of a network, of crates/controlplane/src/env/cache.rs, on blocks a few minutes apart, and
-- the score of a block.
use snarkops.State.NodeType.{client}
use snarkops.State.BlockInfo.Score.{score_newer, block_age}
use snarkops.Controlplane.Cache.Peers.{never_penalized, after_requests, is_peer_penalized}
use snarkops.Common.Int.{◌-ℤ◌, ◌*ℤ◌, ◌+ℤ◌, pos}
use snarkops.State.BlockInfo.{score, LatestBlockInfo}
use snarkops.State.DateTime.{nanos, DateTime}
use snarkops.Common.{
  arith, ◌≤◌, is_some, ◌+◌, false, ◌<◌, not, true, ltb, List, ℕ, refl, [], ◌∷◌, none, some, ◌≡◌,
}
use snarkops.Common.Text.{text_eq, Text, codes}
use snarkops.Common.Dict.{keep_if, retain, lookup, insert}
use snarkops.Controlplane.Cache.{
  update_peer_req, is_stale, insert_transactions, stale_blocks, remove_blocks, invalidate,
  find_transaction, NetworkCache, BiMap, add_block,
}
use snarkops.Controlplane.Cache.Blocks.{add_block-IsValid, IsValid}
use snarkops.Controlplane.Cache.Stale.{
  invalidate_lookups, CacheOp, cache_step, cache_steps, cache_steps-IsValid, added, removed,
  peer_asked, invalidated,
}

-- A map of heights to hashes in memory.
abbrev pairs : BiMap (List (ℕ × Text))
pairs = record {
  insert_pair = λ height hash m. (height, hash) ∷ m;
  retain_pairs = λ p m. retain p m;
}

abbrev empty : NetworkCache (List (ℕ × Text))
empty = record {
  height_and_hash = [];
  block_to_transaction = [];
  transaction_to_block_hash = [];
  blocks = [];
  external_peer_infos = [];
  external_peer_record = [];
  latest = none;
}

abbrev at_time : ℕ → DateTime
at_time seconds = record { timestamp = pos seconds; subsec_nanos = 0 }

abbrev block_at : ℕ → Text → ℕ → ℕ → LatestBlockInfo
block_at height hash block_time updated = record {
  height = height;
  state_root = codes "sr";
  block_hash = hash;
  previous_hash = codes "b";
  block_timestamp = pos block_time;
  update_time = at_time updated;
}

empty-IsValid : IsValid empty
unfolding find_transaction lookup
empty-IsValid = record {
  blocks_dict = tt;
  lists_dict = tt;
  transactions_dict = tt;
  together = λ hash. refl;
  own_hash = λ hash info e. absurd (cc e);
  found_in_block = λ tx hash e. absurd (cc e);
}

abbrev ops : List CacheOp
ops =
    added (block_at 5 (codes "b5") 100 100) (codes "t1" ∷ codes "t2" ∷ [])
    ∷ added (block_at 6 (codes "b6") 280 280) (codes "t3" ∷ [])
    ∷ peer_asked (at_time 280) (record { ty = client; id = codes "p"; ns = none }) false
    ∷ invalidated (at_time 281)
    ∷ removed (codes "b9")
    ∷ []

program : Unit {0}
unfolding cache_steps cache_step add_block invalidate remove_blocks stale_blocks insert_transactions
program = tt

stale_run : find_transaction (cache_steps pairs empty ops) (codes "t1") ≡ none
unfolding program find_transaction lookup insert ◌+ℤ◌ nanos ◌*ℤ◌ text_eq retain update_peer_req
stale_run = refl

recent_run : find_transaction (cache_steps pairs empty ops) (codes "t3") ≡ some (codes "b6")
unfolding program find_transaction lookup insert ◌+ℤ◌ nanos ◌*ℤ◌ text_eq retain update_peer_req
recent_run = refl

cache_steps-IsValid_example : IsValid (cache_steps pairs empty ops)
cache_steps-IsValid_example = cache_steps-IsValid pairs empty ops empty-IsValid

abbrev one_block : NetworkCache (List (ℕ × Text))
one_block = add_block pairs empty (block_at 5 (codes "b5") 100 100) (codes "t1" ∷ [])

one_block-IsValid : IsValid one_block
one_block-IsValid =
    add_block-IsValid pairs empty (block_at 5 (codes "b5") 100 100) (codes "t1" ∷ []) empty-IsValid

invalidate_lookups_example :
    (lookup text_eq (codes "b5") (invalidate pairs (at_time 281) one_block).blocks
      ≡ keep_if
          (λ info. not (is_stale (at_time 281) info))
          (lookup text_eq (codes "b5") one_block.blocks))
    × (find_transaction (invalidate pairs (at_time 281) one_block) (codes "t1")
        ≡ keep_if
            (λ h.
              not (is_some (keep_if (is_stale (at_time 281)) (lookup text_eq h one_block.blocks))))
            (find_transaction one_block (codes "t1")))
invalidate_lookups_example =
    invalidate_lookups pairs (at_time 281) one_block (codes "b5") (codes "t1") one_block-IsValid

never_penalized_example :
    is_peer_penalized
      (pos 9)
      (after_requests none ((pos 1, true) ∷ (pos 5, false) ∷ (pos 7, false) ∷ []))
    ≡ false
never_penalized_example =
    never_penalized (pos 9) ((pos 1, true) ∷ (pos 5, false) ∷ (pos 7, false) ∷ [])
      (omega arith, (omega arith, (omega arith, tt)))

-- The block that is a second newer loses against one that was updated later.
one_second :
    ltb
      (score (λ _ _. true) (block_at 6 (codes "b6") 100 40) (at_time 101))
      (score (λ _ _. true) (block_at 5 (codes "b5") 99 100) (at_time 101))
    ≡ true
unfolding score ◌-ℤ◌ ◌+ℤ◌ ◌*ℤ◌
one_second = refl

ages :
    block_age (λ _ _. true) (block_at 6 (codes "b6") 100 40) (at_time 101) + 2
    ≤ block_age (λ _ _. true) (block_at 5 (codes "b5") 98 100) (at_time 101)
unfolding score ◌-ℤ◌ ◌+ℤ◌ ◌*ℤ◌
ages = omega arith

score_newer_example :
    score (λ _ _. true) (block_at 5 (codes "b5") 98 100) (at_time 101)
    < score (λ _ _. true) (block_at 6 (codes "b6") 100 40) (at_time 101)
score_newer_example =
    score_newer (λ _ _. true) (block_at 6 (codes "b6") 100 40) (block_at 5 (codes "b5") 98 100)
      (at_time 101) refl refl ages
