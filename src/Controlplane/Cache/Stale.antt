-- ===== src/Controlplane/Cache/Stale.antt =====
-- The rounds of `invalidation_task` in crates/controlplane/src/env/cache.rs, and what a cache is after
-- any sequence of operations.
use snarkops.State.NodeKey.{NodeKey}
use snarkops.Controlplane.Cache.Blocks.{
  add_block-IsValid, remove_block_lookups, remove_block-IsValid, is_listed, IsValid,
}
use snarkops.State.BlockInfo.{LatestBlockInfo}
use snarkops.State.DateTime.{DateTime}
use snarkops.Controlplane.Cache.{
  update_peer_info_for_hash, update_peer_info, update_peer_req, add_block, update_latest_info,
  remove_block, find_transaction, is_stale, NetworkCache, stale_blocks, remove_blocks, invalidate,
  stale_hashes, BiMap,
}
use snarkops.Common.{
  Bool, Option-cases, inr, inl, ◌∙◌, Bool-cases, if◌then◌else◌, is_some, not, ◌≡◌, Option, List, [],
  ◌∷◌, none, some, false, refl, arith,
}
use snarkops.Common.Text.{Text, text_eq, text_eq_iff}
use snarkops.Common.Dict.{keep_if, Dict, lookup, IsDict}

is_listed-stale_hashes :
    (now : DateTime) (hash : Text) (blocks : Dict Text LatestBlockInfo)
    → IsDict text_eq blocks
    → is_listed hash (stale_hashes now blocks)
      ≡ is_some (keep_if (is_stale now) (lookup text_eq hash blocks))
unfolding stale_hashes lookup
is_listed-stale_hashes now hash [] d = refl
is_listed-stale_hashes now hash ((h, info) ∷ blocks) d =
    let onward = is_listed-stale_hashes now hash blocks d.1 in
    elim (Bool-cases (text_eq h hash)) [
      | inl e ↦
          let gone : lookup text_eq hash blocks ≡ none = rw ((text_eq_iff h hash).0 e) at d.0 in
          ground (arith, e, onward, gone)
      | inr e ↦ ground (arith, e, onward)
    ]

keep_all : (o : Option Text) → o ≡ keep_if (λ h. not false) o
keep_all none = refl
keep_all (some h) = refl

keep_twice :
    (gone : Text) (hashes : List Text) (o : Option Text)
    → keep_if (λ h. not (is_listed h hashes)) (keep_if (λ h. not (text_eq h gone)) o)
      ≡ keep_if (λ h. not (is_listed h (gone ∷ hashes))) o
keep_twice gone hashes none = refl
keep_twice gone hashes (some h) = ground (arith, text_eq_iff h gone, text_eq_iff gone h)

-- A call of a method that changes the cache, or a round of the invalidation.
pub data CacheOp : Type 0 where
  added : LatestBlockInfo → List Text → CacheOp
  removed : Text → CacheOp
  invalidated : DateTime → CacheOp
  latest_updated : LatestBlockInfo → CacheOp
  peer_updated : NodeKey → LatestBlockInfo → CacheOp
  peer_has : DateTime → NodeKey → Text → CacheOp
  peer_asked : DateTime → NodeKey → Bool → CacheOp

module _ {M : Type 0} (B : BiMap M) where
  remove_blocks-IsValid :
      (hashes : List Text) (cache : NetworkCache M)
      → IsValid cache
      → IsValid (remove_blocks B hashes cache)
  unfolding remove_blocks
  remove_blocks-IsValid [] cache v = v
  remove_blocks-IsValid (h ∷ hs) cache v =
      remove_blocks-IsValid hs (remove_block B cache h) (remove_block-IsValid B cache h v)

  lookup-remove_blocks :
      (hashes : List Text) (cache : NetworkCache M) (hash : Text)
      → IsValid cache
      → lookup text_eq hash (remove_blocks B hashes cache).blocks
        ≡ (if is_listed hash hashes then none else lookup text_eq hash cache.blocks)
  unfolding remove_blocks
  lookup-remove_blocks [] cache hash v = refl
  lookup-remove_blocks (h ∷ hs) cache hash v =
      let onward =
        lookup-remove_blocks hs (remove_block B cache h) hash (remove_block-IsValid B cache h v) in
      let step = (remove_block_lookups B cache h [] hash v).1 in ground (arith, onward, step)

  find_transaction-remove_blocks :
      (hashes : List Text) (cache : NetworkCache M) (tx : Text)
      → IsValid cache
      → find_transaction (remove_blocks B hashes cache) tx
        ≡ keep_if (λ h. not (is_listed h hashes)) (find_transaction cache tx)
  unfolding remove_blocks
  find_transaction-remove_blocks [] cache tx v = keep_all (find_transaction cache tx)
  find_transaction-remove_blocks (h ∷ hs) cache tx v =
      let onward =
        find_transaction-remove_blocks hs (remove_block B cache h) tx
          (remove_block-IsValid B cache h v) in
      let step = (remove_block_lookups B cache h tx [] v).0 in
      onward ∙ rw step (keep_twice h hs (find_transaction cache tx))

  -- A round of the invalidation removes exactly the blocks that were cached more than three minutes
  -- ago, and with them exactly the transactions that were found in them.
  pub invalidate_lookups :
      (now : DateTime) (cache : NetworkCache M) (hash tx : Text)
      → IsValid cache
      → (lookup text_eq hash (invalidate B now cache).blocks
          ≡ keep_if (λ info. not (is_stale now info)) (lookup text_eq hash cache.blocks))
        × (find_transaction (invalidate B now cache) tx
            ≡ keep_if
                (λ h. not (is_some (keep_if (is_stale now) (lookup text_eq h cache.blocks))))
                (find_transaction cache tx))
  unfolding invalidate stale_blocks
  invalidate_lookups now cache hash tx v =
      let stale = stale_hashes now cache.blocks in
      let listed = λ (h : Text). is_listed-stale_hashes now h cache.blocks v.blocks_dict in
      let here = listed hash in
      let left = lookup-remove_blocks stale cache hash v in
      let found = find_transaction-remove_blocks stale cache tx v in
      (
        elim (Option-cases (lookup text_eq hash cache.blocks)) [
          | inl e ↦ ground (arith, left, here, e)
          | inr (info, e) ↦ ground (arith, left, here, e)
        ],
        elim (Option-cases (find_transaction cache tx)) [
          | inl e ↦ found ∙ rw e refl
          | inr (h, e) ↦ found ∙ rw (e, listed h) refl
        ],
      )

  unfoldable pub cache_step : NetworkCache M → CacheOp → NetworkCache M
  cache_step cache (added info txs) = add_block B cache info txs
  cache_step cache (removed hash) = remove_block B cache hash
  cache_step cache (invalidated now) = invalidate B now cache
  cache_step cache (latest_updated info) = (update_latest_info cache info).0
  cache_step cache (peer_updated key info) = update_peer_info cache key info
  cache_step cache (peer_has now key hash) = update_peer_info_for_hash now cache key hash
  cache_step cache (peer_asked now key success) = update_peer_req now cache key success

  unfoldable pub cache_steps : NetworkCache M → List CacheOp → NetworkCache M
  unfolding cache_step
  cache_steps cache [] = cache
  cache_steps cache (op ∷ ops) = cache_steps (cache_step cache op) ops

  same_blocks-IsValid :
      (a b : NetworkCache M)
      → a.blocks ≡ b.blocks
      → a.block_to_transaction ≡ b.block_to_transaction
      → a.transaction_to_block_hash ≡ b.transaction_to_block_hash
      → IsValid a
      → IsValid b
  unfolding find_transaction
  same_blocks-IsValid a b e f g v = record {
    blocks_dict = rw (← e) v.blocks_dict;
    lists_dict = rw (← f) v.lists_dict;
    transactions_dict = rw (← g) v.transactions_dict;
    together = rw (← e, ← f) v.together;
    own_hash = rw (← e) v.own_hash;
    found_in_block = rw (← e, ← g) v.found_in_block;
  }

  cache_step-IsValid :
      (cache : NetworkCache M) (op : CacheOp) → IsValid cache → IsValid (cache_step cache op)
  unfolding cache_step invalidate update_latest_info update_peer_info update_peer_info_for_hash
      update_peer_req
  cache_step-IsValid cache (added info txs) v = add_block-IsValid B cache info txs v
  cache_step-IsValid cache (removed hash) v = remove_block-IsValid B cache hash v
  cache_step-IsValid cache (invalidated now) v =
      remove_blocks-IsValid (stale_blocks now cache) cache v
  cache_step-IsValid cache (latest_updated info) v =
      same_blocks-IsValid cache (update_latest_info cache info).0 (ground arith) (ground arith)
        (ground arith) v
  cache_step-IsValid cache (peer_updated key info) v =
      same_blocks-IsValid cache (update_peer_info cache key info) refl refl refl v
  cache_step-IsValid cache (peer_has now key hash) v =
      same_blocks-IsValid cache (update_peer_info_for_hash now cache key hash) (ground arith)
        (ground arith) (ground arith) v
  cache_step-IsValid cache (peer_asked now key success) v =
      same_blocks-IsValid cache (update_peer_req now cache key success) refl refl refl v

  -- Every sequence of calls of the methods that change a cache, and of rounds of the invalidation,
  -- keeps its blocks and transactions together: no key of their three maps repeats, blocks and lists
  -- of transactions are cached together, a block stands under its own hash, and a transaction is
  -- found in cached blocks only.
  pub cache_steps-IsValid :
      (cache : NetworkCache M) (ops : List CacheOp)
      → IsValid cache
      → IsValid (cache_steps cache ops)
  unfolding cache_steps
  cache_steps-IsValid cache [] v = v
  cache_steps-IsValid cache (op ∷ ops) v =
      cache_steps-IsValid (cache_step cache op) ops (cache_step-IsValid cache op v)
