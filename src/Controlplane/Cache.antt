-- ===== src/Controlplane/Cache.antt =====
-- `NetworkCache` of crates/controlplane/src/env/cache.rs: the recent blocks of an environment's
-- network, their transactions, and what is known of the external peers.
pub mod Blocks
pub mod Stale
pub mod Peers
use snarkops.Checkpoint.Retention.{second}
use snarkops.Controlplane.Cache.Peers.{ResponsiveRecord, update_record}
use snarkops.State.BlockInfo.{LatestBlockInfo}
use snarkops.State.DateTime.{nanos, DateTime}
use snarkops.State.NodeKey.{key_eq, NodeKey}
use snarkops.Common.{
  ◌-◌, if◌then◌else◌, is_some, ltb, not, Option, Bool, ◌*◌, ℕ, List, [], ◌∷◌, none, some, true,
  false,
}
use snarkops.Common.Int.{ℤ, pos, ltb_ℤ, ◌+ℤ◌, ◌-ℤ◌}
use snarkops.Common.Text.{Text, text_eq}
use snarkops.Common.Dict.{Dict, lookup, insert, remove, retain}

abbrev pub max_block_range : ℕ
max_block_range = 10

-- MAX_CULL_AGE
abbrev pub max_cull_age : ℤ
max_cull_age = pos (3 * 60 * second)

-- A `BiHashMap` of the crate `bimap`, from heights to hashes.
pub record BiMap (M : Type 0) : Type 0 where
  pub insert_pair : ℕ → Text → M → M
  pub retain_pairs : (ℕ → Text → Bool) → M → M

pub record TransactionCache : Type 0 where
  pub create_time : DateTime
  pub entries : List Text

pub record NetworkCache (M : Type 0) : Type 0 where
  pub height_and_hash : M
  pub block_to_transaction : Dict Text TransactionCache
  pub transaction_to_block_hash : Dict Text Text
  pub blocks : Dict Text LatestBlockInfo
  pub external_peer_infos : Dict NodeKey LatestBlockInfo
  pub external_peer_record : Dict NodeKey ResponsiveRecord
  pub latest : Option LatestBlockInfo

unfoldable pub has_hash : Option LatestBlockInfo → Text → Bool
has_hash none hash = false
has_hash (some info) hash = text_eq info.block_hash hash

unfoldable pub is_stale : DateTime → LatestBlockInfo → Bool
is_stale now info = ltb_ℤ (nanos info.update_time +ℤ max_cull_age) (nanos now)

unfoldable pub stale_hashes : DateTime → Dict Text LatestBlockInfo → List Text
unfolding is_stale
stale_hashes now [] = []
stale_hashes now ((hash, info) ∷ blocks) =
    if is_stale now info then hash ∷ stale_hashes now blocks else stale_hashes now blocks

-- `for tx in &txs { transaction_to_block_hash.insert(tx, hash) }`
unfoldable pub insert_transactions : Text → List Text → Dict Text Text → Dict Text Text
insert_transactions hash [] d = d
insert_transactions hash (tx ∷ txs) d = insert_transactions hash txs (insert text_eq tx hash d)

module _ {M : Type 0} where
  -- `update_latest_info`: the new cache, and whether the info is the latest.
  unfoldable pub update_latest_info : NetworkCache M → LatestBlockInfo → NetworkCache M × Bool
  update_latest_info cache info = elim cache.latest [
    | none ↦ (record cache { latest = some info }, true)
    | some prev ↦
        if ltb_ℤ prev.block_timestamp info.block_timestamp
        then (record cache { latest = some info }, true)
        else (cache, false)
  ]

  -- A request to a peer, and whether it succeeded.
  unfoldable pub update_peer_req : DateTime → NetworkCache M → NodeKey → Bool → NetworkCache M
  unfolding update_record
  update_peer_req now cache key success =
      let record_before = lookup key_eq key cache.external_peer_record in
      record cache {
        external_peer_record =
            insert key_eq key (update_record (nanos now) record_before success)
              cache.external_peer_record;
      }

  unfoldable pub update_peer_info : NetworkCache M → NodeKey → LatestBlockInfo → NetworkCache M
  update_peer_info cache key info = record cache {
    external_peer_infos = insert key_eq key info cache.external_peer_infos;
  }

  unfoldable pub update_peer_info_for_hash :
      DateTime → NetworkCache M → NodeKey → Text → NetworkCache M
  unfolding has_hash update_peer_info
  update_peer_info_for_hash now cache key hash = elim (lookup text_eq hash cache.blocks) [
    | none ↦ cache
    | some info ↦
        if has_hash (lookup key_eq key cache.external_peer_infos) hash
        then cache
        else update_peer_info cache key (record info { update_time = now })
  ]

  unfoldable pub stale_blocks : DateTime → NetworkCache M → List Text
  unfolding stale_hashes
  stale_blocks now cache = stale_hashes now cache.blocks

  unfoldable pub has_transactions_for_block : NetworkCache M → Text → Bool
  has_transactions_for_block cache hash = is_some (lookup text_eq hash cache.block_to_transaction)

  unfoldable pub find_transaction : NetworkCache M → Text → Option Text
  find_transaction cache tx = lookup text_eq tx cache.transaction_to_block_hash

  unfoldable pub has_transaction : NetworkCache M → Text → Bool
  unfolding find_transaction
  has_transaction cache tx = is_some (find_transaction cache tx)

  unfoldable pub is_recent_block : NetworkCache M → ℕ → Bool
  is_recent_block cache height = elim cache.latest [
    | none ↦ false
    | some info ↦ ltb (info.height - max_block_range) height
  ]

module _ {M : Type 0} (B : BiMap M) where
  unfoldable pub add_block : NetworkCache M → LatestBlockInfo → List Text → NetworkCache M
  unfolding insert_transactions
  add_block cache info txs =
      let hash = info.block_hash in
      record cache {
        height_and_hash = B.insert_pair info.height hash cache.height_and_hash;
        transaction_to_block_hash = insert_transactions hash txs cache.transaction_to_block_hash;
        block_to_transaction =
            insert text_eq hash (record { create_time = info.update_time; entries = txs })
              cache.block_to_transaction;
        blocks = insert text_eq hash info cache.blocks;
      }

  unfoldable pub remove_block : NetworkCache M → Text → NetworkCache M
  remove_block cache hash = record cache {
    height_and_hash = B.retain_pairs (λ _ h. not (text_eq h hash)) cache.height_and_hash;
    block_to_transaction = remove text_eq hash cache.block_to_transaction;
    transaction_to_block_hash =
        retain (λ _ h. not (text_eq h hash)) cache.transaction_to_block_hash;
    blocks = remove text_eq hash cache.blocks;
  }

  unfoldable pub remove_blocks : List Text → NetworkCache M → NetworkCache M
  unfolding remove_block
  remove_blocks [] cache = cache
  remove_blocks (hash ∷ hashes) cache = remove_blocks hashes (remove_block cache hash)

  -- A round of `invalidation_task` on a cache.
  unfoldable pub invalidate : DateTime → NetworkCache M → NetworkCache M
  unfolding remove_blocks stale_blocks
  invalidate now cache = remove_blocks (stale_blocks now cache) cache
