-- ===== src/Controlplane/Cache/Blocks.antt =====
-- The maps of `NetworkCache` in crates/controlplane/src/env/cache.rs fit together.
use snarkops.State.BlockInfo.{LatestBlockInfo}
use snarkops.Controlplane.Cache.{
  find_transaction, add_block, remove_block, insert_transactions, NetworkCache, BiMap,
}
use snarkops.Common.{
  not, if◌then◌else◌, ◌||◌, ◌≡◌, is_some, Bool, List, [], ◌∷◌, none, some, true, false, refl, arith,
}
use snarkops.Common.Text.{Text, text_eq, text_eq_iff}
use snarkops.Common.Dict.{
  retain-IsDict, remove-IsDict, lookup-remove, lookup-retain, lookup-insert, keep_if, insert-IsDict,
  Dict, lookup, insert, IsDict,
}

-- Keys do not repeat; a block and its list of transactions are cached together; a block stands under
-- its own hash; and what a transaction is found in is a cached block.
pub record IsValid {M : Type 0} (cache : NetworkCache M) : Type 0 where
  pub blocks_dict : IsDict text_eq cache.blocks
  pub lists_dict : IsDict text_eq cache.block_to_transaction
  pub transactions_dict : IsDict text_eq cache.transaction_to_block_hash
  pub together :
      (hash : Text)
      → is_some (lookup text_eq hash cache.blocks)
        ≡ is_some (lookup text_eq hash cache.block_to_transaction)
  pub own_hash :
      (hash : Text) (info : LatestBlockInfo)
      → lookup text_eq hash cache.blocks ≡ some info
      → info.block_hash ≡ hash
  pub found_in_block :
      (tx hash : Text)
      → find_transaction cache tx ≡ some hash
      → is_some (lookup text_eq hash cache.blocks) ≡ true

abbrev pub is_listed : Text → List Text → Bool
is_listed tx [] = false
is_listed tx (t ∷ ts) = text_eq t tx || is_listed tx ts

lookup-insert_transactions :
    (hash tx : Text) (txs : List Text) (d : Dict Text Text)
    → lookup text_eq tx (insert_transactions hash txs d)
      ≡ (if is_listed tx txs then some hash else lookup text_eq tx d)
unfolding insert_transactions
lookup-insert_transactions hash tx [] d = refl
lookup-insert_transactions hash tx (t ∷ ts) d = ground (
  arith,
  lookup-insert_transactions hash tx ts (insert text_eq t hash d),
  lookup-insert text_eq text_eq_iff t tx hash d,
)

insert_transactions-IsDict :
    (hash : Text) (txs : List Text) (d : Dict Text Text)
    → IsDict text_eq d
    → IsDict text_eq (insert_transactions hash txs d)
unfolding insert_transactions
insert_transactions-IsDict hash [] d h = h
insert_transactions-IsDict hash (t ∷ ts) d h =
    insert_transactions-IsDict hash ts (insert text_eq t hash d)
      (insert-IsDict text_eq text_eq_iff t hash d h)

module _ {M : Type 0} (B : BiMap M) where
  -- After a block is added, its transactions are found in it, and the others where they were; the
  -- block is there, and the others as they were.
  pub add_block_lookups :
      (cache : NetworkCache M) (info : LatestBlockInfo) (txs : List Text) (tx hash : Text)
      → (find_transaction (add_block B cache info txs) tx
          ≡ (if is_listed tx txs then some info.block_hash else find_transaction cache tx))
        × (lookup text_eq hash (add_block B cache info txs).blocks ≡ (
            if text_eq info.block_hash hash then some info else lookup text_eq hash cache.blocks))
  unfolding add_block find_transaction
  add_block_lookups cache info txs tx hash = (
    lookup-insert_transactions info.block_hash tx txs cache.transaction_to_block_hash,
    lookup-insert text_eq text_eq_iff info.block_hash hash info cache.blocks,
  )

  -- A block that is removed takes its transactions along, and nothing else.
  pub remove_block_lookups :
      (cache : NetworkCache M) (gone tx hash : Text)
      → IsValid cache
      → (find_transaction (remove_block B cache gone) tx
          ≡ keep_if (λ h. not (text_eq h gone)) (find_transaction cache tx))
        × (lookup text_eq hash (remove_block B cache gone).blocks
            ≡ (if text_eq gone hash then none else lookup text_eq hash cache.blocks))
  unfolding remove_block find_transaction
  remove_block_lookups cache gone tx hash v = (
    lookup-retain text_eq text_eq_iff (λ _ h. not (text_eq h gone)) tx
        cache.transaction_to_block_hash v.transactions_dict,
    lookup-remove text_eq text_eq_iff gone hash cache.blocks,
  )

  pub add_block-IsValid :
      (cache : NetworkCache M) (info : LatestBlockInfo) (txs : List Text)
      → IsValid cache
      → IsValid (add_block B cache info txs)
  unfolding add_block find_transaction
  add_block-IsValid cache info txs v = record {
    blocks_dict = insert-IsDict text_eq text_eq_iff info.block_hash info cache.blocks v.blocks_dict;
    lists_dict =
        insert-IsDict text_eq text_eq_iff info.block_hash
          (record { create_time = info.update_time; entries = txs }) cache.block_to_transaction
          v.lists_dict;
    transactions_dict =
        insert_transactions-IsDict info.block_hash txs cache.transaction_to_block_hash
          v.transactions_dict;
    together = λ hash.
        let before = v.together hash in
        rw
          (
            lookup-insert text_eq text_eq_iff info.block_hash hash info cache.blocks,
            lookup-insert text_eq text_eq_iff info.block_hash hash
                (record { create_time = info.update_time; entries = txs })
                cache.block_to_transaction,
          )
          (ground (arith, before));
    own_hash = λ hash other e.
        let before = v.own_hash hash other in
        let added = lookup-insert text_eq text_eq_iff info.block_hash hash info cache.blocks in
        ground (arith, e, added, before, text_eq_iff info.block_hash hash);
    found_in_block = λ tx hash e.
        let before = v.found_in_block tx hash in
        let found =
          lookup-insert_transactions info.block_hash tx txs cache.transaction_to_block_hash in
        let added = lookup-insert text_eq text_eq_iff info.block_hash hash info cache.blocks in
        ground (arith, e, found, before, added, text_eq_iff info.block_hash hash);
  }

  pub remove_block-IsValid :
      (cache : NetworkCache M) (gone : Text) → IsValid cache → IsValid (remove_block B cache gone)
  unfolding remove_block find_transaction
  remove_block-IsValid cache gone v = record {
    blocks_dict = remove-IsDict text_eq text_eq_iff gone cache.blocks v.blocks_dict;
    lists_dict = remove-IsDict text_eq text_eq_iff gone cache.block_to_transaction v.lists_dict;
    transactions_dict =
        retain-IsDict text_eq text_eq_iff (λ _ h. not (text_eq h gone))
          cache.transaction_to_block_hash v.transactions_dict;
    together = λ hash.
        let before = v.together hash in
        rw
          (
            lookup-remove text_eq text_eq_iff gone hash cache.blocks,
            lookup-remove text_eq text_eq_iff gone hash cache.block_to_transaction,
          )
          (ground (arith, before));
    own_hash = λ hash info e.
        let before = v.own_hash hash info in
        let left = lookup-remove text_eq text_eq_iff gone hash cache.blocks in
        ground (arith, e, left, before);
    found_in_block = λ tx hash e.
        let before = v.found_in_block tx hash in
        let kept =
          lookup-retain text_eq text_eq_iff (λ _ h. not (text_eq h gone)) tx
            cache.transaction_to_block_hash v.transactions_dict in
        let left = lookup-remove text_eq text_eq_iff gone hash cache.blocks in
        ground (arith, e, kept, before, left, text_eq_iff gone hash, text_eq_iff hash gone);
  }
