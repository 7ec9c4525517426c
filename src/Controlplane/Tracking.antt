-- ===== src/Controlplane/Tracking.antt =====
-- A round of `tracking_task` of crates/controlplane/src/state/transactions.rs on a cannon, with the
-- transactions that are due.
use snarkops.Common.{
  sym, ◌∙◌, ap, ℕ, ◌≡◌, Option, none, some, not, ◌&&◌, ◌||◌, List, [], ◌∷◌, ◌++◌, map, filter,
  is_some, if◌then◌else◌, refl, arith, inl, inr, Option-cases, Bool-cases,
}
use snarkops.Common.Text.{Text, text_eq, text_eq_iff}
use snarkops.Controlplane.Cache.{NetworkCache, find_transaction}
use snarkops.Controlplane.Cache.Blocks.{is_listed}
use snarkops.Controlplane.Transactions.{PendingTransactions, Tracker, TxSink}

-- What a round sends to the cannon, finds in blocks, deletes from the database, and leaves.
pub record Round : Type 0 where
  pub sent_auths : List Text
  pub sent_txs : List Text
  pub confirmed : List (Text × Text)
  pub deleted : List Text
  pub left : List Tracker

module _ {M P : Type 0} (cache : Option (NetworkCache M)) (ask : Text → Option Text)
    (sink : TxSink P) where
  abbrev cached_hash : Text → Option Text
  cached_hash tx = elim cache [ none ↦ none | some c ↦ find_transaction c tx ]

  -- The block of a transaction: by the cache of the environment, or else by what the target's nodes
  -- answer within a second.
  unfoldable pub confirm_hash : Text → Option Text
  confirm_hash tx = elim (cached_hash tx) [
    | some hash ↦ some hash
    | none ↦ if is_some sink.target then ask tx else none
  ]

  -- Each is told by a `TransactionEvent::Confirmed` with the hash.
  unfoldable pub confirm_all : List (Text × Option ℕ) → List (Text × Text)
  unfolding confirm_hash
  confirm_all [] = []
  confirm_all ((tx, height) ∷ txs) = elim (confirm_hash tx) [
    | none ↦ confirm_all txs
    | some hash ↦ (tx, hash) ∷ confirm_all txs
  ]

  -- `cannon.transactions.remove(&tx_id)`, for each of the ids.
  unfoldable pub remove_listed : List Text → List Tracker → List Tracker
  remove_listed ids txs = filter (λ tx. not (is_listed tx.tx_id ids)) txs

  unfoldable pub track_round : PendingTransactions → List Tracker → Round
  unfolding confirm_all remove_listed
  track_round pending txs =
      let confirmed = confirm_all pending.to_confirm in
      let deleted = pending.to_remove ++ map (λ c. c.0) confirmed in
      record {
        sent_auths = pending.to_execute;
        sent_txs = pending.to_broadcast;
        confirmed = confirmed;
        deleted = deleted;
        left = remove_listed deleted txs;
      }

  is_listed-append :
      (id : Text) (xs ys : List Text)
      → is_listed id (xs ++ ys) ≡ (is_listed id xs || is_listed id ys)
  is_listed-append id [] ys = refl
  is_listed-append id (x ∷ xs) ys = ground (arith, is_listed-append id xs ys)

  is_listed-confirm_all :
      (id : Text) (txs : List (Text × Option ℕ))
      → is_listed id (map (λ c. c.0) (confirm_all txs))
        ≡ (is_listed id (map (λ t. t.0) txs) && is_some (confirm_hash id))
  unfolding confirm_all
  is_listed-confirm_all id [] = refl
  is_listed-confirm_all id ((tx, height) ∷ txs) =
      let onward = is_listed-confirm_all id txs in
      elim (Bool-cases (text_eq tx id)) [
        | inl same ↦
            let eq : tx ≡ id = (text_eq_iff tx id).0 same in
            let hashes : confirm_hash tx ≡ confirm_hash id = ap confirm_hash eq in
            elim (Option-cases (confirm_hash tx)) [
              | inl e ↦
                  let at_id = sym hashes ∙ e in rw (e, confirm_all) (ground (arith, onward, at_id))
              | inr (hash, e) ↦
                  let at_id = sym hashes ∙ e in rw (e, confirm_all) (ground (arith, same, at_id))
            ]
        | inr other ↦ elim (Option-cases (confirm_hash tx)) [
          | inl e ↦ rw (e, other, confirm_all) onward
          | inr (hash, e) ↦ rw (e, other, confirm_all) onward
        ]
      ]

  is_listed-remove_listed :
      (id : Text) (ids : List Text) (txs : List Tracker)
      → is_listed id (map (λ t. t.tx_id) (remove_listed ids txs))
        ≡ (is_listed id (map (λ t. t.tx_id) txs) && not (is_listed id ids))
  unfolding remove_listed
  is_listed-remove_listed id ids [] = refl
  is_listed-remove_listed id ids (tx ∷ txs) =
      let onward = is_listed-remove_listed id ids txs in
      elim (Bool-cases (text_eq tx.tx_id id)) [
        | inl same ↦
            let eq : tx.tx_id ≡ id = (text_eq_iff tx.tx_id id).0 same in
            let listed : is_listed tx.tx_id ids ≡ is_listed id ids = ap (λ i. is_listed i ids) eq in
            ground (arith, onward, same, listed)
        | inr other ↦ ground (arith, onward, other)
      ]

  -- A transaction is left in the cannon after a round exactly if it was there, is not given up, and
  -- is not among those to confirm with a block that is found for it.
  pub track_round_left :
      (pending : PendingTransactions) (txs : List Tracker) (id : Text)
      → is_listed id (map (λ t. t.tx_id) (track_round pending txs).left) ≡ (
          is_listed id (map (λ t. t.tx_id) txs)
          && not (
              is_listed id pending.to_remove
              || (is_listed id (map (λ t. t.0) pending.to_confirm) && is_some (confirm_hash id))))
  unfolding track_round
  track_round_left pending txs id =
      rw
        (
          is_listed-remove_listed id
              (pending.to_remove ++ map (λ c. c.0) (confirm_all pending.to_confirm)) txs,
          is_listed-append id pending.to_remove (map (λ c. c.0) (confirm_all pending.to_confirm)),
          is_listed-confirm_all id pending.to_confirm,
        )
        refl
