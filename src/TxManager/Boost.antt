-- ===== src/TxManager/Boost.antt =====
-- `boostUnderpricedPendingTransactionsForSigner`. Its result, a `Map` from the old hashes, is the
-- list of its entries in the order of insertion.
use rif_relay_server.Base.{ℕ, List, [], ◌∷◌, Text, filter, if◌then◌else◌}
use rif_relay_server.Stored.{StoredTransaction}
use rif_relay_server.Outcome.{Action, ◌>>=◌, pure}
use rif_relay_server.Keys.{SignedTransactionDetails}
use rif_relay_server.TxStore.{get_all_by_signer}
use rif_relay_server.TxManager.{
  Env, World, call, resend_transaction, resolve_new_gas_price, is_underpriced, seems_mined,
  is_recent,
}

module _ {Store : Type 0} (env : Env Store) where
  -- The loop over the transactions that are underpriced.
  unfoldable pub resend_each :
      List StoredTransaction → ℕ → ℕ → Action (World Store) (List (Text × SignedTransactionDetails))
  resend_each [] height price = pure []
  resend_each (tx ∷ txs) height price =
      let rest = resend_each txs height price in
      do
        signed ← resend_transaction env tx height price
        boosted ← rest
        pure ((tx.tx_id, signed) ∷ boosted)

  -- From the account's nonce on, with the oldest transaction at the head of the list.
  unfoldable pub boost_from :
      StoredTransaction
      → List StoredTransaction
      → ℕ
      → ℕ
      → Action (World Store) (List (Text × SignedTransactionDetails))
  boost_from oldest txs height count =
      let (price, is_max) = resolve_new_gas_price env.settings oldest.gas_price in
      let resent = resend_each (filter (is_underpriced price) (oldest ∷ txs)) height price in
      if seems_mined oldest count
      then pure []
      else (if is_recent env.settings oldest height then pure [] else resent)

  unfoldable pub boost_sorted :
      List StoredTransaction
      → Text
      → ℕ
      → Action (World Store) (List (Text × SignedTransactionDetails))
  boost_sorted [] signer height = pure []
  boost_sorted (oldest ∷ txs) signer height = do
    count ← call (λ n. env.node.count_latest n signer)
    boost_from oldest txs height count

  unfoldable pub boost_underpriced :
      Text → ℕ → Action (World Store) (List (Text × SignedTransactionDetails))
  boost_underpriced signer height w =
      boost_sorted (get_all_by_signer env.db signer w.store) signer height w
