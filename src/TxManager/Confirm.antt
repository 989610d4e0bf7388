-- ===== src/TxManager/Confirm.antt =====
-- `removeConfirmedTransactions`.
use rif_relay_server.Base.{
  ℕ, ◌+◌, Bool, true, false, Option, none, some, List, [], ◌∷◌, leb, ltb, ◌==◌, if◌then◌else◌,
}
use rif_relay_server.Stored.{StoredTransaction}
use rif_relay_server.Outcome.{Action, ◌>>=◌, ◌>>◌, pure}
use rif_relay_server.TxStore.{get_all, remove_txs_until_nonce}
use rif_relay_server.TxManager.{
  Env, World, Settings, Receipt, call, on_store, update_transaction_with_mined_block,
}

-- `minedBlockNumber == null || blockNumber - minedBlockNumber >= confirmationsNeeded`, over the
-- integers.
abbrev pub should_recheck : Settings → ℕ → StoredTransaction → Bool
should_recheck c block tx = elim tx.mined_block_number [
  | none ↦ true
  | some m ↦ leb (m + c.confirmations_needed) block
]

-- `receipt.blockNumber !== transaction.minedBlockNumber`.
abbrev pub has_moved : ℕ → StoredTransaction → Bool
has_moved b tx = elim tx.mined_block_number [
  | none ↦ true
  | some m ↦ if b == m then false else true
]

module _ {Store : Type 0} (env : Env Store) where
  -- What is done on a receipt with its block number; `ltb` is `confirmations < confirmationsNeeded`.
  unfoldable pub settle_receipt :
      ℕ → StoredTransaction → Receipt → ℕ → Action (World Store) (Unit {0})
  settle_receipt block tx receipt b =
      if has_moved b tx
      then (if ltb block (b + env.settings.confirmations_needed)
          then update_transaction_with_mined_block env tx b
          else on_store (remove_txs_until_nonce env.db receipt.from receipt.nonce))
      else on_store (remove_txs_until_nonce env.db receipt.from receipt.nonce)

  -- A receipt with no block is passed over, and so is a missing one.
  unfoldable pub on_block :
      ℕ → StoredTransaction → Receipt → Option ℕ → Action (World Store) (Unit {0})
  on_block block tx receipt none = pure tt
  on_block block tx receipt (some b) = settle_receipt block tx receipt b

  unfoldable pub on_receipt :
      ℕ → StoredTransaction → Option Receipt → Action (World Store) (Unit {0})
  on_receipt block tx none = pure tt
  on_receipt block tx (some receipt) = on_block block tx receipt receipt.block_number

  -- One round of the loop.
  unfoldable pub confirm_one : ℕ → StoredTransaction → Action (World Store) (Unit {0})
  confirm_one block tx =
      if should_recheck env.settings block tx
      then (do receipt ← call (λ n. env.node.transaction n tx.tx_id); on_receipt block tx receipt)
      else pure tt

  unfoldable pub confirm_each : ℕ → List StoredTransaction → Action (World Store) (Unit {0})
  confirm_each block [] = pure tt
  confirm_each block (tx ∷ txs) = let rest = confirm_each block txs in confirm_one block tx >> rest

  unfoldable pub remove_confirmed_transactions : ℕ → Action (World Store) (Unit {0})
  remove_confirmed_transactions block w = confirm_each block (get_all env.db w.store) w
