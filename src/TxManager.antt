-- ===== src/TxManager.antt =====
-- src/TransactionManager.ts: the state, and the operations from the nonces to the boost. Every
-- call of the provider is answered by `Node`, whose answers may differ from call to call: the
-- number of calls made so far is part of the state. `none` is a rejected promise.
pub mod Boost
pub mod Confirm
pub mod Nonces
pub mod Steps
pub mod Sending
pub mod Returning
pub mod Resending
pub mod Recorded
pub mod Boosting
pub mod Confirming
pub mod Mutex
pub mod Silence
use rif_relay_server.Base.{
  ℕ, ◌+◌, Bool, true, false, not, ◌&&◌, Option, none, some, List, [], ◌∷◌, ◌++◌, Text, eq_text,
  lower, ltb, ◌==◌, get_or, if◌then◌else◌,
}
use rif_relay_server.Base.Int.{ℤ, pos}
use rif_relay_server.Stored.{
  ServerAction, PopulatedTransaction, StoredTransactionMetadata, StoredTransaction,
  create_stored_transaction,
}
use rif_relay_server.Outcome.{
  err, provider_failed, hash_mismatch, Outcome, ok, Action, ◌>>=◌, ◌>>◌, pure, throw, or_throw,
}
use rif_relay_server.Keys.{SignedTransactionDetails, Keys, is_signer, Wallets, sign_transaction}
use rif_relay_server.TxStore.{Nedb, put_tx}

pub record Receipt : Type 0 where
  pub block_number : Option ℕ
  pub nonce : ℕ
  pub from : Text

-- The answer to the n-th call. `count_pending` and `count_latest` are `getTransactionCount` with
-- and without the tag; `transaction` answers `some none` for `null`.
pub record Node : Type 0 where
  pub gas_price : ℕ → Option ℕ
  pub count_pending : ℕ → Text → Option ℕ
  pub count_latest : ℕ → Text → Option ℕ
  pub estimate_gas : ℕ → PopulatedTransaction → Text → Option ℕ
  pub send : ℕ → Text → Option Text
  pub transaction : ℕ → Text → Option (Option Receipt)
  pub balance : ℕ → Text → Option ℕ

-- The settings that are read here. `scale_gas_price` and `scale_estimate` are the products of
-- bignumber.js with `retryGasPriceFactor` and `estimateGasFactor`, rounded by `toFixed(0)`.
pub record Settings : Type 0 where
  pub max_gas_price : ℕ
  pub default_gas_limit : ℕ
  pub pending_transaction_timeout_blocks : ℕ
  pub confirmations_needed : ℕ
  pub scale_gas_price : ℕ → ℕ
  pub scale_estimate : ℕ → ℕ

-- The state: the nonce counters, the store, the calls made, and the raw transactions broadcast.
pub record World (Store : Type 0) : Type 0 where
  pub nonces : Text → Option ℕ
  pub store : Store
  pub calls : ℕ
  pub broadcast : List Text

pub record SendTransactionDetails : Type 0 where
  pub signer : Text
  pub server_action : ServerAction
  pub method : Option PopulatedTransaction
  pub destination : Text
  pub value : Option ℤ
  pub gas_limit : ℕ
  pub gas_price : Option ℕ
  pub creation_block_number : ℕ

abbrev pub assign : (Text → Option ℕ) → Text → Option ℕ → Text → Option ℕ
assign f k v j = if eq_text k j then v else f j

abbrev pub method_data : Option PopulatedTransaction → Option Text
method_data none = none
method_data (some m) = m.call_data

-- `txToSign` of `sendTransaction`.
abbrev pub tx_to_sign : SendTransactionDetails → ℕ → ℕ → PopulatedTransaction
tx_to_sign d provider_gas_price nonce = record {
  to = some d.destination;
  gas_limit = some d.gas_limit;
  gas_price = some (get_or d.gas_price provider_gas_price);
  call_data = method_data d.method;
  nonce = some nonce;
  value = some (get_or d.value (pos 0));
}

abbrev pub first_metadata : SendTransactionDetails → Text → StoredTransactionMetadata
first_metadata d tx_hash = record {
  tx_id = tx_hash;
  from = d.signer;
  attempts = 1;
  server_action = d.server_action;
  creation_block_number = d.creation_block_number;
  boost_block_number = none;
  mined_block_number = none;
}

-- `txToSign` of `resendTransaction`.
unfoldable pub resend_request : StoredTransaction → ℕ → PopulatedTransaction
resend_request tx new_gas_price = record {
  to = tx.to;
  gas_limit = tx.gas_limit;
  gas_price = some new_gas_price;
  call_data = tx.call_data;
  nonce = tx.nonce;
  value = none;
}

abbrev pub attempt_metadata : Text → StoredTransaction → ℕ → StoredTransactionMetadata
attempt_metadata tx_id tx current_block = record {
  tx_id = tx_id;
  from = tx.from;
  attempts = tx.attempts + 1;
  server_action = tx.server_action;
  creation_block_number = tx.creation_block_number;
  boost_block_number = some current_block;
  mined_block_number = tx.mined_block_number;
}

-- `_resolveNewGasPrice`: the new price, and whether it met the maximum.
unfoldable pub resolve_new_gas_price : Settings → Option ℕ → ℕ × Bool
resolve_new_gas_price c old =
    let scaled = c.scale_gas_price (get_or old 0) in
    if ltb c.max_gas_price scaled then (c.max_gas_price, true) else (scaled, false)

-- `it.gasPrice?.lt(newGasPrice)`.
abbrev pub is_underpriced : ℕ → StoredTransaction → Bool
is_underpriced price it = elim it.gas_price [ none ↦ false | some p ↦ ltb p price ]

-- `oldestPendingTx.nonce && oldestPendingTx.nonce < nonce`: a nonce of 0 is no number for `&&`.
abbrev pub seems_mined : StoredTransaction → ℕ → Bool
seems_mined tx count = elim tx.nonce [ none ↦ false | some n ↦ not (n == 0) && ltb n count ]

-- `currentBlockHeight - lastSentAtBlockHeight < pendingTransactionTimeoutBlocks`.
abbrev pub is_recent : Settings → StoredTransaction → ℕ → Bool
is_recent c tx height =
    ltb height
      (get_or tx.boost_block_number tx.creation_block_number + c.pending_transaction_timeout_blocks)

-- What the manager is built on: the store's database, the node, the wallets and their keys.
pub record Env (Store : Type 0) : Type 0 where
  pub db : Nedb Store
  pub node : Node
  pub wallets : Wallets
  pub manager : Keys
  pub workers : Keys
  pub settings : Settings

-- `this.nonces[signer]++`. `undefined++` would be NaN; `pollNonce` leaves no undefined counter.
abbrev pub bump : Option ℕ → Option ℕ
bump none = none
bump (some n) = some (n + 1)

module _ {Store : Type 0} where
  unfoldable pub call : {A : Type 0} → (ℕ → Option A) → Action (World Store) A
  call ask w = or_throw (ask w.calls) provider_failed (record w { calls = w.calls + 1 })

  abbrev pub on_store : {A : Type 0} → Action Store A → Action (World Store) A
  on_store m w = let (r, s) = m w.store in (r, record w { store = s })

  abbrev pub lift : {A : Type 0} → Outcome A → Action (World Store) A
  lift r w = (r, w)

  -- The end of `pollNonce`, after the answer: no await separates the comparison from the write.
  unfoldable pub settle_nonce : Text → ℕ → Action (World Store) ℕ
  settle_nonce signer nonce w =
      let nonce_signer = get_or (w.nonces signer) 0 in
      if ltb nonce nonce_signer
      then (ok nonce_signer, w)
      else (ok nonce, record w { nonces = assign w.nonces signer (some nonce) })

  abbrev pub increment_nonce : Text → Action (World Store) (Unit {0})
  increment_nonce signer w =
      (ok tt, record w { nonces = assign w.nonces signer (bump (w.nonces signer)) })

  abbrev pub log_broadcast : Text → Action (World Store) (Unit {0})
  log_broadcast raw w = (ok tt, record w { broadcast = w.broadcast ++ raw ∷ [] })

module _ {Store : Type 0} (env : Env Store) where
  unfoldable pub poll_nonce : Text → Action (World Store) ℕ
  poll_nonce signer = do
    nonce ← call (λ n. env.node.count_pending n signer)
    settle_nonce signer nonce

  -- The answer of `attemptEstimateGas`: a rejected estimate yields the default.
  unfoldable pub attempt_estimate_gas : PopulatedTransaction → Text → Action (World Store) ℕ
  attempt_estimate_gas transaction from w = (
    ok (elim (env.node.estimate_gas w.calls transaction from) [
      | none ↦ env.settings.default_gas_limit
      | some estimate ↦ env.settings.scale_estimate estimate
    ]),
    record w { calls = w.calls + 1 },
  )

  -- `managerKeyManager.isSigner(signer) ? managerKeyManager : workersKeyManager`.
  abbrev pub key_manager : Text → Keys
  key_manager signer = if is_signer env.manager signer then env.manager else env.workers

  abbrev pub sign_with : Text → PopulatedTransaction → Outcome SignedTransactionDetails
  sign_with signer tx = sign_transaction env.wallets (key_manager signer) signer tx

  -- The record that `sendTransaction` stores.
  abbrev pub first_stored : SendTransactionDetails → PopulatedTransaction → Text → StoredTransaction
  first_stored d tx tx_hash = create_stored_transaction tx (first_metadata d tx_hash)

  -- The part of `sendTransaction` that runs under the mutex: its end, once the transaction is
  -- signed; from the nonce on; and the whole.
  unfoldable pub record_signed :
      SendTransactionDetails
      → PopulatedTransaction
      → SignedTransactionDetails
      → Action (World Store) SignedTransactionDetails
  record_signed d tx signed = do
    increment_nonce d.signer
    on_store (put_tx env.db (first_stored d tx signed.tx_hash) false)
    pure signed

  unfoldable pub prepare_at :
      SendTransactionDetails → ℕ → ℕ → Action (World Store) SignedTransactionDetails
  prepare_at d provider_gas_price nonce = do
    let tx = tx_to_sign d provider_gas_price nonce
    signed ← lift (sign_with d.signer tx)
    record_signed d tx signed

  unfoldable pub prepare_transaction :
      SendTransactionDetails → ℕ → Action (World Store) SignedTransactionDetails
  prepare_transaction d provider_gas_price = do
    nonce ← poll_nonce d.signer
    prepare_at d provider_gas_price nonce

  -- `transaction.hash.toLowerCase() !== storedTx.txId.toLowerCase()`.
  unfoldable pub check_hash :
      SignedTransactionDetails → Text → Action (World Store) SignedTransactionDetails
  check_hash signed hash w =
      (if eq_text (lower hash) (lower signed.tx_hash) then ok signed else err hash_mismatch, w)

  -- `provider.sendTransaction`, and the comparison of the hashes.
  unfoldable pub broadcast_transaction :
      SignedTransactionDetails → Action (World Store) SignedTransactionDetails
  broadcast_transaction signed = do
    log_broadcast signed.signed_tx
    hash ← call (λ n. env.node.send n signed.signed_tx)
    check_hash signed hash

  unfoldable pub send_transaction :
      SendTransactionDetails → Action (World Store) SignedTransactionDetails
  send_transaction d = do
    provider_gas_price ← call env.node.gas_price
    signed ← prepare_transaction d provider_gas_price
    broadcast_transaction signed

  unfoldable pub update_transaction_with_mined_block :
      StoredTransaction → ℕ → Action (World Store) (Unit {0})
  update_transaction_with_mined_block tx mined_block_number =
      on_store (put_tx env.db (record tx { mined_block_number = some mined_block_number }) true)

  unfoldable pub update_transaction_with_attempt :
      Text → PopulatedTransaction → StoredTransaction → ℕ → Action (World Store) (Unit {0})
  update_transaction_with_attempt tx_id tx_to_sign tx current_block = on_store (
      put_tx env.db (create_stored_transaction tx_to_sign (attempt_metadata tx_id tx current_block))
        true)

  unfoldable pub resend_transaction :
      StoredTransaction → ℕ → ℕ → Action (World Store) SignedTransactionDetails
  resend_transaction tx current_block new_gas_price = do
    let tx_to_sign = resend_request tx new_gas_price
    signed ← lift (sign_with tx.from tx_to_sign)
    update_transaction_with_attempt signed.tx_hash tx_to_sign tx current_block
    call (λ n. env.node.count_latest n tx.from)
    broadcast_transaction signed
