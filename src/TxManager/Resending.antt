-- ===== src/TxManager/Resending.antt =====
-- What `resendTransaction` of src/TransactionManager.ts signs, stores and broadcasts, and the loop
-- over it.
use rif_relay_server.Base.{
  ℕ, ◌≡◌, sym, ap, subst, ◌∙◌, true, some, List, [], ◌∷◌, ◌++◌, Text, lower, if◌then◌else◌,
}
use rif_relay_server.Stored.{StoredTransaction, NonceSigner, eq_key, create_stored_transaction}
use rif_relay_server.Outcome.{ok, >>=-eq-ok}
use rif_relay_server.Keys.{SignedTransactionDetails}
use rif_relay_server.Keys.Signed.{IsSigned, sign_transaction-IsSigned}
use rif_relay_server.TxStore.{stamp, key_of}
use rif_relay_server.TxStore.Writes.{Writes, put_tx-Writes}
use rif_relay_server.TxManager.{
  Env, World, attempt_metadata, resend_request, resend_transaction, update_transaction_with_attempt,
  key_manager,
}
use rif_relay_server.TxManager.Nonces.{called}
use rif_relay_server.TxManager.Steps.{call-eq-ok, lift-eq-ok, on_store-eq-ok}
use rif_relay_server.TxManager.Sending.{
  logged, broadcast_transaction_lem, broadcast_transaction-eq-ok,
}
use rif_relay_server.TxManager.Boost.{resend_each}

module _ {Store : Type 0} (env : Env Store) (height price : ℕ) where
  -- The record of a transaction that was sent again.
  abbrev pub resent_record : StoredTransaction → SignedTransactionDetails → StoredTransaction
  resent_record tx signed =
      create_stored_transaction (resend_request tx price)
        (attempt_metadata signed.tx_hash tx height)

  -- The transaction was signed again at the new price, its record was written over the old one and
  -- nowhere else, its raw form was broadcast, and the node answered with its hash.
  pub record IsResent (tx : StoredTransaction) (signed : SignedTransactionDetails)
      (w v : World Store) : Type 0 where
    pub signs :
        IsSigned env.wallets (key_manager env tx.from) tx.from (resend_request tx price) signed
    pub stored :
        (j : NonceSigner)
        → env.db.at j v.store ≡ (
            if eq_key (key_of (resent_record tx signed)) j
            then some (stamp (resent_record tx signed))
            else env.db.at j w.store)
    pub sent : v.broadcast ≡ w.broadcast ++ signed.signed_tx ∷ []
    pub call_number : ℕ
    pub hash : Text
    pub answered : env.node.send call_number signed.signed_tx ≡ some hash
    pub same_hash : lower hash ≡ lower signed.tx_hash

  resend_transaction-IsResent :
      (tx : StoredTransaction) (w v : World Store) (signed : SignedTransactionDetails)
      → resend_transaction env tx height price w ≡ (ok signed, v)
      → IsResent tx signed w v
  unfolding resend_transaction update_transaction_with_attempt
  resend_transaction-IsResent tx w v signed e =
      let (sg, signs, e1) = lift-eq-ok _ _ w e in
      let (_, s, put, e2) = on_store-eq-ok _ _ w e1 in
      let (count, counted, sent) = call-eq-ok _ _ _ e2 in
      let u : World Store = called (record w { store = s }) in
      let (hash, answered, same_hash, kept) = broadcast_transaction-eq-ok env sg signed u v sent in
      let after : v ≡ called (logged env u sg.signed_tx) =
        sym (ap (λ p. p.1) sent) ∙ broadcast_transaction_lem env sg u in
      let written : Writes env.db (resent_record tx sg) w.store (ok tt, s) =
        subst (Writes env.db (resent_record tx sg) w.store) put
          (put_tx-Writes env.db (resent_record tx sg) true w.store) in
      subst (λ r. IsResent tx r w v) (sym kept)
        (record {
          signs =
              sign_transaction-IsSigned env.wallets (key_manager env tx.from) tx.from
                (resend_request tx price) sg signs;
          stored = λ j. ap (λ x. env.db.at j x.store) after ∙ written.1 j;
          sent = ap (λ x. x.broadcast) after;
          call_number = u.calls;
          hash = hash;
          answered = answered;
          same_hash = same_hash;
        })

  -- The transactions were sent again one after the other, and the entries are theirs.
  pub data Resent
      : List StoredTransaction
        → List (Text × SignedTransactionDetails)
        → World Store
        → World Store
        → Type 0 where
    none_left : (w v : World Store) → w ≡ v → Resent [] [] w v
    resent :
        (tx : StoredTransaction) (signed : SignedTransactionDetails) (txs : List StoredTransaction)
        (boosted : List (Text × SignedTransactionDetails)) (w u v : World Store)
        → IsResent tx signed w u
        → Resent txs boosted u v
        → Resent (tx ∷ txs) ((tx.tx_id, signed) ∷ boosted) w v

  pub resend_each-Resent :
      (txs : List StoredTransaction) (w v : World Store)
      (boosted : List (Text × SignedTransactionDetails))
      → resend_each env txs height price w ≡ (ok boosted, v)
      → Resent txs boosted w v
  unfolding resend_each
  resend_each-Resent [] w v boosted e =
      let same : [] ≡ boosted = cc in
      subst (λ l. Resent [] l w v) same (none_left w v (ap (λ p. p.1) e))
  resend_each-Resent (tx ∷ txs) w v boosted e =
      let (signed, u, again, e1) = >>=-eq-ok _ _ w e in
      let (later, t, rest, e2) = >>=-eq-ok _ _ u e1 in
      let same : (tx.tx_id, signed) ∷ later ≡ boosted = cc in
      let left : t ≡ v = ap (λ p. p.1) e2 in
      subst (λ l. Resent (tx ∷ txs) l w v) same
        (resent tx signed txs later w u v (resend_transaction-IsResent tx w u signed again)
          (subst (λ x. Resent txs later u x) left (resend_each-Resent txs u t later rest)))
