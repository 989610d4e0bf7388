-- ===== src/TxManager/Returning.antt =====
-- When `sendTransaction` of src/TransactionManager.ts returns.
use rif_relay_server.Base.{
  ℕ, ◌+◌, ◌≡◌, ◌≤◌, inl, inr, refl, sym, subst, ap, ◌∙◌, true, false, none, some, [], ◌∷◌, ◌++◌,
  Text, lower, eq_text_refl,
}
use rif_relay_server.Stored.{
  PopulatedTransaction, StoredTransaction, NonceSigner, create_stored_transaction,
}
use rif_relay_server.Outcome.{ok, bind_of_ok}
use rif_relay_server.Keys.{SignedTransactionDetails, key_for, sign_transaction, get_wallet}
use rif_relay_server.TxStore.{Nedb, stamp, key_of, put_tx, is_valid_tx, is_empty}
use rif_relay_server.TxManager.{
  Env, World, SendTransactionDetails, tx_to_sign, first_stored, sign_with, key_manager,
  prepare_transaction, prepare_at, record_signed, check_hash, broadcast_transaction,
  send_transaction, increment_nonce, log_broadcast, call, on_store, lift,
}
use rif_relay_server.TxManager.Nonces.{called, counter, poll_nonce_lem, call-some}
use rif_relay_server.TxManager.Sending.{key_at, logged}

put_tx_inserted :
    {Store : Type 0} (db : Nedb Store) (tx : StoredTransaction) (s t : Store)
    → is_valid_tx tx ≡ true
    → db.at (key_of tx) s ≡ none
    → db.insert (stamp tx) s ≡ some t
    → put_tx db tx false s ≡ (ok tt, t)
unfolding put_tx
put_tx_inserted db tx s t valid free inserted =
    rw (valid, db.find_one_at (key_of tx) s, free) (rw inserted refl)

module _ {Store : Type 0} (env : Env Store) (d : SendTransactionDetails) where
  -- What `sendTransaction` needs of its surroundings: the node gives a price and the count of the
  -- signer, the signer has a key that signs, no document has a nonce from the counter on, the store
  -- takes a document with a free key, and the node answers with the hash of what it is sent.
  pub record IsWorking (w : World Store) : Type 0 where
    pub price : ℕ
    pub priced : env.node.gas_price w.calls ≡ some price
    pub count : ℕ
    pub counted : env.node.count_pending (w.calls + 1) d.signer ≡ some count
    pub key : Text
    pub managed : key_for d.signer (key_manager env d.signer) ≡ some key
    pub signs : (tx : PopulatedTransaction) → (raw : Text) × (env.wallets.sign key tx ≡ some raw)
    pub hashes : (raw : Text) → is_empty (env.wallets.keccak256 raw) ≡ false
    pub free : (n : ℕ) → counter w d.signer ≤ n → env.db.at (key_at env d n) w.store ≡ none
    pub inserts :
        (x : StoredTransaction) (k : NonceSigner)
        → x.nonce_signer ≡ some k
        → env.db.at k w.store ≡ none
        → (t : Store) × (env.db.insert x w.store ≡ some t)
    pub sends : (n : ℕ) (raw : Text) → env.node.send n raw ≡ some (env.wallets.keccak256 raw)

  abbrev signed_as : Text → SignedTransactionDetails
  signed_as raw = record { tx_hash = env.wallets.keccak256 raw; signed_tx = raw }

  sign_with_signed :
      (key raw : Text) (tx : PopulatedTransaction)
      → key_for d.signer (key_manager env d.signer) ≡ some key
      → env.wallets.sign key tx ≡ some raw
      → sign_with env d.signer tx ≡ ok (signed_as raw)
  unfolding sign_transaction
  sign_with_signed key raw tx managed signs = rw (managed, signs, sign_transaction, get_wallet) refl

  broadcast_transaction_sent :
      (w : World Store) (raw : Text)
      → env.node.send w.calls raw ≡ some (env.wallets.keccak256 raw)
      → broadcast_transaction env (signed_as raw) w
        ≡ (ok (signed_as raw), called (logged env w raw))
  unfolding broadcast_transaction check_hash
  broadcast_transaction_sent w raw sent =
      bind_of_ok (log_broadcast raw) _ w refl
      ∙ bind_of_ok (call (λ n. env.node.send n raw)) _ (logged env w raw)
          (call-some _ (logged env w raw) sent)
      ∙ rw (eq_text_refl (lower (env.wallets.keccak256 raw))) refl

  -- The nonce is settled in the world `w`; the counter counts on, and the record is written.
  prepare_at_returns :
      (price n : ℕ) (w : World Store) (raw : Text) (t : Store)
      → sign_with env d.signer (tx_to_sign d price n) ≡ ok (signed_as raw)
      → put_tx env.db
          (first_stored env d (tx_to_sign d price n) (env.wallets.keccak256 raw))
          false
          w.store
        ≡ (ok tt, t)
      → (v : World Store) × (prepare_at env d price n w ≡ (ok (signed_as raw), v))
        × (v.calls ≡ w.calls)
        × (v.broadcast ≡ w.broadcast)
  unfolding prepare_at record_signed
  prepare_at_returns price n w raw t signs put =
      let u : World Store = (increment_nonce d.signer w).1 in
      let tx = tx_to_sign d price n in
      let write = put_tx env.db (first_stored env d tx (env.wallets.keccak256 raw)) false in
      let wrote : on_store write u ≡ (ok tt, record u { store = t }) =
        ap (λ p. (p.0, record u { store = p.1 })) put in
      (
        record u { store = t },
        bind_of_ok (lift (sign_with env d.signer tx)) (record_signed env d tx) w
              (ap (λ r. (r, w)) signs)
            ∙ bind_of_ok (increment_nonce d.signer) _ w refl
            ∙ bind_of_ok (on_store write) _ u wrote,
        refl,
        refl,
      )

  prepare_transaction_returns :
      (w : World Store) (h : IsWorking w)
      → (raw : Text) × (v : World Store) × (prepare_transaction env d h.price (called w)
          ≡ (ok (signed_as raw), v))
        × (v.broadcast ≡ w.broadcast)
  unfolding prepare_transaction create_stored_transaction
  prepare_transaction_returns w h = elim (poll_nonce_lem env d.signer (called w)) [
    | inl (silent, _) ↦ let bad = sym silent ∙ h.counted in cc
    | inr (answer, n, u, asked, polled, settled) ↦
        let tx = tx_to_sign d h.price n in
        let (raw, signs) = h.signs tx in
        let fresh = h.free n settled.counter_le in
        let stored = first_stored env d tx (env.wallets.keccak256 raw) in
        let (t, inserted) = h.inserts (stamp stored) (key_at env d n) refl fresh in
        let valid : is_valid_tx stored ≡ true = rw (h.hashes raw) refl in
        let put =
          subst (λ s. put_tx env.db stored false s ≡ (ok tt, t)) (sym settled.same_store)
            (put_tx_inserted env.db stored w.store t valid fresh inserted) in
        let (v, ran, _, heard) =
          prepare_at_returns h.price n u raw t (sign_with_signed h.key raw tx h.managed signs)
            put in
        (raw, v, bind_of_ok _ _ (called w) polled ∙ ran, heard ∙ settled.same_broadcast)
  ]

  -- `sendTransaction` returns, and has broadcast one transaction, if the node gives a price and the
  -- count of the signer, the signer has a key, the key signs, no document has a nonce of the signer
  -- from the counter on, the store takes a document whose key is free, and the node answers with the
  -- hash of what it is sent.
  pub send_transaction_returns :
      (w : World Store)
      → IsWorking w
      → (signed : SignedTransactionDetails) × (v : World Store) × (send_transaction env d w
          ≡ (ok signed, v))
        × (v.broadcast ≡ w.broadcast ++ signed.signed_tx ∷ [])
  unfolding send_transaction
  send_transaction_returns w h =
      let (raw, v, prepared, heard) = prepare_transaction_returns w h in
      (
        signed_as raw,
        called (logged env v raw),
        bind_of_ok (call env.node.gas_price) _ w (call-some env.node.gas_price w h.priced)
            ∙ bind_of_ok (prepare_transaction env d h.price) (broadcast_transaction env) (called w)
                prepared
            ∙ broadcast_transaction_sent v raw (h.sends v.calls raw),
        ap (λ l. l ++ raw ∷ []) heard,
      )
