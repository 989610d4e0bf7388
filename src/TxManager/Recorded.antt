-- ===== src/TxManager/Recorded.antt =====
-- What stands in the store of what `sendTransaction` handed to the node.
use rif_relay_server.Base.{ℕ, ◌≡◌, ◌⊎◌, inl, inr, refl, sym, ap, subst, ◌∙◌, some, [], ◌∷◌, ◌++◌}
use rif_relay_server.Stored.{PopulatedTransaction, eq_key_iff}
use rif_relay_server.Outcome.{◌>>=◌, >>=-cases, bind-inv}
use rif_relay_server.Keys.{SignedTransactionDetails}
use rif_relay_server.Keys.Signed.{IsSigned, sign_transaction-IsSigned}
use rif_relay_server.TxStore.{stamp}
use rif_relay_server.TxManager.{
  call, key_manager, Env, World, SendTransactionDetails, tx_to_sign, first_stored, poll_nonce,
  prepare_at, record_signed, prepare_transaction, broadcast_transaction, send_transaction,
}
use rif_relay_server.TxManager.Nonces.{called, poll_nonce_lem}
use rif_relay_server.TxManager.Steps.{call-state}
use rif_relay_server.TxManager.Sending.{
  key_at, Prepared, prepare_transaction-Prepared, broadcast_transaction_lem,
}

module _ {Store : Type 0} (env : Env Store) (d : SendTransactionDetails) where
  poll_nonce-quiet : (w : World Store) → (poll_nonce env d.signer w).1.broadcast ≡ w.broadcast
  poll_nonce-quiet w = elim (poll_nonce_lem env d.signer w) [
    | inl (_, failed) ↦ ap (λ p. p.1.broadcast) failed
    | inr (answer, n, v, _, polled, settled) ↦
        ap (λ p. p.1.broadcast) polled ∙ settled.same_broadcast
  ]

  record_signed-quiet :
      (tx : PopulatedTransaction) (signed : SignedTransactionDetails) (w : World Store)
      → (record_signed env d tx signed w).1.broadcast ≡ w.broadcast
  unfolding record_signed
  record_signed-quiet tx signed w =
      bind-inv (λ u. u.broadcast ≡ w.broadcast) _ _ w refl
        (λ _ u _ h. bind-inv (λ t. t.broadcast ≡ w.broadcast) _ _ u h (λ _ t _ k. k))

  prepare_at-quiet :
      (price n : ℕ) (w : World Store) → (prepare_at env d price n w).1.broadcast ≡ w.broadcast
  unfolding prepare_at
  prepare_at-quiet price n w =
      bind-inv (λ u. u.broadcast ≡ w.broadcast) _ _ w refl
        (λ signed u _ h. record_signed-quiet (tx_to_sign d price n) signed u ∙ h)

  -- Nothing is broadcast on the way to a prepared transaction, however that ends.
  prepare_transaction-quiet :
      (price : ℕ) (w : World Store) → (prepare_transaction env d price w).1.broadcast ≡ w.broadcast
  unfolding prepare_transaction
  prepare_transaction-quiet price w =
      bind-inv (λ u. u.broadcast ≡ w.broadcast) _ _ w (poll_nonce-quiet w)
        (λ n u _ h. prepare_at-quiet price n u ∙ h)

  -- The world `v` broadcast nothing since `w`, or one raw transaction: it is the one that the
  -- signer's key makes of the transaction at some nonce and price, and `v` holds its record, with the
  -- hash of the raw form, under the signer and that nonce.
  abbrev pub IsRecorded : World Store → World Store → Type 0
  IsRecorded w v =
      (v.broadcast ≡ w.broadcast)
      ⊎ ((n : ℕ) × (price : ℕ) × (signed : SignedTransactionDetails) × (v.broadcast
            ≡ w.broadcast ++ signed.signed_tx ∷ [])
          × (env.db.at (key_at env d n) v.store
              ≡ some (stamp (first_stored env d (tx_to_sign d price n) signed.tx_hash)))
          × IsSigned env.wallets (key_manager env d.signer) d.signer (tx_to_sign d price n) signed)

  broadcast-IsRecorded :
      (price n : ℕ) (w u : World Store) (signed : SignedTransactionDetails)
      → Prepared env d price w u signed n
      → IsRecorded w (broadcast_transaction env signed u).1
  broadcast-IsRecorded price n w u signed p =
      let after = broadcast_transaction_lem env signed u in
      inr (
        n,
        price,
        signed,
        ap (λ t. t.broadcast) after ∙ ap (λ b. b ++ signed.signed_tx ∷ []) p.quiet,
        ap (λ t. env.db.at (key_at env d n) t.store) after
            ∙ p.stored (key_at env d n)
            ∙ rw ((eq_key_iff (key_at env d n) (key_at env d n)).1 refl) refl,
        sign_transaction-IsSigned env.wallets (key_manager env d.signer) d.signer
            (tx_to_sign d price n) signed p.signs,
      )

  prepared-IsRecorded :
      (price : ℕ) (w : World Store)
      → IsRecorded w ((prepare_transaction env d price >>= broadcast_transaction env) w).1
  prepared-IsRecorded price w =
      elim (>>=-cases (prepare_transaction env d price) (broadcast_transaction env) w) [
        | inl (e, u, failed, left) ↦
            inl (ap (λ p. p.1.broadcast) (left ∙ sym failed) ∙ prepare_transaction-quiet price w)
        | inr (signed, u, prepared, left) ↦
            let (n, p) = prepare_transaction-Prepared env d price w u signed prepared in
            subst (λ r. IsRecorded w r.1) (sym left) (broadcast-IsRecorded price n w u signed p)
      ]

  -- However it ends, `sendTransaction` has broadcast nothing, or one transaction: the details at some
  -- nonce and price, signed with the signer's key, whose record stands in the store under the signer
  -- and the nonce, with the hash of the raw form that was broadcast.
  pub send_transaction-IsRecorded : (w : World Store) → IsRecorded w (send_transaction env d w).1
  unfolding send_transaction
  send_transaction-IsRecorded w =
      elim (>>=-cases (call env.node.gas_price)
        (λ p. prepare_transaction env d p >>= broadcast_transaction env) w) [
          | inl (e, t, failed, left) ↦ inl (
              ap (λ r. r.1.broadcast) left
              ∙ sym (ap (λ r. r.1.broadcast) failed)
              ∙ ap (λ u. u.broadcast) (call-state env.node.gas_price w))
          | inr (price, t, asked, left) ↦
              let same : t ≡ called w = sym (ap (λ r. r.1) asked) ∙ call-state _ w in
              subst (λ r. IsRecorded w r.1) (sym left)
                (subst
                  (λ u.
                    IsRecorded w
                      ((prepare_transaction env d price >>= broadcast_transaction env) u).1)
                  (sym same) (prepared-IsRecorded price (called w)))
        ]
