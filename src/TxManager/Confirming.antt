-- ===== src/TxManager/Confirming.antt =====
-- When a transaction leaves the store.
use rif_relay_server.Base.{
  ℕ, ◌+◌, ◌≡◌, ◌≤◌, ◌≢◌, ◌⊎◌, inl, inr, refl, sym, ap, ◌∙◌, subst, Bool, true, ◌&&◌, Option, none,
  some, List, [], ◌∷◌, Text, eq_text, eq_text_iff, lower, leb, ltb, arith, Bool-cases,
}
use rif_relay_server.Stored.{NonceSigner, StoredTransaction}
use rif_relay_server.Outcome.{Outcome, ok, err, ◌>>=◌, bind-inv, Outcome-cases}
use rif_relay_server.TxStore.{put_tx, remove_txs_until_nonce, get_all}
use rif_relay_server.TxStore.Writes.{Writes, put_tx-Writes}
use rif_relay_server.TxStore.Queries.{at-remove_txs_until_nonce, remove_txs_until_nonce-eq-err}
use rif_relay_server.TxManager.{
  Env, World, Receipt, call, on_store, update_transaction_with_mined_block,
}
use rif_relay_server.TxManager.Steps.{call-state, call-answer}
use rif_relay_server.TxManager.Confirm.{
  should_recheck, has_moved, settle_receipt, on_block, on_receipt, confirm_one, confirm_each,
  remove_confirmed_transactions,
}

module _ {Store : Type 0} (env : Env Store) (block : ℕ) (j : NonceSigner) where
  -- The node has shown a receipt of the key's signer, for its nonce or a later one, in a block that
  -- has the confirmations needed.
  pub record IsConfirmed : Type 0 where
    pub ask : ℕ
    pub id : Text
    pub receipt : Receipt
    pub shown : env.node.transaction ask id ≡ some (some receipt)
    pub mined : ℕ
    pub in_block : receipt.block_number ≡ some mined
    pub deep : mined + env.settings.confirmations_needed ≤ block
    pub covers : j.nonce ≤ receipt.nonce
    pub same_signer : j.signer ≡ lower receipt.from

  -- The document at the key stands, or it was confirmed.
  abbrev pub StandsOrConfirmed : World Store → Type 0
  StandsOrConfirmed w = (env.db.at j w.store ≢ none) ⊎ IsConfirmed

  put_tx-keeps :
      (tx : StoredTransaction) (b : Bool) (s : Store)
      → env.db.at j s ≢ none
      → env.db.at j (put_tx env.db tx b s).1 ≢ none
  put_tx-keeps tx b s stands = go (put_tx env.db tx b s) (put_tx-Writes env.db tx b s)
    where
      go : (r : Outcome (Unit {0}) × Store) → Writes env.db tx s r → env.db.at j r.1 ≢ none
      go (ok _, t) (_, at) = rw (at j) (ground arith)
      go (err _, t) same = rw same stands

  update-keeps :
      (tx : StoredTransaction) (b : ℕ) (w : World Store)
      → StandsOrConfirmed w
      → StandsOrConfirmed (update_transaction_with_mined_block env tx b w).1
  unfolding update_transaction_with_mined_block
  update-keeps tx b w (inl stands) =
      inl (put_tx-keeps (record tx { mined_block_number = some b }) true w.store stands)
  update-keeps tx b w (inr confirmed) = inr confirmed

  -- A removal up to a receipt whose block is deep enough.
  remove-keeps :
      (ask : ℕ) (id : Text) (r : Receipt) (b : ℕ) (w : World Store)
      → env.node.transaction ask id ≡ some (some r)
      → r.block_number ≡ some b
      → b + env.settings.confirmations_needed ≤ block
      → StandsOrConfirmed w
      → StandsOrConfirmed (on_store (remove_txs_until_nonce env.db r.from r.nonce) w).1
  remove-keeps ask id r b w shown in_block deep (inr confirmed) = inr confirmed
  remove-keeps ask id r b w shown in_block deep (inl stands) =
      elim (Outcome-cases (remove_txs_until_nonce env.db r.from r.nonce w.store)) [
        | inl (e, t, failed) ↦
            let same = remove_txs_until_nonce-eq-err env.db r.from r.nonce w.store t failed in
            inl (subst (λ s. env.db.at j s ≢ none) (sym (ap (λ p. p.1) failed ∙ same)) stands)
        | inr (_, t, done) ↦
            let at = at-remove_txs_until_nonce env.db r.from r.nonce w.store t j done in
            elim (Bool-cases (leb j.nonce r.nonce && eq_text j.signer (lower r.from))) [
              | inl covered ↦ inr (record {
                ask = ask;
                id = id;
                receipt = r;
                shown = shown;
                mined = b;
                in_block = in_block;
                deep = deep;
                covers = ground arith;
                same_signer = (eq_text_iff _ _).0 (ground arith);
              })
              | inr other ↦
                  let kept : env.db.at j t ≡ env.db.at j w.store = at ∙ rw other refl in
                  inl (
                    subst (λ s. env.db.at j s ≢ none) (sym (ap (λ p. p.1) done))
                      (λ gone. stands (sym kept ∙ gone)))
            ]
      ]

  settle_receipt-keeps :
      (tx : StoredTransaction) (ask : ℕ) (id : Text) (r : Receipt) (b : ℕ) (w : World Store)
      → should_recheck env.settings block tx ≡ true
      → env.node.transaction ask id ≡ some (some r)
      → r.block_number ≡ some b
      → StandsOrConfirmed w
      → StandsOrConfirmed (settle_receipt env block tx r b w).1
  unfolding settle_receipt
  settle_receipt-keeps tx ask id r b w due shown in_block h = elim (Bool-cases (has_moved b tx)) [
    | inl moved ↦ elim (Bool-cases (ltb block (b + env.settings.confirmations_needed))) [
      | inl shallow ↦ rw (moved, shallow) (update-keeps tx b w h)
      | inr deep ↦ rw (moved, deep) (remove-keeps ask id r b w shown in_block (ground arith) h)
    ]
    | inr stayed ↦ rw stayed (remove-keeps ask id r b w shown in_block (ground arith) h)
  ]

  on_block-keeps :
      (tx : StoredTransaction) (ask : ℕ) (id : Text) (r : Receipt) (o : Option ℕ) (w : World Store)
      → should_recheck env.settings block tx ≡ true
      → env.node.transaction ask id ≡ some (some r)
      → r.block_number ≡ o
      → StandsOrConfirmed w
      → StandsOrConfirmed (on_block env block tx r o w).1
  unfolding on_block
  on_block-keeps tx ask id r none w due shown in_block h = h
  on_block-keeps tx ask id r (some b) w due shown in_block h =
      settle_receipt-keeps tx ask id r b w due shown in_block h

  on_receipt-keeps :
      (tx : StoredTransaction) (ask : ℕ) (id : Text) (o : Option Receipt) (w : World Store)
      → should_recheck env.settings block tx ≡ true
      → env.node.transaction ask id ≡ some o
      → StandsOrConfirmed w
      → StandsOrConfirmed (on_receipt env block tx o w).1
  unfolding on_receipt
  on_receipt-keeps tx ask id none w due shown h = h
  on_receipt-keeps tx ask id (some r) w due shown h =
      on_block-keeps tx ask id r r.block_number w due shown refl h

  confirm_one-keeps :
      (tx : StoredTransaction) (w : World Store)
      → StandsOrConfirmed w
      → StandsOrConfirmed (confirm_one env block tx w).1
  unfolding confirm_one
  confirm_one-keeps tx w h = elim (Bool-cases (should_recheck env.settings block tx)) [
    | inr fresh ↦ rw fresh h
    | inl due ↦ rw due (>>=-keeps due)
  ]
    where
      asked :
          (o : Option Receipt) (t : World Store)
          → call (λ n. env.node.transaction n tx.tx_id) w ≡ (ok o, t)
          → env.node.transaction w.calls tx.tx_id ≡ some o
      asked o t e = call-answer _ w t e

      >>=-keeps :
          should_recheck env.settings block tx ≡ true
          → StandsOrConfirmed
              ((call (λ n. env.node.transaction n tx.tx_id) >>= λ receipt.
                  on_receipt env block tx receipt)
                w).1
      >>=-keeps due =
          bind-inv StandsOrConfirmed _ _ w (subst StandsOrConfirmed (sym (call-state _ w)) h)
            (λ o t e k. on_receipt-keeps tx w.calls tx.tx_id o t due (asked o t e) k)

  confirm_each-keeps :
      (txs : List StoredTransaction) (w : World Store)
      → StandsOrConfirmed w
      → StandsOrConfirmed (confirm_each env block txs w).1
  unfolding confirm_each
  confirm_each-keeps [] w h = h
  confirm_each-keeps (tx ∷ txs) w h =
      bind-inv StandsOrConfirmed _ _ w (confirm_one-keeps tx w h)
        (λ _ t _ k. confirm_each-keeps txs t k)

-- However `removeConfirmedTransactions` ends, a document that it has taken out of the store was
-- confirmed: the node showed a receipt of the document's signer, for its nonce or a later one, in a
-- block at least `confirmationsNeeded` below the given one.
pub remove_confirmed_transactions-IsConfirmed :
    {Store : Type 0} (env : Env Store) (block : ℕ) (j : NonceSigner) (w : World Store)
    → env.db.at j w.store ≢ none
    → env.db.at j (remove_confirmed_transactions env block w).1.store ≡ none
    → IsConfirmed env block j
unfolding remove_confirmed_transactions
remove_confirmed_transactions-IsConfirmed env block j w stands gone =
    elim (confirm_each-keeps env block j (get_all env.db w.store) w (inl stands)) [
      | inl still ↦ absurd (still gone)
      | inr confirmed ↦ confirmed
    ]
