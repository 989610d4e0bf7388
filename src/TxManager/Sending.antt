-- ===== src/TxManager/Sending.antt =====
-- `sendTransaction`: what a success has done, and that nothing is broadcast unrecorded.
use rif_relay_server.Base.{
  ℕ, ◌+◌, ◌≡◌, ◌≤◌, ◌≢◌, inl, inr, refl, sym, subst, ap, ◌∙◌, false, none, some, [], ◌∷◌, ◌++◌,
  Text, lower, eq_text, eq_text_iff, if◌then◌else◌, Bool-cases,
}
use rif_relay_server.Stored.{PopulatedTransaction, NonceSigner, eq_key, create_stored_transaction}
use rif_relay_server.Outcome.{ok, bind_of_ok, bind_of_err, >>=-eq-ok, bind-inv}
use rif_relay_server.Keys.{SignedTransactionDetails}
use rif_relay_server.TxStore.{stamp, put_tx}
use rif_relay_server.TxStore.Writes.{put_tx-free}
use rif_relay_server.TxManager.{
  Env, World, SendTransactionDetails, assign, bump, tx_to_sign, first_stored, sign_with,
  prepare_transaction, prepare_at, record_signed, check_hash, broadcast_transaction,
  send_transaction, increment_nonce, log_broadcast,
}
use rif_relay_server.TxManager.Nonces.{
  called, counter, Settled, poll_nonce_lem, assign_self, assign_ne,
}
use rif_relay_server.TxManager.Steps.{call-state, call-eq-ok, lift-eq-ok, on_store-eq-ok}

module _ {Store : Type 0} (env : Env Store) where
  -- The world after the raw transaction went to the node.
  abbrev pub logged : World Store → Text → World Store
  logged w raw = record w { broadcast = w.broadcast ++ raw ∷ [] }

  check_hash-eq-ok :
      (signed r : SignedTransactionDetails) (hash : Text) (w v : World Store)
      → check_hash env signed hash w ≡ (ok r, v)
      → (lower hash ≡ lower signed.tx_hash) × (r ≡ signed)
  unfolding check_hash
  check_hash-eq-ok signed r hash w v e =
      elim (Bool-cases (eq_text (lower hash) (lower signed.tx_hash))) [
        | inl same ↦ ((eq_text_iff _ _).0 same, let f = (rw same at e) in cc)
        | inr other ↦ let f = (rw other at e) in cc
      ]

  -- Whatever the node answers, a broadcast leaves the logged world, with one more call made.
  pub broadcast_transaction_lem :
      (signed : SignedTransactionDetails) (w : World Store)
      → (broadcast_transaction env signed w).1 ≡ called (logged w signed.signed_tx)
  unfolding broadcast_transaction check_hash
  broadcast_transaction_lem signed w =
      ap (λ p. p.1) (bind_of_ok (log_broadcast signed.signed_tx) _ w refl)
      ∙ bind-inv (λ t. t ≡ called (logged w signed.signed_tx)) _ _ _ (call-state _ _)
          (λ hash t _ same. same)

  -- A success: the node's hash is the signed one, up to case.
  pub broadcast_transaction-eq-ok :
      (signed r : SignedTransactionDetails) (w v : World Store)
      → broadcast_transaction env signed w ≡ (ok r, v)
      → (hash : Text) × (env.node.send w.calls signed.signed_tx ≡ some hash)
        × (lower hash ≡ lower signed.tx_hash)
        × (r ≡ signed)
  unfolding broadcast_transaction
  broadcast_transaction-eq-ok signed r w v e =
      let (hash, answered, rest) =
        call-eq-ok _ _ _ (sym (bind_of_ok (log_broadcast signed.signed_tx) _ w refl) ∙ e) in
      let (same, kept) = check_hash-eq-ok signed r hash _ v rest in (hash, answered, same, kept)

module _ {Store : Type 0} (env : Env Store) (d : SendTransactionDetails) where
  abbrev pub key_at : ℕ → NonceSigner
  key_at n = record { nonce = n; signer = lower d.signer }

  -- The transaction was prepared at the nonce `n`: the nonce is no less than the node's answer and
  -- the counter, the counter is past it, the signed transaction carries it, and it is stored at a
  -- key that was free; no other counter or document has changed, and nothing was broadcast.
  pub record Prepared (price : ℕ) (w v : World Store) (signed : SignedTransactionDetails) (n : ℕ)
      : Type 0 where
    pub answer : ℕ
    pub asked : env.node.count_pending w.calls d.signer ≡ some answer
    pub answer_le : answer ≤ n
    pub counter_le : counter w d.signer ≤ n
    pub advanced : v.nonces d.signer ≡ some (n + 1)
    pub others : (a : Text) → a ≢ d.signer → v.nonces a ≡ w.nonces a
    pub signs : sign_with env d.signer (tx_to_sign d price n) ≡ ok signed
    pub was_free : env.db.at (key_at n) w.store ≡ none
    pub stored :
        (j : NonceSigner)
        → env.db.at j v.store ≡ (
            if eq_key (key_at n) j
            then some (stamp (first_stored env d (tx_to_sign d price n) signed.tx_hash))
            else env.db.at j w.store)
    pub quiet : v.broadcast ≡ w.broadcast

  -- The world that the counter's increment and the write leave.
  abbrev recorded : World Store → Store → World Store
  recorded w s = record w {
    nonces = assign w.nonces d.signer (bump (w.nonces d.signer));
    store = s;
  }

  record_signed_lem :
      (tx : PopulatedTransaction) (w v : World Store) (signed r : SignedTransactionDetails)
      → record_signed env d tx signed w ≡ (ok r, v)
      → (s : Store) × (put_tx env.db (first_stored env d tx signed.tx_hash) false w.store
          ≡ (ok tt, s))
        × (v ≡ recorded w s)
        × (r ≡ signed)
  unfolding record_signed
  record_signed_lem tx w v signed r e =
      let (_, s, put, done) =
        on_store-eq-ok _ _ _ (sym (bind_of_ok (increment_nonce d.signer) _ w refl) ∙ e) in
      (s, put, sym (ap (λ p. p.1) done), cc)

  prepare_at_lem :
      (price n : ℕ) (w v : World Store) (signed : SignedTransactionDetails)
      → prepare_at env d price n w ≡ (ok signed, v)
      → (s : Store) × (sign_with env d.signer (tx_to_sign d price n) ≡ ok signed)
        × (put_tx env.db (first_stored env d (tx_to_sign d price n) signed.tx_hash) false w.store
            ≡ (ok tt, s))
        × (v ≡ recorded w s)
  unfolding prepare_at
  prepare_at_lem price n w v signed e =
      let (sg, signs, rest) = lift-eq-ok _ _ w e in
      let (s, put, left, same) = record_signed_lem (tx_to_sign d price n) w v sg signed rest in
      (
        s,
        signs ∙ ap ok (sym same),
        ap (λ r. put_tx env.db (first_stored env d (tx_to_sign d price n) r.tx_hash) false w.store)
              same
            ∙ put,
        left,
      )

  -- The counter of a settled nonce, and the write at that nonce.
  Prepared-of :
      (price answer n : ℕ) (w u v : World Store) (s : Store) (signed : SignedTransactionDetails)
      → env.node.count_pending w.calls d.signer ≡ some answer
      → Settled d.signer answer (called w) u n
      → sign_with env d.signer (tx_to_sign d price n) ≡ ok signed
      → put_tx env.db (first_stored env d (tx_to_sign d price n) signed.tx_hash) false u.store
        ≡ (ok tt, s)
      → v ≡ recorded u s
      → Prepared price w v signed n
  unfolding create_stored_transaction
  Prepared-of price answer n w u v s signed asked settled signs put left =
      let (free, _, at) = put_tx-free env.db _ u.store s put in
      record {
        answer = answer;
        asked = asked;
        answer_le = settled.answer_le;
        counter_le = settled.counter_le;
        advanced = rw left (assign_self u.nonces d.signer _ ∙ ap bump settled.now);
        others = λ a h. rw left (assign_ne u.nonces d.signer _ a h ∙ settled.others a h);
        signs = signs;
        was_free = rw (← settled.same_store) free;
        stored = λ j. rw (left, ← settled.same_store) (at j);
        quiet = rw left settled.same_broadcast;
      }

  -- A successful preparation.
  pub prepare_transaction-Prepared :
      (price : ℕ) (w v : World Store) (signed : SignedTransactionDetails)
      → prepare_transaction env d price w ≡ (ok signed, v)
      → (n : ℕ) × Prepared price w v signed n
  unfolding prepare_transaction
  prepare_transaction-Prepared price w v signed e = elim (poll_nonce_lem env d.signer w) [
    | inl (_, failed) ↦ let bad = sym (bind_of_err _ _ w failed) ∙ e in cc
    | inr (answer, n, u, asked, polled, settled) ↦
        let (s, signs, put, left) =
          prepare_at_lem price n u v signed (sym (bind_of_ok _ _ w polled) ∙ e) in
        (n, Prepared-of price answer n w u v s signed asked settled signs put left)
  ]

  -- A successful `sendTransaction`: the transaction was prepared at some nonce on the price that
  -- the node gave, its raw form was broadcast, and the node answered with the hash that is stored.
  pub record Sent (w v : World Store) (signed : SignedTransactionDetails) : Type 0 where
    pub price : ℕ
    pub priced : env.node.gas_price w.calls ≡ some price
    pub prepared_world : World Store
    pub nonce : ℕ
    pub prepared : Prepared price (called w) prepared_world signed nonce
    pub left : v ≡ called (logged env prepared_world signed.signed_tx)
    pub hash : Text
    pub answered : env.node.send prepared_world.calls signed.signed_tx ≡ some hash
    pub same_hash : lower hash ≡ lower signed.tx_hash

  Sent-of :
      (price : ℕ) (w u v : World Store) (sg signed : SignedTransactionDetails)
      → env.node.gas_price w.calls ≡ some price
      → prepare_transaction env d price (called w) ≡ (ok sg, u)
      → broadcast_transaction env sg u ≡ (ok signed, v)
      → Sent w v signed
  Sent-of price w u v sg signed priced prepared sent =
      let (hash, answered, same_hash, kept) = broadcast_transaction-eq-ok env sg signed u v sent in
      let (n, was_prepared) = prepare_transaction-Prepared price (called w) u sg prepared in
      record {
        price = price;
        priced = priced;
        prepared_world = u;
        nonce = n;
        prepared = subst (λ r. Prepared price (called w) u r n) (sym kept) was_prepared;
        left =
            sym (ap (λ p. p.1) sent)
            ∙ broadcast_transaction_lem env sg u
            ∙ ap (λ r. called (logged env u r.signed_tx)) (sym kept);
        hash = hash;
        answered = subst (λ r. env.node.send u.calls r.signed_tx ≡ some hash) (sym kept) answered;
        same_hash = subst (λ r. lower hash ≡ lower r.tx_hash) (sym kept) same_hash;
      }

  -- A successful `sendTransaction` prepared the transaction at one nonce, broadcast it, and got the
  -- hash that it stored.
  pub send_transaction-Sent :
      (w v : World Store) (signed : SignedTransactionDetails)
      → send_transaction env d w ≡ (ok signed, v)
      → Sent w v signed
  unfolding send_transaction
  send_transaction-Sent w v signed e =
      let (price, priced, rest) = call-eq-ok _ _ w e in
      let (sg, u, prepared, sent) = >>=-eq-ok _ _ _ rest in
      Sent-of price w u v sg signed priced prepared sent
