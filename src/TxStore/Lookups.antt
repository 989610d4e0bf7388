-- ===== src/TxStore/Lookups.antt =====
-- The lookup of a document that was put.
use rif_relay_server.Base.{ℕ, ◌≡◌, refl, ap, ◌∙◌, Bool, some, Text, lower, if◌then◌else◌}
use rif_relay_server.Stored.{StoredTransaction, eq_key_iff}
use rif_relay_server.Outcome.{ok}
use rif_relay_server.TxStore.{Nedb, put_tx, key_of, stamp, parsed, get_tx_by_nonce}
use rif_relay_server.TxStore.Writes.{Writes, put_tx-Writes}

module _ {Store : Type 0} (db : Nedb Store) where
  -- After a successful `putTx`, whether it inserted or updated, `getTxByNonce` returns the
  -- transaction, stamped with its key, for its nonce and its sender, in whatever case the sender is
  -- written.
  pub get_tx_by_nonce-put_tx :
      (tx : StoredTransaction) (b : Bool) (s t : Store) (signer : Text) (n : ℕ)
      → put_tx db tx b s ≡ (ok tt, t)
      → tx.nonce ≡ some n
      → lower signer ≡ lower tx.from
      → get_tx_by_nonce db signer n t ≡ ok (stamp tx)
  unfolding get_tx_by_nonce
  get_tx_by_nonce-put_tx tx b s t signer n e h k =
      let done : Writes db tx s (ok tt, t) = rw e at (put_tx-Writes db tx b s) in
      let same : key_of tx ≡ record { nonce = n; signer = lower signer } = rw (h, k) refl in
      let found : db.at (key_of tx) t ≡ some (stamp tx) =
        done.1 (key_of tx)
        ∙ ap (λ q. if q then some (stamp tx) else db.at (key_of tx) s)
            ((eq_key_iff (key_of tx) (key_of tx)).1 refl) in
      rw (← same) (ap parsed (db.find_one_at (key_of tx) t ∙ found))
