-- ===== src/TxStore/Writes.antt =====
-- What `putTx` and `removeTxsUntilNonce` leave in the store, on every path.
use rif_relay_server.Base.{
  sym, ◌∙◌, ◌≡◌, refl, Bool, true, false, Option, none, some, if◌then◌else◌, Bool-cases,
  Option-cases, inl, inr,
}
use rif_relay_server.Stored.{NonceSigner, StoredTransaction, has_key, eq_key}
use rif_relay_server.Outcome.{unique_violated, Outcome, ok, err}
use rif_relay_server.TxStore.{Nedb, put_tx, put_over, written, is_valid_tx, key_of, stamp}

module _ {Store : Type 0} (db : Nedb Store) where
  -- A successful write put `tx` at its key and nothing anywhere else; a failed one wrote nothing.
  abbrev pub Writes : StoredTransaction → Store → Outcome (Unit {0}) × Store → Type 0
  Writes tx s (ok _, t) =
      (is_valid_tx tx ≡ true)
      × ((j : NonceSigner)
          → db.at j t ≡ (if eq_key (key_of tx) j then some (stamp tx) else db.at j s))
  Writes tx s (err _, t) = t ≡ s

  written_insert-Writes :
      (tx : StoredTransaction) (s : Store)
      → is_valid_tx tx ≡ true
      → Writes tx s (written db (db.insert (stamp tx) s) s)
  written_insert-Writes tx s v = elim (Option-cases (db.insert (stamp tx) s)) [
    | inl e ↦ rw e refl
    | inr (t, e) ↦ rw e (v, λ j. db.insert_at (stamp tx) (key_of tx) s t j e refl)
  ]

  written_update-Writes :
      (tx old : StoredTransaction) (s : Store)
      → is_valid_tx tx ≡ true
      → db.at (key_of tx) s ≡ some old
      → Writes tx s (written db (db.update old.tx_id (stamp tx) s) s)
  written_update-Writes tx old s v found = elim (Option-cases (db.update old.tx_id (stamp tx) s)) [
    | inl e ↦ rw e refl
    | inr (t, e) ↦ rw e (v, λ j. db.update_at old (stamp tx) (key_of tx) s t j found refl e)
  ]

  put_over-Writes :
      (o : Option StoredTransaction) (tx : StoredTransaction) (b : Bool) (s : Store)
      → is_valid_tx tx ≡ true
      → db.at (key_of tx) s ≡ o
      → Writes tx s (put_over db o (stamp tx) b s)
  put_over-Writes none tx b s v found = written_insert-Writes tx s v
  put_over-Writes (some old) tx false s v found = written_insert-Writes tx s v
  put_over-Writes (some old) tx true s v found = written_update-Writes tx old s v found

  -- However `putTx` ends: a success found the transaction valid, and put it, stamped with its key, at
  -- that key and nothing anywhere else; a failure left the store as it was.
  pub put_tx-Writes :
      (tx : StoredTransaction) (b : Bool) (s : Store) → Writes tx s (put_tx db tx b s)
  unfolding put_tx
  put_tx-Writes tx b s = elim (Bool-cases (is_valid_tx tx)) [
    | inl v ↦ rw v (
        put_over-Writes (db.find_one (has_key (key_of tx)) s) tx b s v
          (rw (db.find_one_at (key_of tx) s) refl))
    | inr v ↦ rw v refl
  ]

  -- A write without leave to update fails where the key is taken already, and changes nothing.
  pub put_tx-taken :
      (tx old : StoredTransaction) (s : Store)
      → is_valid_tx tx ≡ true
      → db.at (key_of tx) s ≡ some old
      → put_tx db tx false s ≡ (err unique_violated, s)
  unfolding put_tx
  put_tx-taken tx old s v taken =
      rw (v, db.find_one_at (key_of tx) s, taken)
        (rw (db.insert_unique (stamp tx) (key_of tx) s refl (λ e. let f = sym taken ∙ e in cc))
          refl)

  -- So a successful one found its key free.
  pub put_tx-free :
      (tx : StoredTransaction) (s t : Store)
      → put_tx db tx false s ≡ (ok tt, t)
      → (db.at (key_of tx) s ≡ none)
        × (is_valid_tx tx ≡ true)
        × ((j : NonceSigner)
            → db.at j t ≡ (if eq_key (key_of tx) j then some (stamp tx) else db.at j s))
  put_tx-free tx s t e =
      let done : Writes tx s (ok tt, t) = rw e at (put_tx-Writes tx false s) in
      elim (Option-cases (db.at (key_of tx) s)) [
        | inl free ↦ (free, done.0, done.1)
        | inr (old, taken) ↦ let f = sym (put_tx-taken tx old s done.0 taken) ∙ e in cc
      ]
