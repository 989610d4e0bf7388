-- ===== src/TxStore/Refinement.antt =====
-- The transaction store as a finite map from the nonce and the sender to the transaction.
use rif_relay_server.Base.{
  ℕ, ◌≡◌, ◌⊎◌, inl, inr, refl, ap, ◌∙◌, Bool, true, false, ◌&&◌, Option, none, some, List, [], ◌∷◌,
  Text, lower, eq_text, leb, if◌then◌else◌,
}
use rif_relay_server.Stored.{NonceSigner, StoredTransaction, eq_key}
use rif_relay_server.Outcome.{Outcome, ok, err}
use rif_relay_server.TxStore.{
  Nedb, put_tx, remove_txs_until_nonce, clear_all, get_tx_by_nonce, is_valid_tx, key_of, stamp,
  parsed, keep_unless, until_nonce, everything, written,
}
use rif_relay_server.TxStore.Queries.{at-remove_txs_until_nonce}
use rif_relay_server.TxStore.Writes.{Writes, put_tx-Writes, put_tx-free}

-- The writing operations, and what one does to a store.
pub data Command : Type 0 where
  put : StoredTransaction → Bool → Command
  remove_until : Text → ℕ → Command
  clear : Command

abbrev pub Book : Type 0
Book = NonceSigner → Option StoredTransaction

-- What a command does to the map.
abbrev pub on_book : Command → Book → Book
on_book (put tx b) m j = if eq_key (key_of tx) j then some (stamp tx) else m j
on_book (remove_until signer n) m j =
    if leb j.nonce n && eq_text j.signer (lower signer) then none else m j
on_book clear m j = none

-- The commands that may succeed: a transaction is put only if it is valid, and over another only
-- with leave to update.
abbrev pub IsAllowed : Command → Book → Type 0
IsAllowed (put tx true) m = is_valid_tx tx ≡ true
IsAllowed (put tx false) m = (is_valid_tx tx ≡ true) × (m (key_of tx) ≡ none)
IsAllowed (remove_until signer n) m = Unit
IsAllowed clear m = Unit

-- A success was allowed, and does to the map what the command says; a failure does nothing.
abbrev pub IsStep : Command → Outcome (Unit {0}) → Book → Book → Type 0
IsStep c (ok _) m m' = IsAllowed c m × ((j : NonceSigner) → m' j ≡ on_book c m j)
IsStep c (err e) m m' = (j : NonceSigner) → m' j ≡ m j

abbrev pub IsRun : List Command → List (Outcome (Unit {0})) → Book → Book → Type 0
IsRun [] [] m m' = (j : NonceSigner) → m' j ≡ m j
IsRun [] (o ∷ os) m m' = ⊥
IsRun (c ∷ cs) [] m m' = ⊥
IsRun (c ∷ cs) (o ∷ os) m m' = (mid : Book) × IsStep c o m mid × IsRun cs os mid m'

none_kept : (o : Option StoredTransaction) → keep_unless everything o ≡ none
none_kept none = refl
none_kept (some x) = refl

module _ {Store : Type 0} (db : Nedb Store) where
  abbrev pub view : Store → Book
  view s j = db.at j s

  abbrev pub run_command : Command → Store → Outcome (Unit {0}) × Store
  run_command (put tx b) s = put_tx db tx b s
  run_command (remove_until signer n) s = remove_txs_until_nonce db signer n s
  run_command clear s = clear_all db s

  unfoldable pub run_commands : List Command → Store → List (Outcome (Unit {0})) × Store
  run_commands [] s = ([], s)
  run_commands (c ∷ cs) s =
      let (o, t) = run_command c s in let (os, u) = run_commands cs t in (o ∷ os, u)

  put_to-IsStep :
      (tx : StoredTransaction) (b : Bool) (s : Store) (r : Outcome (Unit {0}) × Store)
      → put_tx db tx b s ≡ r
      → Writes db tx s r
      → IsStep (put tx b) r.0 (view s) (view r.1)
  put_to-IsStep tx true s (ok u, t) e (valid, put_at) = (valid, put_at)
  put_to-IsStep tx false s (ok u, t) e (valid, put_at) =
      let (free, _, _) = put_tx-free db tx s t e in ((valid, free), put_at)
  put_to-IsStep tx b s (err x, t) e same = λ j. ap (λ u. db.at j u) same

  put-IsStep :
      (tx : StoredTransaction) (b : Bool) (s : Store)
      → let r = put_tx db tx b s in IsStep (put tx b) r.0 (view s) (view r.1)
  put-IsStep tx b s = put_to-IsStep tx b s (put_tx db tx b s) refl (put_tx-Writes db tx b s)

  removed_to-IsStep :
      (signer : Text) (n : ℕ) (s : Store) (r : Outcome (Unit {0}) × Store)
      → remove_txs_until_nonce db signer n s ≡ r
      → (r.1 ≡ s) ⊎ (r.0 ≡ ok tt)
      → IsStep (remove_until signer n) r.0 (view s) (view r.1)
  removed_to-IsStep signer n s (ok u, t) e h =
      (tt, λ j. at-remove_txs_until_nonce db signer n s t j e)
  removed_to-IsStep signer n s (err x, t) e (inl same) = λ j. ap (λ u. db.at j u) same
  removed_to-IsStep signer n s (err x, t) e (inr done) = cc

  removed-cases :
      (o : Option Store) (s : Store) → ((written db o s).1 ≡ s) ⊎ ((written db o s).0 ≡ ok tt)
  removed-cases none s = inl refl
  removed-cases (some t) s = inr refl

  clear-IsStep :
      (s : Store) (o : Option Store)
      → db.remove everything s ≡ o
      → let r = written db o s in IsStep clear r.0 (view s) (view r.1)
  clear-IsStep s none e = λ j. refl
  clear-IsStep s (some t) e = (tt, λ j. db.remove_at everything s t j e ∙ none_kept (db.at j s))

  command-IsStep :
      (c : Command) (s : Store) → let r = run_command c s in IsStep c r.0 (view s) (view r.1)
  unfolding remove_txs_until_nonce clear_all
  command-IsStep (put tx b) s = put-IsStep tx b s
  command-IsStep (remove_until signer n) s =
      removed_to-IsStep signer n s (remove_txs_until_nonce db signer n s) refl
        (removed-cases (db.remove (until_nonce signer n) s) s)
  command-IsStep clear s = clear-IsStep s (db.remove everything s) refl

  steps-IsRun :
      (cs : List Command) (s : Store)
      → let r = run_commands cs s in IsRun cs r.0 (view s) (view r.1)
  unfolding run_commands
  steps-IsRun [] s = λ j. refl
  steps-IsRun (c ∷ cs) s =
      (view (run_command c s).1, command-IsStep c s, steps-IsRun cs (run_command c s).1)

  -- The store implements a map from the nonce and the sender of a transaction to the transaction:
  -- whatever the commands are, and whichever of them the database fails, the outcomes and the store
  -- that they leave are those of a run on the map, in which a command that succeeded was allowed
  -- and changed the map as it says, and one that failed changed nothing; and `getTxByNonce` then
  -- answers by the map.
  pub run_commands-IsRun :
      (cs : List Command) (s : Store)
      → let r = run_commands cs s in
        IsRun cs r.0 (view s) (view r.1)
        × ((signer : Text) (n : ℕ)
            → get_tx_by_nonce db signer n r.1
              ≡ parsed (view r.1 (record { nonce = n; signer = lower signer })))
  unfolding get_tx_by_nonce
  run_commands-IsRun cs s =
      (steps-IsRun cs s, λ signer n. ap parsed (db.find_one_at _ (run_commands cs s).1))
