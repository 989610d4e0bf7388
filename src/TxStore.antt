-- ===== src/TxStore.antt =====
-- src/TxStoreManager.ts over the database that it calls. `Nedb` is what the server relies on of
-- nedb-async: documents by the unique index on `nonceSigner`, and the documented effect of its
-- queries and writes; `none` is a rejected write, which changes nothing.
pub mod Writes
pub mod Queries
pub mod Pending
pub mod Lookups
pub mod Refinement
pub mod Log
use rif_relay_server.Base.{ℕ, ◌≡◌, ◌≢◌, ◌⊎◌, Bool, true, false, not, ◌&&◌, ◌||◌, Option, none, some}
use rif_relay_server.Base.{
  List, [], ◌∷◌, In, sort, lower, Text, eq_text, leb, ◌==◌, get_or, is_some,
}
use rif_relay_server.Base.{if◌then◌else◌}
use rif_relay_server.Stored.{
  ServerAction, eq_action, NonceSigner, StoredTransaction, eq_key, has_key,
}
use rif_relay_server.Outcome.{
  Error, invalid_tx, no_document, unique_violated, invalid_address, Outcome, ok, err, Action, ◌>>=◌,
  ◌>>◌, pure, throw,
}

-- The document that a removal by the test `p` leaves at a key.
abbrev pub keep_unless :
    (StoredTransaction → Bool) → Option StoredTransaction → Option StoredTransaction
keep_unless p none = none
keep_unless p (some x) = if p x then none else some x

pub record Nedb (Store : Type 0) : Type 0 where
  pub at : NonceSigner → Store → Option StoredTransaction
  pub find_one : (StoredTransaction → Bool) → Store → Option StoredTransaction
  pub find_all : (StoredTransaction → Bool) → Store → List StoredTransaction
  pub insert : StoredTransaction → Store → Option Store
  pub update : Text → StoredTransaction → Store → Option Store
  pub remove : (StoredTransaction → Bool) → Store → Option Store
  pub at_key :
      (k : NonceSigner) (s : Store) {x : StoredTransaction}
      → at k s ≡ some x
      → x.nonce_signer ≡ some k
  pub find_one_at : (k : NonceSigner) (s : Store) → find_one (has_key k) s ≡ at k s
  pub find_all_sound :
      (p : StoredTransaction → Bool) (s : Store) (x : StoredTransaction)
      → In x (find_all p s)
      → (p x ≡ true) × ((k : NonceSigner) × (at k s ≡ some x))
  pub find_all_complete :
      (p : StoredTransaction → Bool) (s : Store) (k : NonceSigner) (x : StoredTransaction)
      → at k s ≡ some x
      → p x ≡ true
      → In x (find_all p s)
  pub insert_at :
      (x : StoredTransaction) (k : NonceSigner) (s t : Store) (j : NonceSigner)
      → insert x s ≡ some t
      → x.nonce_signer ≡ some k
      → at j t ≡ (if eq_key k j then some x else at j s)
  pub insert_unique :
      (x : StoredTransaction) (k : NonceSigner) (s : Store)
      → x.nonce_signer ≡ some k
      → at k s ≢ none
      → insert x s ≡ none
  pub update_at :
      (old x : StoredTransaction) (k : NonceSigner) (s t : Store) (j : NonceSigner)
      → at k s ≡ some old
      → x.nonce_signer ≡ some k
      → update old.tx_id x s ≡ some t
      → at j t ≡ (if eq_key k j then some x else at j s)
  pub remove_at :
      (p : StoredTransaction → Bool) (s t : Store) (j : NonceSigner)
      → remove p s ≡ some t
      → at j t ≡ keep_unless p (at j s)

abbrev pub is_empty : Text → Bool
is_empty [] = true
is_empty (c ∷ s) = false

-- The guard of `putTx`: an id, a number of attempts other than 0, and a nonce.
abbrev pub is_valid_tx : StoredTransaction → Bool
is_valid_tx tx = not (is_empty tx.tx_id) && (not (tx.attempts == 0) && is_some tx.nonce)

abbrev pub key_of : StoredTransaction → NonceSigner
key_of tx = record { nonce = get_or tx.nonce 0; signer = lower tx.from }

-- `{...tx, nonceSigner}`.
abbrev pub stamp : StoredTransaction → StoredTransaction
stamp tx = record tx { nonce_signer = some (key_of tx) }

-- `$and: [{'nonceSigner.nonce': {$lte: nonce}}, {'nonceSigner.signer': ...}]`.
abbrev pub until_nonce : Text → ℕ → StoredTransaction → Bool
until_nonce signer nonce x = elim x.nonce_signer [
  | none ↦ false
  | some k ↦ leb k.nonce nonce && eq_text k.signer (lower signer)
]

abbrev pub by_signer : Text → StoredTransaction → Bool
by_signer signer x = elim x.nonce_signer [ none ↦ false | some k ↦ eq_text k.signer (lower signer) ]

abbrev pub everything : StoredTransaction → Bool
everything x = true

-- `_sortTransactionByNonce(a, b) <= 0`.
abbrev pub nonce_le : StoredTransaction → StoredTransaction → Bool
nonce_le a b = leb (get_or a.nonce 0) (get_or b.nonce 0)

-- A missing document is `null`, of which `parseBigNumberValues` throws.
abbrev pub parsed : Option StoredTransaction → Outcome StoredTransaction
parsed none = err no_document
parsed (some tx) = ok tx

module _ {Store : Type 0} (db : Nedb Store) where
  abbrev pub written : Option Store → Action Store (Unit {0})
  written none s = (err unique_violated, s)
  written (some t) s = (ok tt, t)

  -- The end of `putTx`, on the document that stands at the key already.
  abbrev pub put_over :
      Option StoredTransaction → StoredTransaction → Bool → Action Store (Unit {0})
  put_over (some existing) tx1 true s = written (db.update existing.tx_id tx1 s) s
  put_over (some existing) tx1 false s = written (db.insert tx1 s) s
  put_over none tx1 update_existing s = written (db.insert tx1 s) s

  unfoldable pub put_tx : StoredTransaction → Bool → Action Store (Unit {0})
  put_tx tx update_existing s =
      if is_valid_tx tx
      then put_over (db.find_one (has_key (key_of tx)) s) (stamp tx) update_existing s
      else (err invalid_tx, s)

  unfoldable pub get_tx_by_nonce : Text → ℕ → Store → Outcome StoredTransaction
  get_tx_by_nonce signer nonce s =
      parsed (db.find_one (has_key (record { nonce = nonce; signer = lower signer })) s)

  unfoldable pub get_tx_by_id : Text → Store → Outcome StoredTransaction
  get_tx_by_id tx_id s = parsed (db.find_one (λ x. eq_text x.tx_id (lower tx_id)) s)

  unfoldable pub get_txs_until_nonce : Text → ℕ → Store → List StoredTransaction
  get_txs_until_nonce signer nonce s = db.find_all (until_nonce signer nonce) s

  unfoldable pub remove_txs_until_nonce : Text → ℕ → Action Store (Unit {0})
  remove_txs_until_nonce signer nonce s = written (db.remove (until_nonce signer nonce) s) s

  unfoldable pub clear_all : Action Store (Unit {0})
  clear_all s = written (db.remove everything s) s

  unfoldable pub get_all_by_signer : Text → Store → List StoredTransaction
  get_all_by_signer signer s = sort nonce_le (db.find_all (by_signer signer) s)

  unfoldable pub get_all : Store → List StoredTransaction
  get_all s = sort nonce_le (db.find_all everything s)

-- ethers' `getAddress`, the checksummed form of an address; `none` where it throws.
module _ (get_address : Text → Option Text) where
  unfoldable pub is_same_address : Text → Text → Outcome Bool
  is_same_address a b = elim (get_address a) [
    | none ↦ err invalid_address
    | some x ↦ elim (get_address b) [ none ↦ err invalid_address | some y ↦ ok (eq_text x y) ]
  ]

  -- `destination == null || (it.to && isSameAddress(it.to, destination))`.
  abbrev pub goes_to : Option Text → Option Text → Outcome Bool
  goes_to none to = ok true
  goes_to (some destination) none = ok false
  goes_to (some destination) (some to) =
      if is_empty to then ok false else is_same_address to destination

  -- The callback of `isActionPending`.
  unfoldable pub is_pending : ServerAction → Option Text → StoredTransaction → Outcome Bool
  is_pending action destination it =
      if not (is_some it.mined_block_number) && eq_action it.server_action action
      then goes_to destination it.to
      else ok false

  -- `allTransactions.find(...) != null`: the first match ends the search, and so does a throw.
  unfoldable pub any_pending : ServerAction → Option Text → List StoredTransaction → Outcome Bool
  any_pending action destination [] = ok false
  any_pending action destination (it ∷ rest) =
      let later = any_pending action destination rest in
      elim (is_pending action destination it) [
        | err e ↦ err e
        | ok true ↦ ok true
        | ok false ↦ later
      ]

  unfoldable pub is_action_pending :
      {Store : Type 0} → Nedb Store → ServerAction → Option Text → Store → Outcome Bool
  is_action_pending db action destination s = any_pending action destination (get_all db s)
