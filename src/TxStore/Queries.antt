-- ===== src/TxStore/Queries.antt =====
-- What the queries of the store return, and what `removeTxsUntilNonce` removes.
use rif_relay_server.Base.{
  sym, ℕ, ◌≡◌, refl, Bool, true, false, ◌&&◌, Option, none, some, arith, ap, ◌∙◌, Text, lower,
  eq_text, eq_text_iff, leb, if◌then◌else◌, Option-cases, inl, inr, ◌↔◌, In, IsSorted,
  sort-IsSorted, mem-sort, mem_of_sort,
}
use rif_relay_server.Stored.{NonceSigner, StoredTransaction}
use rif_relay_server.Outcome.{Error, ok, err}
use rif_relay_server.TxStore.{
  Nedb, remove_txs_until_nonce, until_nonce, keep_unless, nonce_le, by_signer, everything, get_all,
  get_all_by_signer,
}

nonce_le_total : (a b : StoredTransaction) → nonce_le a b ≡ false → nonce_le b a ≡ true
nonce_le_total a b h = ground arith

nonce_le_trans :
    (a b c : StoredTransaction) → nonce_le a b ≡ true → nonce_le b c ≡ true → nonce_le a c ≡ true
nonce_le_trans a b c h k = ground arith

module _ {Store : Type 0} (db : Nedb Store) where
  -- The document stands in the store, at some key that fits.
  abbrev pub Stands : (NonceSigner → Type 0) → StoredTransaction → Store → Type 0
  Stands P x s = (k : NonceSigner) × (db.at k s ≡ some x) × P k

  -- A test that reads the key alone tells what the key must fit.
  find_all_Stands :
      (p : StoredTransaction → Bool) (P : NonceSigner → Type 0)
      → ((x : StoredTransaction) (k : NonceSigner) → x.nonce_signer ≡ some k → p x ≡ true ↔ P k)
      → (x : StoredTransaction) (s : Store) → In x (db.find_all p s) ↔ Stands P x s
  find_all_Stands p P reads x s = (
    λ m.
        let (e, (k, stands)) = db.find_all_sound p s x m in
        (k, stands, (reads x k (db.at_key k s stands)).0 e),
    λ (k, stands, fits).
        db.find_all_complete p s k x stands ((reads x k (db.at_key k s stands)).1 fits),
  )

  by_signer_reads :
      (signer : Text) (x : StoredTransaction) (k : NonceSigner)
      → x.nonce_signer ≡ some k
      → by_signer signer x ≡ true ↔ (k.signer ≡ lower signer)
  by_signer_reads signer x k e = rw (e, by_signer) (eq_text_iff k.signer (lower signer))

  until_nonce_reads :
      (signer : Text) (n : ℕ) (x : StoredTransaction) (k : NonceSigner)
      → x.nonce_signer ≡ some k
      → until_nonce signer n x ≡ (leb k.nonce n && eq_text k.signer (lower signer))
  until_nonce_reads signer n x k e = rw (e, until_nonce)

  -- `getAllBySigner` returns the documents of the signer, whatever the case it is written in, and
  -- no others, by rising nonce.
  pub get_all_by_signer_lem :
      (signer : Text) (s : Store)
      → IsSorted nonce_le (get_all_by_signer db signer s)
        × ((x : StoredTransaction)
            → In x (get_all_by_signer db signer s) ↔ Stands (λ k. k.signer ≡ lower signer) x s)
  unfolding get_all_by_signer
  get_all_by_signer_lem signer s = (
    sort-IsSorted nonce_le nonce_le_total nonce_le_trans (db.find_all (by_signer signer) s),
    λ x.
        let (to, from) =
          find_all_Stands (by_signer signer) (λ k. k.signer ≡ lower signer) (by_signer_reads signer)
            x s in
        (λ m. to (mem-sort nonce_le _ x m), λ w. mem_of_sort nonce_le _ x (from w)),
  )

  -- `getAll` returns every document.
  pub mem-get_all :
      (x : StoredTransaction) (s : Store)
      → In x (get_all db s) ↔ ((k : NonceSigner) × (db.at k s ≡ some x))
  unfolding get_all
  mem-get_all x s = (
    λ m. (db.find_all_sound everything s x (mem-sort nonce_le _ x m)).1,
    λ (k, e). mem_of_sort nonce_le _ x (db.find_all_complete everything s k x e refl),
  )

  keep_until_nonce :
      (signer : Text) (n : ℕ) (j : NonceSigner) (o : Option StoredTransaction)
      → ((x : StoredTransaction) → o ≡ some x → x.nonce_signer ≡ some j)
      → keep_unless (until_nonce signer n) o
        ≡ (if leb j.nonce n && eq_text j.signer (lower signer) then none else o)
  keep_until_nonce signer n j none h = ground arith
  keep_until_nonce signer n j (some x) h = rw (until_nonce_reads signer n x j (h x refl))

  -- A removal that goes through deletes exactly the documents of the signer up to the nonce.
  pub at-remove_txs_until_nonce :
      (signer : Text) (n : ℕ) (s t : Store) (j : NonceSigner)
      → remove_txs_until_nonce db signer n s ≡ (ok tt, t)
      → db.at j t ≡ (if leb j.nonce n && eq_text j.signer (lower signer) then none else db.at j s)
  unfolding remove_txs_until_nonce
  at-remove_txs_until_nonce signer n s t j e =
      elim (Option-cases (db.remove (until_nonce signer n) s)) [
        | inl f ↦ let g = (rw f at e) in cc
        | inr (u, f) ↦
            let same : u ≡ t = ap (λ r. r.1) (rw f at e) in
            rw (← same) (
              db.remove_at (until_nonce signer n) s u j f
              ∙ keep_until_nonce signer n j (db.at j s) (λ x. db.at_key j s))
      ]

  -- One that fails deletes nothing.
  pub remove_txs_until_nonce-eq-err :
      (signer : Text) (n : ℕ) (s t : Store) {e : Error}
      → remove_txs_until_nonce db signer n s ≡ (err e, t)
      → t ≡ s
  unfolding remove_txs_until_nonce
  remove_txs_until_nonce-eq-err signer n s t e =
      elim (Option-cases (db.remove (until_nonce signer n) s)) [
        | inl f ↦ sym (ap (λ r. r.1) (rw f at e))
        | inr (u, f) ↦ let g = (rw f at e) in cc
      ]
