-- ===== src/TxManager/Boosting.antt =====
-- Which transactions are sent again, and at which price.
use rif_relay_server.Base.{
  ℕ, ◌+◌, ◌≡◌, ◌≤◌, ◌<◌, ◌⊎◌, inl, inr, refl, sym, ap, ◌∙◌, true, false, Option, none, some, List,
  [], ◌∷◌, Text, All-of, All, filter, mem-filter, ltb, get_or, arith, Bool-cases,
}
use rif_relay_server.Stored.{
  PopulatedTransaction, StoredTransactionMetadata, StoredTransaction, create_stored_transaction,
}
use rif_relay_server.Outcome.{Outcome, ok, ok_injective}
use rif_relay_server.Keys.{SignedTransactionDetails}
use rif_relay_server.TxStore.{get_all_by_signer}
use rif_relay_server.TxManager.{
  Env, World, Settings, resend_request, resolve_new_gas_price, is_underpriced, seems_mined,
  is_recent,
}
use rif_relay_server.TxManager.Nonces.{called}
use rif_relay_server.TxManager.Steps.{call-eq-ok}
use rif_relay_server.TxManager.Resending.{Resent, resend_each-Resent}
use rif_relay_server.TxManager.Boost.{boost_from, boost_sorted, boost_underpriced}

-- The new gas price is the scaled old one, or the maximum where that is lower; the flag says which,
-- and the maximum is never passed.
pub resolve_new_gas_price_lem :
    (c : Settings) (old : Option ℕ)
    → let (price, is_max) = resolve_new_gas_price c old in
      let scaled = c.scale_gas_price (get_or old 0) in
      (price ≤ c.max_gas_price)
      × (price ≤ scaled)
      × ((price ≡ scaled) ⊎ (price ≡ c.max_gas_price))
      × (is_max ≡ ltb c.max_gas_price scaled)
unfolding resolve_new_gas_price
resolve_new_gas_price_lem c old = ground arith

-- A transaction is sent again with the fields that it was first signed with, but for the new gas
-- price, and for its value: that is left out, whatever it was.
pub resend_request-create_stored_transaction :
    (tx : PopulatedTransaction) (metadata : StoredTransactionMetadata) (price : ℕ)
    → resend_request (create_stored_transaction tx metadata) price
      ≡ record tx { gas_price = some price; value = none }
unfolding resend_request create_stored_transaction
resend_request-create_stored_transaction tx metadata price = refl

module _ {Store : Type 0} (env : Env Store) where
  -- The transaction has a gas price, below the given one.
  abbrev pub IsBelow : ℕ → StoredTransaction → Type 0
  IsBelow price tx = (p : ℕ) × (tx.gas_price ≡ some p) × (p < price)

  IsBelow-of :
      (price : ℕ) (tx : StoredTransaction) → is_underpriced price tx ≡ true → IsBelow price tx
  IsBelow-of price tx h = ground arith

  -- A boost went through the signer's transactions: the oldest was not seen to be mined, was last
  -- sent the configured number of blocks ago at least, and fixed the new price, which is no more than
  -- the maximum; the transactions below that price were signed again, stored and broadcast, one after
  -- the other, and the entries are theirs.
  pub record Boosted (signer : Text) (height : ℕ) (w v : World Store)
      (boosted : List (Text × SignedTransactionDetails)) : Type 0 where
    pub oldest : StoredTransaction
    pub rest : List StoredTransaction
    pub listed : get_all_by_signer env.db signer w.store ≡ oldest ∷ rest
    pub count : ℕ
    pub counted : env.node.count_latest w.calls signer ≡ some count
    pub pending : seems_mined oldest count ≡ false
    pub stale :
        get_or oldest.boost_block_number oldest.creation_block_number
          + env.settings.pending_transaction_timeout_blocks
        ≤ height
    pub price : ℕ
    pub priced : price ≡ (resolve_new_gas_price env.settings oldest.gas_price).0
    pub bounded : price ≤ env.settings.max_gas_price
    pub raised : All (IsBelow price) (filter (is_underpriced price) (oldest ∷ rest))
    pub resent :
        Resent env height price (filter (is_underpriced price) (oldest ∷ rest)) boosted (called w) v

  -- No entry, no broadcast, and the store as it was.
  abbrev pub Untouched : World Store → World Store → List (Text × SignedTransactionDetails) → Type 0
  Untouched w v boosted = (boosted ≡ []) × (v.broadcast ≡ w.broadcast) × (v.store ≡ w.store)

  Untouched-of :
      (w u v : World Store) (boosted : List (Text × SignedTransactionDetails))
      → u.broadcast ≡ w.broadcast
      → u.store ≡ w.store
      → ◌≡◌ {A = Outcome (List (Text × SignedTransactionDetails)) × World Store}
          (ok [], u)
          (ok boosted, v)
      → Untouched w v boosted
  Untouched-of w u v boosted b s e =
      (sym (ok_injective e), ap (λ p. p.1.broadcast) (sym e) ∙ b, ap (λ p. p.1.store) (sym e) ∙ s)

  boost_from-Boosted :
      (oldest : StoredTransaction) (rest : List StoredTransaction) (signer : Text)
      (height count : ℕ) (w v : World Store) (boosted : List (Text × SignedTransactionDetails))
      → get_all_by_signer env.db signer w.store ≡ oldest ∷ rest
      → env.node.count_latest w.calls signer ≡ some count
      → boost_from env oldest rest height count (called w) ≡ (ok boosted, v)
      → Untouched w v boosted ⊎ Boosted signer height w v boosted
  unfolding boost_from
  boost_from-Boosted oldest rest signer height count w v boosted listed counted e =
      elim (Bool-cases (seems_mined oldest count)) [
        | inl mined ↦ inl (Untouched-of w (called w) v boosted refl refl (rw mined at e))
        | inr pending ↦ elim (Bool-cases (is_recent env.settings oldest height)) [
          | inl recent ↦
              inl (Untouched-of w (called w) v boosted refl refl (rw (pending, recent) at e))
          | inr stale ↦
              let price = (resolve_new_gas_price env.settings oldest.gas_price).0 in
              inr (record {
                oldest = oldest;
                rest = rest;
                listed = listed;
                count = count;
                counted = counted;
                pending = pending;
                stale = ground arith;
                price = price;
                priced = refl;
                bounded = (resolve_new_gas_price_lem env.settings oldest.gas_price).0;
                raised = All-of _ _ (λ a m.
                    IsBelow-of price a (mem-filter (is_underpriced price) (oldest ∷ rest) a m).1);
                resent =
                    resend_each-Resent env height price
                      (filter (is_underpriced price) (oldest ∷ rest)) (called w) v boosted
                      (rw (pending, stale) at e);
              })
        ]
      ]

  boost_sorted-Boosted :
      (txs : List StoredTransaction) (signer : Text) (height : ℕ) (w v : World Store)
      (boosted : List (Text × SignedTransactionDetails))
      → get_all_by_signer env.db signer w.store ≡ txs
      → boost_sorted env txs signer height w ≡ (ok boosted, v)
      → Untouched w v boosted ⊎ Boosted signer height w v boosted
  unfolding boost_sorted
  boost_sorted-Boosted [] signer height w v boosted listed e =
      inl (Untouched-of w w v boosted refl refl e)
  boost_sorted-Boosted (oldest ∷ rest) signer height w v boosted listed e =
      let (count, counted, later) = call-eq-ok _ _ w e in
      boost_from-Boosted oldest rest signer height count w v boosted listed counted later

  -- A boost that succeeds has no entries, has broadcast nothing and has left the store as it was; or
  -- it found the oldest transaction pending and stale, and sent again exactly the transactions below
  -- the new price: each was signed with its sender's key, its record was overwritten, its raw form was
  -- broadcast, and the node answered with its hash.
  pub boost_underpriced-Boosted :
      (signer : Text) (height : ℕ) (w v : World Store)
      (boosted : List (Text × SignedTransactionDetails))
      → boost_underpriced env signer height w ≡ (ok boosted, v)
      → Untouched w v boosted ⊎ Boosted signer height w v boosted
  unfolding boost_underpriced
  boost_underpriced-Boosted signer height w v boosted e =
      boost_sorted-Boosted (get_all_by_signer env.db signer w.store) signer height w v boosted refl
        e

  -- For an oldest transaction of nonce 0 the account's nonce, which tells that it was mined, makes
  -- no difference to the boost.
  pub boost_from-nonce_zero :
      (oldest : StoredTransaction) (rest : List StoredTransaction) (height count other : ℕ)
      → oldest.nonce ≡ some 0
      → boost_from env oldest rest height count ≡ boost_from env oldest rest height other
  unfolding boost_from
  boost_from-nonce_zero oldest rest height count other zero_nonce = rw zero_nonce refl
