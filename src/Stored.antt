-- ===== src/Stored.antt =====
-- src/StoredTransaction.ts: the records that the store keeps, and how one is made from a
-- transaction and its metadata. Also the transaction type of ethers and the query key.
use rif_relay_server.Base.{ap, ℕ, ◌≡◌, ◌↔◌, Bool, true, false, ◌&&◌, Option, none, some, arith}
use rif_relay_server.Base.{Text, eq_text, eq_text_iff, ◌==◌}
use rif_relay_server.Base.Int.{ℤ}

pub data ServerAction : Type 0 where
  register_server add_worker relay_call value_transfer deposit_withdrawal penalization :
      ServerAction

abbrev pub index_of : ServerAction → ℕ
index_of register_server = 0
index_of add_worker = 1
index_of relay_call = 2
index_of value_transfer = 3
index_of deposit_withdrawal = 4
index_of penalization = 5

-- `===` on the enumeration.
abbrev pub eq_action : ServerAction → ServerAction → Bool
eq_action a b = index_of a == index_of b

pub eq_action_iff : (a b : ServerAction) → (eq_action a b ≡ true) ↔ (a ≡ b)
eq_action_iff a b = ground arith

-- ethers' `PopulatedTransaction`: every field may be left out.
pub record PopulatedTransaction : Type 0 where
  pub to : Option Text
  pub gas_limit : Option ℕ
  pub gas_price : Option ℕ
  pub call_data : Option Text
  pub nonce : Option ℕ
  pub value : Option ℤ

pub record StoredTransactionMetadata : Type 0 where
  pub tx_id : Text
  pub from : Text
  pub attempts : ℕ
  pub server_action : ServerAction
  pub creation_block_number : ℕ
  pub boost_block_number : Option ℕ
  pub mined_block_number : Option ℕ

pub record NonceSigner : Type 0 where
  pub nonce : ℕ
  pub signer : Text

pub record StoredTransaction : Type 0 where
  pub to : Option Text
  pub gas_limit : Option ℕ
  pub gas_price : Option ℕ
  pub call_data : Option Text
  pub nonce : Option ℕ
  pub tx_id : Text
  pub from : Text
  pub attempts : ℕ
  pub server_action : ServerAction
  pub creation_block_number : ℕ
  pub boost_block_number : Option ℕ
  pub mined_block_number : Option ℕ
  pub nonce_signer : Option NonceSigner

-- `createStoredTransaction`: the value of the transaction is not among the details.
unfoldable pub create_stored_transaction :
    PopulatedTransaction → StoredTransactionMetadata → StoredTransaction
create_stored_transaction tx metadata = record {
  to = tx.to;
  gas_limit = tx.gas_limit;
  gas_price = tx.gas_price;
  call_data = tx.call_data;
  nonce = tx.nonce;
  tx_id = metadata.tx_id;
  from = metadata.from;
  attempts = metadata.attempts;
  server_action = metadata.server_action;
  creation_block_number = metadata.creation_block_number;
  boost_block_number = metadata.boost_block_number;
  mined_block_number = metadata.mined_block_number;
  nonce_signer = none;
}

-- Equality of keys, as the database compares them.
abbrev pub eq_key : NonceSigner → NonceSigner → Bool
eq_key a b = (a.nonce == b.nonce) && eq_text a.signer b.signer

pub eq_key_iff : (a b : NonceSigner) → (eq_key a b ≡ true) ↔ (a ≡ b)
eq_key_iff a b = ground (arith, eq_text_iff a.signer b.signer)

abbrev pub has_key : NonceSigner → StoredTransaction → Bool
has_key k x = elim x.nonce_signer [ none ↦ false | some j ↦ eq_key j k ]

pub has_key_iff :
    (k : NonceSigner) (x : StoredTransaction) → (has_key k x ≡ true) ↔ (x.nonce_signer ≡ some k)
has_key_iff k x = go x.nonce_signer
  where
    go :
        (o : Option NonceSigner)
        → ((elim o [ none ↦ false | some j ↦ eq_key j k ]) ≡ true) ↔ (o ≡ some k)
    go none = ground arith
    go (some j) = (λ e. ap some ((eq_key_iff j k).0 e), λ e. (eq_key_iff j k).1 (cc))
