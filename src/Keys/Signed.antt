-- ===== src/Keys/Signed.antt =====
-- What `signTransaction` of src/KeyManager.ts returns.
use rif_relay_server.Base.{◌≡◌, sym, ◌∙◌, ap, some, Text, inl, inr, Option-cases}
use rif_relay_server.Stored.{PopulatedTransaction}
use rif_relay_server.Outcome.{ok}
use rif_relay_server.Keys.{
  Keys, Wallets, SignedTransactionDetails, key_for, get_wallet, sign_transaction,
}

-- The transaction was signed with the key of the address, and the hash is that of its raw form.
pub record IsSigned (wallets : Wallets) (ks : Keys) (address : Text) (utx : PopulatedTransaction)
    (signed : SignedTransactionDetails) : Type 0 where
  pub key : Text
  pub managed : key_for address ks ≡ some key
  pub signs : wallets.sign key utx ≡ some signed.signed_tx
  pub hashed : signed.tx_hash ≡ wallets.keccak256 signed.signed_tx

pub sign_transaction-IsSigned :
    (wallets : Wallets) (ks : Keys) (address : Text) (utx : PopulatedTransaction)
    (signed : SignedTransactionDetails)
    → sign_transaction wallets ks address utx ≡ ok signed
    → IsSigned wallets ks address utx signed
unfolding sign_transaction
sign_transaction-IsSigned wallets ks address utx signed e =
    elim (Option-cases (key_for address ks)) [
      | inl unknown ↦ let f = (rw (unknown, sign_transaction, get_wallet) at e) in cc
      | inr (key, managed) ↦ elim (Option-cases (wallets.sign key utx)) [
        | inl refused ↦ let f = (rw (managed, refused, sign_transaction, get_wallet) at e) in cc
        | inr (raw, signs) ↦
            let f = (rw (managed, signs, sign_transaction, get_wallet) at e) in
            let same : record { tx_hash = wallets.keccak256 raw; signed_tx = raw } ≡ signed = cc in
            record {
              key = key;
              managed = managed;
              signs = signs ∙ ap (λ s. some s.signed_tx) same;
              hashed =
                  sym (ap (λ s. s.tx_hash) same) ∙ ap (λ s. wallets.keccak256 s.signed_tx) same;
            }
      ]
    ]
