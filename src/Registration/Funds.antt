-- ===== src/Registration/Funds.antt =====
-- The transfers of a whole balance to the owner.
use rif_relay_server.Base.{
  ℕ, ◌+◌, ◌-◌, ◌*◌, ◌≡◌, ◌<◌, ◌≤◌, ◌⊎◌, inl, inr, refl, some, List, [], ◌∷◌, Text, arith,
  Bool-cases, ltb,
}
use rif_relay_server.Base.Int.{pos}
use rif_relay_server.Outcome.{ok, Action, ◌>>=◌, pure}
use rif_relay_server.TxManager.{SendTransactionDetails, send_transaction}
use rif_relay_server.Registration.{Context, Registration, on_world, transfer_details}
use rif_relay_server.Registration.Methods.{transfer_balance}

module _ {Store : Type 0} (c : Context Store) where
  -- A transaction that is sent, with its hash as the result.
  abbrev pub send_one : SendTransactionDetails → Action (Registration Store) (List Text)
  send_one details = do
    signed ← on_world (send_transaction c.env details)
    pure (signed.tx_hash ∷ [])

  -- The transaction goes from the signer to the owner, at the gas price, and its value and its cost
  -- add up to the balance.
  pub record IsWhole (signer owner : Text) (gas_price balance : ℕ) (d : SendTransactionDetails)
      : Type 0 where
    pub value : ℕ
    pub carries : d.value ≡ some (pos value)
    pub priced : d.gas_price ≡ some gas_price
    pub exact : d.gas_limit * gas_price + value ≡ balance
    pub from_signer : d.signer ≡ signer
    pub to_owner : d.destination ≡ owner

  rest_of : (balance cost : ℕ) → cost ≤ balance → cost + (balance - cost) ≡ balance
  rest_of balance cost h = omega arith

  -- A balance below the cost of a transfer stays where it is; any other is sent to the owner to the
  -- last unit, in one transaction whose value and gas make up the balance.
  pub transfer_balance_lem :
      (signer owner : Text) (gas_price balance block : ℕ) (r : Registration Store)
      → ((balance < c.min_tx_gas_cost * gas_price)
          × (transfer_balance c signer owner gas_price balance block r ≡ (ok [], r)))
        ⊎ ((d : SendTransactionDetails) × IsWhole signer owner gas_price balance d
            × (transfer_balance c signer owner gas_price balance block r ≡ send_one d r))
  unfolding transfer_balance
  transfer_balance_lem signer owner gas_price balance block r =
      let cost = c.min_tx_gas_cost * gas_price in
      elim (Bool-cases (ltb balance (c.min_tx_gas_cost * gas_price))) [
        | inl e ↦ inl (ground arith, rw e refl)
        | inr e ↦
            let enough : cost ≤ balance = ground arith in
            inr (
              transfer_details signer owner c.min_tx_gas_cost gas_price (balance - cost) block,
              record {
                value = balance - cost;
                carries = refl;
                priced = refl;
                exact = rest_of balance cost enough;
                from_signer = refl;
                to_owner = refl;
              },
              rw e refl,
            )
      ]
