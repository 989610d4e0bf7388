-- ===== src/Fees/Calculated.antt =====
-- What `calculateFee` of src/relayServerUtils computes, from the configured fees.
use rif_relay_server.Base.{ℕ, ◌≡◌, ◌⊎◌, inl, inr, sym, ap, ◌∙◌, true, some, codes, ◌++◌}
use rif_relay_server.Outcome.{ok, ok_injective, >>=-eq-ok}
use rif_relay_server.Envelope.{EnvelopingRequest}
use rif_relay_server.Numbers.{Numbers, of_ℕ}
use rif_relay_server.TxManager.{World}
use rif_relay_server.Fees.{
  Market, FeeSettings, drop, calculate_fixed_usd_fee, calculate_fee_from_transfer, fixed_fee,
  with_variable_fee, calculate_fee, convert_token_to_gas,
}
use rif_relay_server.Fees.Conditions.{
  IsTransferAt, IsSponsored, IsSponsored-cases, IsUncharged, IsCharged, charge_cases, GasPart,
  with_gas_fee-GasPart, NoTransfer, transfer_cases,
}

module _ {Store D : Type 0} (num : Numbers D) (market : Market D) (c : FeeSettings D)
    (r : EnvelopingRequest) where
  -- The fixed part: 0 if none is configured, and otherwise the fee in dollars, converted to gas.
  abbrev pub FixedPart : World Store → D → World Store → Type 0
  FixedPart w fixed u =
      (IsUncharged num c.fixed_usd_fee × (fixed ≡ of_ℕ num 0) × (u ≡ w))
      ⊎ ((usd : D) × IsCharged num c.fixed_usd_fee usd
          × (calculate_fixed_usd_fee num market r usd w ≡ (ok fixed, u)))

  fixed_fee-FixedPart :
      (w u : World Store) (fixed : D)
      → fixed_fee num market c.fixed_usd_fee r w ≡ (ok fixed, u)
      → FixedPart w fixed u
  unfolding fixed_fee
  fixed_fee-FixedPart w u fixed e = elim (charge_cases num c.fixed_usd_fee) [
    | inl (inl h) ↦ let f = (rw h at e) in inl (inl h, sym (ok_injective f), sym (ap (λ p. p.1) f))
    | inl (inr (p, h, k)) ↦
        let f = (rw (h, k) at e) in inl (inr (p, h, k), sym (ok_injective f), sym (ap (λ p. p.1) f))
    | inr (p, (h, k)) ↦ inr (p, (h, k), rw (h, k) at e)
  ]

  -- A fee on transfers of 0 or more is configured, and the call is a transfer: the percentage of the
  -- value, which stands in the data from the index on, converted to gas, is added.
  abbrev pub TransferPart : World Store → D → D → World Store → Type 0
  TransferPart u fixed fee v =
      (p : D) × (index : ℕ) × (amount : D) × (c.transfer_fee_percentage ≡ some p)
      × (num.gte p (of_ℕ num 0) ≡ true)
      × IsTransferAt r.request.call_data index
      × (convert_token_to_gas num market
            (num.times (num.of_text (codes "0x" ++ drop index r.request.call_data)) p)
            r.request.token_contract r.relay_data.gas_price u
          ≡ (ok amount, v))
      × (fee ≡ num.plus fixed amount)

  -- What is added to the fixed part.
  abbrev pub VariablePart : ℕ → World Store → D → D → World Store → Type 0
  VariablePart gas u fixed fee v =
      TransferPart u fixed fee v ⊎ (NoTransfer num c r × (v ≡ u) × GasPart num c gas fixed fee)

  with_variable_fee-VariablePart :
      (gas : ℕ) (u v : World Store) (fixed fee : D)
      → with_variable_fee num market c r gas fixed u ≡ (ok fee, v)
      → VariablePart gas u fixed fee v
  unfolding with_variable_fee calculate_fee_from_transfer
  with_variable_fee-VariablePart gas u v fixed fee e = elim (transfer_cases num c r) [
    | inl (p, index, h, high, k, takes, at) ↦
        let (amount, t, converted, done) = >>=-eq-ok _ _ u (rw (takes, h, k) at e) in
        let left : t ≡ v = ap (λ x. x.1) done in
        inl (
          p,
          index,
          amount,
          h,
          high,
          at,
          converted ∙ ap (λ x. (ok amount, x)) left,
          sym (ok_injective done),
        )
    | inr (other, h) ↦
        let f = (rw h at e) in
        inr
          (other, sym (ap (λ x. x.1) f), with_gas_fee-GasPart num c gas fixed fee (ap (λ x. x.0) f))
  ]

  -- A successful `calculateFee`: a sponsored request costs nothing, and nobody is asked. Any other
  -- costs a fixed part, which is the configured fee in dollars, converted to gas, or 0 without one, and
  -- a second one: for a transfer, where a fee on transfers of 0 or more is configured, the percentage
  -- of the value that its data moves, converted to gas, whatever the request's gas; and otherwise the
  -- rounded percentage of the gas, where one other than 0 is configured, or nothing.
  pub calculate_fee_lem :
      (gas : ℕ) (w v : World Store) (fee : D)
      → calculate_fee num market c r gas w ≡ (ok fee, v)
      → (IsSponsored c r × (fee ≡ of_ℕ num 0) × (v ≡ w))
        ⊎ ((IsSponsored c r → ⊥)
            × ((fixed : D) × (u : World Store) × FixedPart w fixed u
                × VariablePart gas u fixed fee v))
  unfolding calculate_fee
  calculate_fee_lem gas w v fee e = elim (IsSponsored-cases c r) [
    | inl (allowed, sponsored) ↦
        let f = (rw allowed at e) in inl (sponsored, sym (ok_injective f), sym (ap (λ x. x.1) f))
    | inr (denied, pays) ↦
        let (fixed, u, first, second) = >>=-eq-ok _ _ w (rw denied at e) in
        inr (
          pays,
          (
            fixed,
            u,
            fixed_fee-FixedPart w u fixed first,
            with_variable_fee-VariablePart gas u v fixed fee second,
          ),
        )
  ]
