-- ===== src/Fees/Accepting.antt =====
-- Which requests pay enough: `validateIfGasAmountIsAcceptable` and
-- `validateIfTokenAmountIsAcceptable` of src/relayServerUtils, against the conversion that tells the
-- client what to pay.
use rif_relay_server.Base.{
  ℕ, ◌+◌, ◌*◌, ◌/◌, ◌^◌, ◌≡◌, ◌≤◌, ◌<◌, ◌⊎◌, ◌↔◌, inl, inr, refl, sym, ◌∙◌, true, Option, none,
  some, Text, arith, if◌then◌else◌, Bool-cases, Option-cases, leb, leb→le, le→leb, eq_text_iff,
}
use rif_relay_server.Base.Int.{pos}
use rif_relay_server.Outcome.{
  ok, bind_of_ok, bind_of_err, insufficient_token_amount, pass_iff, pure, throw,
}
use rif_relay_server.Envelope.{EnvelopingRequest}
use rif_relay_server.Numbers.{Numbers, of_ℕ}
use rif_relay_server.TxManager.{World, call, lift}
use rif_relay_server.TxManager.Nonces.{call-some, call-none}
use rif_relay_server.Fees.{
  Market, FeeSettings, Conversion, is_sponsorship_allowed, gas_within, judge_gas, max_agreed_gas,
  no_conversion, convert_token_to_gas, convert_gas_to_token_and_native,
  validate_if_gas_amount_is_acceptable, validate_if_token_amount_is_acceptable,
}

gas_within_lem :
    {D : Type 0} (num : Numbers D) (gas estimate : ℕ)
    → (gas_within num estimate (max_agreed_gas num gas) ≡ ok tt) ↔ (estimate ≤ (12 * gas + 5) / 10)
gas_within_lem num gas estimate = rw (num.times_fifth gas) (ground arith)

judge_gas_lem :
    {D : Type 0} (num : Numbers D) (estimate : ℕ) (gas : Option ℕ)
    → (judge_gas num estimate gas ≡ ok tt)
      ↔ ((agreed : ℕ) × (gas ≡ some agreed) × (estimate ≤ (12 * agreed + 5) / 10))
judge_gas_lem num estimate none = (λ h. cc, λ (agreed, e, _). cc)
judge_gas_lem num estimate (some gas) =
    let (to, from) = gas_within_lem num gas estimate in
    (
      λ h. (gas, refl, to h),
      λ (agreed, e, within). let same : agreed ≡ gas = cc in from (rw same at within),
    )

module _ {Store D : Type 0} (num : Numbers D) (market : Market D) where
  -- `validateIfGasAmountIsAcceptable` accepts a request exactly if it deploys; or the node answers
  -- with an estimate of its call, the request has a `gas`, and the estimate is no more than 1.2 times
  -- that, rounded half up.
  pub validate_if_gas_amount_is_acceptable_lem :
      (r : EnvelopingRequest) (w : World Store)
      → ((validate_if_gas_amount_is_acceptable num market r w).0 ≡ ok tt) ↔ (
          (market.is_deploy_request r ≡ true)
          ⊎ ((estimate : ℕ) × (market.estimate_internal_call_gas w.calls r ≡ some estimate)
              × ((agreed : ℕ) × (r.request.gas ≡ some agreed)
                  × (estimate ≤ (12 * agreed + 5) / 10))))
  unfolding validate_if_gas_amount_is_acceptable
  validate_if_gas_amount_is_acceptable_lem r w =
      let ask = λ (n : ℕ). market.estimate_internal_call_gas n r in
      let estimated = call {Store = Store} ask in
      let judged = λ (estimate : ℕ). lift {Store = Store} (judge_gas num estimate r.request.gas) in
      elim (Bool-cases (market.is_deploy_request r)) [
        | inl deploys ↦ rw deploys (λ _. inl refl, λ _. refl)
        | inr relays ↦ elim (Option-cases (market.estimate_internal_call_gas w.calls r)) [
          | inl unknown ↦
              rw (relays, bind_of_err estimated judged w (call-none ask w unknown))
                (
                  λ h. cc,
                  λ h. elim h [ inl d ↦ cc | inr (_, e, _) ↦ let f = sym unknown ∙ e in cc ],
                )
          | inr (estimate, known) ↦
              let (to, from) = judge_gas_lem num estimate r.request.gas in
              rw (relays, bind_of_ok estimated judged w (call-some ask w known))
                (
                  λ h. inr (estimate, known, to h),
                  λ h. elim h [
                    | inl d ↦ cc
                    | inr (other, e, within) ↦
                        let same : other ≡ estimate = (let f = sym e ∙ known in cc) in
                        from (rw same at within)
                  ],
                )
        ]
      ]

  native_token :
      (amount : D) (token : Text) (gas_price : ℕ) (w : World Store)
      → token ≡ market.address_zero
      → convert_token_to_gas num market amount token gas_price w
        ≡ (ok (num.divided_by amount (of_ℕ num gas_price)), w)
  unfolding convert_token_to_gas
  native_token amount token gas_price w e =
      rw ((eq_text_iff token market.address_zero).1 e) (bind_of_ok (pure amount) _ w refl)

  -- For a request that pays in the native currency at a gas price between 1 and 10^20,
  -- `convertGasToTokenAndNative` asks for the product of the gas and the gas price, in either
  -- currency, and `validateIfTokenAmountIsAcceptable` accepts for that gas exactly the requests that
  -- are sponsored or offer that amount at least.
  pub validate_if_token_amount_is_acceptable_lem :
      (c : FeeSettings D) (r : EnvelopingRequest) (gas : ℕ) (w : World Store)
      → r.request.token_contract ≡ market.address_zero
      → 0 < r.relay_data.gas_price
      → r.relay_data.gas_price ≤ 10 ^ 20
      → (conversion : Conversion D) × (convert_gas_to_token_and_native num market r (pos gas) w
          ≡ (ok conversion, w))
        × (conversion.value_in_token ≡ pos (gas * r.relay_data.gas_price))
        × (conversion.value_in_native ≡ pos (gas * r.relay_data.gas_price))
        × (((validate_if_token_amount_is_acceptable num market c r (pos gas) w).0 ≡ ok tt) ↔ (
            (is_sponsorship_allowed c r ≡ true)
            ⊎ (gas * r.relay_data.gas_price ≤ r.request.token_amount)))
  unfolding convert_gas_to_token_and_native validate_if_token_amount_is_acceptable
  validate_if_token_amount_is_acceptable_lem c r gas w native positive small = (
    no_conversion num r (pos gas),
    rw ((eq_text_iff r.request.token_contract market.address_zero).1 native) refl,
    ground arith,
    ground arith,
    elim (Bool-cases (is_sponsorship_allowed c r)) [
      | inl sponsored ↦ rw sponsored (λ _. inl refl, λ _. refl)
      | inr pays ↦
          let converted =
            native_token (of_ℕ num r.request.token_amount) r.request.token_contract
              r.relay_data.gas_price w native in
          let enough =
            num.gte_quotient r.request.token_amount r.relay_data.gas_price gas positive small in
          let judged = λ (amount : D).
            (if num.gte amount (num.of_int (pos gas))
              then pure {S = World Store} tt
              else throw insufficient_token_amount) in
          let (to, from) =
            pass_iff (leb (gas * r.relay_data.gas_price) r.request.token_amount)
              insufficient_token_amount w in
          rw
            (
              pays,
              bind_of_ok
                  (convert_token_to_gas num market (of_ℕ num r.request.token_amount)
                    r.request.token_contract r.relay_data.gas_price)
                  judged w converted,
              enough,
            )
            (λ h. inr (leb→le _ _ (to h)), λ h. elim h [ inl d ↦ cc | inr k ↦ from (le→leb _ _ k) ])
    ],
  )
