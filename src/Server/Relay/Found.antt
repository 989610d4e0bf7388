-- ===== src/Server/Relay/Found.antt =====
-- The checks of a request that is relayed: what each has found when it succeeds.
use rif_relay_server.Base.{
  ℕ, ◌+◌, ◌≡◌, ◌≤◌, ◌⊎◌, inl, inr, refl, sym, ap, ◌∙◌, true, false, Option, some, none, Text, arith,
  Bool-cases, subst,
}
use rif_relay_server.Base.Int.{ℤ, pos, ltb_ℤ}
use rif_relay_server.Outcome.{pass_iff, Outcome, ok, err, >>=-eq-ok, verification_failed}
use rif_relay_server.Stored.{PopulatedTransaction}
use rif_relay_server.Envelope.{HttpEnvelopingRequest}
use rif_relay_server.TxManager.{World, poll_nonce}
use rif_relay_server.TxManager.Nonces.{counter, poll_nonce_lem}
use rif_relay_server.TxManager.Steps.{call-eq-ok, call-answer}
use rif_relay_server.Fees.{
  max_agreed_gas, gas_within, judge_gas, is_sponsorship_allowed, convert_token_to_gas,
  validate_if_gas_amount_is_acceptable, validate_if_token_amount_is_acceptable,
}
use rif_relay_server.Numbers.{Numbers, of_ℕ}
use rif_relay_server.Server.{Server, is_trusted_verifier}
use rif_relay_server.Server.Requests.{validate_max_nonce}
use rif_relay_server.Server.Relay.{
  RelayContext, verify_relayed_call, connect_and_verify, relabel, validate_request_with_verifier,
  get_max_possible_gas, check_amounts,
}
use rif_relay_server.Server.Relay.Steps.{on_chain-eq-ok, with_world}

gas_within-eq-ok :
    {D : Type 0} (num : Numbers D) (estimate : ℕ) (max : Outcome ℤ) (u : Unit {0})
    → gas_within num estimate max ≡ ok u
    → (agreed : ℤ) × (max ≡ ok agreed) × (ltb_ℤ agreed (pos estimate) ≡ false)
gas_within-eq-ok num estimate (err x) u e = cc
gas_within-eq-ok num estimate (ok agreed) u e = (agreed, refl, ground arith)

judge_gas-eq-ok :
    {D : Type 0} (num : Numbers D) (estimate : ℕ) (gas : Option ℕ) (u : Unit {0})
    → judge_gas num estimate gas ≡ ok u
    → (agreed : ℤ) × ((g : ℕ) × (gas ≡ some g) × (max_agreed_gas num g ≡ ok agreed))
      × (ltb_ℤ agreed (pos estimate) ≡ false)
judge_gas-eq-ok num estimate none u e = cc
judge_gas-eq-ok num estimate (some g) u e =
    let (agreed, rounded, within) = gas_within-eq-ok num estimate (max_agreed_gas num g) u e in
    (agreed, (g, refl, rounded), within)

module _ {Store D : Type 0} (c : RelayContext Store D) (r : HttpEnvelopingRequest) where
  -- The worker's nonce, by the node and by the counter, is within the maximum of the request.
  abbrev pub IsNonceWithin : Server Store → Type 0
  IsNonceWithin s =
      (answer : ℕ) × (c.server.base.env.node.count_pending s.registration.world.calls
          c.server.base.worker_address
        ≡ some answer)
      × (answer ≤ r.metadata.relay_max_nonce)
      × (counter s.registration.world c.server.base.worker_address ≤ r.metadata.relay_max_nonce)

  pub validate_max_nonce-eq-ok :
      (s t : Server Store) (u : Unit {0})
      → validate_max_nonce c.server r.metadata.relay_max_nonce s ≡ (ok u, t)
      → IsNonceWithin s × (t ≡ with_world s t.registration.world)
  unfolding validate_max_nonce
  validate_max_nonce-eq-ok s t u e =
      let (n, v, polled, checked) = >>=-eq-ok _ _ s e in
      let (ran, kept) =
        on_chain-eq-ok (poll_nonce c.server.base.env c.server.base.worker_address) s v n polled in
      let left : v ≡ t = ap (λ p. p.1) checked in
      let within : n ≤ r.metadata.relay_max_nonce = ground arith in
      elim (poll_nonce_lem c.server.base.env c.server.base.worker_address s.registration.world) [
        | inl (_, failed) ↦ let bad = sym failed ∙ ran in cc
        | inr (answer, m, w, asked, settled_at, settled) ↦
            let same : m ≡ n = cc in
            (
              (
                answer,
                asked,
                let a = settled.answer_le in omega arith,
                let b = settled.counter_le in omega arith,
              ),
              subst (λ x. x ≡ with_world s x.registration.world) left kept,
            )
      ]

  -- The verifier's contract has accepted the request.
  abbrev pub IsVerified : Type 0
  IsVerified =
      (n : ℕ) × (method : PopulatedTransaction) × (out : Text) × (c.library.populate_verify n
          (c.library.is_deploy_transaction r) r c.server.base.worker_address
        ≡ some method)
      × (c.library.eth_call (n + 1) method ≡ some out)

  relabel-eq-ok :
      {S A : Type 0} (p : Outcome A × S) (a : A) (t : S)
      → relabel verification_failed p ≡ (ok a, t)
      → p ≡ (ok a, t)
  relabel-eq-ok (ok b, u) a t e = e
  relabel-eq-ok (err x, u) a t e = cc

  connect_and_verify-IsVerified :
      (message : Option Text) (w v : World Store) (out : Text)
      → connect_and_verify c message r w ≡ (ok out, v)
      → IsVerified
  unfolding connect_and_verify verify_relayed_call
  connect_and_verify-IsVerified (some message) w v out e = cc
  connect_and_verify-IsVerified none w v out e =
      let (method, populated, rest) = call-eq-ok _ _ w (relabel-eq-ok _ out v e) in
      (w.calls, method, out, populated, call-answer _ _ v rest)

  pub validate_request_with_verifier-eq-ok :
      (s t : Server Store) (out : Text)
      → validate_request_with_verifier c r s ≡ (ok out, t)
      → (is_trusted_verifier s r.relay_request.relay_data.call_verifier ≡ true)
        × IsVerified
        × (t ≡ with_world s t.registration.world)
  unfolding validate_request_with_verifier
  validate_request_with_verifier-eq-ok s t out e =
      let message =
        c.library.connect_error (c.library.is_deploy_transaction r)
          r.relay_request.relay_data.call_verifier in
      elim (Bool-cases (is_trusted_verifier s r.relay_request.relay_data.call_verifier)) [
        | inl h ↦
            let (ran, kept) = on_chain-eq-ok (connect_and_verify c message r) s t out (rw h at e) in
            (
              h,
              connect_and_verify-IsVerified message s.registration.world t.registration.world out
                  ran,
              kept,
            )
        | inr h ↦ let f = (rw h at e) in cc
      ]

  -- The request deploys, or the estimate of its call is within 1.2 times the gas that it agreed to.
  abbrev pub IsGasAgreed : Type 0
  IsGasAgreed =
      (c.market.is_deploy_request r.relay_request ≡ true)
      ⊎ ((n : ℕ) × (estimate : ℕ) × (agreed : ℤ) × (c.market.estimate_internal_call_gas n
              r.relay_request
            ≡ some estimate)
          × ((gas : ℕ) × (r.relay_request.request.gas ≡ some gas)
              × (max_agreed_gas c.num gas ≡ ok agreed))
          × (ltb_ℤ agreed (pos estimate) ≡ false))

  -- The request is sponsored, or its tokens are worth at least the gas `total`.
  abbrev pub IsPaid : ℤ → Type 0
  IsPaid total =
      (is_sponsorship_allowed c.fees r.relay_request ≡ true)
      ⊎ ((w v : World Store) × (amount : D) × (convert_token_to_gas c.num c.market
              (of_ℕ c.num r.relay_request.request.token_amount)
              r.relay_request.request.token_contract r.relay_request.relay_data.gas_price w
            ≡ (ok amount, v))
          × (c.num.gte amount (c.num.of_int total) ≡ true))

  validate_if_gas_amount-IsGasAgreed :
      (w v : World Store) (u : Unit {0})
      → validate_if_gas_amount_is_acceptable c.num c.market r.relay_request w ≡ (ok u, v)
      → IsGasAgreed
  unfolding validate_if_gas_amount_is_acceptable
  validate_if_gas_amount-IsGasAgreed w v u e =
      elim (Bool-cases (c.market.is_deploy_request r.relay_request)) [
        | inl h ↦ inl h
        | inr h ↦
            let (estimate, asked, rest) = call-eq-ok _ _ w (rw h at e) in
            let (agreed, rounded, within) =
              judge_gas-eq-ok c.num estimate r.relay_request.request.gas u (ap (λ p. p.0) rest) in
            inr (w.calls, estimate, agreed, asked, rounded, within)
      ]

  validate_if_token_amount-IsPaid :
      (total : ℤ) (w v : World Store) (u : Unit {0})
      → validate_if_token_amount_is_acceptable c.num c.market c.fees r.relay_request total w
        ≡ (ok u, v)
      → IsPaid total
  unfolding validate_if_token_amount_is_acceptable
  validate_if_token_amount-IsPaid total w v u e =
      elim (Bool-cases (is_sponsorship_allowed c.fees r.relay_request)) [
        | inl h ↦ inl h
        | inr h ↦
            let (amount, t, converted, rest) = >>=-eq-ok _ _ w (rw h at e) in
            inr (
              w,
              t,
              amount,
              converted,
              (pass_iff (c.num.gte amount (c.num.of_int total)) _ t).0 (ap (λ p. p.0) rest),
            )
      ]

  -- The gas `gas` of the request is found, and with the fees it is acceptable.
  abbrev pub IsAffordable : ℕ → Type 0
  IsAffordable gas =
      (total : ℤ) × (w v : World Store) × (get_max_possible_gas c r w ≡ (ok (gas, total), v))
      × IsPaid total

  pub check_amounts-eq-ok :
      (w v : World Store) (gas : ℕ)
      → check_amounts c r w ≡ (ok gas, v)
      → IsGasAgreed × IsAffordable gas
  unfolding check_amounts
  check_amounts-eq-ok w v gas e =
      let (u, w1, agreed, e1) = >>=-eq-ok _ _ w e in
      let (found, w2, computed, e2) = >>=-eq-ok _ _ w1 e1 in
      let (u3, w3, paid, e3) = >>=-eq-ok _ _ w2 e2 in
      let same : found.0 ≡ gas = cc in
      (
        validate_if_gas_amount-IsGasAgreed w w1 u agreed,
        (
          found.1,
          w1,
          w2,
          subst (λ g. get_max_possible_gas c r w1 ≡ (ok (g, found.1), w2)) same computed,
          validate_if_token_amount-IsPaid found.1 w2 w3 u3 paid,
        ),
      )
