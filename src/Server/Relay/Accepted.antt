-- ===== src/Server/Relay/Accepted.antt =====
-- Which requests are relayed, and how.
use rif_relay_server.Base.{
  ℕ, ◌+◌, ◌≡◌, ◌≤◌, ◌⊎◌, inl, inr, refl, sym, ap, ◌∙◌, true, false, lower, Bool-cases,
}
use rif_relay_server.Outcome.{ok}
use rif_relay_server.Envelope.{HttpEnvelopingRequest}
use rif_relay_server.Server.{Server, on_chain, is_ready, is_trusted_verifier}
use rif_relay_server.Server.Checks.{validate_input_lem}
use rif_relay_server.Server.Requests.{validate_max_nonce}
use rif_relay_server.Server.Relay.{
  RelayContext, is_unsigned, has_shape, validate_input_types, check_input,
  validate_request_with_verifier, check_amounts, relay_when_ready, create_relay_transaction,
}
use rif_relay_server.Server.Relay.Steps.{
  heard, with_world, Unless, bind-Unless, on_chain-eq-ok, on_chain-heard,
  validate_input_types-eq-ok, validate_input_types-heard, check_amounts-IsSilent,
  validate_request_with_verifier-heard, validate_max_nonce-heard,
}
use rif_relay_server.Server.Relay.Found.{
  IsNonceWithin, validate_max_nonce-eq-ok, IsVerified, validate_request_with_verifier-eq-ok,
  IsGasAgreed, IsAffordable, check_amounts-eq-ok,
}

module _ {Store D : Type 0} (c : RelayContext Store D) (r : HttpEnvelopingRequest) where
  -- `validateInput` admits the request, as `validate_input_lem` says.
  abbrev pub IsValidInput : Server Store → Type 0
  IsValidInput s =
      (lower r.metadata.relay_hub_address ≡ lower c.server.base.hub_address)
      × (lower r.relay_request.relay_data.fees_receiver ≡ lower c.server.fees_receiver)
      × (s.gas_price ≤ r.relay_request.relay_data.gas_price)
      × (c.clock s.registration.world.calls + c.server.settings.request_min_valid_seconds
          ≤ r.relay_request.request.valid_until_time)
      × (is_unsigned c r.metadata.signature ≡ false)

  -- The request passes every check of `createRelayTransaction`.
  pub record IsAccepted (s : Server Store) : Type 0 where
    pub shape : has_shape c r ≡ true
    pub input : IsValidInput s
    pub nonce : IsNonceWithin c r s
    pub trusted : is_trusted_verifier s r.relay_request.relay_data.call_verifier ≡ true
    pub verified : IsVerified c r
    pub gas_agreed : IsGasAgreed c r
    pub gas : ℕ
    pub affordable : IsAffordable c r gas

  check_input-eq-ok :
      (s t : Server Store) (u : Unit {0}) → check_input c r s ≡ (ok u, t) → IsValidInput s × (t ≡ s)
  check_input-eq-ok s t u e = (
    (validate_input_lem c.server (is_unsigned c) (c.clock s.registration.world.calls) r s).0
        (ap (λ p. p.0) e),
    sym (ap (λ p. p.1) e),
  )

  trusted_at :
      (s t : Server Store)
      → t ≡ with_world s t.registration.world
      → is_trusted_verifier t r.relay_request.relay_data.call_verifier ≡ true
      → is_trusted_verifier s r.relay_request.relay_data.call_verifier ≡ true
  unfolding is_trusted_verifier
  trusted_at s t same h =
      sym (ap (λ u. is_trusted_verifier u r.relay_request.relay_data.call_verifier) same) ∙ h

  relay_when_ready-IsAccepted : (s : Server Store) → Unless (IsAccepted s) (relay_when_ready c r) s
  unfolding relay_when_ready
  relay_when_ready-IsAccepted s =
      bind-Unless (IsAccepted s) (validate_input_types c r) _ s (validate_input_types-heard c r s)
        (λ u t e.
          let (shape, same) = validate_input_types-eq-ok c r s t u e in
          rw same (
            bind-Unless (IsAccepted s) (check_input c r) _ s refl (λ u1 t1 e1.
              let (input, same1) = check_input-eq-ok s t1 u1 e1 in
              rw same1 (
                bind-Unless (IsAccepted s) (validate_max_nonce c.server r.metadata.relay_max_nonce)
                  _ s (validate_max_nonce-heard c.server r.metadata.relay_max_nonce s)
                  (λ u2 t2 e2.
                    let (nonce, kept) = validate_max_nonce-eq-ok c r s t2 u2 e2 in
                    bind-Unless (IsAccepted s) (validate_request_with_verifier c r) _ t2
                      (validate_request_with_verifier-heard c r t2)
                      (λ u3 t3 e3.
                        let (trusted, verified, _) =
                          validate_request_with_verifier-eq-ok c r t2 t3 u3 e3 in
                        bind-Unless (IsAccepted s) (on_chain (check_amounts c r)) _ t3
                          (on_chain-heard (check_amounts c r) t3 (check_amounts-IsSilent c r))
                          (λ gas t4 e4.
                            let (ran, _) = on_chain-eq-ok (check_amounts c r) t3 t4 gas e4 in
                            let (agreed, affordable) =
                              check_amounts-eq-ok c r t3.registration.world t4.registration.world
                                gas ran in
                            inr (record {
                              shape = shape;
                              input = input;
                              nonce = nonce;
                              trusted = trusted_at s t2 kept trusted;
                              verified = verified;
                              gas_agreed = agreed;
                              gas = gas;
                              affordable = affordable;
                            }))))))))

  -- `createRelayTransaction` broadcasts nothing, however it ends, unless the server is ready and the
  -- request passes every check: its shape, the checks of `validateInput`, a nonce of the worker
  -- within the maximum of the request, a trusted verifier whose contract accepts the request, a
  -- call that is estimated within 1.2 times the agreed gas, and sponsorship or tokens that are worth
  -- the gas with the fees.
  pub create_relay_transaction-IsAccepted :
      (s : Server Store)
      → (heard (create_relay_transaction c r s).1 ≡ heard s)
        ⊎ ((is_ready c.server.settings s ≡ true) × IsAccepted s)
  unfolding create_relay_transaction
  create_relay_transaction-IsAccepted s = elim (Bool-cases (is_ready c.server.settings s)) [
    | inl ready ↦ elim (relay_when_ready-IsAccepted s) [
      | inl same ↦ inl (rw ready same)
      | inr accepted ↦ inr (ready, accepted)
    ]
    | inr waiting ↦ inl (rw waiting refl)
  ]
