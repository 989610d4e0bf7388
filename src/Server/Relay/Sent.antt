-- ===== src/Server/Relay/Sent.antt =====
-- What a relayed request has done.
use rif_relay_server.Base.{
  none, refl, ℕ, ◌+◌, ◌≡◌, sym, ap, ◌∙◌, inl, inr, true, some, [], ◌∷◌, ◌++◌, subst, Bool-cases,
}
use rif_relay_server.Outcome.{ok, >>=-eq-ok}
use rif_relay_server.Stored.{PopulatedTransaction}
use rif_relay_server.Envelope.{HttpEnvelopingRequest}
use rif_relay_server.Keys.{SignedTransactionDetails}
use rif_relay_server.TxManager.{SendTransactionDetails, World}
use rif_relay_server.TxManager.Nonces.{called}
use rif_relay_server.TxManager.Steps.{call-eq-ok}
use rif_relay_server.TxManager.Sending.{Sent, send_transaction-Sent}
use rif_relay_server.Server.{Server, is_ready}
use rif_relay_server.Server.Relay.{
  RelayContext, check_amounts, relay_method, send_relay, relay_details, relay_when_ready,
  create_relay_transaction,
}
use rif_relay_server.Server.Relay.Steps.{with_world, on_chain-eq-ok, validate_input_types-eq-ok}
use rif_relay_server.Server.Relay.Found.{
  validate_max_nonce-eq-ok, validate_request_with_verifier-eq-ok, IsAffordable, check_amounts-eq-ok,
}

ok-injective : {A : Type 0} {a b : A} → ok a ≡ ok b → a ≡ b
ok-injective e = cc

module _ {Store D : Type 0} (c : RelayContext Store D) (r : HttpEnvelopingRequest) where
  -- The transaction for the gas was sent, at the block that the node told.
  pub record IsSentFor (gas : ℕ) (v : World Store) (block : ℕ) (signed : SignedTransactionDetails)
      : Type 0 where
    pub calls : ℕ
    pub method : PopulatedTransaction
    pub gas_limit : ℕ
    pub before : World Store
    pub populated : relay_method c calls r ≡ some method
    pub limited :
        c.library.verify_max_possible_gas
          (calls + 1)
          method
          r.relay_request.relay_data.gas_price
          gas
          c.server.base.worker_address
        ≡ some gas_limit
    pub told : c.server.base.log_node.block_number (calls + 1 + 1) ≡ some block
    pub details : SendTransactionDetails
    pub by_worker : details.signer ≡ c.server.base.worker_address
    pub with_method : details.method ≡ some method
    pub to_hub : details.destination ≡ r.metadata.relay_hub_address
    pub no_value : details.value ≡ none
    pub at_limit : details.gas_limit ≡ gas_limit
    pub at_price : details.gas_price ≡ some r.relay_request.relay_data.gas_price
    pub at_block : details.creation_block_number ≡ block
    pub sent : Sent c.server.base.env details before v signed

  send_relay-IsSentFor :
      (gas : ℕ) (w v : World Store) (block : ℕ) (signed : SignedTransactionDetails)
      → send_relay c r gas w ≡ (ok (block, signed), v)
      → IsSentFor gas v block signed
  unfolding send_relay
  send_relay-IsSentFor gas w v block signed e =
      let (method, populated, e1) = call-eq-ok _ _ w e in
      let (gas_limit, limited, e2) = call-eq-ok _ _ (called w) e1 in
      let (b, told, e3) = call-eq-ok _ _ (called (called w)) e2 in
      let (x, u, ran, e4) = >>=-eq-ok _ _ (called (called (called w))) e3 in
      let answer : ◌≡◌ {A = ℕ × SignedTransactionDetails} (b, x) (block, signed) =
        ok-injective (ap (λ q. q.0) e4) in
      let left : u ≡ v = ap (λ q. q.1) e4 in
      subst (λ q. IsSentFor gas v q.0 q.1) answer
        (subst (λ t. IsSentFor gas t b x) left
          (record {
            calls = w.calls;
            method = method;
            gas_limit = gas_limit;
            before = called (called (called w));
            populated = populated;
            limited = limited;
            told = told;
            details = relay_details c.server.base.worker_address r method gas_limit b;
            by_worker = refl;
            with_method = refl;
            to_hub = refl;
            no_value = refl;
            at_limit = refl;
            at_price = refl;
            at_block = refl;
            sent =
                send_transaction-Sent c.server.base.env
                  (relay_details c.server.base.worker_address r method gas_limit b)
                  (called (called (called w))) u x ran;
          }))

  -- The request was relayed.
  pub record IsRelayed (s v : Server Store) (signed : SignedTransactionDetails) : Type 0 where
    pub gas : ℕ
    pub affordable : IsAffordable c r gas
    pub block : ℕ
    pub sent : IsSentFor gas v.registration.world block signed
    pub asked : v.replenish_checks ≡ s.replenish_checks ++ block ∷ []

  checks_kept :
      (s t : Server Store)
      → t ≡ with_world s t.registration.world
      → t.replenish_checks ≡ s.replenish_checks
  checks_kept s t e = ap (λ u. u.replenish_checks) e

  relay_when_ready-IsRelayed :
      (s v : Server Store) (signed : SignedTransactionDetails)
      → relay_when_ready c r s ≡ (ok signed, v)
      → IsRelayed s v signed
  unfolding relay_when_ready
  relay_when_ready-IsRelayed s v signed e =
      let (u1, s1, h1, e1) = >>=-eq-ok _ _ s e in
      let (u2, s2, h2, e2) = >>=-eq-ok _ _ s1 e1 in
      let (u3, s3, h3, e3) = >>=-eq-ok _ _ s2 e2 in
      let (u4, s4, h4, e4) = >>=-eq-ok _ _ s3 e3 in
      let (gas, s5, h5, e5) = >>=-eq-ok _ _ s4 e4 in
      let (p, s6, h6, e6) = >>=-eq-ok _ _ s5 e5 in
      let (_, same1) = validate_input_types-eq-ok c r s s1 u1 h1 in
      let same2 : s2 ≡ s1 = sym (ap (λ q. q.1) h2) in
      let (_, kept3) = validate_max_nonce-eq-ok c r s2 s3 u3 h3 in
      let (_, _, kept4) = validate_request_with_verifier-eq-ok c r s3 s4 u4 h4 in
      let (ran5, kept5) = on_chain-eq-ok (check_amounts c r) s4 s5 gas h5 in
      let (_, affordable) =
        check_amounts-eq-ok c r s4.registration.world s5.registration.world gas ran5 in
      let (ran6, kept6) = on_chain-eq-ok (send_relay c r gas) s5 s6 p h6 in
      let emitted = ap (λ q. q.1) e6 in
      let answer : p.1 ≡ signed = ok-injective (ap (λ q. q.0) e6) in
      record {
        gas = gas;
        affordable = affordable;
        block = p.0;
        sent =
            subst (λ x. IsSentFor gas v.registration.world p.0 x) answer
              (subst (λ u. IsSentFor gas u p.0 p.1) (ap (λ u. u.registration.world) emitted)
                (send_relay-IsSentFor gas s5.registration.world s6.registration.world p.0 p.1
                  ran6));
        asked =
            sym (ap (λ u. u.replenish_checks) emitted)
            ∙ ap (λ l. l ++ p.0 ∷ [])
                (checks_kept s5 s6 kept6
                  ∙ checks_kept s4 s5 kept5
                  ∙ checks_kept s3 s4 kept4
                  ∙ checks_kept s2 s3 kept3
                  ∙ ap (λ u. u.replenish_checks) (same2 ∙ same1));
      }

  -- A successful `createRelayTransaction` has found a gas that the request affords with its fees,
  -- and has sent, by `sendTransaction` at a nonce of the worker, the call of the hub that relays or
  -- deploys the request: to the hub of the metadata, with no value of its own, at the gas price of
  -- the request and with the gas limit that the client library gives for that gas. It has asked for a
  -- check of the worker's balance at the block that the node told. The server was ready.
  pub create_relay_transaction-IsRelayed :
      (s v : Server Store) (signed : SignedTransactionDetails)
      → create_relay_transaction c r s ≡ (ok signed, v)
      → (is_ready c.server.settings s ≡ true) × IsRelayed s v signed
  unfolding create_relay_transaction
  create_relay_transaction-IsRelayed s v signed e =
      elim (Bool-cases (is_ready c.server.settings s)) [
        | inl ready ↦ (ready, relay_when_ready-IsRelayed s v signed (rw ready at e))
        | inr waiting ↦ let f = (rw waiting at e) in cc
      ]
