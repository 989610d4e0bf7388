-- ===== src/Server/Relay/Steps.antt =====
-- Relaying a request: what the checks of src/RelayServer.ts may broadcast.
use rif_relay_server.Base.{
  ℕ, ◌≡◌, ◌⊎◌, inl, inr, refl, sym, ap, ◌∙◌, true, Option, some, none, List, Text, arith,
  Bool-cases,
}
use rif_relay_server.Outcome.{
  bind-inv, Outcome, ok, err, Error, Action, ◌>>=◌, >>=-cases, verification_failed,
}
use rif_relay_server.Envelope.{HttpEnvelopingRequest}
use rif_relay_server.TxManager.{World, poll_nonce}
use rif_relay_server.TxManager.Silence.{IsSilent, silent_rules, poll_nonce-IsSilent}
use rif_relay_server.Fees.Silence.{
  calculate_fee-IsSilent, validate_if_gas_amount-IsSilent, validate_if_token_amount-IsSilent,
}
use rif_relay_server.Server.{Server, ServerContext, on_chain, is_trusted_verifier}
use rif_relay_server.Server.Requests.{validate_max_nonce}
use rif_relay_server.Server.Relay.{
  RelayContext, has_shape, validate_input_types, verify_relayed_call, connect_and_verify, relabel,
  validate_request_with_verifier, get_max_possible_gas, check_amounts,
}

module _ {Store : Type 0} where
  -- What the server has broadcast.
  abbrev pub heard : Server Store → List Text
  heard s = s.registration.world.broadcast

  abbrev pub with_world : Server Store → World Store → Server Store
  with_world s w = record s { registration = record s.registration { world = w } }

  -- A block has broadcast nothing, unless `P`.
  abbrev pub Unless : {A : Type 0} → Type 0 → Action (Server Store) A → Server Store → Type 0
  Unless P m s = (heard (m s).1 ≡ heard s) ⊎ P

  pub bind-Unless :
      {A B : Type 0} (P : Type 0) (m : Action (Server Store) A) (f : A → Action (Server Store) B)
      (s : Server Store)
      → heard (m s).1 ≡ heard s
      → ((a : A) (t : Server Store) → m s ≡ (ok a, t) → Unless P (f a) t)
      → Unless P (m >>= f) s
  bind-Unless P m f s first later = elim (>>=-cases m f s) [
    | inl (e, t, h, k) ↦ inl (rw k (rw h at first))
    | inr (a, t, h, k) ↦ elim (later a t h) [
      | inl same ↦ inl (rw k (same ∙ (rw h at first)))
      | inr p ↦ inr p
    ]
  ]

  pub on_chain-eq-ok :
      {A : Type 0} (m : Action (World Store) A) (s t : Server Store) (a : A)
      → on_chain m s ≡ (ok a, t)
      → (m s.registration.world ≡ (ok a, t.registration.world))
        × (t ≡ with_world s t.registration.world)
  on_chain-eq-ok m s t a e =
      let left = ap (λ p. p.1) e in
      (
        λ i. ((e i).0, (e i).1.registration.world),
        sym left ∙ ap (λ u. with_world s u.registration.world) left,
      )

  pub on_chain-heard :
      {A : Type 0} (m : Action (World Store) A) (s : Server Store)
      → IsSilent m
      → heard (on_chain m s).1 ≡ heard s
  on_chain-heard m s h = h.silent s.registration.world

-- Polling the worker's nonce, and the check of the maximum against it.
pub poll_nonce-heard :
    {Store : Type 0} (c : ServerContext Store) (s : Server Store)
    → heard (on_chain (poll_nonce c.base.env c.base.worker_address) s).1 ≡ heard s
poll_nonce-heard c s =
    on_chain-heard (poll_nonce c.base.env c.base.worker_address) s
      (poll_nonce-IsSilent c.base.env c.base.worker_address)

pub validate_max_nonce-heard :
    {Store : Type 0} (c : ServerContext Store) (relay_max_nonce : ℕ) (s : Server Store)
    → heard (validate_max_nonce c relay_max_nonce s).1 ≡ heard s
unfolding validate_max_nonce
validate_max_nonce-heard c relay_max_nonce s =
    bind-inv (λ t. heard t ≡ heard s) _ _ s (poll_nonce-heard c s) (λ n t _ same. same)

module _ {Store D : Type 0} (c : RelayContext Store D) (r : HttpEnvelopingRequest) where
  pub validate_input_types-eq-ok :
      (s t : Server Store) (u : Unit {0})
      → validate_input_types c r s ≡ (ok u, t)
      → (has_shape c r ≡ true) × (t ≡ s)
  unfolding validate_input_types
  validate_input_types-eq-ok s t u e = ground arith

  pub validate_input_types-heard :
      (s : Server Store) → heard (validate_input_types c r s).1 ≡ heard s
  unfolding validate_input_types
  validate_input_types-heard s = ground arith

  get_max_possible_gas-IsSilent : IsSilent (get_max_possible_gas c r)
  unfolding get_max_possible_gas
  get_max_possible_gas-IsSilent = search (silent_rules, calculate_fee-IsSilent)

  pub check_amounts-IsSilent : IsSilent (check_amounts c r)
  unfolding check_amounts
  check_amounts-IsSilent = search (
    silent_rules, get_max_possible_gas-IsSilent, validate_if_gas_amount-IsSilent,
    validate_if_token_amount-IsSilent,
  )

  verify_relayed_call-IsSilent : IsSilent (verify_relayed_call c r)
  unfolding verify_relayed_call
  verify_relayed_call-IsSilent = search silent_rules

  relabel-silent : {A : Type 0} (e : Error) (p : Outcome A × World Store) → (relabel e p).1 ≡ p.1
  relabel-silent e (ok a, w) = refl
  relabel-silent e (err x, w) = refl

  connect_and_verify-IsSilent : (message : Option Text) → IsSilent (connect_and_verify c message r)
  unfolding connect_and_verify
  connect_and_verify-IsSilent (some message) = record { silent = λ w. refl }
  connect_and_verify-IsSilent none = record {
    silent = λ w.
        ap (λ v. v.broadcast) (relabel-silent verification_failed (verify_relayed_call c r w))
        ∙ verify_relayed_call-IsSilent.silent w;
  }

  pub validate_request_with_verifier-heard :
      (s : Server Store) → heard (validate_request_with_verifier c r s).1 ≡ heard s
  unfolding validate_request_with_verifier
  validate_request_with_verifier-heard s =
      let verifier = r.relay_request.relay_data.call_verifier in
      elim (Bool-cases (is_trusted_verifier s verifier)) [
        | inl e ↦ rw e (
            on_chain-heard _ s (
              connect_and_verify-IsSilent
                (c.library.connect_error (c.library.is_deploy_transaction r) verifier)))
        | inr e ↦ rw e refl
      ]
