-- ===== src/Server/Relay/Typed.antt =====
-- The bodies of the requests that are relayed, by the shapes of src/Utils.ts.
use rif_relay_server.Base.{
  ℕ, ◌≡◌, ◌⊎◌, inl, inr, true, false, none, some, Text, arith, Bool-cases, Option-cases,
}
use rif_relay_server.Envelope.{HttpEnvelopingRequest, RequestBody}
use rif_relay_server.Shapes.{
  Shapes, all_match, request_value, deploy_transaction_request_shape,
  relay_transaction_request_shape,
}
use rif_relay_server.Server.{Server}
use rif_relay_server.Server.Relay.{RelayContext, has_shape, create_relay_transaction}
use rif_relay_server.Server.Relay.Steps.{heard}
use rif_relay_server.Server.Relay.Accepted.{create_relay_transaction-IsAccepted}

-- The body of a deploy request, and of a relay request.
pub record IsDeployBody (b : RequestBody) : Type 0 where
  pub recoverer : (t : Text) × (b.recoverer ≡ some t)
  pub index : (n : ℕ) × (b.index ≡ some n)
  pub no_gas : b.gas ≡ none

pub record IsRelayBody (b : RequestBody) : Type 0 where
  pub gas : (n : ℕ) × (b.gas ≡ some n)
  pub no_recoverer : b.recoverer ≡ none
  pub no_index : b.index ≡ none

-- ow passes no request that its documentation refuses.
pub record IsOw {Store D : Type 0} (show : ℕ → Text) (c : RelayContext Store D) : Type 0 where
  pub exact_shape_lem :
      (shapes : Shapes) (r : HttpEnvelopingRequest)
      → c.library.exact_shape shapes r ≡ true
      → all_match shapes (request_value show r) ≡ true

deploy-IsDeployBody :
    (show : ℕ → Text) (r : HttpEnvelopingRequest)
    → all_match deploy_transaction_request_shape (request_value show r) ≡ true
    → IsDeployBody r.relay_request.request
unfolding deploy_transaction_request_shape
deploy-IsDeployBody show r h = elim (Option-cases r.relay_request.request.gas) [
  | inl g ↦ elim (Option-cases r.relay_request.request.recoverer) [
    | inl m ↦ let bad = (rw (g, m) at h) in absurd (ground arith)
    | inr (t, m) ↦ elim (Option-cases r.relay_request.request.index) [
      | inl i ↦ let bad = (rw (g, m, i) at h) in absurd (ground arith)
      | inr (n, i) ↦ record { recoverer = (t, m); index = (n, i); no_gas = g }
    ]
  ]
  | inr (n, g) ↦ let bad = (rw g at h) in absurd (ground arith)
]

relay-IsRelayBody :
    (show : ℕ → Text) (r : HttpEnvelopingRequest)
    → all_match relay_transaction_request_shape (request_value show r) ≡ true
    → IsRelayBody r.relay_request.request
unfolding relay_transaction_request_shape
relay-IsRelayBody show r h = elim (Option-cases r.relay_request.request.gas) [
  | inl g ↦ let bad = (rw g at h) in absurd (ground arith)
  | inr (n, g) ↦ elim (Option-cases r.relay_request.request.recoverer) [
    | inl m ↦ elim (Option-cases r.relay_request.request.index) [
      | inl i ↦ record { gas = (n, g); no_recoverer = m; no_index = i }
      | inr (k, i) ↦ let bad = (rw (g, m, i) at h) in absurd (ground arith)
    ]
    | inr (t, m) ↦ let bad = (rw (g, m) at h) in absurd (ground arith)
  ]
]

module _ {Store D : Type 0} (show : ℕ → Text) (c : RelayContext Store D) where
  has_shape-IsRelayBody :
      (r : HttpEnvelopingRequest)
      → IsOw show c
      → has_shape c r ≡ true
      → ((c.library.is_deploy_transaction r ≡ true) × IsDeployBody r.relay_request.request)
        ⊎ ((c.library.is_deploy_transaction r ≡ false) × IsRelayBody r.relay_request.request)
  has_shape-IsRelayBody r ow h = elim (Bool-cases (c.library.is_deploy_transaction r)) [
    | inl d ↦ inl (
      d,
      deploy-IsDeployBody show r
          (ow.exact_shape_lem deploy_transaction_request_shape r (rw d at h)),
    )
    | inr d ↦ inr (
      d,
      relay-IsRelayBody show r (ow.exact_shape_lem relay_transaction_request_shape r (rw d at h)),
    )
  ]

  -- `createRelayTransaction` broadcasts nothing unless the body of the request is either that of a
  -- deploy request, with a recoverer and an index and no gas, and taken for one, or that of a relay
  -- request, with gas and neither a recoverer nor an index, and not taken for a deploy request.
  pub create_relay_transaction-IsRelayBody :
      (r : HttpEnvelopingRequest) (s : Server Store)
      → IsOw show c
      → (heard (create_relay_transaction c r s).1 ≡ heard s)
        ⊎ (((c.library.is_deploy_transaction r ≡ true) × IsDeployBody r.relay_request.request)
            ⊎ ((c.library.is_deploy_transaction r ≡ false) × IsRelayBody r.relay_request.request))
  create_relay_transaction-IsRelayBody r s ow = elim (create_relay_transaction-IsAccepted c r s) [
    | inl same ↦ inl same
    | inr (ready, accepted) ↦ inr (has_shape-IsRelayBody r ow accepted.shape)
  ]
