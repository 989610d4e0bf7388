-- ===== src/Server/Requests.antt =====
-- The checks of a request in src/RelayServer.ts, with `queryVerifiers` and `validateExpirationTime`
-- of src/relayServerUtils.
use rif_relay_server.Base.{
  ℕ, ◌+◌, Bool, not, Option, none, some, List, [], ◌∷◌, Text, eq_text, lower, ltb, if◌then◌else◌,
}
use rif_relay_server.Outcome.{
  Outcome, ok, err, wrong_hub, wrong_fees_receiver, low_gas_price, request_expired, no_signature,
  invalid_verifier, not_trusted, max_nonce_exceeded, Action, ◌>>=◌,
}
use rif_relay_server.Envelope.{HttpEnvelopingRequest}
use rif_relay_server.TxManager.{poll_nonce}
use rif_relay_server.Server.{Server, ServerContext, on_chain, is_trusted_verifier, has}

-- `validateExpirationTime` at the given time in seconds: the difference is over the integers.
unfoldable pub validate_expiration_time : ℕ → ℕ → ℕ → Outcome (Unit {0})
validate_expiration_time seconds_now valid_until_time request_min_valid_seconds =
    if ltb valid_until_time (seconds_now + request_min_valid_seconds)
    then err request_expired
    else ok tt

-- `queryVerifiers`; an empty text is no verifier.
unfoldable pub query_verifiers : Option Text → List Text → Outcome (List Text)
query_verifiers none verifiers = ok verifiers
query_verifiers (some []) verifiers = ok verifiers
query_verifiers (some (x ∷ xs)) verifiers =
    if has (lower (x ∷ xs)) verifiers then ok ((x ∷ xs) ∷ []) else err not_trusted

module _ {Store : Type 0} (c : ServerContext Store) where
  -- `validateInput`; `unsigned` is the test that the signature is the one to be required or is empty data.
  unfoldable pub validate_input :
      (Text → Bool) → ℕ → HttpEnvelopingRequest → Server Store → Outcome (Unit {0})
  validate_input unsigned seconds_now r s =
      if not (eq_text (lower r.metadata.relay_hub_address) (lower c.base.hub_address))
      then err wrong_hub
      else (if not
            (eq_text (lower r.relay_request.relay_data.fees_receiver) (lower c.fees_receiver))
          then err wrong_fees_receiver
          else (if ltb r.relay_request.relay_data.gas_price s.gas_price
              then err low_gas_price
              else elim (validate_expiration_time seconds_now
                  r.relay_request.request.valid_until_time c.settings.request_min_valid_seconds) [
                    | err e ↦ err e
                    | ok _ ↦ if unsigned r.metadata.signature then err no_signature else ok tt
                  ]))

  unfoldable pub validate_verifier : HttpEnvelopingRequest → Server Store → Outcome (Unit {0})
  validate_verifier r s =
      if is_trusted_verifier s r.relay_request.relay_data.call_verifier
      then ok tt
      else err invalid_verifier

  unfoldable pub validate_max_nonce : ℕ → Action (Server Store) (Unit {0})
  validate_max_nonce relay_max_nonce = do
    nonce ← on_chain (poll_nonce c.base.env c.base.worker_address)
    λ s. (if ltb relay_max_nonce nonce then err max_nonce_exceeded else ok tt, s)
