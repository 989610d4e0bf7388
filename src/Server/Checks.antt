-- ===== src/Server/Checks.antt =====
-- What the checks of a request admit.
use rif_relay_server.Base.{ℕ, ◌+◌, ◌≡◌, ◌≤◌, ◌↔◌, Bool, false, Text, eq_text_iff, lower, arith}
use rif_relay_server.Outcome.{ok}
use rif_relay_server.Server.{Server, ServerContext}
use rif_relay_server.Envelope.{HttpEnvelopingRequest}
use rif_relay_server.Server.Requests.{validate_expiration_time, validate_input}

module _ {Store : Type 0} (c : ServerContext Store) where
  -- `validateInput` admits a request exactly if it names the hub and the receiver of fees of the
  -- server, up to case, offers the server's gas price at least, is valid for the configured number
  -- of seconds at least, and is signed.
  pub validate_input_lem :
      (unsigned : Text → Bool) (now : ℕ) (r : HttpEnvelopingRequest) (s : Server Store)
      → (validate_input c unsigned now r s ≡ ok tt) ↔ (
          (lower r.metadata.relay_hub_address ≡ lower c.base.hub_address)
          × (lower r.relay_request.relay_data.fees_receiver ≡ lower c.fees_receiver)
          × (s.gas_price ≤ r.relay_request.relay_data.gas_price)
          × (now + c.settings.request_min_valid_seconds ≤ r.relay_request.request.valid_until_time)
          × (unsigned r.metadata.signature ≡ false))
  unfolding validate_input validate_expiration_time
  validate_input_lem unsigned now r s = ground (
    arith,
    eq_text_iff (lower r.metadata.relay_hub_address) (lower c.base.hub_address),
    eq_text_iff (lower r.relay_request.relay_data.fees_receiver) (lower c.fees_receiver),
  )
