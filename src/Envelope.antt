-- ===== src/Envelope.antt =====
-- src/definitions/httpEnvelopingRequest.type.ts, with the bodies of the client library that it
-- mirrors. Amounts are natural numbers.
use rif_relay_server.Base.{ℕ, Bool, Option, Text}

-- The body of a relay request has `gas`, that of a deploy request `recoverer` and `index`.
pub record RequestBody : Type 0 where
  pub relay_hub : Text
  pub from : Text
  pub to : Text
  pub value : ℕ
  pub nonce : ℕ
  pub call_data : Text
  pub token_contract : Text
  pub token_amount : ℕ
  pub token_gas : ℕ
  pub valid_until_time : ℕ
  pub gas : Option ℕ
  pub recoverer : Option Text
  pub index : Option ℕ

pub record EnvelopingRequestData : Type 0 where
  pub gas_price : ℕ
  pub fees_receiver : Text
  pub call_forwarder : Text
  pub call_verifier : Text

pub record EnvelopingMetadata : Type 0 where
  pub relay_hub_address : Text
  pub relay_max_nonce : ℕ
  pub signature : Text
  pub is_custom : Option Bool

pub record EnvelopingRequest : Type 0 where
  pub request : RequestBody
  pub relay_data : EnvelopingRequestData

pub record HttpEnvelopingRequest : Type 0 where
  pub relay_request : EnvelopingRequest
  pub metadata : EnvelopingMetadata
