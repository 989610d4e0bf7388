-- ===== src/Shapes.antt =====
-- The shapes of a request in src/Utils.ts, and a request as the object that ow checks. Amounts are
-- texts there, by the parameter `show`; ow itself is a parameter.
use rif_relay_server.Base.{
  ℕ, Bool, true, false, ◌&&◌, Option, none, some, Text, codes, eq_text, if◌then◌else◌,
}
use rif_relay_server.Envelope.{
  HttpEnvelopingRequest, RequestBody, EnvelopingRequestData, EnvelopingMetadata,
}
use rif_relay_server.Values.{Value, Fields, boolean, number, text, object, end, field, get}

-- The predicates of ow that the shapes name.
mutual
  pub data Shape : Type 0 where
    string_shape number_shape optional_boolean : Shape
    exact : Shapes → Shape

  pub data Shapes : Type 0 where
    done : Shapes
    shape : Text → Shape → Shapes → Shapes

abbrev pub relay_data_shapes : Shapes
relay_data_shapes =
    (shape (codes "gasPrice") string_shape (
      shape (codes "feesReceiver") string_shape (
        shape (codes "callForwarder") string_shape
          (shape (codes "callVerifier") string_shape (done)))))

abbrev pub metadata_shapes : Shapes
metadata_shapes =
    (shape (codes "relayHubAddress") string_shape (
      shape (codes "relayMaxNonce") number_shape (
        shape (codes "signature") string_shape (shape (codes "isCustom") optional_boolean (done)))))

-- `deployTransactionRequestShape` and `relayTransactionRequestShape`, from the shape of the body.
abbrev pub request_shape : Shapes → Shapes
request_shape body =
    shape (codes "relayRequest")
      (exact (
        shape (codes "request") (exact body)
          (shape (codes "relayData") (exact relay_data_shapes) done)))
      (shape (codes "metadata") (exact metadata_shapes) done)

unfoldable pub deploy_transaction_request_shape : Shapes
deploy_transaction_request_shape = request_shape (
    shape (codes "relayHub") string_shape (
      shape (codes "from") string_shape (
        shape (codes "to") string_shape (
          shape (codes "value") string_shape (
            shape (codes "nonce") string_shape (
              shape (codes "data") string_shape (
                shape (codes "tokenContract") string_shape (
                  shape (codes "tokenAmount") string_shape (
                    shape (codes "tokenGas") string_shape (
                      shape (codes "recoverer") string_shape (
                        shape (codes "index") number_shape
                          (shape (codes "validUntilTime") number_shape (done)))))))))))))

unfoldable pub relay_transaction_request_shape : Shapes
relay_transaction_request_shape = request_shape (
    shape (codes "relayHub") string_shape (
      shape (codes "from") string_shape (
        shape (codes "to") string_shape (
          shape (codes "value") string_shape (
            shape (codes "gas") string_shape (
              shape (codes "nonce") string_shape (
                shape (codes "data") string_shape (
                  shape (codes "tokenContract") string_shape (
                    shape (codes "tokenAmount") string_shape (
                      shape (codes "tokenGas") string_shape
                        (shape (codes "validUntilTime") number_shape (done))))))))))))

abbrev pub names_shape : Shapes → Text → Bool
names_shape done key = false
names_shape (shape k s rest) key =
    let later = names_shape rest key in if eq_text key k then true else later

abbrev pub all_shaped : Shapes → Fields ℕ → Bool
all_shaped shapes end = true
all_shaped shapes (field k v fs) =
    let rest = all_shaped shapes fs in if names_shape shapes k then rest else false

-- The documented meaning of `ow.object.exactShape`, where a shape within a shape is exact too.
abbrev mutual
  pub matches : Shape → Option (Value ℕ) → Bool
  matches string_shape (some (text t)) = true
  matches number_shape (some (number n)) = true
  matches optional_boolean none = true
  matches optional_boolean (some (boolean b)) = true
  matches (exact shapes) (some (object fs)) = all_shaped shapes fs && all_match shapes fs
  matches s v = false

  pub all_match : Shapes → Fields ℕ → Bool
  all_match done fs = true
  all_match (shape k s rest) fs = matches s (get k fs) && all_match rest fs

-- An optional field, which is absent if there is no value.
abbrev pub field_if : {A : Type 0} → Text → (A → Value ℕ) → Option A → Fields ℕ → Fields ℕ
field_if key make none rest = rest
field_if key make (some a) rest = field key (make a) rest

module _ (show : ℕ → Text) where
  abbrev pub body_value : RequestBody → Fields ℕ
  body_value b = field (codes "relayHub") (text b.relay_hub) (
      field (codes "from") (text b.from) (
        field (codes "to") (text b.to) (
          field (codes "value") (text (show b.value)) (
            field (codes "nonce") (text (show b.nonce)) (
              field (codes "data") (text b.call_data) (
                field (codes "tokenContract") (text b.token_contract) (
                  field (codes "tokenAmount") (text (show b.token_amount)) (
                    field (codes "tokenGas") (text (show b.token_gas)) (
                      field (codes "validUntilTime") (number b.valid_until_time) (
                        field_if (codes "gas") (λ n. text (show n)) b.gas
                          (field_if (codes "recoverer") (λ t. text t) b.recoverer
                            (field_if (codes "index") (λ n. number n) b.index end))))))))))))

  abbrev pub data_value : EnvelopingRequestData → Fields ℕ
  data_value d = field (codes "gasPrice") (text (show d.gas_price)) (
      field (codes "feesReceiver") (text d.fees_receiver) (
        field (codes "callForwarder") (text d.call_forwarder)
          (field (codes "callVerifier") (text d.call_verifier) end)))

  abbrev pub metadata_value : EnvelopingMetadata → Fields ℕ
  metadata_value m = field (codes "relayHubAddress") (text m.relay_hub_address) (
      field (codes "relayMaxNonce") (number m.relay_max_nonce) (
        field (codes "signature") (text m.signature)
          (field_if (codes "isCustom") (λ b. boolean b) m.is_custom end)))

  -- The request as an object.
  abbrev pub request_value : HttpEnvelopingRequest → Fields ℕ
  request_value r =
      field (codes "relayRequest")
        (object (
          field (codes "request") (object (body_value r.relay_request.request))
            (field (codes "relayData") (object (data_value r.relay_request.relay_data)) end)))
        (field (codes "metadata") (object (metadata_value r.metadata)) end)
