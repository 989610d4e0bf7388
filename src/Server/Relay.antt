-- ===== src/Server/Relay.antt =====
-- Relaying a request: `createRelayTransaction` and `estimateMaxPossibleGas` of src/RelayServer.ts,
-- with the checks and estimates that they call. What the client library, ow and the verifiers'
-- contracts do is a parameter, by the number of the call as for the node. The slowing down in the
-- alerted state is a sleep, and left out.
pub mod Steps
pub mod Found
pub mod Accepted
pub mod Sent
pub mod Typed
use rif_relay_server.Base.{
  ℕ, ◌+◌, Bool, true, false, not, ◌||◌, ◌&&◌, Option, none, some, List, [], ◌∷◌, ◌++◌, Text, codes,
  contains, eq_text, ltb, ◌==◌, if◌then◌else◌,
}
use rif_relay_server.Base.Int.{ℤ, pos, ◌+ℤ◌}
use rif_relay_server.Stored.{relay_call, PopulatedTransaction}
use rif_relay_server.Keys.{SignedTransactionDetails, get_wallet}
use rif_relay_server.Outcome.{
  Error, Outcome, ok, err, not_ready, invalid_shape, invalid_verifier, incompatible_verifier,
  missing_verifier, unknown_verifier_error, verification_failed, Action, ◌>>=◌, ◌>>◌, pure, throw,
}
use rif_relay_server.Envelope.{EnvelopingRequest, HttpEnvelopingRequest}
use rif_relay_server.Shapes.{
  Shapes, deploy_transaction_request_shape, relay_transaction_request_shape,
}
use rif_relay_server.TxManager.{World, SendTransactionDetails, call, lift, send_transaction}
use rif_relay_server.Numbers.{Numbers}
use rif_relay_server.Conversions.{from_fixed}
use rif_relay_server.Fees.{
  Market, FeeSettings, Conversion, calculate_fee, validate_if_gas_amount_is_acceptable,
  validate_if_token_amount_is_acceptable, convert_gas_to_token_and_native,
}
use rif_relay_server.Server.{Server, ServerContext, on_chain, is_ready, is_trusted_verifier}
use rif_relay_server.Server.Requests.{validate_input, validate_max_nonce}

-- `exact_shape` is whether `ow.object.exactShape` passes a request. `connect_error` is the message of the error with which a verifier's contract cannot be connected;
-- the flags say that the request is one to deploy.
pub record RelayLibrary : Type 0 where
  pub is_deploy_transaction : HttpEnvelopingRequest → Bool
  pub exact_shape : Shapes → HttpEnvelopingRequest → Bool
  pub is_data_empty : Text → Bool
  pub server_signature_required : Text
  pub connect_error : Bool → Text → Option Text
  pub populate_verify : ℕ → Bool → HttpEnvelopingRequest → Text → Option PopulatedTransaction
  pub eth_call : ℕ → PopulatedTransaction → Option Text
  pub standard_max_possible_gas : ℕ → HttpEnvelopingRequest → Text → Option ℕ
  pub estimate_signed : ℕ → HttpEnvelopingRequest → Text → Option ℕ
  pub estimate_unsigned : ℕ → EnvelopingRequest → Text → Option Bool → Option ℕ
  pub verify_max_possible_gas : ℕ → PopulatedTransaction → ℕ → ℕ → Text → Option ℕ
  pub deploy_call : ℕ → EnvelopingRequest → Text → Option PopulatedTransaction
  pub relay_call_of : ℕ → EnvelopingRequest → Text → Option PopulatedTransaction

-- `clock` gives the seconds at which the n-th call is made.
pub record RelayContext (Store D : Type 0) : Type 0 where
  pub server : ServerContext Store
  pub num : Numbers D
  pub market : Market D
  pub fees : FeeSettings D
  pub library : RelayLibrary
  pub clock : ℕ → ℕ

pub record RelayEstimation (D : Type 0) : Type 0 where
  pub gas_price : ℕ
  pub estimation : ℤ
  pub required_token_amount : ℤ
  pub required_native_amount : ℤ
  pub exchange_rate : D

-- The message that stands for the error of the connection.
unfoldable pub connection_error : Text → Error
connection_error message =
    if contains (codes "Returned values aren't valid, did it run Out of Gas?") message
    then incompatible_verifier
    else (if contains (codes "no code at address") message
        then missing_verifier
        else unknown_verifier_error)

-- `try { ... } catch { throw e }`.
abbrev pub relabel : {S A : Type 0} → Error → Outcome A × S → Outcome A × S
relabel e (ok a, s) = (ok a, s)
relabel e (err x, s) = (err e, s)

-- The details of the transaction that relays the request.
abbrev pub relay_details :
    Text → HttpEnvelopingRequest → PopulatedTransaction → ℕ → ℕ → SendTransactionDetails
relay_details worker_address r method gas_limit current_block = record {
  signer = worker_address;
  server_action = relay_call;
  method = some method;
  destination = r.metadata.relay_hub_address;
  value = none;
  gas_limit = gas_limit;
  gas_price = some r.relay_request.relay_data.gas_price;
  creation_block_number = current_block;
}

module _ {Store D : Type 0} (c : RelayContext Store D) where
  -- `signature === SERVER_SIGNATURE_REQUIRED || isDataEmpty(signature)`.
  abbrev pub is_unsigned : Text → Bool
  is_unsigned signature =
      eq_text signature c.library.server_signature_required || c.library.is_data_empty signature

  abbrev pub has_shape : HttpEnvelopingRequest → Bool
  has_shape r =
      if c.library.is_deploy_transaction r
      then c.library.exact_shape deploy_transaction_request_shape r
      else c.library.exact_shape relay_transaction_request_shape r

  unfoldable pub validate_input_types : HttpEnvelopingRequest → Action (Server Store) (Unit {0})
  validate_input_types r = if has_shape r then pure tt else throw invalid_shape

  -- The call of the verifier's `verifyRelayedCall`, as a view of the pending block.
  unfoldable pub verify_relayed_call : HttpEnvelopingRequest → Action (World Store) Text
  verify_relayed_call r = do
    method ← call (λ n.
        c.library.populate_verify n (c.library.is_deploy_transaction r) r
          c.server.base.worker_address)
    call (λ n. c.library.eth_call n method)

  unfoldable pub connect_and_verify :
      Option Text → HttpEnvelopingRequest → Action (World Store) Text
  connect_and_verify (some message) r w = (err (connection_error message), w)
  connect_and_verify none r w = relabel verification_failed (verify_relayed_call r w)

  unfoldable pub validate_request_with_verifier : HttpEnvelopingRequest → Action (Server Store) Text
  validate_request_with_verifier r s =
      let verifier = r.relay_request.relay_data.call_verifier in
      let verified =
        on_chain
          (connect_and_verify (c.library.connect_error (c.library.is_deploy_transaction r) verifier)
            r)
          s in
      if is_trusted_verifier s verifier then verified else (err invalid_verifier, s)

  -- `getMaxPossibleGas`: the gas, and the gas with the fees.
  unfoldable pub get_max_possible_gas : HttpEnvelopingRequest → Action (World Store) (ℕ × ℤ)
  get_max_possible_gas r = do
    gas ← call (λ n. c.library.standard_max_possible_gas n r c.server.base.worker_address)
    fee ← calculate_fee c.num c.market c.fees r.relay_request gas
    rounded ← lift (from_fixed c.num fee)
    pure (gas, pos gas +ℤ rounded)

  abbrev pub relay_method : ℕ → HttpEnvelopingRequest → Option PopulatedTransaction
  relay_method n r =
      if c.market.is_deploy_request r.relay_request
      then c.library.deploy_call n r.relay_request r.metadata.signature
      else c.library.relay_call_of n r.relay_request r.metadata.signature

  -- The transaction itself, once the request is accepted for the gas.
  unfoldable pub send_relay :
      HttpEnvelopingRequest → ℕ → Action (World Store) (ℕ × SignedTransactionDetails)
  send_relay r max_possible_gas = do
    method ← call (λ n. relay_method n r)
    gas_limit ← call (λ n.
        c.library.verify_max_possible_gas n method r.relay_request.relay_data.gas_price
          max_possible_gas c.server.base.worker_address)
    current_block ← call c.server.base.log_node.block_number
    signed ←
        send_transaction c.server.base.env
          (relay_details c.server.base.worker_address r method gas_limit current_block)
    pure (current_block, signed)

  -- The event after a relayed transaction, which asks for a check of the worker's balance.
  abbrev pub emit_replenish_check :
      ℕ × SignedTransactionDetails → Action (Server Store) SignedTransactionDetails
  emit_replenish_check (block, signed) s =
      (ok signed, record s { replenish_checks = s.replenish_checks ++ block ∷ [] })

  abbrev pub check_input : HttpEnvelopingRequest → Action (Server Store) (Unit {0})
  check_input r s =
      (validate_input c.server is_unsigned (c.clock s.registration.world.calls) r s, s)

  -- The checks of the amounts: the result is the gas.
  unfoldable pub check_amounts : HttpEnvelopingRequest → Action (World Store) ℕ
  check_amounts r = do
    validate_if_gas_amount_is_acceptable c.num c.market r.relay_request
    gas ← get_max_possible_gas r
    validate_if_token_amount_is_acceptable c.num c.market c.fees r.relay_request gas.1
    pure gas.0

  -- `createRelayTransaction` for a server that is ready.
  unfoldable pub relay_when_ready :
      HttpEnvelopingRequest → Action (Server Store) SignedTransactionDetails
  relay_when_ready r = do
    validate_input_types r
    check_input r
    validate_max_nonce c.server r.metadata.relay_max_nonce
    validate_request_with_verifier r
    gas ← on_chain (check_amounts r)
    sent ← on_chain (send_relay r gas)
    emit_replenish_check sent

  unfoldable pub create_relay_transaction :
      HttpEnvelopingRequest → Action (Server Store) SignedTransactionDetails
  create_relay_transaction r s =
      let relayed = relay_when_ready r s in
      if is_ready c.server.settings s then relayed else (err not_ready, s)

  -- The estimate of the client library, by the wallet of the worker where the request is unsigned.
  unfoldable pub initial_estimation : HttpEnvelopingRequest → Action (World Store) ℕ
  initial_estimation r =
      let unsigned = (do
        key ← lift (get_wallet c.server.base.env.workers c.server.base.worker_address)
        call (λ n. c.library.estimate_unsigned n r.relay_request key r.metadata.is_custom)) in
      if is_unsigned r.metadata.signature
      then unsigned
      else call (λ n. c.library.estimate_signed n r c.server.base.worker_address)

  abbrev pub as_estimation : Conversion D → RelayEstimation D
  as_estimation conversion = record {
    gas_price = conversion.gas_price;
    estimation = conversion.value;
    required_token_amount = conversion.value_in_token;
    required_native_amount = conversion.value_in_native;
    exchange_rate = conversion.exchange_rate;
  }

  unfoldable pub estimate_max_possible_gas :
      HttpEnvelopingRequest → Action (Server Store) (RelayEstimation D)
  estimate_max_possible_gas r = do
    validate_input_types r
    gas ← on_chain (initial_estimation r)
    fee ← on_chain (calculate_fee c.num c.market c.fees r.relay_request gas)
    max_possible_gas ← on_chain (lift (from_fixed c.num (c.num.plus fee (c.num.of_int (pos gas)))))
    conversion ←
        on_chain (convert_gas_to_token_and_native c.num c.market r.relay_request max_possible_gas)
    pure (as_estimation conversion)
