-- ===== src/RelayTests.antt =====
-- Tests and instances of the theorems about relaying a request, the fees, the queries, the remote
-- calls, the keystore and the registration.
use rif_relay_server.Base.{
  inr, ◌==◌, if◌then◌else◌, ℕ, ◌+◌, ◌*◌, ◌/◌, ◌≡◌, ◌≤◌, ◌⊎◌, ◌↔◌, refl, true, false, Option, none,
  some, [], ◌∷◌, ◌++◌, Text, codes, arith, to_lower,
}
use rif_relay_server.Base.Int.{pos, ◌+ℤ◌}
use rif_relay_server.Outcome.{Outcome, Action, ◌>>=◌, ok, bad_params}
use rif_relay_server.Keys.{
  SignedTransactionDetails, sign_transaction, get_wallet, is_signer, Keys, generate_keys,
}
use rif_relay_server.Keys.Keystore.{
  FileSystem, Disk, Derive, create_key_manager, load_seed, get_prefixed_seed,
}
use rif_relay_server.Stored.{PopulatedTransaction, create_stored_transaction}
use rif_relay_server.TxStore as Store
use rif_relay_server.TxStore.Log.{Log}
use rif_relay_server.TxManager as Manager
use rif_relay_server.TxManager.{World}
use rif_relay_server.Numbers.Fractions.{Fraction, fractions, fraction}
use rif_relay_server.Fees as Fees
use rif_relay_server.Fees.{Market, FeeSettings}
use rif_relay_server.Fees.Accepting.{
  validate_if_gas_amount_is_acceptable_lem, validate_if_token_amount_is_acceptable_lem,
}
use rif_relay_server.Fees.Transfers.{calculate_fee_from_transfer_lem}
use rif_relay_server.Fees.Conditions.{IsSponsored}
use rif_relay_server.Fees.Calculated.{FixedPart, VariablePart, calculate_fee_lem}
use rif_relay_server.Envelope.{EnvelopingRequest, HttpEnvelopingRequest}
use rif_relay_server.Shapes as Shapes
use rif_relay_server.Shapes.{all_match, request_value}
use rif_relay_server.Server.{Server}
use rif_relay_server.Server as Server
use rif_relay_server.Server.Requests as Requests
use rif_relay_server.Server.Relay as Relay
use rif_relay_server.Server.Relay.{RelayContext, RelayLibrary, create_relay_transaction}
use rif_relay_server.Server.Relay.Steps.{heard, with_world}
use rif_relay_server.Server.Relay.Accepted.{IsAccepted, create_relay_transaction-IsAccepted}
use rif_relay_server.Server.Relay.Sent.{IsRelayed, create_relay_transaction-IsRelayed}
use rif_relay_server.Server.Relay.Typed.{
  IsOw, IsDeployBody, IsRelayBody, create_relay_transaction-IsRelayBody,
}
use rif_relay_server.Server.Queries as Queries
use rif_relay_server.Server.Queries.{VerifierContracts, token_handler}
use rif_relay_server.Server.Queries.Verifiers.{AreKeys, token_handler_lem}
use rif_relay_server.Http as Http
use rif_relay_server.Http.{
  RootHandlerRequestBody, Param, RpcValue, Reply, root_handler, find_method, available_methods,
  run_method,
}
use rif_relay_server.Http.Replies.{IsCalled, root_handler_lem}
use rif_relay_server.Http.ReadOnly.{root_handler-heard}
use rif_relay_server.Commands.{RegisterNode, Setup, wait_for_relay, wait_until}
use rif_relay_server.Commands.Waiting.{IsWaited, wait_for_relay-IsWaited}
use rif_relay_server.Samples.{empty_world}
use rif_relay_server.ServerSamples.{sample_server_context, sample_server, sample_request}

abbrev native_market : Market Fraction
native_market = record {
  token_symbol = λ n t. some (codes "RIF");
  token_decimals = λ n t. none;
  token_name = λ n t. some (codes "RIF");
  exchange_rate = λ n a b. some (fraction 1 2);
  is_deploy_request = λ r. false;
  estimate_internal_call_gas = λ n r. some 60000;
  address_zero = codes "0x0";
}

abbrev gas_fees : FeeSettings Fraction
gas_fees = record {
  disable_sponsored_tx = true;
  sponsored_destinations = [];
  fixed_usd_fee = none;
  transfer_fee_percentage = none;
  gas_fee_percentage = some (fraction 1 10);
}

abbrev some_call : PopulatedTransaction
some_call = record {
  to = none;
  gas_limit = none;
  gas_price = none;
  call_data = some (9 ∷ []);
  nonce = none;
  value = none;
}

-- A text for each number.
abbrev show_number : ℕ → Text
show_number n = n ∷ []

abbrev sample_library : RelayLibrary
sample_library = record {
  is_deploy_transaction = λ r. false;
  exact_shape = λ shapes r. all_match shapes (request_value show_number r);
  is_data_empty = λ t. false;
  server_signature_required = codes "SERVER_SIGNATURE_REQUIRED";
  connect_error = λ d t. none;
  populate_verify = λ n d r a. some some_call;
  eth_call = λ n m. some [];
  standard_max_possible_gas = λ n r a. some 80000;
  estimate_signed = λ n r a. some 80000;
  estimate_unsigned = λ n r k b. some 90000;
  verify_max_possible_gas = λ n m p g a. some g;
  deploy_call = λ n r s. none;
  relay_call_of = λ n r s. some some_call;
}

abbrev relay_context : RelayContext Log Fraction
relay_context = record {
  server = sample_server_context;
  num = fractions;
  market = native_market;
  fees = gas_fees;
  library = sample_library;
  clock = λ n. 900;
}

abbrev ready_server : Server Log
ready_server = record sample_server { ready = true; trusted_verifiers = codes "0xe5" ∷ [] }

create_relay_transaction-IsAccepted_example :
    (heard (create_relay_transaction relay_context sample_request ready_server).1
      ≡ heard ready_server)
    ⊎ ((Server.is_ready sample_server_context.settings ready_server ≡ true)
        × IsAccepted relay_context sample_request ready_server)
create_relay_transaction-IsAccepted_example =
    create_relay_transaction-IsAccepted relay_context sample_request ready_server

abbrev relayed_end : Server Log
relayed_end = (create_relay_transaction relay_context sample_request ready_server).1

abbrev relayed_signed : SignedTransactionDetails
relayed_signed = record { tx_hash = 35 ∷ 2 ∷ 7 ∷ 61 ∷ []; signed_tx = 2 ∷ 7 ∷ 61 ∷ [] }

relays :
    create_relay_transaction relay_context sample_request ready_server
    ≡ (ok relayed_signed, relayed_end)
unfolding create_relay_transaction Relay.relay_when_ready Relay.validate_input_types
    Requests.validate_input Requests.validate_expiration_time Requests.validate_max_nonce
    Relay.validate_request_with_verifier Relay.connect_and_verify Relay.verify_relayed_call
    Relay.check_amounts Relay.get_max_possible_gas Relay.send_relay Server.is_ready
    Server.is_trusted_verifier Manager.poll_nonce Manager.settle_nonce Manager.call
    Fees.validate_if_gas_amount_is_acceptable Fees.calculate_fee Fees.fixed_fee
    Fees.with_variable_fee Fees.with_gas_fee Fees.calculate_fee_from_gas
    Fees.validate_if_token_amount_is_acceptable Fees.convert_token_to_gas Manager.send_transaction
    Manager.prepare_transaction Manager.prepare_at Manager.record_signed
    Manager.broadcast_transaction Manager.check_hash sign_transaction get_wallet is_signer
    Store.put_tx create_stored_transaction ◌>>=◌ to_lower ◌+ℤ◌
    Shapes.relay_transaction_request_shape
relays = refl

sample_IsOw : IsOw show_number relay_context
sample_IsOw = record { exact_shape_lem = λ shapes r h. h }

create_relay_transaction-IsRelayBody_example :
    (heard (create_relay_transaction relay_context sample_request ready_server).1
      ≡ heard ready_server)
    ⊎ (((false ≡ true) × IsDeployBody sample_request.relay_request.request)
        ⊎ ((false ≡ false) × IsRelayBody sample_request.relay_request.request))
create_relay_transaction-IsRelayBody_example =
    create_relay_transaction-IsRelayBody show_number relay_context sample_request ready_server
      sample_IsOw

abbrev indexed_request : HttpEnvelopingRequest
indexed_request = record sample_request {
  relay_request = record sample_request.relay_request {
    request = record sample_request.relay_request.request { index = some 0 };
  };
}

-- A relay request with an index has no shape.
refuses_index : Relay.has_shape relay_context indexed_request ≡ false
unfolding Shapes.relay_transaction_request_shape
refuses_index = refl

create_relay_transaction-IsRelayed_example :
    (Server.is_ready sample_server_context.settings ready_server ≡ true)
    × IsRelayed relay_context sample_request ready_server relayed_end relayed_signed
create_relay_transaction-IsRelayed_example =
    create_relay_transaction-IsRelayed relay_context sample_request ready_server relayed_end
      relayed_signed relays

abbrev native_request : EnvelopingRequest
native_request = sample_request.relay_request

validate_if_gas_amount_example :
    ((Fees.validate_if_gas_amount_is_acceptable fractions native_market native_request
        empty_world).0
      ≡ ok tt)
    ↔ ((native_market.is_deploy_request native_request ≡ true)
        ⊎ ((estimate : ℕ) × (native_market.estimate_internal_call_gas 0 native_request
              ≡ some estimate)
            × ((agreed : ℕ) × (native_request.request.gas ≡ some agreed)
                × (estimate ≤ (12 * agreed + 5) / 10))))
validate_if_gas_amount_example =
    validate_if_gas_amount_is_acceptable_lem fractions native_market native_request empty_world

-- The estimate is the largest that is accepted.
accepts_gas :
    (Fees.validate_if_gas_amount_is_acceptable fractions native_market native_request empty_world).0
    ≡ ok tt
accepts_gas = validate_if_gas_amount_example.1 (inr (60000, refl, (50000, refl, omega arith)))

validate_if_token_amount_example :
    (conversion : Fees.Conversion Fraction) × (Fees.convert_gas_to_token_and_native fractions
        native_market native_request
        (pos 100000)
        empty_world
      ≡ (ok conversion, empty_world))
    × (conversion.value_in_token ≡ pos (100000 * 61))
    × (conversion.value_in_native ≡ pos (100000 * 61))
    × (((Fees.validate_if_token_amount_is_acceptable fractions native_market gas_fees native_request
            (pos 100000)
            empty_world).0
          ≡ ok tt)
        ↔ ((Fees.is_sponsorship_allowed gas_fees native_request ≡ true) ⊎ (100000 * 61 ≤ 7000000)))
validate_if_token_amount_example =
    validate_if_token_amount_is_acceptable_lem fractions native_market gas_fees native_request
      100000 empty_world refl (omega arith) (omega arith)

-- A tenth of the gas.
fee_of_gas :
    Fees.calculate_fee fractions native_market gas_fees native_request 80000 empty_world
    ≡ (ok (fraction 8000 1), empty_world)
unfolding Fees.calculate_fee ◌>>=◌ Fees.fixed_fee Fees.with_variable_fee Fees.with_gas_fee
    Fees.calculate_fee_from_gas
fee_of_gas = refl

calculate_fee_example :
    (IsSponsored gas_fees native_request
      × (fraction 8000 1 ≡ fraction 0 1)
      × (empty_world ≡ empty_world))
    ⊎ ((IsSponsored gas_fees native_request → ⊥)
        × ((fixed : Fraction) × (u : World Log) × FixedPart fractions native_market gas_fees
              native_request empty_world fixed u
            × VariablePart fractions native_market gas_fees native_request 80000 u fixed
                (fraction 8000 1)
                empty_world))
calculate_fee_example =
    calculate_fee_lem fractions native_market gas_fees native_request 80000 empty_world empty_world
      (fraction 8000 1) fee_of_gas

abbrev word : Text
word = codes "0000000000000000000000001111111111111111111111111111111111111111"

-- The fee in gas of a transfer of the value.
abbrev sample_transfer_fee : Text → Action (World Log) Fraction
sample_transfer_fee value =
    Fees.convert_token_to_gas fractions native_market
      (fractions.times (fractions.of_text (codes "0x" ++ value)) (fraction 1 100)) (codes "0x0") 61

calculate_fee_from_transfer_example :
    (Fees.calculate_fee_from_transfer fractions native_market
        (codes "0xa9059cbb" ++ (word ++ codes "0f"))
        (fraction 1 100)
        native_request
      ≡ sample_transfer_fee (codes "0f"))
    × (Fees.calculate_fee_from_transfer fractions native_market
          (codes "0x23b872dd" ++ (word ++ (word ++ codes "0f")))
          (fraction 1 100)
          native_request
        ≡ sample_transfer_fee (codes "0f"))
calculate_fee_from_transfer_example =
    calculate_fee_from_transfer_lem fractions native_market native_request (fraction 1 100) word
      word (codes "0f") refl refl

abbrev silent_contracts : VerifierContracts
silent_contracts = record { accepted_tokens = λ n v. none; accepted_contracts = λ n v. none }

asks_all : Requests.query_verifiers none ready_server.trusted_verifiers ≡ ok (codes "0xe5" ∷ [])
unfolding Requests.query_verifiers
asks_all = refl

token_handler_example :
    (res : Queries.HandlerResponse) × (w : World Log) × (token_handler sample_server_context
        silent_contracts none ready_server
      ≡ (ok res, with_world ready_server w))
    × AreKeys sample_server_context silent_contracts.accepted_tokens (codes "0xe5" ∷ []) res
token_handler_example =
    token_handler_lem sample_server_context silent_contracts none ready_server (codes "0xe5" ∷ [])
      asks_all (λ v m. (v, refl))

abbrev price_call : RootHandlerRequestBody
price_call = record { id = some 5; method = some (codes "getMinGasPrice"); params = some [] }

root_handler_example :
    (root_handler relay_context price_call ready_server
      ≡ (Reply.rpc_success 5 (RpcValue.number 60), ready_server))
    ↔ IsCalled relay_context
        (some 5)
        (some (codes "getMinGasPrice"))
        (some [])
        ready_server
        5
        (RpcValue.number 60)
        ready_server
root_handler_example =
    root_handler_lem relay_context price_call ready_server ready_server 5 (RpcValue.number 60)

tells_price :
    root_handler relay_context price_call ready_server
    ≡ (Reply.rpc_success 5 (RpcValue.number 60), ready_server)
unfolding root_handler Http.process_root_handler run_method Queries.get_min_gas_price
tells_price = refl

-- Without parameters the same call has an error for its reply.
no_params :
    root_handler relay_context (record price_call { params = none }) ready_server
    ≡ (Reply.rpc_error (some 5) bad_params, ready_server)
unfolding root_handler Http.process_root_handler
no_params = refl

root_handler-heard_example :
    heard (root_handler relay_context price_call ready_server).1 ≡ heard ready_server
root_handler-heard_example = root_handler-heard relay_context price_call ready_server

abbrev sample_from_seed : Text → Option Derive
sample_from_seed seed = some (λ index. (index ∷ seed, 1 ∷ seed))

abbrev working : FileSystem
working = record { mkdir_error = none; read_error = none; write_error = none }

abbrev no_disk : Disk
no_disk = record { directory_exists = false; keystore_file = none }

abbrev first_made : Outcome Keys × Disk
first_made =
    create_key_manager sample_from_seed working (codes "ab") 1 (some (codes "data")) none no_disk

abbrev first_keys : Keys
first_keys = (0 ∷ codes "0xab", 1 ∷ codes "0xab") ∷ []

makes : first_made ≡ (ok first_keys, first_made.1)
unfolding create_key_manager load_seed get_prefixed_seed generate_keys
makes = refl

abbrev slow_relay : RegisterNode
slow_relay = record {
  get_chain_info = λ n.
      if n == 2
      then some (record { ready = true; chain_id = some 33; relay_manager_address = [] })
      else none;
  delay = λ n. 100;
  overrun = λ n. 5;
  network = λ n. none;
  stake_info = λ n a. none;
  signer_address = λ n. none;
  stake_for_address = λ n a d v. none;
  balance = λ n a. none;
  send_funds = λ n a v. none;
  get_address = λ a. some a;
  address_zero = codes "0x0";
}

abbrev fresh_setup : Setup
fresh_setup = record { now = 1000; calls = 0; paid = [] }

wait_for_relay_example :
    IsWaited slow_relay (1000 + 60 * 1000) fresh_setup (wait_for_relay slow_relay 60 fresh_setup)
wait_for_relay_example = wait_for_relay-IsWaited slow_relay 60 fresh_setup

waits :
    wait_for_relay slow_relay 60 fresh_setup
    ≡ (ok (some tt), record { now = 7310; calls = 3; paid = [] })
unfolding wait_for_relay wait_until
waits = refl
