-- ===== src/Http.antt =====
-- src/HttpServer.ts: the handlers of the routes, from a request to the reply, and the polling that
-- the server starts and stops. Express and the documentation are left out.
pub mod Replies
pub mod ReadOnly
pub mod Lifecycle
use rif_relay_server.Base.{
  ℕ, zero, suc, Bool, true, false, Option, none, some, List, [], ◌∷◌, Text, codes, eq_text, ◌==◌,
  if◌then◌else◌,
}
use rif_relay_server.Outcome.{
  Error, Outcome, ok, err, invalid_body, not_available, bad_params, not_started, Action, ◌>>=◌,
  pure, throw,
}
use rif_relay_server.Keys.{SignedTransactionDetails}
use rif_relay_server.TxManager.{poll_nonce}
use rif_relay_server.Envelope.{HttpEnvelopingRequest}
use rif_relay_server.Events.{TypedEvent}
use rif_relay_server.Server.{
  Server, on_chain, is_ready, is_trusted_verifier, get_all_hub_events_since_last_scan,
}
use rif_relay_server.Server.Replenish.{get_manager_balance, get_worker_balance}
use rif_relay_server.Server.Requests.{validate_max_nonce}
use rif_relay_server.Server.Queries.{
  HubInfo, HandlerResponse, VerifierResponse, VerifierContracts, get_min_gas_price,
  is_custom_replenish, get_chain_info, verifier_handler, token_handler,
  destination_contract_handler,
}
use rif_relay_server.Server.Relay.{
  RelayContext, RelayEstimation, create_relay_transaction, estimate_max_possible_gas,
}

-- An argument of a remote call: a text with its reading by `Number`, `none` for NaN, or another.
pub data Param : Type 0 where
  text : Text → Option ℕ → Param
  other : Option ℕ → Param

-- The body of a remote call, whose fields may all be missing.
pub record RootHandlerRequestBody : Type 0 where
  pub id : Option ℕ
  pub method : Option Text
  pub params : Option (List Param)

pub data WhitelistedRelayMethod : Type 0 where
  get_min_gas_price_method is_custom_replenish_method get_manager_balance_method :
      WhitelistedRelayMethod
  get_worker_balance_method get_all_hub_events_method is_trusted_verifier_method :
      WhitelistedRelayMethod
  is_ready_method validate_max_nonce_method : WhitelistedRelayMethod

-- What a remote call returns; `code_200` stands for the answer where it returns nothing.
pub data RpcValue : Type 0 where
  number : ℕ → RpcValue
  boolean : Bool → RpcValue
  events : List TypedEvent → RpcValue
  code_200 : RpcValue

-- What is sent back: `error_field` and `message_field` carry the message of the error, and
-- `name_field` its name.
pub data Reply (D : Type 0) : Type 0 where
  hub_info : HubInfo → Reply D
  no_content : Reply D
  signed : SignedTransactionDetails → Reply D
  estimation : RelayEstimation D → Reply D
  addresses : HandlerResponse → Reply D
  verifiers : VerifierResponse → Reply D
  error_field message_field name_field : Error → Reply D
  rpc_success : ℕ → RpcValue → Reply D
  rpc_error : Option ℕ → Error → Reply D

-- `AVAILABLE_METHODS`.
abbrev pub available_methods : List (Text × WhitelistedRelayMethod)
available_methods =
    (codes "getMinGasPrice", get_min_gas_price_method)
    ∷ (codes "isCustomReplenish", is_custom_replenish_method)
    ∷ (codes "getManagerBalance", get_manager_balance_method)
    ∷ (codes "getWorkerBalance", get_worker_balance_method)
    ∷ (codes "getAllHubEventsSinceLastScan", get_all_hub_events_method)
    ∷ (codes "isTrustedVerifier", is_trusted_verifier_method)
    ∷ (codes "isReady", is_ready_method)
    ∷ (codes "validateMaxNonce", validate_max_nonce_method)
    ∷ []

abbrev pub find_method : Text → List (Text × WhitelistedRelayMethod) → Option WhitelistedRelayMethod
find_method name [] = none
find_method name ((n, m) ∷ ms) =
    let rest = find_method name ms in if eq_text n name then some m else rest

-- `id` and `method` where both count as true: an id of 0 and an empty name do not.
abbrev pub named : ℕ → Text → Option (ℕ × Text)
named zero name = none
named (suc n) [] = none
named (suc n) (x ∷ xs) = some (suc n, x ∷ xs)

abbrev pub call_of_body : Option ℕ → Option Text → Option (ℕ × Text)
call_of_body none name = none
call_of_body (some id) none = none
call_of_body (some id) (some name) = named id name

abbrev pub reply_or :
    {S A D : Type 0} → (A → Reply D) → (Error → Reply D) → Outcome A × S → Reply D × S
reply_or good bad (ok a, s) = (good a, s)
reply_or good bad (err e, s) = (bad e, s)

-- The first argument, read as a number: one that is missing is NaN.
abbrev pub first_number : List Param → Option ℕ
first_number [] = none
first_number (text t value ∷ ps) = value
first_number (other value ∷ ps) = value

module _ {Store D : Type 0} (c : RelayContext Store D) where
  abbrev pub as_value :
      {A : Type 0} → (A → RpcValue) → Action (Server Store) A → Action (Server Store) RpcValue
  as_value wrap m = m >>= λ a. pure (wrap a)

  -- `isTrustedVerifier` on the arguments: what is no text has no `toLowerCase`.
  abbrev pub trusted_value : List Param → Action (Server Store) RpcValue
  trusted_value [] s = (err bad_params, s)
  trusted_value (other value ∷ ps) s = (err bad_params, s)
  trusted_value (text t value ∷ ps) s = (ok (boolean (is_trusted_verifier s t)), s)

  -- `validateMaxNonce`: no nonce is greater than NaN, and the nonce is polled all the same.
  abbrev pub max_nonce_value : Option ℕ → Action (Server Store) RpcValue
  max_nonce_value (some n) = as_value (λ u. code_200) (validate_max_nonce c.server n)
  max_nonce_value none =
      as_value (λ n. code_200)
        (on_chain (poll_nonce c.server.base.env c.server.base.worker_address))

  unfoldable pub run_method : WhitelistedRelayMethod → List Param → Action (Server Store) RpcValue
  run_method get_min_gas_price_method ps s = (ok (number (get_min_gas_price c.server s)), s)
  run_method is_custom_replenish_method ps s = (ok (boolean (is_custom_replenish c.server)), s)
  run_method get_manager_balance_method ps s = as_value number (get_manager_balance c.server) s
  run_method get_worker_balance_method ps s = as_value number (get_worker_balance c.server) s
  run_method get_all_hub_events_method ps s =
      as_value events (get_all_hub_events_since_last_scan c.server) s
  run_method is_trusted_verifier_method ps s = trusted_value ps s
  run_method is_ready_method ps s = (ok (boolean (is_ready c.server.settings s)), s)
  run_method validate_max_nonce_method ps s = max_nonce_value (first_number ps) s

  -- `...params` of a missing list throws.
  abbrev pub run_with :
      Option WhitelistedRelayMethod → Option (List Param) → Action (Server Store) RpcValue
  run_with none ps = throw not_available
  run_with (some m) none = throw bad_params
  run_with (some m) (some ps) = run_method m ps

  unfoldable pub process_root_handler : Text → Option (List Param) → Action (Server Store) RpcValue
  process_root_handler name ps = run_with (find_method name available_methods) ps

  -- `rootHandler` on the id and the method of the body; `rpc_error none` carries the id -1.
  abbrev pub root_reply :
      Option (ℕ × Text) → Option (List Param) → Server Store → Reply D × Server Store
  root_reply none ps s = (rpc_error none invalid_body, s)
  root_reply (some (id, name)) ps s =
      reply_or (rpc_success id) (rpc_error (some id)) (process_root_handler name ps s)

  unfoldable pub root_handler : RootHandlerRequestBody → Server Store → Reply D × Server Store
  root_handler body s = root_reply (call_of_body body.id body.method) body.params s

  unfoldable pub get_chain_info_handler : Text → Server Store → Reply D × Server Store
  get_chain_info_handler version s = (hub_info (get_chain_info c.server version s), s)

  unfoldable pub status_handler : Server Store → Reply D × Server Store
  status_handler s = (no_content, s)

  unfoldable pub relay_handler : HttpEnvelopingRequest → Server Store → Reply D × Server Store
  relay_handler r s = reply_or signed error_field (create_relay_transaction c r s)

  unfoldable pub estimate_handler : HttpEnvelopingRequest → Server Store → Reply D × Server Store
  estimate_handler r s = reply_or estimation error_field (estimate_max_possible_gas c r s)

  unfoldable pub http_token_handler :
      VerifierContracts → Option Text → Server Store → Reply D × Server Store
  http_token_handler contracts verifier s =
      reply_or addresses name_field (token_handler c.server contracts verifier s)

  unfoldable pub http_destination_contract_handler :
      VerifierContracts → Option Text → Server Store → Reply D × Server Store
  http_destination_contract_handler contracts verifier s =
      reply_or addresses name_field (destination_contract_handler c.server contracts verifier s)

  unfoldable pub http_verifier_handler : Server Store → Reply D × Server Store
  http_verifier_handler s = (verifiers (verifier_handler c.server s), s)
