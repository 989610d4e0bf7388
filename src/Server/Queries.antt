-- ===== src/Server/Queries.antt =====
-- src/RelayServer.ts: what the server tells of itself and of its verifiers, and the polling of
-- blocks. The contracts of the verifiers are parameters, by the number of the call.
pub mod Verifiers
use rif_relay_server.Base.{
  ℕ, Bool, true, false, not, ◌&&◌, Option, none, some, List, [], ◌∷◌, Text, eq_text, ltb,
  if◌then◌else◌,
}
use rif_relay_server.Outcome.{
  Outcome, ok, err, invalid_address, not_started, Action, ◌>>=◌, pure, or_throw,
}
use rif_relay_server.TxManager.{World, call, lift}
use rif_relay_server.Fees.{call_optional}
use rif_relay_server.Server.{Server, ServerContext, on_chain, is_ready}
use rif_relay_server.Server.Requests.{query_verifiers}
use rif_relay_server.Server.Worker.{worker_semaphore}

pub record HubInfo : Type 0 where
  pub relay_worker_address : Text
  pub fees_receiver : Text
  pub relay_manager_address : Text
  pub relay_hub_address : Text
  pub min_gas_price : ℕ
  pub network_id : Option ℕ
  pub chain_id : Option ℕ
  pub ready : Bool
  pub version : Text

-- A record from the address of a verifier to a list of addresses, in order of insertion.
abbrev pub HandlerResponse : Type 0
HandlerResponse = List (Text × List Text)

abbrev pub VerifierResponse : Type 0
VerifierResponse = List Text

-- `accepted_tokens` and `accepted_contracts` are the calls of the verifier's contract.
pub record VerifierContracts : Type 0 where
  pub accepted_tokens : ℕ → Text → Option (List Text)
  pub accepted_contracts : ℕ → Text → Option (List Text)

-- `res[key] = value`.
abbrev pub assign_entry : Text → List Text → HandlerResponse → HandlerResponse
assign_entry key value [] = (key, value) ∷ []
assign_entry key value ((k, old) ∷ es) =
    let rest = assign_entry key value es in
    if eq_text k key then (k, value) ∷ es else (k, old) ∷ rest

module _ {Store : Type 0} (c : ServerContext Store) where
  unfoldable pub get_min_gas_price : Server Store → ℕ
  get_min_gas_price s = s.gas_price

  unfoldable pub is_custom_replenish : Bool
  is_custom_replenish = c.settings.custom_replenish

  unfoldable pub get_chain_info : Text → Server Store → HubInfo
  get_chain_info version s = record {
    relay_worker_address = c.base.worker_address;
    fees_receiver = c.fees_receiver;
    relay_manager_address = c.base.manager_address;
    relay_hub_address = c.base.hub_address;
    min_gas_price = get_min_gas_price s;
    network_id = s.network_id;
    chain_id = s.chain_id;
    ready = is_ready c.settings s;
    version = version;
  }

  unfoldable pub verifier_handler : Server Store → VerifierResponse
  verifier_handler s = s.trusted_verifiers

  -- `getAcceptedTokensFromVerifier` and `getAcceptedContractsFromVerifier`: a call that fails yields
  -- the empty list.
  abbrev pub get_accepted :
      (ℕ → Text → Option (List Text)) → Text → Action (World Store) (List Text)
  get_accepted ask verifier = call_optional (λ n. ask n verifier) []

  -- The loop over the verifiers: the key is computed before the contract is called.
  unfoldable pub accepted_of :
      (ℕ → Text → Option (List Text))
      → List Text
      → HandlerResponse
      → Action (World Store) HandlerResponse
  accepted_of ask [] res = pure res
  accepted_of ask (v ∷ vs) res = do
    key ← or_throw (c.base.get_address v) invalid_address
    accepted ← get_accepted ask v
    accepted_of ask vs (assign_entry key accepted res)

  abbrev pub query_each :
      (ℕ → Text → Option (List Text)) → Outcome (List Text) → Action (Server Store) HandlerResponse
  query_each ask (err e) s = (err e, s)
  query_each ask (ok verifiers) s = on_chain (accepted_of ask verifiers []) s

  unfoldable pub query_accepted :
      (ℕ → Text → Option (List Text)) → Option Text → Action (Server Store) HandlerResponse
  query_accepted ask verifier s = query_each ask (query_verifiers verifier s.trusted_verifiers) s

  unfoldable pub token_handler :
      VerifierContracts → Option Text → Action (Server Store) HandlerResponse
  token_handler contracts verifier = query_accepted contracts.accepted_tokens verifier

  unfoldable pub destination_contract_handler :
      VerifierContracts → Option Text → Action (Server Store) HandlerResponse
  destination_contract_handler contracts verifier =
      query_accepted contracts.accepted_contracts verifier

  -- The timer of the interval handler, that runs if the node is late to answer.
  abbrev pub time_out : Bool → Bool → Server Store → Server Store
  time_out dev_mode late s =
      if late && not dev_mode then record s { last_successful_rounds = 0 } else s

  -- What the promise of the handler comes to: `ok false` for one that never settles.
  abbrev pub settled_as : Outcome (Unit {0}) × Server Store → Outcome Bool × Server Store
  settled_as (ok _, s) = (ok true, s)
  settled_as (err e, s) = (err e, s)

  abbrev pub after_block : Outcome ℕ × Server Store → Outcome Bool × Server Store
  after_block (err e, s) = (err e, record s { last_successful_rounds = 0 })
  after_block (ok block, s) =
      let round = settled_as (worker_semaphore c block s) in
      if ltb s.last_scanned_block block then round else (ok false, s)

  unfoldable pub interval_handler : Bool → Bool → Action (Server Store) Bool
  interval_handler dev_mode late s =
      after_block (on_chain (call c.latest_block) (time_out dev_mode late s))
