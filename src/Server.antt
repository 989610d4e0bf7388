-- ===== src/Server.antt =====
-- src/RelayServer.ts: the state, readiness, and the small operations on it. Log messages are left
-- out; emitted events are counted.
pub mod Replenish
pub mod Worker
pub mod Requests
pub mod Relay
pub mod Queries
pub mod Creation
pub mod Checks
pub mod Trust
pub mod Alerts
pub mod Steady
pub mod AlertRounds
pub mod Refills
pub mod Rounds
pub mod Readiness
use rif_relay_server.Base.{
  ℕ, ◌+◌, Bool, true, false, not, ◌&&◌, ◌||◌, Option, none, some, List, [], ◌∷◌, ◌++◌, Text,
  eq_text, lower, ltb, leb, ◌==◌, get_or, if◌then◌else◌,
}
use rif_relay_server.Outcome.{Outcome, ok, err, no_gas_price, Action, ◌>>=◌, ◌>>◌, pure, throw}
use rif_relay_server.Stored.{relay_call, register_server}
use rif_relay_server.TxStore.{is_action_pending}
use rif_relay_server.TxManager.{World, call}
use rif_relay_server.Amounts.{AmountRequired, amount_required}
use rif_relay_server.Events.{
  EventName, relay_server_registered, relay_workers_added, transaction_relayed,
  transaction_relayed_but_reverted_by_recipient, stake_added, stake_unlocked, stake_withdrawn,
  TypedEvent, latest, get_past_events_for_hub, get_latest_event_data, default_manager_events,
}
use rif_relay_server.Registration.{Context, Registration, on_world}

-- The settings of `app` and `blockchain` that the server reads, and the contracts' addresses.
pub record ServerSettings : Type 0 where
  pub custom_replenish : Bool
  pub request_min_valid_seconds : ℕ
  pub worker_min_balance : ℕ
  pub worker_target_balance : ℕ
  pub manager_min_balance : ℕ
  pub manager_target_balance : ℕ
  pub manager_min_stake : ℕ
  pub initial_block_to_scan : ℕ
  pub registration_block_rate : ℕ
  pub refresh_state_timeout_blocks : ℕ
  pub successful_rounds_for_ready : ℕ
  pub alerted_block_delay : ℕ
  pub trusted_verifiers : List Text
  pub relay_verifier_address : Text
  pub deploy_verifier_address : Text
  pub address_zero : Text

-- `balance_pending` is `getBalance` with the tag, `code` is `getCode`.
pub record ServerContext (Store : Type 0) : Type 0 where
  pub base : Context Store
  pub settings : ServerSettings
  pub balance_pending : ℕ → Text → Option ℕ
  pub code : ℕ → Text → Option Text
  pub chain_id_of : ℕ → Option ℕ
  pub net_version : ℕ → Option ℕ
  pub latest_block : ℕ → Option ℕ
  pub fees_receiver : Text

pub record Server (Store : Type 0) : Type 0 where
  pub registration : Registration Store
  pub last_scanned_block : ℕ
  pub last_refresh_block : ℕ
  pub ready : Bool
  pub last_successful_rounds : ℕ
  pub gas_price : ℕ
  pub worker_semaphore_on : Bool
  pub alerted : Bool
  pub alerted_block : ℕ
  pub initialized : Bool
  pub last_mined_active_transaction : Option TypedEvent
  pub chain_id : Option ℕ
  pub network_id : Option ℕ
  pub trusted_verifiers : List Text
  pub worker_balance_required : AmountRequired
  pub funding_needed : ℕ
  pub replenish_checks : List ℕ

-- `++` on a number of JavaScript: 2^53 is the first that stays as it is.
abbrev pub next_round : ℕ → ℕ
next_round n = if leb 9007199254740992 n then n else n + 1

-- A `Set` of texts, in the order of insertion.
abbrev pub has : Text → List Text → Bool
has a [] = false
has a (b ∷ bs) = let rest = has a bs in if eq_text b a then true else rest

abbrev pub add : Text → List Text → List Text
add a s = if has a s then s else s ++ a ∷ []

abbrev pub add_lowered : List Text → List Text → List Text
add_lowered [] s = s
add_lowered (v ∷ vs) s = add_lowered vs (add (lower v) s)

-- A configured verifier is added unless its address is the zero address.
abbrev pub add_configured : Text → Text → List Text → List Text
add_configured zero address s =
    let added = add (lower address) s in
    if not (eq_text address zero) && not (has (lower address) s) then added else s

unfoldable pub init_trusted_verifiers : ServerSettings → List Text
init_trusted_verifiers c =
    add_configured c.address_zero c.deploy_verifier_address
      (add_configured c.address_zero c.relay_verifier_address (add_lowered c.trusted_verifiers []))

-- `currentBlock - latestTxBlockNumber >= registrationBlockRate`, with -1 for no transaction.
abbrev pub registration_expired : ServerSettings → ℕ → Option TypedEvent → Bool
registration_expired c block none = leb c.registration_block_rate (block + 1)
registration_expired c block (some e) = leb (e.block_number + c.registration_block_rate) block

module _ {Store : Type 0} where
  abbrev pub on_registration :
      {A : Type 0} → Action (Registration Store) A → Action (Server Store) A
  on_registration m s = let (a, r) = m s.registration in (a, record s { registration = r })

  abbrev pub on_chain : {A : Type 0} → Action (World Store) A → Action (Server Store) A
  on_chain m s =
      let (a, w) = m s.registration.world in
      (a, record s { registration = record s.registration { world = w } })

  unfoldable pub is_trusted_verifier : Server Store → Text → Bool
  is_trusted_verifier s verifier = has (lower verifier) s.trusted_verifiers

  unfoldable pub is_ready : ServerSettings → Server Store → Bool
  is_ready c s =
      if ltb s.last_successful_rounds c.successful_rounds_for_ready then false else s.ready

  abbrev pub set_ready_state : Bool → Action (Server Store) (Unit {0})
  set_ready_state b s = (ok tt, record s { ready = b })

  unfoldable pub should_refresh_state : ServerSettings → ℕ → Server Store → Bool
  should_refresh_state c current_block s =
      leb (s.last_refresh_block + c.refresh_state_timeout_blocks) current_block
      || not (is_ready c s)

  -- `handlePastHubEvents`: the last reverted transaction of any raises the alert.
  abbrev pub enter_alert : ℕ → Server Store → Server Store
  enter_alert block s = record s { alerted = true; alerted_block = block }

  abbrev pub handle_hub_event : EventName → ℕ → Server Store → Server Store
  handle_hub_event transaction_relayed_but_reverted_by_recipient block s = enter_alert block s
  handle_hub_event transaction_relayed block s = s
  handle_hub_event relay_server_registered block s = s
  handle_hub_event relay_workers_added block s = s
  handle_hub_event stake_added block s = s
  handle_hub_event stake_unlocked block s = s
  handle_hub_event stake_withdrawn block s = s

  unfoldable pub handle_past_hub_events : ℕ → List TypedEvent → Server Store → Server Store
  handle_past_hub_events block [] s = s
  handle_past_hub_events block (e ∷ es) s =
      handle_past_hub_events block es (handle_hub_event e.event block s)

  -- The alert ends when more blocks have passed than its delay.
  unfoldable pub leave_alert : ServerSettings → ℕ → Server Store → Server Store
  leave_alert c block s =
      if s.alerted && ltb (s.alerted_block + c.alerted_block_delay) block
      then record s { alerted = false }
      else s

-- A new `RegistrationManager`, over the same store and node.
abbrev pub new_registration : {Store : Type 0} → ServerSettings → World Store → Registration Store
new_registration c w = record {
  world = w;
  balance_required = amount_required c.manager_min_balance;
  stake_required = amount_required c.manager_min_stake;
  is_stake_locked = false;
  is_initialized = false;
  owner_address = none;
  relay_data = none;
  last_worker_added = none;
  delayed_events = [];
  unstaked = 0;
}

module _ {Store : Type 0} (c : ServerContext Store) where
  -- `_refreshGasPrice`: the price is kept even if it is the zero that it throws for.
  unfoldable pub refresh_gas_price : Action (Server Store) (Unit {0})
  refresh_gas_price = do
    price ← on_chain (call c.base.env.node.gas_price)
    λ s. (if price == 0 then err no_gas_price else ok tt, record s { gas_price = price })

  unfoldable pub get_all_hub_events_since_last_scan : Action (Server Store) (List TypedEvent)
  get_all_hub_events_since_last_scan s =
      on_chain
        (get_past_events_for_hub c.base.log_node c.base.manager_address
          (record { from_block = some (s.last_scanned_block + 1); to_block = some latest })
          default_manager_events)
        s

  unfoldable pub query_latest_active_event : Action (Server Store) (Option TypedEvent)
  query_latest_active_event = do
    events ← on_chain (
        get_past_events_for_hub c.base.log_node c.base.manager_address
          (record { from_block = some c.settings.initial_block_to_scan; to_block = none })
          default_manager_events)
    pure (get_latest_event_data events)

  abbrev pub set_last_mined : Option TypedEvent → Action (Server Store) (Unit {0})
  set_last_mined e s = (ok tt, record s { last_mined_active_transaction = e })

  -- The last mined event: the latest of the scan, or the known one, or the node's.
  abbrev pub update_from : Option TypedEvent → Option TypedEvent → Action (Server Store) (Unit {0})
  update_from (some e) known = set_last_mined (some e)
  update_from none (some e) = pure tt
  update_from none none = do found ← query_latest_active_event; set_last_mined found

  unfoldable pub update_latest_tx_block_number : List TypedEvent → Action (Server Store) (Unit {0})
  update_latest_tx_block_number events s =
      update_from (get_latest_event_data events) s.last_mined_active_transaction s

  -- `_shouldRegisterAgain`: the second query is made only if the first finds nothing pending.
  unfoldable pub should_register_again : ℕ → Server Store → Outcome Bool
  should_register_again block s =
      let store = s.registration.world.store in
      let expired = registration_expired c.settings block s.last_mined_active_transaction in
      elim (is_action_pending c.base.get_address c.base.env.db relay_call none store) [
        | err e ↦ err e
        | ok true ↦ ok false
        | ok false ↦
            elim (is_action_pending c.base.get_address c.base.env.db register_server none store) [
              | err e ↦ err e
              | ok true ↦ ok false
              | ok false ↦ ok (if c.settings.registration_block_rate == 0 then false else expired)
            ]
      ]
