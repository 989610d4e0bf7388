-- ===== src/Registration/Methods.antt =====
-- The methods of `RegistrationManager` that call the node, the hub or the transaction manager.
use rif_relay_server.Base.{
  ℕ, ◌+◌, ◌-◌, ◌*◌, Bool, true, false, not, ◌&&◌, ◌||◌, Option, none, some, List, [], ◌∷◌, ◌++◌,
  Text, eq_text, ltb, if◌then◌else◌,
}
use rif_relay_server.Stored.{ServerAction, add_worker, register_server}
use rif_relay_server.Outcome.{Outcome, ok, err, not_initialized, Action, ◌>>=◌, ◌>>◌, pure}
use rif_relay_server.TxStore.{is_same_address, is_action_pending}
use rif_relay_server.TxManager.{call, attempt_estimate_gas, send_transaction}
use rif_relay_server.Amounts.{is_satisfied, set_current_value}
use rif_relay_server.Events.{
  EventName, relay_server_registered, relay_workers_added, transaction_relayed,
  transaction_relayed_but_reverted_by_recipient, stake_added, stake_unlocked, stake_withdrawn,
  TypedEvent, latest, get_past_events_for_hub, get_latest_event_data,
}
use rif_relay_server.Registration.{
  RelayManagerData, Context, Registration, on_world, settle_stake, single_manager, push_delayed,
  set_relay_data, set_last_worker_added, scan_workers, emit_unstaked, extract_due_pending_events,
  is_worker_valid, transfer_details, hub_details,
}

module _ {Store : Type 0} (c : Context Store) where
  unfoldable pub refresh_balance : Action (Registration Store) (Unit {0})
  refresh_balance = do
    balance ← on_world (call (λ n. c.env.node.balance n c.manager_address))
    λ r. (ok tt, record r { balance_required = set_current_value balance r.balance_required })

  unfoldable pub refresh_stake : Action (Registration Store) (Unit {0})
  refresh_stake = do
    info ← on_world (call (λ n. c.hub.stake_info n c.manager_address))
    λ r. (ok tt, settle_stake info r)

  unfoldable pub get_relay_data : Action (Registration Store) RelayManagerData
  get_relay_data = do
    ds ← on_world (call (λ n. c.hub.relay_info n c.manager_address))
    λ r. (single_manager ds, r)

  -- `isSameAddress(...) && relayData.url === serverUrl`, on the answer of the first.
  abbrev pub url_matches : RelayManagerData → Outcome Bool → Outcome Bool
  url_matches d (err e) = err e
  url_matches d (ok false) = ok false
  url_matches d (ok true) = ok (eq_text d.url c.url)

  -- `isRegistrationValid`.
  unfoldable pub is_registration_correct : Option RelayManagerData → Outcome Bool
  is_registration_correct none = ok false
  is_registration_correct (some d) =
      url_matches d (is_same_address c.get_address d.manager c.manager_address)

  -- `isRegistered`: the registration is looked at first, whatever the stake.
  abbrev pub registered_if : Registration Store → Outcome Bool → Outcome Bool
  registered_if r (err e) = err e
  registered_if r (ok correct) = ok (is_satisfied r.stake_required && r.is_stake_locked && correct)

  unfoldable pub is_registered : Registration Store → Outcome Bool
  is_registered r = registered_if r (is_registration_correct r.relay_data)

  -- The end of a transfer of a balance, on the gas price and the balance.
  unfoldable pub transfer_balance :
      Text → Text → ℕ → ℕ → ℕ → Action (Registration Store) (List Text)
  transfer_balance signer owner gas_price balance current_block =
      let tx_cost = c.min_tx_gas_cost * gas_price in
      let details =
        transfer_details signer owner c.min_tx_gas_cost gas_price (balance - tx_cost)
          current_block in
      let sent = (do
        signed ← on_world (send_transaction c.env details)
        pure (signed.tx_hash ∷ [])) in
      if ltb balance tx_cost then pure [] else sent

  unfoldable pub send_to_owner : Text → ℕ → Option Text → Action (Registration Store) (List Text)
  send_to_owner signer current_block none = pure []
  send_to_owner signer current_block (some []) = pure []
  send_to_owner signer current_block (some (x ∷ xs)) = do
    gas_price ← on_world (call c.env.node.gas_price)
    balance ← on_world (call (λ n. c.env.node.balance n signer))
    transfer_balance signer (x ∷ xs) gas_price balance current_block

  -- `_sendManagerEthBalanceToOwner` and `_sendWorkersEthBalancesToOwner`.
  unfoldable pub send_manager_eth_balance_to_owner : ℕ → Action (Registration Store) (List Text)
  send_manager_eth_balance_to_owner block r =
      send_to_owner c.manager_address block r.owner_address r

  unfoldable pub send_workers_eth_balances_to_owner : ℕ → Action (Registration Store) (List Text)
  send_workers_eth_balances_to_owner block r =
      send_to_owner c.worker_address block r.owner_address r

  unfoldable pub withdraw_all_funds : Bool → ℕ → Action (Registration Store) (List Text)
  withdraw_all_funds withdraw_manager block = do
    from_worker ← send_workers_eth_balances_to_owner block
    from_manager ← if withdraw_manager then send_manager_eth_balance_to_owner block else pure []
    emit_unstaked
    pure (from_worker ++ from_manager)

  unfoldable pub add_relay_worker : ℕ → Action (Registration Store) Text
  add_relay_worker block = do
    method ← on_world (call (λ n. c.hub.add_relay_workers n c.worker_address))
    gas_limit ← on_world (attempt_estimate_gas c.env method c.manager_address)
    signed ← on_world (
        send_transaction c.env
          (hub_details c.manager_address add_worker c.hub_address method gas_limit block))
    pure signed.tx_hash

  -- `attemptRegistration` once the worker is added or pending.
  unfoldable pub register : ℕ → Action (Registration Store) Text
  register block = do
    method ← on_world (call (λ n. c.hub.register_relay_server n c.url))
    gas_limit ← on_world (attempt_estimate_gas c.env method c.manager_address)
    signed ← on_world (
        send_transaction c.env
          (hub_details c.manager_address register_server c.hub_address method gas_limit block))
    pure signed.tx_hash

  unfoldable pub all_prerequisites_ok : Registration Store → Bool
  all_prerequisites_ok r =
      r.is_stake_locked && is_satisfied r.stake_required && is_satisfied r.balance_required

  abbrev pub action_pending : ServerAction → Action (Registration Store) Bool
  action_pending action r = (is_action_pending c.get_address c.env.db action none r.world.store, r)

  unfoldable pub add_worker_if_needed : ℕ → Bool → Action (Registration Store) (List Text)
  add_worker_if_needed block pending r =
      let added = (do tx_hash ← add_relay_worker block; pure (tx_hash ∷ [])) in
      if is_worker_valid r.last_worker_added || pending then (ok [], r) else added r

  unfoldable pub attempt_registration : ℕ → Action (Registration Store) (List Text)
  attempt_registration block r =
      let attempted = (do
        pending ← action_pending add_worker
        added ← add_worker_if_needed block pending
        registered ← register block
        pure (added ++ registered ∷ [])) in
      if all_prerequisites_ok r then attempted r else (ok [], r)

  -- The switch over the stake's events.
  unfoldable pub handle_stake_event :
      EventName → TypedEvent → ℕ → Action (Registration Store) (List Text)
  handle_stake_event stake_added e block = refresh_stake >> pure []
  handle_stake_event stake_unlocked e block = refresh_stake >> push_delayed e >> pure []
  handle_stake_event stake_withdrawn e block = refresh_stake >> withdraw_all_funds true block
  handle_stake_event relay_server_registered e block = pure []
  handle_stake_event relay_workers_added e block = pure []
  handle_stake_event transaction_relayed e block = pure []
  handle_stake_event transaction_relayed_but_reverted_by_recipient e block = pure []

  unfoldable pub handle_stake_events : List TypedEvent → ℕ → Action (Registration Store) (List Text)
  handle_stake_events [] block = pure []
  handle_stake_events (e ∷ es) block =
      let rest = handle_stake_events es block in
      do first ← handle_stake_event e.event e block; later ← rest; pure (first ++ later)

  -- The loop over the due events, which are all `StakeUnlocked`.
  unfoldable pub handle_due_event : EventName → ℕ → Action (Registration Store) (List Text)
  handle_due_event stake_unlocked block = withdraw_all_funds false block
  handle_due_event stake_added block = pure []
  handle_due_event stake_withdrawn block = pure []
  handle_due_event relay_server_registered block = pure []
  handle_due_event relay_workers_added block = pure []
  handle_due_event transaction_relayed block = pure []
  handle_due_event transaction_relayed_but_reverted_by_recipient block = pure []

  unfoldable pub handle_due_events : List TypedEvent → ℕ → Action (Registration Store) (List Text)
  handle_due_events [] block = pure []
  handle_due_events (e ∷ es) block =
      let rest = handle_due_events es block in
      do first ← handle_due_event e.event block; later ← rest; pure (first ++ later)

  -- The end of `handlePastEvents`.
  unfoldable pub register_if_needed : Bool → ℕ → Action (Registration Store) (List Text)
  register_if_needed force block = do
    correct ← λ r. (is_registration_correct r.relay_data, r)
    pending ← action_pending register_server
    if not (pending || correct) || force then attempt_registration block else pure []

  -- `handlePastEvents` from the decoded events on.
  unfoldable pub handle_decoded_events :
      List TypedEvent → List TypedEvent → ℕ → Bool → Action (Registration Store) (List Text)
  handle_decoded_events decoded hub_events block force = do
    staked ← handle_stake_events decoded block
    found ← get_relay_data
    set_relay_data found
    λ r. set_last_worker_added (scan_workers r.last_worker_added hub_events) r
    due ← extract_due_pending_events block
    withdrawn ← handle_due_events due block
    registered ← register_if_needed force block
    pure (staked ++ withdrawn ++ registered)

  unfoldable pub handle_past_events :
      List TypedEvent → ℕ → ℕ → Bool → Action (Registration Store) (List Text)
  handle_past_events hub_events last_scanned_block block force r =
      let handled = (do
        decoded ← on_world (
            get_past_events_for_hub c.log_node c.manager_address
              (record { from_block = some (last_scanned_block + 1); to_block = some latest })
              (stake_added ∷ stake_unlocked ∷ stake_withdrawn ∷ []))
        handle_decoded_events decoded hub_events block force) in
      if r.is_initialized then handled r else (err not_initialized, r)

  abbrev pub query_latest_worker_added_event : ℕ → Action (Registration Store) (Option TypedEvent)
  query_latest_worker_added_event initial_block_to_scan = do
    events ← on_world (
        get_past_events_for_hub c.log_node c.manager_address
          (record { from_block = some initial_block_to_scan; to_block = none })
          (relay_workers_added ∷ []))
    pure (get_latest_event_data events)

  abbrev pub set_initialized : Action (Registration Store) (Unit {0})
  set_initialized r = (ok tt, record r { is_initialized = true })

  abbrev pub last_or_queried :
      Option TypedEvent → ℕ → Action (Registration Store) (Option TypedEvent)
  last_or_queried (some e) block = pure (some e)
  last_or_queried none block = query_latest_worker_added_event block

  -- `init`.
  unfoldable pub init : ℕ → Action (Registration Store) (Unit {0})
  init initial_block_to_scan = do
    last ← λ r. last_or_queried r.last_worker_added initial_block_to_scan r
    set_last_worker_added last
    set_initialized
