-- ===== src/Server/Worker.antt =====
-- The rounds of the worker: `_workerSemaphore`, `_worker`, `_handleChanges` and `init`.
use rif_relay_server.Base.{
  ℕ, Bool, true, false, not, ◌&&◌, some, List, [], ◌++◌, codes, Text, eq_text, ltb, leb,
  if◌then◌else◌,
}
use rif_relay_server.Outcome.{
  Outcome, ok, err, older_block, already_initialized, no_relay_hub, Action, ◌>>=◌, ◌>>◌, pure,
  throw,
}
use rif_relay_server.Keys.{SignedTransactionDetails}
use rif_relay_server.TxManager.{call}
use rif_relay_server.TxManager.Boost.{boost_underpriced}
use rif_relay_server.TxManager.Confirm.{remove_confirmed_transactions}
use rif_relay_server.Amounts.{is_satisfied}
use rif_relay_server.Events.{TypedEvent}
use rif_relay_server.Registration.Methods as Methods
use rif_relay_server.Server.{
  Server, ServerContext, on_chain, on_registration, next_round, new_registration,
  init_trusted_verifiers, set_ready_state, should_refresh_state, handle_past_hub_events,
  leave_alert, refresh_gas_price, get_all_hub_events_since_last_scan, update_latest_tx_block_number,
  should_register_again,
}
use rif_relay_server.Server.Replenish.{get_worker_balance, replenish_strategy}

-- `code !== '0x' && code !== '0x00'`.
abbrev pub is_deployed : Text → Bool
is_deployed code = not (eq_text code (codes "0x")) && not (eq_text code (codes "0x00"))

module _ {Store : Type 0} (c : ServerContext Store) where
  -- `_boostStuckPendingTransactions`: the manager's transactions, then the worker's.
  unfoldable pub boost_stuck_pending_transactions :
      ℕ → Action (Server Store) (List (Text × SignedTransactionDetails))
  boost_stuck_pending_transactions block = do
    of_manager ← on_chain (boost_underpriced c.base.env c.base.manager_address block)
    of_worker ← on_chain (boost_underpriced c.base.env c.base.worker_address block)
    pure (of_manager ++ of_worker)

  abbrev pub set_last_scanned_block : ℕ → Action (Server Store) (Unit {0})
  set_last_scanned_block block s = (ok tt, record s { last_scanned_block = block })

  -- The end of `_handleChanges`, on the worker's balance.
  unfoldable pub settle_ready : ℕ → ℕ → List Text → Action (Server Store) (List Text)
  settle_ready block balance hashes s =
      let unready = (set_ready_state false >> pure hashes) s in
      let now_ready = record s { ready = true } in
      if ltb balance c.settings.worker_min_balance
      then unready
      else (ok hashes, leave_alert c.settings block now_ready)

  -- The part for a registered server.
  unfoldable pub handle_registered :
      ℕ → List TypedEvent → List Text → Action (Server Store) (List Text)
  handle_registered block events hashes = do
    λ s. (ok tt, handle_past_hub_events block events s)
    replenished ← replenish_strategy c block
    balance ← get_worker_balance c
    settle_ready block balance (hashes ++ replenished)

  unfoldable pub handle_unregistered : List Text → Action (Server Store) (List Text)
  handle_unregistered hashes = set_ready_state false >> pure hashes

  -- The end of `_handleChanges`, on the answer of `isRegistered`.
  unfoldable pub on_registered :
      Outcome Bool → ℕ → List TypedEvent → List Text → Action (Server Store) (List Text)
  on_registered (err e) block events hashes s = (err e, s)
  on_registered (ok false) block events hashes s = handle_unregistered hashes s
  on_registered (ok true) block events hashes s = handle_registered block events hashes s

  abbrev pub handle_by_registration :
      ℕ → List TypedEvent → List Text → Action (Server Store) (List Text)
  handle_by_registration block events hashes s =
      on_registered (Methods.is_registered c.base s.registration) block events hashes s

  -- The scan itself, up to the update of the last scanned block.
  unfoldable pub scan_changes : ℕ → List TypedEvent → Action (Server Store) (List Text)
  scan_changes block events = do
    update_latest_tx_block_number c events
    again ← λ s. (should_register_again c block s, s)
    hashes ← λ s.
        on_registration (Methods.handle_past_events c.base events s.last_scanned_block block again)
          s
    on_chain (remove_confirmed_transactions c.base.env block)
    boost_stuck_pending_transactions block
    set_last_scanned_block block
    pure hashes

  unfoldable pub handle_changes : ℕ → Action (Server Store) (List Text)
  handle_changes block = do
    events ← get_all_hub_events_since_last_scan c
    hashes ← scan_changes block events
    handle_by_registration block events hashes

  abbrev pub set_trusted_verifiers : Action (Server Store) (Unit {0})
  set_trusted_verifiers s =
      (ok tt, record s { trusted_verifiers = init_trusted_verifiers c.settings })

  abbrev pub set_registration : Action (Server Store) (Unit {0})
  set_registration s =
      (ok tt, record s { registration = new_registration c.settings s.registration.world })

  abbrev pub set_chain : ℕ → ℕ → Action (Server Store) (Unit {0})
  set_chain chain_id network_id s =
      (ok tt, record s { chain_id = some chain_id; network_id = some network_id })

  abbrev pub set_initialized : Action (Server Store) (Unit {0})
  set_initialized s = (ok tt, record s { initialized = true })

  -- `init`; `fatal` ends the process, which is an error here.
  unfoldable pub init : Action (Server Store) (Unit {0})
  init s =
      let first = (do
        set_trusted_verifiers
        code ← on_chain (call (λ n. c.code n c.base.hub_address))
        if is_deployed code then pure tt else throw no_relay_hub
        set_registration
        on_registration (Methods.init c.base c.settings.initial_block_to_scan)
        chain_id ← on_chain (call c.chain_id_of)
        network_id ← on_chain (call c.net_version)
        set_chain chain_id network_id
        on_chain (call c.latest_block)
        set_initialized) in
      if s.initialized then (err already_initialized, s) else first s

  abbrev pub init_if_needed : Action (Server Store) (Unit {0})
  init_if_needed s = if s.initialized then (ok tt, s) else init s

  abbrev pub set_last_refresh_block : ℕ → Action (Server Store) (Unit {0})
  set_last_refresh_block block s = (ok tt, record s { last_refresh_block = block })

  -- The end of `_worker`, on the manager's balance.
  unfoldable pub work_if_funded : ℕ → Action (Server Store) (List Text)
  work_if_funded block s =
      let unready = (set_ready_state false >> pure []) s in
      let work = handle_changes block s in
      if is_satisfied s.registration.balance_required then work else unready

  unfoldable pub refresh_state : ℕ → Action (Server Store) (List Text)
  refresh_state block = do
    set_last_refresh_block block
    refresh_gas_price c
    on_registration (Methods.refresh_balance c.base)
    work_if_funded block

  -- `_worker` once the server is initialized.
  unfoldable pub work_initialized : ℕ → Action (Server Store) (List Text)
  work_initialized block s =
      let refreshed = refresh_state block s in
      if leb block s.last_scanned_block
      then (err older_block, s)
      else (if should_refresh_state c.settings block s then refreshed else (ok [], s))

  unfoldable pub worker : ℕ → Action (Server Store) (List Text)
  worker block = init_if_needed >> work_initialized block

  -- The end of a round: the semaphore goes off on both ways, and a success counts.
  abbrev pub end_round : Outcome (List Text) × Server Store → Outcome (Unit {0}) × Server Store
  end_round (ok hashes, s) = (
    ok tt,
    record s {
      last_successful_rounds = next_round s.last_successful_rounds;
      worker_semaphore_on = false;
    },
  )
  end_round (err e, s) = (err e, record s { worker_semaphore_on = false })

  unfoldable pub worker_semaphore : ℕ → Action (Server Store) (Unit {0})
  worker_semaphore block s =
      let round = end_round (worker block (record s { worker_semaphore_on = true })) in
      if s.worker_semaphore_on then (ok tt, s) else round
