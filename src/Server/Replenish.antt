-- ===== src/Server/Replenish.antt =====
-- src/ReplenishFunction.ts and src/events/checkReplenish.ts.
use rif_relay_server.Base.{
  ℕ, ◌+◌, Bool, true, false, not, ◌&&◌, none, some, List, [], ◌∷◌, Text, ltb, if◌then◌else◌,
}
use rif_relay_server.Base.Int.{ℤ, sub_ℕ, ltb_ℤ}
use rif_relay_server.Stored.{value_transfer}
use rif_relay_server.Outcome.{
  Outcome, ok, err, no_custom_replenish, Action, ◌>>=◌, ◌>>◌, pure, throw,
}
use rif_relay_server.TxStore.{is_action_pending}
use rif_relay_server.TxManager.{SendTransactionDetails, call, send_transaction}
use rif_relay_server.Amounts.{is_satisfied, set_current_value}
use rif_relay_server.Server.{Server, ServerContext, on_chain}

abbrev pub refill_details : Text → Text → ℤ → ℕ → ℕ → SendTransactionDetails
refill_details manager worker refill gas_limit current_block = record {
  signer = manager;
  server_action = value_transfer;
  method = none;
  destination = worker;
  value = some refill;
  gas_limit = gas_limit;
  gas_price = none;
  creation_block_number = current_block;
}

module _ {Store : Type 0} (c : ServerContext Store) where
  unfoldable pub get_manager_balance : Action (Server Store) ℕ
  get_manager_balance = on_chain (call (λ n. c.balance_pending n c.base.manager_address))

  unfoldable pub get_worker_balance : Action (Server Store) ℕ
  get_worker_balance = on_chain (call (λ n. c.balance_pending n c.base.worker_address))

  abbrev pub set_worker_balance : ℕ → Action (Server Store) (Unit {0})
  set_worker_balance balance s = (
    ok tt,
    record s { worker_balance_required = set_current_value balance s.worker_balance_required },
  )

  -- `workerTargetBalance.sub(currentValue)`, which may be negative.
  abbrev pub refill_of : Server Store → ℤ
  refill_of s = sub_ℕ c.settings.worker_target_balance s.worker_balance_required.current_value

  -- `refill.lt(managerBalance.sub(managerMinBalance))`.
  abbrev pub can_refill : ℕ → Server Store → Bool
  can_refill manager_balance s =
      ltb_ℤ (refill_of s) (sub_ℕ manager_balance c.settings.manager_min_balance)

  unfoldable pub send_refill : ℕ → ℤ → Action (Server Store) (List Text)
  send_refill block refill = do
    signed ← on_chain (
        send_transaction c.base.env (
          refill_details c.base.manager_address c.base.worker_address refill c.base.min_tx_gas_cost
            block))
    pure (signed.tx_hash ∷ [])

  abbrev pub emit_funding_needed : Action (Server Store) (List Text)
  emit_funding_needed s = (ok [], record s { funding_needed = s.funding_needed + 1 })

  unfoldable pub refill_worker : ℕ → ℕ → Action (Server Store) (List Text)
  refill_worker manager_balance block s =
      let sent = send_refill block (refill_of s) s in
      let unfunded = emit_funding_needed s in
      if can_refill manager_balance s then sent else unfunded

  -- `mustReplenishWorker && !isReplenishPendingForWorker`, on the answer of the store.
  unfoldable pub refill_unless_pending :
      Outcome Bool → Bool → ℕ → ℕ → Action (Server Store) (List Text)
  refill_unless_pending (err e) must manager_balance block s = (err e, s)
  refill_unless_pending (ok true) must manager_balance block s = (ok [], s)
  refill_unless_pending (ok false) must manager_balance block s =
      let refilled = refill_worker manager_balance block s in if must then refilled else (ok [], s)

  -- From the balances on.
  unfoldable pub replenish_from : ℕ → ℕ → Action (Server Store) (List Text)
  replenish_from manager_balance block s =
      let satisfied = is_satisfied s.worker_balance_required in
      let pending =
        is_action_pending c.base.get_address c.base.env.db value_transfer
          (some c.base.worker_address) s.registration.world.store in
      let refilled = refill_unless_pending pending (not satisfied) manager_balance block s in
      if ltb c.settings.manager_target_balance manager_balance && satisfied
      then (ok [], s)
      else refilled

  unfoldable pub default_replenish_function : ℕ → Action (Server Store) (List Text)
  default_replenish_function block = do
    manager_balance ← get_manager_balance
    worker_balance ← get_worker_balance
    set_worker_balance worker_balance
    replenish_from manager_balance block

  unfoldable pub replenish_strategy : ℕ → Action (Server Store) (List Text)
  replenish_strategy block =
      if c.settings.custom_replenish
      then throw no_custom_replenish
      else default_replenish_function block

  -- The handler of the event that a relayed transaction emits: an error is only logged.
  unfoldable pub check_replenish : ℕ → Action (Server Store) (Unit {0})
  check_replenish block s = let (r, t) = replenish_strategy block s in (ok tt, t)
