-- ===== src/ServerTests.antt =====
-- Tests and instances of the theorems about the events, the registration manager, the server and
-- the key manager.
use rif_relay_server.Base.{
  Text, codes, arith, ℕ, ◌+◌, ◌≡◌, ◌≤◌, ◌⊎◌, ◌↔◌, refl, true, false, some, List, [], ◌∷◌, In, All,
  lower, to_lower,
}
use rif_relay_server.Outcome.{Error, ok, err, ◌>>=◌}
use rif_relay_server.Keys.{is_signer, sign_transaction, get_wallet}
use rif_relay_server.Stored.{create_stored_transaction}
use rif_relay_server.Registration.{Registration}
use rif_relay_server.Registration.Attempts.{HasPrerequisites, IsAttempted, attempt_registration_lem}
use rif_relay_server.ServerSamples.{registering_context, funded_registration}
use rif_relay_server.TxStore as Store
use rif_relay_server.TxStore.Log.{Log}
use rif_relay_server.TxManager as Manager
use rif_relay_server.TxManager.Boost as Boost
use rif_relay_server.TxManager.Confirm as Confirm
use rif_relay_server.Amounts as Amounts
use rif_relay_server.Events as Events
use rif_relay_server.Events.{
  TypedEvent, Filter, BlockRange, split_range, perform_log_requests, get_latest_event_data,
  is_second_event_later, relay_workers_added, transaction_relayed,
  transaction_relayed_but_reverted_by_recipient, stake_unlocked,
}
use rif_relay_server.Events.Ranges.{IsWithin, IsChained, split_range_lem}
use rif_relay_server.Events.Logs.{IsAnswered, mem-perform_log_requests}
use rif_relay_server.Registration.{scan_workers, extract_due_pending_events}
use rif_relay_server.Registration.Methods as Methods
use rif_relay_server.Registration.Workers.{IsLatest, scan_workers-IsLatest}
use rif_relay_server.Registration.Registered.{IsOurs, is_registered_lem}
use rif_relay_server.Server as Server
use rif_relay_server.Server.{enter_alert, handle_past_hub_events, leave_alert}
use rif_relay_server.Server.Trust.{IsConfigured, is_trusted_verifier_lem}
use rif_relay_server.Server.Refills.{IsRefilled, IsUnfunded, pending_refill, replenish_from_lem}
use rif_relay_server.Server.Replenish as Replenish
use rif_relay_server.Server.Worker as Worker
use rif_relay_server.Server.Worker.{handle_changes, worker_semaphore}
use rif_relay_server.Server.Readiness.{FoundRegistered, IsWorkerFunded, handle_changes-ready}
use rif_relay_server.Server.Rounds.{worker_semaphore_lem}
use rif_relay_server.ServerSamples.{
  event_at, slow_logs, some_filter, sample_context, sample_registration, sample_server_settings,
  sample_server_context, sample_server,
}

split_range_example :
    (rs : List BlockRange) × (split_range 1 130 50 ≡ ok rs)
    × All (IsWithin 1 130 50) rs
    × ((b : ℕ) → 1 ≤ b → b ≤ 130 → (r : BlockRange) × In r rs × (r.from ≤ b) × (b ≤ r.to))
    × IsChained rs
    × (1 + 50 ≤ 130 → In (record { from = 1; to = 1 + 50 }) rs)
split_range_example = split_range_lem 1 130 50 (omega arith) (omega arith)

splits :
    split_range 1 130 50
    ≡ ok (
        record { from = 1; to = 51 }
        ∷ record { from = 51; to = 101 }
        ∷ record { from = 101; to = 130 }
        ∷ [])
unfolding split_range
splits = refl

mem-perform_log_requests_example :
    In (event_at stake_unlocked 90 1) (perform_log_requests slow_logs 0 (some_filter ∷ [])) ↔ (
      (f : Filter) × (logs : List TypedEvent) × In f (some_filter ∷ [])
      × IsAnswered (slow_logs.get_logs 0 f) 1 4 logs
      × In (event_at stake_unlocked 90 1) logs)
mem-perform_log_requests_example =
    mem-perform_log_requests slow_logs 0 (some_filter ∷ []) (event_at stake_unlocked 90 1)

abbrev three_events : List TypedEvent
three_events =
    event_at relay_workers_added 10 2
    ∷ event_at relay_workers_added 12 1
    ∷ event_at transaction_relayed 12 3
    ∷ []

latest_is_last : get_latest_event_data three_events ≡ some (event_at transaction_relayed 12 3)
unfolding get_latest_event_data
latest_is_last = refl

scans_workers :
    scan_workers (some (event_at relay_workers_added 10 2)) three_events
    ≡ some (event_at relay_workers_added 12 1)
unfolding scan_workers is_second_event_later
scans_workers = refl

scan_workers-IsLatest_example :
    IsLatest
      (some (event_at relay_workers_added 10 2))
      three_events
      (event_at relay_workers_added 12 1)
scan_workers-IsLatest_example =
    scan_workers-IsLatest (some (event_at relay_workers_added 10 2)) three_events
      (event_at relay_workers_added 12 1) scans_workers

is_registered_example :
    (Methods.is_registered sample_context sample_registration ≡ ok true)
    ↔ ((30 ≤ 40) × (true ≡ true) × IsOurs sample_context sample_registration.relay_data)
is_registered_example = is_registered_lem sample_context sample_registration

abbrev trusting_server : Server.Server Log
trusting_server = record sample_server {
  trusted_verifiers = Server.init_trusted_verifiers sample_server_settings;
}

is_trusted_verifier_example :
    (Server.is_trusted_verifier trusting_server (codes "0xe5") ≡ true)
    ↔ IsConfigured sample_server_settings (lower (codes "0xe5"))
is_trusted_verifier_example =
    is_trusted_verifier_lem sample_server_settings trusting_server (codes "0xe5") refl

replenish_from_example :
    IsRefilled sample_server_context 200 99 sample_server
    ⊎ (IsUnfunded sample_server_context 200 99 sample_server
        ⊎ (((Replenish.replenish_from sample_server_context 200 99 sample_server
                ≡ (ok [], sample_server))
              × ((10 ≤ 5) ⊎ (pending_refill sample_server_context sample_server ≡ ok true)))
            ⊎ ((e : Error) × (pending_refill sample_server_context sample_server ≡ err e)
                × (Replenish.replenish_from sample_server_context 200 99 sample_server
                    ≡ (err e, sample_server)))))
replenish_from_example = replenish_from_lem sample_server_context 200 99 sample_server

worker_semaphore_example :
    ((false ≡ true)
      × (worker_semaphore sample_server_context 99 sample_server ≡ (ok tt, sample_server)))
    ⊎ ((false ≡ false)
        × ((worker_semaphore sample_server_context 99 sample_server).1.worker_semaphore_on ≡ false)
        × (90 ≤ (worker_semaphore sample_server_context 99 sample_server).1.last_scanned_block))
worker_semaphore_example = worker_semaphore_lem sample_server_context 99 sample_server

-- The operations of a round, open.
round : Unit {0}
unfolding ◌>>=◌ to_lower Manager.call Store.get_all Store.get_all_by_signer Store.is_action_pending
    Store.any_pending Store.is_pending Store.is_same_address Boost.boost_underpriced
    Boost.boost_sorted Confirm.remove_confirmed_transactions Confirm.confirm_each Events.split_range
    Events.filters_to Events.get_log_filters Events.get_past_events_for_hub
    Events.get_latest_event_data scan_workers extract_due_pending_events Methods.refresh_stake
    Methods.get_relay_data Methods.is_registration_correct Methods.is_registered
    Methods.handle_stake_events Methods.handle_due_events Methods.register_if_needed
    Methods.handle_decoded_events Methods.handle_past_events
    Server.get_all_hub_events_since_last_scan Server.query_latest_active_event
    Server.update_latest_tx_block_number Server.should_register_again handle_past_hub_events
    leave_alert Replenish.get_manager_balance Replenish.get_worker_balance
    Replenish.refill_unless_pending Replenish.replenish_from Replenish.default_replenish_function
    Replenish.replenish_strategy Worker.boost_stuck_pending_transactions Worker.settle_ready
    Worker.handle_registered Worker.handle_unregistered Worker.on_registered Worker.scan_changes
    handle_changes
round = tt

abbrev round_end : Server.Server Log
round_end = (handle_changes sample_server_context 99 sample_server).1

rounds : handle_changes sample_server_context 99 sample_server ≡ (ok [], round_end)
unfolding round Amounts.set_current_value
rounds = refl

ready_after : round_end.ready ≡ true
unfolding round Amounts.set_current_value
ready_after = refl

calm_after : round_end.alerted ≡ false
unfolding round Amounts.set_current_value
calm_after = refl

handle_changes-ready_example :
    FoundRegistered sample_server_context 99 sample_server × IsWorkerFunded sample_server_context
handle_changes-ready_example =
    handle_changes-ready sample_server_context 99 sample_server round_end [] rounds ready_after

abbrev registered_hashes : List Text
registered_hashes = (35 ∷ 1 ∷ 7 ∷ 60 ∷ []) ∷ []

abbrev registered_end : Registration Log
registered_end = (Methods.attempt_registration registering_context 99 funded_registration).1

registers :
    Methods.attempt_registration registering_context 99 funded_registration
    ≡ (ok registered_hashes, registered_end)
unfolding round Methods.attempt_registration Methods.all_prerequisites_ok
    Methods.add_worker_if_needed Methods.register Manager.attempt_estimate_gas
    Manager.send_transaction Manager.prepare_transaction Manager.prepare_at Manager.record_signed
    Manager.broadcast_transaction Manager.check_hash Manager.poll_nonce Manager.settle_nonce
    sign_transaction get_wallet is_signer Store.put_tx create_stored_transaction
registers = refl

attempt_registration_example :
    ((HasPrerequisites registering_context funded_registration → ⊥)
      × (registered_hashes ≡ [])
      × (registered_end ≡ funded_registration))
    ⊎ (HasPrerequisites registering_context funded_registration
        × IsAttempted registering_context 99 funded_registration registered_end registered_hashes)
attempt_registration_example =
    attempt_registration_lem registering_context 99 funded_registration registered_end
      registered_hashes registers
