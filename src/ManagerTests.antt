-- ===== src/ManagerTests.antt =====
-- Tests and instances of the theorems about the transaction manager.
use rif_relay_server.Base.{
  get_or, ◌++◌, ℕ, ◌≡◌, ◌≤◌, ◌⊎◌, refl, true, none, some, List, [], ◌∷◌, Text, to_lower, ltb,
}
use rif_relay_server.Base.Int.{pos}
use rif_relay_server.Stored.{PopulatedTransaction, create_stored_transaction}
use rif_relay_server.Outcome.{ok, ◌>>=◌}
use rif_relay_server.Keys.{SignedTransactionDetails, sign_transaction, get_wallet, is_signer}
use rif_relay_server.TxStore.{put_tx, get_all, get_all_by_signer, remove_txs_until_nonce}
use rif_relay_server.TxStore.Log.{Log, log_at, log_insert_free}
use rif_relay_server.TxManager.{
  World, call, increment_nonce, poll_nonce, settle_nonce, send_transaction, prepare_transaction,
  prepare_at, record_signed, broadcast_transaction, check_hash, resend_request, resend_transaction,
  resolve_new_gas_price, update_transaction_with_attempt, update_transaction_with_mined_block,
  tx_to_sign, first_metadata,
}
use rif_relay_server.TxManager.Sending.{Sent, send_transaction-Sent}
use rif_relay_server.TxManager.Recorded.{IsRecorded, send_transaction-IsRecorded}
use rif_relay_server.TxManager.Boost.{resend_each, boost_from, boost_sorted, boost_underpriced}
use rif_relay_server.TxManager.Boosting.{
  Boosted, Untouched, resolve_new_gas_price_lem, resend_request-create_stored_transaction,
  boost_underpriced-Boosted, boost_from-nonce_zero,
}
use rif_relay_server.TxManager.Confirm.{
  settle_receipt, on_block, on_receipt, confirm_one, confirm_each, remove_confirmed_transactions,
}
use rif_relay_server.TxManager.Confirming.{IsConfirmed, remove_confirmed_transactions-IsConfirmed}
use rif_relay_server.TxManager.Mutex.{
  idle, entered, polled, committed, System, set_phase, acquire, poll_inside, commit, release, Reach,
  here, next, Unique,
}
use rif_relay_server.TxManager.Mutex.Safety.{Reach-Unique}
use rif_relay_server.TxManager.Returning.{IsWorking, send_transaction_returns}
use rif_relay_server.Samples.{
  sample_env, sample_settings, empty_world, world_seven, worker_address, worker_seven, stored_seven,
  relay_details,
}

-- The operations, open.
manager : Unit {0}
unfolding call ◌>>=◌ to_lower poll_nonce settle_nonce send_transaction prepare_transaction
    prepare_at record_signed broadcast_transaction check_hash resend_request resend_transaction
    resolve_new_gas_price update_transaction_with_attempt update_transaction_with_mined_block
    sign_transaction get_wallet is_signer put_tx get_all get_all_by_signer remove_txs_until_nonce
    create_stored_transaction resend_each boost_from boost_sorted boost_underpriced settle_receipt
    on_block on_receipt confirm_one confirm_each remove_confirmed_transactions
manager = tt

abbrev signed_seven : SignedTransactionDetails
signed_seven = record { tx_hash = 35 ∷ 2 ∷ 7 ∷ 60 ∷ []; signed_tx = 2 ∷ 7 ∷ 60 ∷ [] }

abbrev sent_world : World Log
sent_world = (send_transaction sample_env relay_details empty_world).1

sends : send_transaction sample_env relay_details empty_world ≡ (ok signed_seven, sent_world)
unfolding manager
sends = refl

stores : sent_world.store ≡ stored_seven ∷ []
unfolding manager
stores = refl

send_transaction-Sent_example : Sent sample_env relay_details empty_world sent_world signed_seven
send_transaction-Sent_example =
    send_transaction-Sent sample_env relay_details empty_world sent_world signed_seven sends

send_transaction-IsRecorded_example : IsRecorded sample_env relay_details empty_world sent_world
send_transaction-IsRecorded_example =
    send_transaction-IsRecorded sample_env relay_details empty_world

resolve_new_gas_price_example :
    (100 ≤ 100)
    × (100 ≤ 120)
    × ((◌≡◌ {A = ℕ} 100 120) ⊎ (◌≡◌ {A = ℕ} 100 100))
    × (true ≡ ltb 100 120)
unfolding manager
resolve_new_gas_price_example = resolve_new_gas_price_lem sample_settings (some 60)

abbrev funding : PopulatedTransaction
funding = tx_to_sign (record relay_details { value = some (pos 9) }) 60 7

resend_request_example :
    resend_request (create_stored_transaction funding (first_metadata relay_details (5 ∷ []))) 100
    ≡ record funding { gas_price = some 100; value = none }
resend_request_example =
    resend_request-create_stored_transaction funding (first_metadata relay_details (5 ∷ [])) 100

abbrev boosted_seven : List (Text × SignedTransactionDetails)
boosted_seven =
    (stored_seven.tx_id, record { tx_hash = 35 ∷ 2 ∷ 7 ∷ 100 ∷ []; signed_tx = 2 ∷ 7 ∷ 100 ∷ [] })
    ∷ []

abbrev boosted_world : World Log
boosted_world = (boost_underpriced sample_env worker_address 80 world_seven).1

boosts :
    boost_underpriced sample_env worker_address 80 world_seven ≡ (ok boosted_seven, boosted_world)
unfolding manager
boosts = refl

boost_underpriced-Boosted_example :
    Untouched sample_env world_seven boosted_world boosted_seven
    ⊎ Boosted sample_env worker_address 80 world_seven boosted_world boosted_seven
boost_underpriced-Boosted_example =
    boost_underpriced-Boosted sample_env worker_address 80 world_seven boosted_world boosted_seven
      boosts

boost_from-nonce_zero_example :
    boost_from sample_env (record stored_seven { nonce = some 0 }) [] 80 5
    ≡ boost_from sample_env (record stored_seven { nonce = some 0 }) [] 80 0
boost_from-nonce_zero_example =
    boost_from-nonce_zero sample_env (record stored_seven { nonce = some 0 }) [] 80 5 0 refl

confirmed :
    log_at worker_seven (remove_confirmed_transactions sample_env 200 world_seven).1.store ≡ none
unfolding manager
confirmed = refl

unconfirmed :
    log_at worker_seven (remove_confirmed_transactions sample_env 101 world_seven).1.store
    ≡ some (record stored_seven { mined_block_number = some 90 })
unfolding manager
unconfirmed = refl

remove_confirmed_transactions-IsConfirmed_example : IsConfirmed sample_env 200 worker_seven
remove_confirmed_transactions-IsConfirmed_example =
    remove_confirmed_transactions-IsConfirmed sample_env 200 worker_seven world_seven
      (λ e. let f : some stored_seven ≡ none = e in cc) confirmed

-- Two tasks send for one signer, one after the other.
abbrev idle_system : System Log
idle_system = record { world = empty_world; phase = λ i. idle; mutex = none; issued = [] }

abbrev first_polled : World Log
first_polled = (settle_nonce {Store = Log} worker_address 7 empty_world).1

polls : settle_nonce worker_address 7 empty_world ≡ (ok 7, first_polled)
unfolding manager
polls = refl

abbrev first_counted : World Log
first_counted = (increment_nonce worker_address first_polled).1

abbrev second_polled : World Log
second_polled = (settle_nonce {Store = Log} worker_address 7 first_counted).1

polls_again : settle_nonce worker_address 7 first_counted ≡ (ok 8, second_polled)
unfolding manager
polls_again = refl

-- Task 0 signs with nonce 7 and leaves; task 1 polls the same answer, and signs with 8.
abbrev finish : System Log
finish = record {
  world = (increment_nonce worker_address second_polled).1;
  phase =
      set_phase
        (set_phase
          (set_phase
            (set_phase
              (set_phase
                (set_phase (set_phase (λ i. idle) 0 (entered worker_address)) 0
                  (polled worker_address 7))
                0 (committed worker_address 7))
              0 idle)
            1 (entered worker_address))
          1 (polled worker_address 8))
        1 (committed worker_address 8);
  mutex = some 1;
  issued = (worker_address, 8) ∷ (worker_address, 7) ∷ [];
}

two_sends : Reach idle_system finish
two_sends =
    next
      (next
        (next
          (next
            (next
              (next (next here (acquire 0 worker_address refl refl))
                (poll_inside 0 worker_address 7 7 first_polled refl polls))
              (commit 0 worker_address 7 refl))
            (release 0 tt))
          (acquire 1 worker_address refl refl))
        (poll_inside 1 worker_address 7 8 second_polled refl polls_again))
      (commit 1 worker_address 8 refl)

Reach-Unique_example : Unique finish.issued
Reach-Unique_example = Reach-Unique idle_system finish (λ i. refl) refl two_sends

works : IsWorking sample_env relay_details empty_world
unfolding is_signer
works = record {
  price = 60;
  priced = refl;
  count = 7;
  counted = refl;
  key = 2 ∷ [];
  managed = refl;
  signs = λ tx. (2 ∷ get_or tx.nonce 0 ∷ get_or tx.gas_price 0 ∷ [], refl);
  hashes = λ raw. refl;
  free = λ n h. refl;
  inserts = λ x k f g. (x ∷ [], log_insert_free x k [] f g);
  sends = λ n raw. refl;
}

send_transaction_returns_example :
    (signed : SignedTransactionDetails) × (v : World Log) × (send_transaction sample_env
        relay_details empty_world
      ≡ (ok signed, v))
    × (v.broadcast ≡ [] ++ signed.signed_tx ∷ [])
send_transaction_returns_example =
    send_transaction_returns sample_env relay_details empty_world works
