-- ===== src/StoreTests.antt =====
-- Tests and instances of the theorems about the store.
use rif_relay_server.Base.{
  ℕ, Text, ◌≡◌, refl, ◌↔◌, true, false, none, some, [], ◌∷◌, In, IsSorted, codes, lower, to_lower,
}
use rif_relay_server.Stored.{NonceSigner, StoredTransaction, relay_call}
use rif_relay_server.Outcome.{ok, err, unique_violated}
use rif_relay_server.TxStore.Refinement.{put, clear, IsRun, view, run_commands, run_commands-IsRun}
use rif_relay_server.TxStore.Lookups.{get_tx_by_nonce-put_tx}
use rif_relay_server.TxStore.{
  parsed, clear_all, get_tx_by_nonce, put_tx, get_all_by_signer, remove_txs_until_nonce,
  is_action_pending, any_pending, get_all, is_pending, nonce_le,
}
use rif_relay_server.TxStore.Log.{log_db, log_at}
use rif_relay_server.TxStore.Queries.{Stands, get_all_by_signer_lem}
use rif_relay_server.TxStore.Pending.{IsPending, is_action_pending_lem}
use rif_relay_server.Samples.{worker_address, stored_seven}

get_all_by_signer_example :
    IsSorted nonce_le (get_all_by_signer log_db worker_address (stored_seven ∷ []))
    × ((x : StoredTransaction)
        → In x (get_all_by_signer log_db worker_address (stored_seven ∷ []))
          ↔ Stands log_db (λ k. k.signer ≡ lower worker_address) x (stored_seven ∷ []))
get_all_by_signer_example = get_all_by_signer_lem log_db worker_address (stored_seven ∷ [])

removed : remove_txs_until_nonce log_db worker_address 9 (stored_seven ∷ []) ≡ (ok tt, [])
unfolding remove_txs_until_nonce to_lower
removed = refl

pending : is_action_pending some log_db relay_call none (stored_seven ∷ []) ≡ ok true
unfolding is_action_pending any_pending get_all is_pending
pending = refl

is_action_pending_example : (true ≡ true) ↔ (
    (k : NonceSigner) × (x : StoredTransaction) × (log_at k (stored_seven ∷ []) ≡ some x)
    × IsPending some relay_call none x)
is_action_pending_example =
    is_action_pending_lem some log_db relay_call none (stored_seven ∷ []) true pending

abbrev put_seven : StoredTransaction
put_seven = record stored_seven { nonce_signer = none }

puts_seven : put_tx log_db put_seven false [] ≡ (ok tt, stored_seven ∷ [])
unfolding put_tx to_lower
puts_seven = refl

finds_seven : get_tx_by_nonce log_db (codes "0xb2") 7 (stored_seven ∷ []) ≡ ok stored_seven
unfolding to_lower
finds_seven =
    get_tx_by_nonce-put_tx log_db put_seven false [] (stored_seven ∷ []) (codes "0xb2") 7 puts_seven
      refl refl

run_commands-IsRun_example :
    let r = run_commands log_db (put put_seven false ∷ put put_seven false ∷ clear ∷ []) [] in
    IsRun
      (put put_seven false ∷ put put_seven false ∷ clear ∷ [])
      r.0
      (view log_db [])
      (view log_db r.1)
    × ((signer : Text) (n : ℕ)
        → get_tx_by_nonce log_db signer n r.1
          ≡ parsed (view log_db r.1 (record { nonce = n; signer = lower signer })))
run_commands-IsRun_example =
    run_commands-IsRun log_db (put put_seven false ∷ put put_seven false ∷ clear ∷ []) []

-- The second command puts at a key that is taken.
runs :
    run_commands log_db (put put_seven false ∷ put put_seven false ∷ clear ∷ []) []
    ≡ (ok tt ∷ err unique_violated ∷ ok tt ∷ [], [])
unfolding run_commands put_tx clear_all to_lower
runs = refl
