-- ===== src/Server/Rounds.antt =====
-- The rounds of the worker: the semaphore, and the blocks scanned.
use rif_relay_server.Base.{
  ℕ, ◌≡◌, ◌≤◌, ◌⊎◌, inl, inr, refl, Bool, true, false, Option, none, some, List, [], Text, arith,
  Bool-cases, leb, ltb, if◌then◌else◌,
}
use rif_relay_server.Outcome.{Outcome, ok, err, Action, ◌>>=◌, pure, bind-inv}
use rif_relay_server.Events.{TypedEvent, get_latest_event_data}
use rif_relay_server.Registration.Methods as Methods
use rif_relay_server.Server.{
  Server, ServerContext, refresh_gas_price, get_all_hub_events_since_last_scan,
  query_latest_active_event, update_from, update_latest_tx_block_number, handle_past_hub_events,
  leave_alert,
}
use rif_relay_server.Server.Replenish.{
  get_manager_balance, get_worker_balance, replenish_from, default_replenish_function,
  replenish_strategy,
}
use rif_relay_server.Server.Refills.{replenish_from_lem}
use rif_relay_server.Server.Alerts.{handle_past_hub_events_lem}
use rif_relay_server.Server.Worker.{
  is_deployed, boost_stuck_pending_transactions, settle_ready, handle_registered,
  handle_unregistered, on_registered, scan_changes, handle_changes, init, init_if_needed,
  work_if_funded, refresh_state, work_initialized, worker, worker_semaphore, end_round,
}

module _ {Store : Type 0} (c : ServerContext Store) (lo : ℕ) where
  -- The action leaves no last scanned block below `lo`, if it finds none.
  abbrev Keeps : {A : Type 0} → Action (Server Store) A → Type 0
  Keeps m = (s : Server Store) → lo ≤ s.last_scanned_block → lo ≤ (m s).1.last_scanned_block

  >>=-Keeps :
      {A B : Type 0} (m : Action (Server Store) A) (f : A → Action (Server Store) B)
      → Keeps m
      → ((a : A) → Keeps (f a))
      → Keeps (m >>= f)
  >>=-Keeps m f hm hf s h =
      bind-inv (λ t. lo ≤ t.last_scanned_block) m f s (hm s h) (λ a t e k. hf a t k)

  refresh_gas_price-Keeps : Keeps (refresh_gas_price c)
  unfolding refresh_gas_price
  refresh_gas_price-Keeps = >>=-Keeps _ _ (λ s h. h) (λ a s h. h)

  query-Keeps : Keeps (query_latest_active_event c)
  unfolding query_latest_active_event
  query-Keeps = >>=-Keeps _ _ (λ s h. h) (λ a s h. h)

  update_from-Keeps : (e f : Option TypedEvent) → Keeps (update_from c e f)
  update_from-Keeps (some e) f s h = h
  update_from-Keeps none (some f) s h = h
  update_from-Keeps none none s h = >>=-Keeps _ _ query-Keeps (λ a s h. h) s h

  update-Keeps : (es : List TypedEvent) → Keeps (update_latest_tx_block_number c es)
  unfolding update_latest_tx_block_number
  update-Keeps es s h =
      update_from-Keeps (get_latest_event_data es) s.last_mined_active_transaction s h

  replenish_from-Keeps : (b block : ℕ) → Keeps (replenish_from c b block)
  replenish_from-Keeps b block s h = elim (replenish_from_lem c b block s) [
    | inl r ↦ elim r.sent [
      | inl (_, _, _, left, _) ↦ rw left h
      | inr (_, _, _, left, _) ↦ rw left h
    ]
    | inr (inl u) ↦ rw u.told h
    | inr (inr (inl (e, _))) ↦ rw e h
    | inr (inr (inr (x, _, e))) ↦ rw e h
  ]

  -- A choice of two results, both of which keep the bound.
  if_keeps :
      {A : Type 0} (b : Bool) (x y : Outcome A × Server Store)
      → lo ≤ x.1.last_scanned_block
      → lo ≤ y.1.last_scanned_block
      → lo ≤ (if b then x else y).1.last_scanned_block
  if_keeps true x y h k = h
  if_keeps false x y h k = k

  if-Keeps :
      {A : Type 0} (b : Bool) (m n : Action (Server Store) A)
      → Keeps m
      → Keeps n
      → Keeps (if b then m else n)
  if-Keeps true m n h k = h
  if-Keeps false m n h k = k

  get_manager_balance-Keeps : Keeps (get_manager_balance c)
  unfolding get_manager_balance
  get_manager_balance-Keeps s h = h

  get_worker_balance-Keeps : Keeps (get_worker_balance c)
  unfolding get_worker_balance
  get_worker_balance-Keeps s h = h

  default_replenish-Keeps : (block : ℕ) → Keeps (default_replenish_function c block)
  unfolding default_replenish_function
  default_replenish-Keeps block = >>=-Keeps _ _ get_manager_balance-Keeps (λ a.
      >>=-Keeps _ _ get_worker_balance-Keeps
        (λ b. >>=-Keeps _ _ (λ s h. h) (λ _. replenish_from-Keeps a block)))

  replenish-Keeps : (block : ℕ) → Keeps (replenish_strategy c block)
  unfolding replenish_strategy
  replenish-Keeps block =
      if-Keeps c.settings.custom_replenish _ _ (λ s h. h) (default_replenish-Keeps block)

  boost-Keeps : (block : ℕ) → Keeps (boost_stuck_pending_transactions c block)
  unfolding boost_stuck_pending_transactions
  boost-Keeps block = >>=-Keeps _ _ (λ s h. h) (λ a. >>=-Keeps _ _ (λ s h. h) (λ b s h. h))

  leave_alert-Keeps :
      (block : ℕ) (s : Server Store)
      → lo ≤ s.last_scanned_block
      → lo ≤ (leave_alert c.settings block s).last_scanned_block
  unfolding leave_alert
  leave_alert-Keeps block s h = choose _
    where
      choose : (b : Bool) → lo ≤ (if b then record s { alerted = false } else s).last_scanned_block
      choose true = h
      choose false = h

  past_events-Keeps :
      (block : ℕ) (es : List TypedEvent) (s : Server Store)
      → lo ≤ s.last_scanned_block
      → lo ≤ (handle_past_hub_events block es s).last_scanned_block
  past_events-Keeps block es s h = elim (handle_past_hub_events_lem block es s) [
    | inl (_, e) ↦ rw e h
    | inr (_, e) ↦ rw e h
  ]

  unregistered-Keeps : (hashes : List Text) → Keeps (handle_unregistered c hashes)
  unfolding handle_unregistered
  unregistered-Keeps hashes = >>=-Keeps _ _ (λ s h. h) (λ a s h. h)

  settle_ready-Keeps : (block b : ℕ) (hashes : List Text) → Keeps (settle_ready c block b hashes)
  unfolding settle_ready
  settle_ready-Keeps block b hashes s h =
      if_keeps (ltb b c.settings.worker_min_balance) _ _
        (>>=-Keeps (λ t. (ok tt, record t { ready = false })) (λ _. pure hashes) (λ s h. h)
          (λ a s h. h) s h)
        (leave_alert-Keeps block (record s { ready = true }) h)

  registered-Keeps :
      (block : ℕ) (es : List TypedEvent) (hashes : List Text)
      → Keeps (handle_registered c block es hashes)
  unfolding handle_registered
  registered-Keeps block es hashes = >>=-Keeps _ _ (past_events-Keeps block es) (λ _.
      >>=-Keeps _ _ (replenish-Keeps block)
        (λ a. >>=-Keeps _ _ get_worker_balance-Keeps (λ b. settle_ready-Keeps block b _)))

  on_registered-Keeps :
      (answer : Outcome Bool) (block : ℕ) (es : List TypedEvent) (hashes : List Text)
      → Keeps (on_registered c answer block es hashes)
  unfolding on_registered
  on_registered-Keeps (err e) block es hashes s h = h
  on_registered-Keeps (ok false) block es hashes s h = unregistered-Keeps hashes s h
  on_registered-Keeps (ok true) block es hashes s h = registered-Keeps block es hashes s h

  scan_changes-Keeps :
      (block : ℕ) (es : List TypedEvent) → lo ≤ block → Keeps (scan_changes c block es)
  unfolding scan_changes
  scan_changes-Keeps block es le = >>=-Keeps _ _ (update-Keeps es) (λ _.
      >>=-Keeps _ _ (λ s h. h)
        (λ again.
          >>=-Keeps _ _ (λ s h. h)
            (λ hashes.
              >>=-Keeps _ _ (λ s h. h)
                (λ _.
                  >>=-Keeps _ _ (boost-Keeps block)
                    (λ _. >>=-Keeps _ _ (λ s h. le) (λ _ s h. h))))))

  list-Keeps : Keeps (get_all_hub_events_since_last_scan c)
  unfolding get_all_hub_events_since_last_scan
  list-Keeps s h = h

  handle_changes-Keeps : (block : ℕ) → lo ≤ block → Keeps (handle_changes c block)
  unfolding handle_changes
  handle_changes-Keeps block le = >>=-Keeps _ _ list-Keeps (λ es.
      >>=-Keeps _ _ (scan_changes-Keeps block es le) (λ hashes s.
        on_registered-Keeps (Methods.is_registered c.base s.registration) block es hashes s))

  init-Keeps : Keeps (init c)
  unfolding init
  init-Keeps s h = if_keeps s.initialized _ _ h (
      >>=-Keeps _ _ (λ s h. h)
        (λ _.
          >>=-Keeps _ _ (λ s h. h)
            (λ code. >>=-Keeps _ _ (if-Keeps (is_deployed code) _ _ (λ s h. h) (λ s h. h)) (λ _.
              >>=-Keeps _ _ (λ s h. h)
                (λ _.
                  >>=-Keeps _ _ (λ s h. h)
                    (λ _.
                      >>=-Keeps _ _ (λ s h. h)
                        (λ _.
                          >>=-Keeps _ _ (λ s h. h)
                            (λ _.
                              >>=-Keeps _ _ (λ s h. h)
                                (λ _. >>=-Keeps _ _ (λ s h. h) (λ _ s h. h)))))))))
        s h)

  work_if_funded-Keeps : (block : ℕ) → lo ≤ block → Keeps (work_if_funded c block)
  unfolding work_if_funded
  work_if_funded-Keeps block le s h = if_keeps _ _ _ (handle_changes-Keeps block le s h) (
      >>=-Keeps (λ t. (ok tt, record t { ready = false })) (λ _. pure []) (λ s h. h) (λ a s h. h) s
        h)

  refresh_state-Keeps : (block : ℕ) → lo ≤ block → Keeps (refresh_state c block)
  unfolding refresh_state
  refresh_state-Keeps block le =
      >>=-Keeps _ _ (λ s h. h)
        (λ _.
          >>=-Keeps _ _ refresh_gas_price-Keeps
            (λ _. >>=-Keeps _ _ (λ s h. h) (λ _. work_if_funded-Keeps block le)))

  work_initialized-Keeps : (block : ℕ) → Keeps (work_initialized c block)
  unfolding work_initialized
  work_initialized-Keeps block s h = elim (Bool-cases (leb block s.last_scanned_block)) [
    | inl e ↦ rw e h
    | inr e ↦
        let le : lo ≤ block = ground arith in
        rw e (if_keeps _ _ _ (refresh_state-Keeps block le s h) h)
  ]

  init_if_needed-Keeps : Keeps (init_if_needed c)
  init_if_needed-Keeps s h = if_keeps s.initialized _ _ h (init-Keeps s h)

  worker-Keeps : (block : ℕ) → Keeps (worker c block)
  unfolding worker
  worker-Keeps block = >>=-Keeps _ _ init_if_needed-Keeps (λ _. work_initialized-Keeps block)

  end_round-Keeps :
      (r : Outcome (List Text) × Server Store)
      → lo ≤ r.1.last_scanned_block
      → (lo ≤ (end_round c r).1.last_scanned_block)
        × ((end_round c r).1.worker_semaphore_on ≡ false)
  end_round-Keeps (ok hashes, t) h = (h, refl)
  end_round-Keeps (err e, t) h = (h, refl)

module _ {Store : Type 0} (c : ServerContext Store) where
  -- A round that finds the semaphore on does nothing. Any other round, however it ends, leaves the
  -- semaphore off, and the last scanned block no lower than it was.
  pub worker_semaphore_lem :
      (block : ℕ) (s : Server Store)
      → ((s.worker_semaphore_on ≡ true) × (worker_semaphore c block s ≡ (ok tt, s)))
        ⊎ ((s.worker_semaphore_on ≡ false)
            × ((worker_semaphore c block s).1.worker_semaphore_on ≡ false)
            × (s.last_scanned_block ≤ (worker_semaphore c block s).1.last_scanned_block))
  unfolding worker_semaphore
  worker_semaphore_lem block s = elim (Bool-cases s.worker_semaphore_on) [
    | inl e ↦ inl (e, skipped _ _ s.worker_semaphore_on e)
    | inr e ↦
        let kept =
          end_round-Keeps c s.last_scanned_block
            (worker c block (record s { worker_semaphore_on = true }))
            (worker-Keeps c s.last_scanned_block block (record s { worker_semaphore_on = true })
              (omega arith)) in
        let (off, le) = not_skipped _ _ s.worker_semaphore_on e kept in inr (e, off, le)
  ]
    where
      skipped :
          (x y : Outcome (Unit {0}) × Server Store) (b : Bool) → b ≡ true → (if b then x else y) ≡ x
      skipped x y true h = refl
      skipped x y false h = cc

      not_skipped :
          (x y : Outcome (Unit {0}) × Server Store) (b : Bool)
          → b ≡ false
          → (s.last_scanned_block ≤ y.1.last_scanned_block) × (y.1.worker_semaphore_on ≡ false)
          → ((if b then x else y).1.worker_semaphore_on ≡ false)
            × (s.last_scanned_block ≤ (if b then x else y).1.last_scanned_block)
      not_skipped x y true h k = cc
      not_skipped x y false h k = (k.1, k.0)
