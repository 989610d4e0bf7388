-- ===== src/Server/Steady.antt =====
-- Which steps of a round of src/RelayServer.ts leave the alert as it is.
use rif_relay_server.Base.{
  ℕ, ◌≡◌, inl, inr, refl, ap, ◌∙◌, Bool, true, false, Option, none, some, List, if◌then◌else◌,
  subst,
}
use rif_relay_server.Outcome.{ok, Action, ◌>>=◌, bind-inv}
use rif_relay_server.Events.{TypedEvent, get_latest_event_data}
use rif_relay_server.Server.{
  Server, ServerContext, get_all_hub_events_since_last_scan, query_latest_active_event, update_from,
  update_latest_tx_block_number,
}
use rif_relay_server.Server.Replenish.{
  get_manager_balance, get_worker_balance, replenish_from, default_replenish_function,
  replenish_strategy,
}
use rif_relay_server.Server.Refills.{replenish_from_lem}
use rif_relay_server.Server.Worker.{boost_stuck_pending_transactions, scan_changes}

module _ {Store : Type 0} where
  -- The alert is the same in both states.
  abbrev pub SameAlert : Server Store → Server Store → Type 0
  SameAlert s t = (t.alerted ≡ s.alerted) × (t.alerted_block ≡ s.alerted_block)

  pub then-SameAlert : (s t u : Server Store) → SameAlert s t → SameAlert t u → SameAlert s u
  then-SameAlert s t u (a, b) (d, e) = (d ∙ a, e ∙ b)

  -- The action leaves the alert as it is, however it ends.
  abbrev pub Steady : {A : Type 0} → Action (Server Store) A → Type 0
  Steady m = (s : Server Store) → SameAlert s (m s).1

  >>=-Steady :
      {A B : Type 0} (m : Action (Server Store) A) (f : A → Action (Server Store) B)
      → Steady m
      → ((a : A) → Steady (f a))
      → Steady (m >>= f)
  >>=-Steady m f first later s =
      bind-inv (SameAlert s) m f s (first s)
        (λ a t _ same. then-SameAlert s t (f a t).1 same (later a t))

  pub Steady-eq-ok :
      {A : Type 0} (m : Action (Server Store) A) (s t : Server Store) (a : A)
      → Steady m
      → m s ≡ (ok a, t)
      → SameAlert s t
  Steady-eq-ok m s t a h e = subst (SameAlert s) (ap (λ p. p.1) e) (h s)

module _ {Store : Type 0} (c : ServerContext Store) where
  replenish_from-Steady : (balance block : ℕ) → Steady (replenish_from c balance block)
  replenish_from-Steady balance block s = elim (replenish_from_lem c balance block s) [
    | inl r ↦ elim r.sent [
      | inl (_, _, _, left, _) ↦ rw left (refl, refl)
      | inr (_, _, _, left, _) ↦ rw left (refl, refl)
    ]
    | inr (inl u) ↦ rw u.told (refl, refl)
    | inr (inr (inl (e, _))) ↦ rw e (refl, refl)
    | inr (inr (inr (x, _, e))) ↦ rw e (refl, refl)
  ]

  get_manager_balance-Steady : Steady (get_manager_balance c)
  unfolding get_manager_balance
  get_manager_balance-Steady s = (refl, refl)

  pub get_worker_balance-Steady : Steady (get_worker_balance c)
  unfolding get_worker_balance
  get_worker_balance-Steady s = (refl, refl)

  default_replenish-Steady : (block : ℕ) → Steady (default_replenish_function c block)
  unfolding default_replenish_function
  default_replenish-Steady block = >>=-Steady _ _ get_manager_balance-Steady (λ a.
      >>=-Steady _ _ get_worker_balance-Steady
        (λ b. >>=-Steady _ _ (λ s. (refl, refl)) (λ _. replenish_from-Steady a block)))

  if-Steady :
      {A : Type 0} (b : Bool) (m k : Action (Server Store) A)
      → Steady m
      → Steady k
      → Steady (if b then m else k)
  if-Steady true m k p q = p
  if-Steady false m k p q = q

  pub replenish-Steady : (block : ℕ) → Steady (replenish_strategy c block)
  unfolding replenish_strategy
  replenish-Steady block =
      if-Steady c.settings.custom_replenish _ _ (λ s. (refl, refl)) (default_replenish-Steady block)

  boost-Steady : (block : ℕ) → Steady (boost_stuck_pending_transactions c block)
  unfolding boost_stuck_pending_transactions
  boost-Steady block =
      >>=-Steady _ _ (λ s. (refl, refl))
        (λ a. >>=-Steady _ _ (λ s. (refl, refl)) (λ b s. (refl, refl)))

  query-Steady : Steady (query_latest_active_event c)
  unfolding query_latest_active_event
  query-Steady = >>=-Steady _ _ (λ s. (refl, refl)) (λ a s. (refl, refl))

  update_from-Steady : (e f : Option TypedEvent) → Steady (update_from c e f)
  update_from-Steady (some e) f s = (refl, refl)
  update_from-Steady none (some f) s = (refl, refl)
  update_from-Steady none none s = >>=-Steady _ _ query-Steady (λ a s. (refl, refl)) s

  update-Steady : (es : List TypedEvent) → Steady (update_latest_tx_block_number c es)
  unfolding update_latest_tx_block_number
  update-Steady es s =
      update_from-Steady (get_latest_event_data es) s.last_mined_active_transaction s

  pub list-Steady : Steady (get_all_hub_events_since_last_scan c)
  unfolding get_all_hub_events_since_last_scan
  list-Steady s = (refl, refl)

  pub scan_changes-Steady : (block : ℕ) (es : List TypedEvent) → Steady (scan_changes c block es)
  unfolding scan_changes
  scan_changes-Steady block es = >>=-Steady _ _ (update-Steady es) (λ _.
      >>=-Steady _ _ (λ s. (refl, refl))
        (λ again.
          >>=-Steady _ _ (λ s. (refl, refl))
            (λ hashes.
              >>=-Steady _ _ (λ s. (refl, refl))
                (λ _.
                  >>=-Steady _ _ (boost-Steady block)
                    (λ _. >>=-Steady _ _ (λ s. (refl, refl)) (λ _ s. (refl, refl)))))))
