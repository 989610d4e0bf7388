-- ===== src/Server/Alerts.antt =====
-- The alerted state.
use rif_relay_server.Base.{
  ◌≢◌, ℕ, ◌+◌, ◌≡◌, ◌<◌, ◌≤◌, ◌⊎◌, inl, inr, refl, true, false, List, [], ◌∷◌, arith, In,
  Bool-cases, ltb,
}
use rif_relay_server.Events.{
  EventName, relay_server_registered, relay_workers_added, transaction_relayed,
  transaction_relayed_but_reverted_by_recipient, stake_added, stake_unlocked, stake_withdrawn,
  TypedEvent,
}
use rif_relay_server.Server.{
  Server, ServerSettings, enter_alert, handle_hub_event, handle_past_hub_events, leave_alert,
}

-- Some event of the list tells of a reverted transaction.
abbrev pub HasReverted : List TypedEvent → Type 0
HasReverted es =
    (e : TypedEvent) × In e es × (e.event ≡ transaction_relayed_but_reverted_by_recipient)

module _ {Store : Type 0} where
  event_cases :
      (n : EventName) (block : ℕ) (s : Server Store)
      → ((n ≡ transaction_relayed_but_reverted_by_recipient)
          × (handle_hub_event n block s ≡ enter_alert block s))
        ⊎ ((n ≢ transaction_relayed_but_reverted_by_recipient) × (handle_hub_event n block s ≡ s))
  event_cases transaction_relayed_but_reverted_by_recipient block s = inl (refl, refl)
  event_cases transaction_relayed block s = inr (λ h. cc, refl)
  event_cases relay_server_registered block s = inr (λ h. cc, refl)
  event_cases relay_workers_added block s = inr (λ h. cc, refl)
  event_cases stake_added block s = inr (λ h. cc, refl)
  event_cases stake_unlocked block s = inr (λ h. cc, refl)
  event_cases stake_withdrawn block s = inr (λ h. cc, refl)

  -- After an alert at the block, the other events leave the state alone.
  alert_stays :
      (block : ℕ) (es : List TypedEvent) (s : Server Store)
      → handle_past_hub_events block es (enter_alert block s) ≡ enter_alert block s
  unfolding handle_past_hub_events
  alert_stays block [] s = refl
  alert_stays block (e ∷ es) s = elim (event_cases e.event block (enter_alert block s)) [
    | inl (_, q) ↦ rw q (alert_stays block es s)
    | inr (_, q) ↦ rw q (alert_stays block es s)
  ]

  -- The scan of the hub's events enters the alerted state at the block exactly if one of them tells
  -- of a reverted transaction, and changes nothing otherwise.
  pub handle_past_hub_events_lem :
      (block : ℕ) (es : List TypedEvent) (s : Server Store)
      → (HasReverted es × (handle_past_hub_events block es s ≡ enter_alert block s))
        ⊎ ((HasReverted es → ⊥) × (handle_past_hub_events block es s ≡ s))
  unfolding handle_past_hub_events
  handle_past_hub_events_lem block [] s = inr (λ (e, m, q). elim m [ ], refl)
  handle_past_hub_events_lem block (e ∷ es) s = elim (event_cases e.event block s) [
    | inl (q, h) ↦ inl ((e, inl refl, q), rw h (alert_stays block es s))
    | inr (ne, h) ↦ elim (handle_past_hub_events_lem block es s) [
      | inl ((x, m, q), k) ↦ inl ((x, inr m, q), rw h k)
      | inr (none_reverted, k) ↦ inr (
        λ (x, m, q). elim m [ inl same ↦ ne (rw same at q) | inr l ↦ none_reverted (x, l, q) ],
        rw h k,
      )
    ]
  ]

  -- The alerted state is left at a block exactly if more blocks than the delay have passed since it
  -- was entered.
  pub leave_alert_lem :
      (c : ServerSettings) (block : ℕ) (s : Server Store)
      → s.alerted ≡ true
      → ((s.alerted_block + c.alerted_block_delay < block)
          × ((leave_alert c block s).alerted ≡ false))
        ⊎ ((block ≤ s.alerted_block + c.alerted_block_delay) × (leave_alert c block s ≡ s))
  unfolding leave_alert
  leave_alert_lem c block s h =
      elim (Bool-cases (ltb (s.alerted_block + c.alerted_block_delay) block)) [
        | inl e ↦ inl (ground arith, rw (h, e) refl)
        | inr e ↦ inr (ground arith, rw (h, e) refl)
      ]
