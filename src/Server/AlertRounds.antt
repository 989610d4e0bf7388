-- ===== src/Server/AlertRounds.antt =====
-- The alerted state over a round of src/RelayServer.ts: `_handleChanges` from its events on.
use rif_relay_server.Base.{ℕ, ◌+◌, ◌≡◌, ◌≤◌, ◌⊎◌, ◌↔◌, Bool, true, false, List}
use rif_relay_server.Outcome.{Outcome, ok, err}
use rif_relay_server.Events.{TypedEvent}
use rif_relay_server.Registration.Methods as Methods
use rif_relay_server.Server.{Server, ServerContext}
use rif_relay_server.Server.Alerts.{HasReverted}
use rif_relay_server.Server.Steady.{SameAlert}

module _ {Store : Type 0} where
  -- An alert was entered at the block, for a reverted transaction; or none was, and the state is as
  -- it was.
  abbrev pub Scanned : ℕ → List TypedEvent → Server Store → Server Store → Type 0
  Scanned block es s t =
      (HasReverted es × (t.alerted ≡ true) × (t.alerted_block ≡ block))
      ⊎ ((HasReverted es → ⊥) × SameAlert s t)

  -- The alert was entered at the block; or no transaction was reverted, and the server is alerted
  -- exactly if it was, and no more blocks than the delay have passed since.
  abbrev pub Settled : ℕ → ℕ → List TypedEvent → Server Store → Server Store → Type 0
  Settled delay block es s t =
      (HasReverted es × (t.alerted ≡ true) × (t.alerted_block ≡ block))
      ⊎ ((HasReverted es → ⊥)
          × ((t.alerted ≡ true) ↔ ((s.alerted ≡ true) × (block ≤ s.alerted_block + delay)))
          × (t.alerted_block ≡ s.alerted_block))

module _ {Store : Type 0} (c : ServerContext Store) where
  -- The end of a round, by the answer of `isRegistered`: not registered, the server is not ready and
  -- the alert is as it was; registered with too low a balance of the worker, it is not ready, and the
  -- alert is as the events leave it; and otherwise it is ready, and the alert may also have ended.
  abbrev pub Ended : Outcome Bool → ℕ → List TypedEvent → Server Store → Server Store → Type 0
  Ended (err e) block es s t = ⊥
  Ended (ok false) block es s t = (t.ready ≡ false) × SameAlert s t
  Ended (ok true) block es s t =
      ((t.ready ≡ false) × Scanned block es s t)
      ⊎ ((t.ready ≡ true) × Settled c.settings.alerted_block_delay block es s t)
