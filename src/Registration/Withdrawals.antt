-- ===== src/Registration/Withdrawals.antt =====
-- The withdrawals that the events of the stake lead to in src/RegistrationManager.ts.
use rif_relay_server.Base.{ℕ, ◌≡◌, Bool, false, List, ◌++◌, Text, map, filter}
use rif_relay_server.Outcome.{ok}
use rif_relay_server.Events.{TypedEvent}
use rif_relay_server.Registration.{Context, Registration, is_due, event_of}
use rif_relay_server.Registration.Methods.{register_if_needed}
use rif_relay_server.Registration.Counted.{unlocked, count, Withdrew}
use rif_relay_server.Registration.Moved.{all_delayed}

module _ {Store : Type 0} (c : Context Store) where
  -- The hashes of the withdrawals for due events, and then those of the registration, come last.
  abbrev pub DueSent : ℕ → ℕ → Bool → List Text → Registration Store → List Text → Type 0
  DueSent n block force first t hs =
      (drained registered : List Text) × (s : Registration Store) × (hs
        ≡ first ++ drained ++ registered)
      × Withdrew c false n drained
      × (register_if_needed c force block s ≡ (ok registered, t))

  -- How many due events withdraw the worker's balance, the newly delayed ones included.
  abbrev pub due_count : List TypedEvent → ℕ → Registration Store → ℕ
  due_count decoded block r =
      count unlocked
        (map event_of (filter (is_due block) (r.delayed_events ++ all_delayed decoded)))
