-- ===== src/Http/Lifecycle.antt =====
-- The starting and stopping of src/HttpServer.ts, and of the polling of src/RelayServer.ts that it
-- starts and stops.
use rif_relay_server.Base.{
  ℕ, ◌+◌, Bool, true, false, Option, none, some, List, [], ◌∷◌, ◌==◌, if◌then◌else◌,
}
use rif_relay_server.Outcome.{ok, err, not_started, Action}

-- `server_instance` tells whether the instance listens, once there is one; `timers` are the
-- intervals that run, by their handles, and `worker_task` is the handle that is kept.
pub record Lifecycle : Type 0 where
  pub server_instance : Option Bool
  pub worker_task : Option ℕ
  pub timers : List ℕ
  pub next_handle : ℕ

abbrev pub remove_timer : ℕ → List ℕ → List ℕ
remove_timer t [] = []
remove_timer t (u ∷ us) = let rest = remove_timer t us in if u == t then rest else u ∷ rest

-- `start` and `stop` of the relay server: a stop keeps the handle.
unfoldable pub start_polling : Action Lifecycle (Unit {0})
start_polling l = (
  ok tt,
  record l {
    worker_task = some l.next_handle;
    timers = l.next_handle ∷ l.timers;
    next_handle = l.next_handle + 1;
  },
)

unfoldable pub stop_polling : Action Lifecycle (Unit {0})
stop_polling l = elim l.worker_task [
  | none ↦ (err not_started, l)
  | some t ↦ (ok tt, record l { timers = remove_timer t l.timers })
]

-- `startBackend`, which catches an error.
abbrev pub start_backend : Lifecycle → Lifecycle
start_backend l = (start_polling l).1

unfoldable pub start : Lifecycle → Lifecycle
start l = elim l.server_instance [
  | none ↦ start_backend (record l { server_instance = some true })
  | some listening ↦ l
]

unfoldable pub stop : Lifecycle → Lifecycle
stop l = elim l.server_instance [
  | none ↦ l
  | some listening ↦ record l { server_instance = some false }
]

unfoldable pub close : Action Lifecycle (Unit {0})
close l = stop_polling l
