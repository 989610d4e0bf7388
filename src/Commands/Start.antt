-- ===== src/Commands/Start.antt =====
-- src/commands/Start.ts: the start of the process, up to the listening server. An error ends the
-- process. The directories of the two key managers, and the file of the transaction store, are what
-- it leaves for the next one.
use rif_relay_server.Base.{
  Bool, true, false, Option, none, some, [], Text, codes, ◌++◌, if◌then◌else◌,
}
use rif_relay_server.Outcome.{
  Outcome, ok, err, Action, ◌>>=◌, ◌>>◌, pure, throw, missing_node_url, file_failed,
}
use rif_relay_server.Keys.{Keys}
use rif_relay_server.Keys.Keystore.{Disk, FileSystem, Derive, create_key_manager}
use rif_relay_server.TxManager.{Env}
use rif_relay_server.Server.{Server, ServerContext, ServerSettings}
use rif_relay_server.Server.Worker.{init}
use rif_relay_server.Server.Creation.{
  create_transaction_manager, create_relay_server, own_address, own_fees_receiver,
}
use rif_relay_server.Http.Lifecycle as Lifecycle
use rif_relay_server.Http.Lifecycle.{Lifecycle}

-- `txstore` is the file `txstore.db`, as the store that it holds.
pub record Machine (Store : Type 0) : Type 0 where
  pub manager_disk : Disk
  pub workers_disk : Disk
  pub txstore : Option Store

-- The configuration that the process reads, and what it takes from its surroundings: the file
-- system, the seeds that it would draw, nedb's loading of a file, and the node and the contracts as
-- the context of the server with its keys and addresses.
pub record Launch (Store : Type 0) : Type 0 where
  pub dev_mode : Bool
  pub workdir : Text
  pub rsk_node_url : Text
  pub settings : ServerSettings
  pub fees_receiver : Text
  pub from_seed : Text → Option Derive
  pub manager_files : FileSystem
  pub workers_files : FileSystem
  pub manager_seed : Text
  pub workers_seed : Text
  pub unlink_fails : Bool
  pub open_store : Option Store → Store
  pub env_of : Keys → Keys → Env Store
  pub context_of : Env Store → Text → Text → Text → ServerContext Store

-- The server that runs, with its key managers and the store as it was opened.
pub record Running (Store : Type 0) : Type 0 where
  pub manager : Keys
  pub workers : Keys
  pub opened : Store
  pub server : Server Store
  pub http : Lifecycle

abbrev pub idle : Lifecycle
idle = record { server_instance = none; worker_task = none; timers = []; next_handle = 0 }

abbrev pub no_text : Text → Bool
no_text t = elim t [ [] ↦ true | _ ↦ false ]

module _ {Store : Type 0} (l : Launch Store) where
  -- `existsSync` and `unlinkSync` on the store, in the mode of development.
  abbrev pub unlink : Option Store → Action (Machine Store) (Unit {0})
  unlink none m = (ok tt, m)
  unlink (some store) m =
      if l.unlink_fails then (err file_failed, m) else (ok tt, record m { txstore = none })

  abbrev pub remove_store : Action (Machine Store) (Unit {0})
  remove_store m = if l.dev_mode then unlink m.txstore m else (ok tt, m)

  abbrev pub on_manager_disk : Outcome Keys × Disk → Machine Store → Outcome Keys × Machine Store
  on_manager_disk (r, d) m = (r, record m { manager_disk = d })

  abbrev pub on_workers_disk : Outcome Keys × Disk → Machine Store → Outcome Keys × Machine Store
  on_workers_disk (r, d) m = (r, record m { workers_disk = d })

  abbrev pub manager_keys : Action (Machine Store) Keys
  manager_keys m =
      on_manager_disk
        (create_key_manager l.from_seed l.manager_files l.manager_seed 1
          (some (l.workdir ++ codes "/manager")) none m.manager_disk)
        m

  abbrev pub workers_keys : Action (Machine Store) Keys
  workers_keys m =
      on_workers_disk
        (create_key_manager l.from_seed l.workers_files l.workers_seed 1
          (some (l.workdir ++ codes "/workers")) none m.workers_disk)
        m

  abbrev pub open_txstore : Action (Machine Store) Store
  open_txstore m =
      (ok (l.open_store m.txstore), record m { txstore = some (l.open_store m.txstore) })

  -- `new RelayServer(dependencies)` and `init()`, whose writes to the store go to its file.
  abbrev pub create : Keys → Keys → Store → Server Store
  create manager workers store =
      create_relay_server l.settings (create_transaction_manager (l.env_of manager workers) store)

  abbrev pub context : Keys → Keys → ServerContext Store
  context manager workers =
      l.context_of (l.env_of manager workers) (own_address manager) (own_address workers)
        (own_fees_receiver l.settings l.fees_receiver (own_address workers))

  abbrev pub saved :
      {A : Type 0}
      → Outcome A × Server Store
      → Machine Store
      → Outcome (Server Store) × Machine Store
  saved (ok a, s) m = (ok s, record m { txstore = some s.registration.world.store })
  saved (err e, s) m = (err e, record m { txstore = some s.registration.world.store })

  abbrev pub init_server : Keys → Keys → Store → Action (Machine Store) (Server Store)
  init_server manager workers store =
      saved (init (context manager workers) (create manager workers store))

  unfoldable pub run : Action (Machine Store) (Running Store)
  run = do
    if no_text l.rsk_node_url then throw missing_node_url else pure tt
    remove_store
    manager ← manager_keys
    workers ← workers_keys
    opened ← open_txstore
    server ← init_server manager workers opened
    pure (record {
      manager = manager;
      workers = workers;
      opened = opened;
      server = server;
      http = Lifecycle.start idle;
    })
