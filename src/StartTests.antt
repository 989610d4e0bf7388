-- ===== src/StartTests.antt =====
-- Tests and instances of the theorems about the start of the process.
use rif_relay_server.Base.{◌≡◌, refl, true, false, none, some, [], ◌∷◌, Option, Text, codes, get_or}
use rif_relay_server.Outcome.{Outcome, ok, err, ◌>>=◌}
use rif_relay_server.Keys.Keystore.{Disk, FileSystem, Derive}
use rif_relay_server.Keys.Keystore as Keystore
use rif_relay_server.Server.Worker as Worker
use rif_relay_server.Server.Creation as Creation
use rif_relay_server.TxManager as Manager
use rif_relay_server.Registration.Methods as Methods
use rif_relay_server.Events as Events
use rif_relay_server.TxStore.Log.{Log}
use rif_relay_server.Commands.Start.{Machine, Launch, Running, idle, run}
use rif_relay_server.Commands.Restart.{run_restart}
use rif_relay_server.Samples.{sample_env, empty_world, world_seven}
use rif_relay_server.ServerSamples.{sample_server_context, sample_server, sample_server_settings}

abbrev from_seed : Text → Option Derive
from_seed seed = some (λ index. (index ∷ seed, 1 ∷ seed))

abbrev working : FileSystem
working = record { mkdir_error = none; read_error = none; write_error = none }

abbrev new_disk : Disk
new_disk = record { directory_exists = false; keystore_file = none }

abbrev launch : Launch Log
launch = record {
  dev_mode = false;
  workdir = codes "data";
  rsk_node_url = codes "http://127.0.0.1:4444";
  settings = sample_server_settings;
  fees_receiver = codes "0xb2";
  from_seed = from_seed;
  manager_files = working;
  workers_files = working;
  manager_seed = codes "ab";
  workers_seed = codes "cd";
  unlink_fails = false;
  open_store = λ file. get_or file empty_world.store;
  env_of = λ manager workers. sample_env;
  context_of = λ env manager worker receiver. sample_server_context;
}

-- Another process, in the mode of development, that would draw other seeds.
abbrev relaunch : Launch Log
relaunch = record launch { dev_mode = true; manager_seed = codes "ef"; workers_seed = codes "12" }

abbrev machine : Machine Log
machine = record {
  manager_disk = new_disk;
  workers_disk = new_disk;
  txstore = some world_seven.store;
}

abbrev none_running : Running Log
none_running = record {
  manager = [];
  workers = [];
  opened = empty_world.store;
  server = sample_server;
  http = idle;
}

abbrev running_of : Outcome (Running Log) → Running Log
running_of (ok r) = r
running_of (err e) = none_running

abbrev left : Machine Log
left = (run launch machine).1

abbrev left_again : Machine Log
left_again = (run relaunch left).1

starts : run launch machine ≡ (ok (running_of (run launch machine).0), left)
unfolding run ◌>>=◌ Keystore.create_key_manager Keystore.load_seed Worker.init
    Creation.create_relay_server Manager.call Methods.init Events.get_past_events_for_hub
    Events.get_log_filters Events.filters_to Events.split_range
starts = refl

starts_again : run relaunch left ≡ (ok (running_of (run relaunch left).0), left_again)
unfolding run ◌>>=◌ Keystore.create_key_manager Keystore.load_seed Worker.init
    Creation.create_relay_server Manager.call Methods.init Events.get_past_events_for_hub
    Events.get_log_filters Events.filters_to Events.split_range
starts_again = refl

abbrev first : Running Log
first = running_of (run launch machine).0

abbrev second : Running Log
second = running_of (run relaunch left).0

run_restart_example :
    (second.manager ≡ first.manager)
    × (second.workers ≡ first.workers)
    × (left_again.manager_disk ≡ left.manager_disk)
    × (left_again.workers_disk ≡ left.workers_disk)
    × (second.opened ≡ empty_world.store)
run_restart_example =
    run_restart launch relaunch machine left left_again first second refl refl refl refl starts
      starts_again

-- The first process has opened the store of the file.
opens_file : first.opened ≡ world_seven.store
unfolding run ◌>>=◌ Keystore.create_key_manager Keystore.load_seed Worker.init
    Creation.create_relay_server Manager.call Methods.init Events.get_past_events_for_hub
    Events.get_log_filters Events.filters_to Events.split_range
opens_file = refl
