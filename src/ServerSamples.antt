-- ===== src/ServerSamples.antt =====
-- Concrete values for the tests of the registration manager and of the server: a hub in which the
-- manager is staked and registered, and a node with no logs but those of a `StakeUnlocked`.
use rif_relay_server.Base.{ℕ, true, false, none, some, [], ◌∷◌, Text, codes, ◌==◌, if◌then◌else◌}
use rif_relay_server.TxStore.Log.{Log}
use rif_relay_server.Amounts.{AmountRequired}
use rif_relay_server.Events.{
  EventName, relay_workers_added, stake_unlocked, TypedEvent, LogNode, Filter,
}
use rif_relay_server.Registration.{Hub, Context, Registration, RelayManagerData}
use rif_relay_server.Server.{Server, ServerContext, ServerSettings}
use rif_relay_server.Envelope.{HttpEnvelopingRequest}
use rif_relay_server.Samples.{sample_env, manager_address, worker_address, hub_address, empty_world}

abbrev pub sample_url : Text
sample_url = codes "http://relay"

abbrev pub event_at : EventName → ℕ → ℕ → TypedEvent
event_at name block index = record {
  event = name;
  block_number = block;
  transaction_index = index;
  withdraw_block = 150;
}

abbrev pub no_logs : LogNode
no_logs = record {
  hub_address = hub_address;
  event_topic = λ n. [];
  encode_address = λ a. a;
  get_logs = λ n f k. some [];
  block_number = λ n. some 100;
  max_block_range = 50;
}

-- The third attempt at any filter succeeds.
abbrev pub slow_logs : LogNode
slow_logs = record no_logs {
  get_logs = λ n f k. if k == 3 then some (event_at stake_unlocked 90 1 ∷ []) else none;
}

abbrev pub some_filter : Filter
some_filter = record { address = hub_address; topics = []; from_block = some 1; to_block = none }

abbrev pub relay_manager : RelayManagerData
relay_manager = record {
  manager = manager_address;
  currently_staked = true;
  registered = true;
  url = sample_url;
}

abbrev pub sample_hub : Hub
sample_hub = record {
  stake_info = λ n a. some (record { stake = 40; withdraw_block = 0; owner = codes "0xD4" });
  relay_info = λ n a. some (relay_manager ∷ []);
  add_relay_workers = λ n a. none;
  register_relay_server = λ n a. none;
}

abbrev pub sample_context : Context Log
sample_context = record {
  env = sample_env;
  log_node = no_logs;
  hub = sample_hub;
  get_address = λ a. some a;
  manager_address = manager_address;
  worker_address = worker_address;
  hub_address = hub_address;
  url = sample_url;
  min_tx_gas_cost = 3;
}

abbrev pub amount : ℕ → ℕ → AmountRequired
amount current required = record {
  current_value = current;
  required_value = required;
  notified = 0;
}

abbrev pub sample_registration : Registration Log
sample_registration = record {
  world = empty_world;
  balance_required = amount 0 100;
  stake_required = amount 40 30;
  is_stake_locked = true;
  is_initialized = true;
  owner_address = some (codes "0xD4");
  relay_data = some relay_manager;
  last_worker_added = some (event_at relay_workers_added 10 2);
  delayed_events =
      record { block = 150; event_data = event_at stake_unlocked 90 1 }
      ∷ record { block = 250; event_data = event_at stake_unlocked 95 1 }
      ∷ [];
  unstaked = 0;
}

abbrev pub sample_server_settings : ServerSettings
sample_server_settings = record {
  custom_replenish = false;
  request_min_valid_seconds = 60;
  worker_min_balance = 10;
  worker_target_balance = 30;
  manager_min_balance = 100;
  manager_target_balance = 300;
  manager_min_stake = 30;
  initial_block_to_scan = 1;
  registration_block_rate = 0;
  refresh_state_timeout_blocks = 5;
  successful_rounds_for_ready = 3;
  alerted_block_delay = 10;
  trusted_verifiers = [];
  relay_verifier_address = codes "0xE5";
  deploy_verifier_address = codes "0x0";
  address_zero = codes "0x0";
}

abbrev pub sample_server_context : ServerContext Log
sample_server_context = record {
  base = sample_context;
  settings = sample_server_settings;
  balance_pending = λ n a. some 1000;
  code = λ n a. some (codes "0x60");
  chain_id_of = λ n. some 33;
  net_version = λ n. some 33;
  latest_block = λ n. some 100;
  fees_receiver = worker_address;
}

abbrev pub sample_server : Server Log
sample_server = record {
  registration = record sample_registration { delayed_events = [] };
  last_scanned_block = 90;
  last_refresh_block = 90;
  ready = false;
  last_successful_rounds = 9007199254740991;
  gas_price = 60;
  worker_semaphore_on = false;
  alerted = true;
  alerted_block = 80;
  initialized = true;
  last_mined_active_transaction = none;
  chain_id = some 33;
  network_id = some 33;
  trusted_verifiers = [];
  worker_balance_required = amount 5 10;
  funding_needed = 0;
  replenish_checks = [];
}

-- A relay request that pays in the native currency.
abbrev pub sample_request : HttpEnvelopingRequest
sample_request = record {
  relay_request = record {
    request = record {
      relay_hub = hub_address;
      from = codes "0xF6";
      to = codes "0xA7";
      value = 0;
      nonce = 0;
      call_data = codes "0x";
      token_contract = codes "0x0";
      token_amount = 7000000;
      token_gas = 0;
      valid_until_time = 1000;
      gas = some 50000;
      recoverer = none;
      index = none;
    };
    relay_data = record {
      gas_price = 61;
      fees_receiver = codes "0xB2";
      call_forwarder = codes "0xF7";
      call_verifier = codes "0xE5";
    };
  };
  metadata = record {
    relay_hub_address = codes "0xc3";
    relay_max_nonce = 9;
    signature = 1 ∷ [];
    is_custom = none;
  };
}

-- A hub that takes registrations, and a manager with the balance for one.
abbrev pub registering_context : Context Log
registering_context = record sample_context {
  hub = record sample_hub {
    register_relay_server = λ n a. some (record {
      to = none;
      gas_limit = none;
      gas_price = none;
      call_data = some (7 ∷ []);
      nonce = none;
      value = none;
    });
  };
}

abbrev pub funded_registration : Registration Log
funded_registration = record sample_registration { balance_required = amount 200 100 }
