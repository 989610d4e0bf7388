-- ===== src/Samples.antt =====
-- Concrete values for the tests: a log as the database, a node with fixed answers, and wallets that
-- sign by putting the nonce and the gas price behind the key.
use rif_relay_server.Base.{◌+◌, none, some, [], ◌∷◌, ◌++◌, Text, codes, get_or}
use rif_relay_server.Stored.{relay_call, NonceSigner, StoredTransaction}
use rif_relay_server.Keys.{Wallets}
use rif_relay_server.TxStore.Log.{Log, log_db}
use rif_relay_server.TxManager.{Node, Settings, World, SendTransactionDetails, Env}

abbrev pub manager_address : Text
manager_address = codes "0xA1"

abbrev pub worker_address : Text
worker_address = codes "0xB2"

abbrev pub hub_address : Text
hub_address = codes "0xC3"

-- The signature is the key with the nonce and the gas price.
abbrev pub sample_wallets : Wallets
sample_wallets = record {
  sign = λ key tx. some (key ++ get_or tx.nonce 0 ∷ get_or tx.gas_price 0 ∷ []);
  keccak256 = λ raw. 35 ∷ raw;
}

-- The node has mined all that it is asked about in block 90, and answers a broadcast by its hash.
abbrev pub sample_node : Node
sample_node = record {
  gas_price = λ n. some 60;
  count_pending = λ n a. some 7;
  count_latest = λ n a. some 5;
  estimate_gas = λ n tx a. none;
  send = λ n raw. some (35 ∷ raw);
  transaction =
      λ n id. some (some (record { block_number = some 90; nonce = 7; from = worker_address }));
  balance = λ n a. some 1000;
}

abbrev pub sample_settings : Settings
sample_settings = record {
  max_gas_price = 100;
  default_gas_limit = 500000;
  pending_transaction_timeout_blocks = 30;
  confirmations_needed = 12;
  scale_gas_price = λ p. p + p;
  scale_estimate = λ p. p + p;
}

abbrev pub sample_env : Env Log
sample_env = record {
  db = log_db;
  node = sample_node;
  wallets = sample_wallets;
  manager = (manager_address, 1 ∷ []) ∷ [];
  workers = (worker_address, 2 ∷ []) ∷ [];
  settings = sample_settings;
}

abbrev pub empty_world : World Log
empty_world = record { nonces = λ a. none; store = []; calls = 0; broadcast = [] }

abbrev pub worker_seven : NonceSigner
worker_seven = record { nonce = 7; signer = codes "0xb2" }

abbrev pub relay_details : SendTransactionDetails
relay_details = record {
  signer = worker_address;
  server_action = relay_call;
  method = none;
  destination = hub_address;
  value = none;
  gas_limit = 21000;
  gas_price = none;
  creation_block_number = 50;
}

-- A relayed transaction of the worker, as it stands in the store.
abbrev pub stored_seven : StoredTransaction
stored_seven = record {
  to = some hub_address;
  gas_limit = some 21000;
  gas_price = some 60;
  call_data = none;
  nonce = some 7;
  tx_id = 35 ∷ 2 ∷ 7 ∷ 60 ∷ [];
  from = worker_address;
  attempts = 1;
  server_action = relay_call;
  creation_block_number = 50;
  boost_block_number = none;
  mined_block_number = none;
  nonce_signer = some worker_seven;
}

abbrev pub world_seven : World Log
world_seven = record empty_world { store = stored_seven ∷ [] }
