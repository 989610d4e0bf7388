-- ===== src/Server/Creation.antt =====
-- The constructors of src/TransactionManager.ts and src/RelayServer.ts.
use rif_relay_server.Base.{
  ℕ, false, Option, none, some, [], Text, codes, eq_text, get_or, if◌then◌else◌,
}
use rif_relay_server.Keys.{Keys, get_address}
use rif_relay_server.TxManager.{Env, World, assign}
use rif_relay_server.Amounts.{amount_required}
use rif_relay_server.Server.{Server, ServerSettings, new_registration}

-- A missing address is the key "undefined".
abbrev pub first_key : Keys → Text
first_key ks = get_or (get_address ks 0) (codes "undefined")

-- `_initNonces`.
unfoldable pub init_nonces : Keys → Keys → Text → Option ℕ
init_nonces manager workers =
    assign (assign (λ a. none) (first_key manager) (some 0)) (first_key workers) (some 0)

abbrev pub create_transaction_manager : {Store : Type 0} → Env Store → Store → World Store
create_transaction_manager env store = record {
  nonces = init_nonces env.manager env.workers;
  store = store;
  calls = 0;
  broadcast = [];
}

-- The first address of a key manager, or the empty text.
unfoldable pub own_address : Keys → Text
own_address ks = get_or (get_address ks 0) []

unfoldable pub own_fees_receiver : ServerSettings → Text → Text → Text
own_fees_receiver c fees_receiver worker_address =
    if eq_text fees_receiver c.address_zero then worker_address else fees_receiver

-- `_lastSuccessfulRounds` starts at the largest safe integer.
unfoldable pub create_relay_server : {Store : Type 0} → ServerSettings → World Store → Server Store
create_relay_server c w = record {
  registration = new_registration c w;
  last_scanned_block = c.initial_block_to_scan;
  last_refresh_block = 0;
  ready = false;
  last_successful_rounds = 9007199254740991;
  gas_price = 0;
  worker_semaphore_on = false;
  alerted = false;
  alerted_block = 0;
  initialized = false;
  last_mined_active_transaction = none;
  chain_id = none;
  network_id = none;
  trusted_verifiers = [];
  worker_balance_required = amount_required c.worker_min_balance;
  funding_needed = 0;
  replenish_checks = [];
}
