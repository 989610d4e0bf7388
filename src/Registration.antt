-- ===== src/Registration.antt =====
-- src/RegistrationManager.ts. The hub's answers are parameters (`Hub`), by the number of the call as
-- for the node. Messages are left out; the emitted 'unstaked' events are counted.
pub mod Methods
pub mod Delayed
pub mod Quiet
pub mod Sending
pub mod Funds
pub mod Drained
pub mod Counted
pub mod Moved
pub mod Withdrawals
pub mod Workers
pub mod Attempts
pub mod Registered
use rif_relay_server.Base.{
  ℕ, ◌+◌, ◌-◌, ◌*◌, Bool, true, false, not, ◌&&◌, ◌||◌, Option, none, some, List, [], ◌∷◌, ◌++◌,
  map, Text, filter, eq_text, ltb, leb, ◌==◌, get_or, is_some, if◌then◌else◌,
}
use rif_relay_server.Base.Int.{pos}
use rif_relay_server.Stored.{
  ServerAction, add_worker, register_server, value_transfer, PopulatedTransaction,
}
use rif_relay_server.Outcome.{
  Outcome, ok, err, Error, not_initialized, several_managers, no_manager, Action, ◌>>=◌, ◌>>◌, pure,
  throw,
}
use rif_relay_server.Keys.{SignedTransactionDetails}
use rif_relay_server.TxStore.{is_same_address, is_action_pending}
use rif_relay_server.TxManager.{
  World, Env, SendTransactionDetails, call, attempt_estimate_gas, send_transaction,
}
use rif_relay_server.Amounts.{AmountRequired, is_satisfied, set_current_value}
use rif_relay_server.Events.{
  EventName, relay_server_registered, relay_workers_added, transaction_relayed,
  transaction_relayed_but_reverted_by_recipient, stake_added, stake_unlocked, stake_withdrawn,
  TypedEvent, latest, PastEventOptions, LogNode, get_past_events_for_hub, get_latest_event_data,
  is_second_event_later,
}

pub record StakeInfo : Type 0 where
  pub stake : ℕ
  pub withdraw_block : ℕ
  pub owner : Text

pub record RelayManagerData : Type 0 where
  pub manager : Text
  pub currently_staked : Bool
  pub registered : Bool
  pub url : Text

-- The answers of the hub contract: `relay_info` is `getRelayInfo` of `Utils`, with the data of each
-- manager that it was asked for.
pub record Hub : Type 0 where
  pub stake_info : ℕ → Text → Option StakeInfo
  pub relay_info : ℕ → Text → Option (List RelayManagerData)
  pub add_relay_workers : ℕ → Text → Option PopulatedTransaction
  pub register_relay_server : ℕ → Text → Option PopulatedTransaction

-- What the registration manager is built on, with the settings that it reads. `min_tx_gas_cost` is
-- `minTxGasCost ?? 21000`.
pub record Context (Store : Type 0) : Type 0 where
  pub env : Env Store
  pub log_node : LogNode
  pub hub : Hub
  pub get_address : Text → Option Text
  pub manager_address : Text
  pub worker_address : Text
  pub hub_address : Text
  pub url : Text
  pub min_tx_gas_cost : ℕ

pub record DelayedEvent : Type 0 where
  pub block : ℕ
  pub event_data : TypedEvent

pub record Registration (Store : Type 0) : Type 0 where
  pub world : World Store
  pub balance_required : AmountRequired
  pub stake_required : AmountRequired
  pub is_stake_locked : Bool
  pub is_initialized : Bool
  pub owner_address : Option Text
  pub relay_data : Option RelayManagerData
  pub last_worker_added : Option TypedEvent
  pub delayed_events : List DelayedEvent
  pub unstaked : ℕ

-- `currentBlock`-due events: the answer of `_extractDuePendingEvents`, and what it keeps.
abbrev pub is_due : ℕ → DelayedEvent → Bool
is_due block e = leb e.block block

abbrev pub is_later : ℕ → DelayedEvent → Bool
is_later block e = ltb block e.block

abbrev pub event_of : DelayedEvent → TypedEvent
event_of e = e.event_data

-- `lastWorkerAddedTransaction` after the hub's events.
abbrev pub newer_worker_added : Option TypedEvent → TypedEvent → Option TypedEvent
newer_worker_added none e = some e
newer_worker_added (some old) e = if is_second_event_later old e then some e else some old

abbrev pub is_worker_added : EventName → Bool
is_worker_added relay_workers_added = true
is_worker_added relay_server_registered = false
is_worker_added transaction_relayed = false
is_worker_added transaction_relayed_but_reverted_by_recipient = false
is_worker_added stake_added = false
is_worker_added stake_unlocked = false
is_worker_added stake_withdrawn = false

unfoldable pub scan_workers : Option TypedEvent → List TypedEvent → Option TypedEvent
scan_workers last [] = last
scan_workers last (e ∷ es) =
    let newer = scan_workers (newer_worker_added last e) es in
    let same = scan_workers last es in if is_worker_added e.event then newer else same

-- `_isWorkerValid`.
abbrev pub is_worker_valid : Option TypedEvent → Bool
is_worker_valid none = false
is_worker_valid (some e) = is_worker_added e.event

-- A transfer of the whole balance but for its cost.
abbrev pub transfer_details : Text → Text → ℕ → ℕ → ℕ → ℕ → SendTransactionDetails
transfer_details signer owner gas_limit gas_price value current_block = record {
  signer = signer;
  server_action = value_transfer;
  method = none;
  destination = owner;
  value = some (pos value);
  gas_limit = gas_limit;
  gas_price = some gas_price;
  creation_block_number = current_block;
}

abbrev pub hub_details :
    Text → ServerAction → Text → PopulatedTransaction → ℕ → ℕ → SendTransactionDetails
hub_details signer action hub_address method gas_limit current_block = record {
  signer = signer;
  server_action = action;
  method = some method;
  destination = hub_address;
  value = none;
  gas_limit = gas_limit;
  gas_price = none;
  creation_block_number = current_block;
}

-- The one data of the manager, in the answer of `getRelayInfo`.
abbrev pub single_manager : List RelayManagerData → Outcome RelayManagerData
single_manager [] = err no_manager
single_manager (d ∷ []) = ok d
single_manager (d ∷ e ∷ ds) = err several_managers

-- `_ownerAddress` after a stake: the first one stays, unless it is the empty string.
abbrev pub first_owner : Option Text → Text → Text
first_owner none owner = owner
first_owner (some []) owner = owner
first_owner (some (c ∷ cs)) owner = c ∷ cs

module _ {Store : Type 0} where
  abbrev pub on_world : {A : Type 0} → Action (World Store) A → Action (Registration Store) A
  on_world m r = let (a, w) = m r.world in (a, record r { world = w })

  -- `_extractDuePendingEvents`.
  unfoldable pub extract_due_pending_events : ℕ → Action (Registration Store) (List TypedEvent)
  extract_due_pending_events block r = (
    ok (map event_of (filter (is_due block) r.delayed_events)),
    record r { delayed_events = filter (is_later block) r.delayed_events },
  )

  abbrev pub push_delayed : TypedEvent → Action (Registration Store) (Unit {0})
  push_delayed e r = (
    ok tt,
    record r {
      delayed_events = r.delayed_events ++ record { block = e.withdraw_block; event_data = e } ∷ [];
    },
  )

  abbrev pub set_relay_data : RelayManagerData → Action (Registration Store) (Unit {0})
  set_relay_data d r = (ok tt, record r { relay_data = some d })

  abbrev pub set_last_worker_added : Option TypedEvent → Action (Registration Store) (Unit {0})
  set_last_worker_added e r = (ok tt, record r { last_worker_added = e })

  abbrev pub emit_unstaked : Action (Registration Store) (Unit {0})
  emit_unstaked r = (ok tt, record r { unstaked = r.unstaked + 1 })

  -- The end of `refreshStake`, on the hub's answer.
  unfoldable pub settle_stake : StakeInfo → Registration Store → Registration Store
  settle_stake info r = if info.stake == 0 then r else record r {
    is_stake_locked = info.withdraw_block == 0;
    stake_required = set_current_value info.stake r.stake_required;
    owner_address = some (first_owner r.owner_address info.owner);
  }
