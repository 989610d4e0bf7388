-- ===== src/Events.antt =====
-- src/getPastEventsForHub.ts, and the comparisons of events in src/Utils.ts. A log of the node is
-- given as the event that ethers decodes it to.
pub mod Ranges
pub mod Logs
pub mod Latest
use rif_relay_server.Base.{
  ℕ, zero, suc, ◌+◌, ◌-◌, ◌*◌, ◌/◌, ◌%◌, Bool, true, false, not, ◌||◌, Option, none, some, List, [],
  ◌∷◌, ◌++◌, map, Text, ltb, leb, ◌==◌, get_or, if◌then◌else◌, sort,
}
use rif_relay_server.Outcome.{Outcome, ok, err, range_error, Action, ◌>>=◌, pure}
use rif_relay_server.TxManager.{World, call, lift}

pub data EventName : Type 0 where
  relay_server_registered relay_workers_added transaction_relayed : EventName
  transaction_relayed_but_reverted_by_recipient stake_added stake_unlocked stake_withdrawn :
      EventName

-- `withdraw_block` is the argument of a `StakeUnlocked`; no other event is asked for it.
pub record TypedEvent : Type 0 where
  pub event : EventName
  pub block_number : ℕ
  pub transaction_index : ℕ
  pub withdraw_block : ℕ

pub data BlockTag : Type 0 where
  latest : BlockTag
  number : ℕ → BlockTag

pub record PastEventOptions : Type 0 where
  pub from_block : Option ℕ
  pub to_block : Option BlockTag

pub record Filter : Type 0 where
  pub address : Text
  pub topics : List (List Text)
  pub from_block : Option ℕ
  pub to_block : Option BlockTag

pub record BlockRange : Type 0 where
  pub from : ℕ
  pub to : ℕ

-- The hub's interface, and the node's answers about its logs: `get_logs n f k` is the answer to the
-- k-th attempt at the filter, in the n-th batch of requests.
pub record LogNode : Type 0 where
  pub hub_address : Text
  pub event_topic : EventName → Text
  pub encode_address : Text → Text
  pub get_logs : ℕ → Filter → ℕ → Option (List TypedEvent)
  pub block_number : ℕ → Option ℕ
  pub max_block_range : ℕ

abbrev pub default_manager_events : List EventName
default_manager_events =
    relay_server_registered ∷ relay_workers_added ∷ transaction_relayed
    ∷ transaction_relayed_but_reverted_by_recipient ∷ []

-- `Math.ceil(a / b)` for a positive `b`.
abbrev pub ceil_div : ℕ → ℕ → ℕ
ceil_div a b = if a % b == 0 then a / b else a / b + 1

abbrev pub range_at : ℕ → ℕ → ℕ → ℕ → BlockRange
range_at min max desired_range index =
    let from = min + desired_range * index in
    record {
      from = from;
      to = if ltb max (from + desired_range) then max else from + desired_range;
    }

-- The callback for the indices from the given one on, as many as are left.
abbrev pub ranges_from : ℕ → ℕ → ℕ → ℕ → ℕ → List BlockRange
ranges_from min max desired_range index zero = []
ranges_from min max desired_range index (suc left) =
    range_at min max desired_range index ∷ ranges_from min max desired_range (index + 1) left

-- `Array(splits)` throws for a length that is negative or no number: the range is 0, or `max` is
-- below `min` by a range or more.
unfoldable pub split_range : ℕ → ℕ → ℕ → Outcome (List BlockRange)
split_range min max desired_range =
    if (desired_range == 0) || (leb (max + desired_range) min)
    then err range_error
    else ok (ranges_from min max desired_range 0 (ceil_div (max - min) desired_range))

abbrev pub get_topics_from_events : LogNode → List EventName → Text → List (List Text)
get_topics_from_events node names manager_address =
    map node.event_topic names ∷ (node.encode_address manager_address ∷ []) ∷ []

-- `fromBlock || 1`.
abbrev pub from_block_number : Option ℕ → ℕ
from_block_number none = 1
from_block_number (some n) = if n == 0 then 1 else n

abbrev pub range_filter : LogNode → List (List Text) → BlockRange → Filter
range_filter node topics r = record {
  address = node.hub_address;
  topics = topics;
  from_block = some r.from;
  to_block = some (number r.to);
}

abbrev pub as_filters :
    LogNode → List (List Text) → Outcome (List BlockRange) → Outcome (List Filter)
as_filters node topics (ok rs) = ok (map (range_filter node topics) rs)
as_filters node topics (err e) = err e

-- The filters, once the number of the last block is known: `range > maxBlockRange`, over the
-- integers.
unfoldable pub filters_to :
    LogNode → List (List Text) → PastEventOptions → ℕ → Outcome (List Filter)
filters_to node topics options to_block_number =
    let from = from_block_number options.from_block in
    let split = as_filters node topics (split_range from to_block_number node.max_block_range) in
    if ltb (from + node.max_block_range) to_block_number
    then split
    else ok (
        record {
          address = node.hub_address;
          topics = topics;
          from_block = options.from_block;
          to_block = options.to_block;
        }
        ∷ [])

-- `retry`: the attempts from the given one on, with the retries left.
abbrev pub retry : (ℕ → Option (List TypedEvent)) → ℕ → ℕ → Option (List TypedEvent)
retry ask attempt zero = ask attempt
retry ask attempt (suc left) =
    let later = retry ask (attempt + 1) left in
    elim (ask attempt) [ none ↦ later | some logs ↦ some logs ]

-- `Promise.allSettled`, of which the fulfilled results are kept and joined.
abbrev pub perform_log_requests : LogNode → ℕ → List Filter → List TypedEvent
perform_log_requests node batch [] = []
perform_log_requests node batch (f ∷ fs) =
    let rest = perform_log_requests node batch fs in
    elim (retry (node.get_logs batch f) 1 3) [ none ↦ rest | some logs ↦ logs ++ rest ]

module _ {Store : Type 0} (node : LogNode) where
  -- `!toBlock || toBlock === 'latest'` asks the node.
  abbrev pub to_block_number : Option BlockTag → Action (World Store) ℕ
  to_block_number none = call node.block_number
  to_block_number (some latest) = call node.block_number
  to_block_number (some (number n)) = if n == 0 then call node.block_number else pure n

  unfoldable pub get_log_filters :
      Text → PastEventOptions → List EventName → Action (World Store) (List Filter)
  get_log_filters manager_address options names = do
    last ← to_block_number options.to_block
    lift (filters_to node (get_topics_from_events node names manager_address) options last)

  abbrev pub request_logs : List Filter → Action (World Store) (List TypedEvent)
  request_logs filters w =
      (ok (perform_log_requests node w.calls filters), record w { calls = w.calls + 1 })

  unfoldable pub get_past_events_for_hub :
      Text → PastEventOptions → List EventName → Action (World Store) (List TypedEvent)
  get_past_events_for_hub manager_address options names = do
    filters ← get_log_filters manager_address options names
    request_logs filters

-- The comparison of `getLatestEventData`, which puts the latest event first.
abbrev pub later_first : TypedEvent → TypedEvent → Bool
later_first a b =
    if a.block_number == b.block_number
    then leb b.transaction_index a.transaction_index
    else leb b.block_number a.block_number

unfoldable pub get_latest_event_data : List TypedEvent → Option TypedEvent
get_latest_event_data events = elim (sort later_first events) [ [] ↦ none | e ∷ es ↦ some e ]

unfoldable pub is_second_event_later : TypedEvent → TypedEvent → Bool
is_second_event_later a b =
    if a.block_number == b.block_number
    then ltb a.transaction_index b.transaction_index
    else ltb a.block_number b.block_number
