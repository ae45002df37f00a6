-- ===== src/Generator/Defs.antt =====
-- The state of one trading pair, the handlers of the component, and what they hand on. A coroutine
-- that a handler spawns is an output, `spawn_request`, which the strand runs later.
use cryptobot.Common.{
  ℕ, ◌+◌, ◌-◌, ◌%◌, ◌^◌, Bool, true, false, ◌&&◌, ◌||◌, not, Option, none, some, List, [], ◌∷◌, leb,
  ◌==◌, if◌then◌else◌,
}
use cryptobot.Common.Dict
use cryptobot.Common.Dict.{Dict}
use cryptobot.Types.{ExchangeId, TradingPair, exchange_eq, pair_key}
use cryptobot.OrderBook.Book2.{Levels}

pub record Diff : Type 0 where
  pub exchange_id : ExchangeId
  pub trading_pair : TradingPair
  pub levels : Levels
  pub first_id : ℕ
  pub last_id : ℕ
  pub prev_id : ℕ

pub record Snapshot : Type 0 where
  pub exchange_id : ExchangeId
  pub trading_pair : TradingPair
  pub levels : Levels
  pub last_update_id : ℕ

pub record BidAskState : Type 0 where
  pub need_make_snapshot : Bool
  pub diff_packet_lost : Bool
  pub need_process_current_snapshot : Bool
  pub need_process_current_diff : Bool
  pub snapshot_and_diff_now_sync : Bool
  pub last_id_diff_book_event : ℕ
  pub snapshot : Snapshot

abbrev pub new_snapshot : Snapshot
new_snapshot = record {
  exchange_id = ExchangeId.k_invalid;
  trading_pair = record { first = 0; second = 0 };
  levels = record { bids = []; asks = [] };
  last_update_id = 0;
}

abbrev pub new_state : BidAskState
new_state = record {
  need_make_snapshot = true;
  diff_packet_lost = true;
  need_process_current_snapshot = false;
  need_process_current_diff = false;
  snapshot_and_diff_now_sync = false;
  last_id_diff_book_event = 0;
  snapshot = new_snapshot;
}

-- `Reset`, which keeps the snapshot.
unfoldable pub reset : BidAskState → BidAskState
reset state = record new_state { snapshot = state.snapshot }

-- SpotPolicy and FuturesPolicy.
pub data Policy : Type 0 where
  spot futures : Policy

-- `n + 1` on uint64_t.
abbrev pub next_id : ℕ → ℕ
next_id n = (n + 1) % 2 ^ 64

unfoldable pub check_packet_loss : Policy → Diff → BidAskState → Bool
check_packet_loss Policy.spot diff state =
    not (diff.first_id == next_id state.last_id_diff_book_event)
check_packet_loss Policy.futures diff state = not (diff.prev_id == state.last_id_diff_book_event)

pub data Output : Type 0 where
  spawn_request : TradingPair → Output
  snapshot_callback : Snapshot → Output
  diff_callback : Diff → Output

-- Which of the two callbacks are registered.
pub record Callbacks : Type 0 where
  pub for_snapshots : Bool
  pub for_diffs : Bool

-- `first_id <= lastUpdateId + 1 && last_id >= lastUpdateId + 1`.
abbrev pub in_sync : Diff → Snapshot → Bool
in_sync diff s =
    leb diff.first_id (next_id s.last_update_id) && leb (next_id s.last_update_id) diff.last_id

-- The part of HandleBookDiffSnapshotEvent from `if (state.need_process_current_snapshot)` on.
unfoldable pub forward : Callbacks → Diff → BidAskState → BidAskState × List Output
forward cb diff state =
    let state' =
      if state.need_process_current_snapshot
      then record state { need_process_current_snapshot = false; need_process_current_diff = true }
      else state in
    let stops = state.need_process_current_snapshot && not cb.for_snapshots in
    let passes = not state'.diff_packet_lost && state'.need_process_current_diff && cb.for_diffs in
    (
      state',
      if stops
          then []
          else if state.need_process_current_snapshot
          then snapshot_callback state.snapshot ∷ (if passes then diff_callback diff ∷ [] else [])
          else (if passes then diff_callback diff ∷ [] else []),
    )

-- The part of HandleBookDiffSnapshotEvent that asks for a snapshot, or finds the diff outdated.
unfoldable pub ask_for_snapshot : Diff → BidAskState → BidAskState × List Output
ask_for_snapshot diff state =
    if leb diff.last_id state.snapshot.last_update_id
    then (state, [])
    else (record state { need_make_snapshot = true }, spawn_request diff.trading_pair ∷ [])

-- HandleBookDiffSnapshotEvent, on the state of the diff's trading pair.
unfoldable pub handle_diff : Policy → Callbacks → Diff → BidAskState → BidAskState × List Output
unfolding forward ask_for_snapshot check_packet_loss
handle_diff policy cb diff state =
    let lost = check_packet_loss policy diff state in
    let seen : BidAskState = record state {
      diff_packet_lost = lost;
      last_id_diff_book_event = diff.last_id;
    } in
    let synced =
      if seen.need_make_snapshot && in_sync diff seen.snapshot
      then record seen { need_make_snapshot = false; need_process_current_snapshot = true }
      else seen in
    if synced.need_make_snapshot || synced.diff_packet_lost
    then ask_for_snapshot diff synced
    else forward cb diff synced

-- HandleNewSnapshotEvent, on the state of the snapshot's trading pair.
unfoldable pub handle_snapshot : Snapshot → BidAskState → BidAskState
handle_snapshot s state = record state { snapshot = s }

pub record RequestBbo : Type 0 where
  pub exchange_id : ExchangeId
  pub trading_pair : TradingPair
  pub snapshot_depth : ℕ
  pub subscribe : Bool
  pub id : ℕ

-- common::kFrequencyMSInvalid
abbrev pub k_frequency_ms_invalid : ℕ
k_frequency_ms_invalid = 2 ^ 64 - 1

-- What is sent to the bus; the number of a request_diff before the flag is its frequency.
pub data Request : Type 0 where
  request_snapshot : ExchangeId → TradingPair → ℕ → Request
  request_diff : ExchangeId → TradingPair → ℕ → Bool → ℕ → Request

pub record Component : Type 0 where
  pub callbacks : Callbacks
  pub state_map : Dict TradingPair BidAskState
  pub request_bbo : Dict TradingPair RequestBbo

-- `state_map_[trading_pair]`.
unfoldable pub state_of : TradingPair → Component → BidAskState
state_of pair c = elim (Dict.lookup pair c.state_map) [ none ↦ new_state | some s ↦ s ]

unfoldable pub handle_new_snapshot_event : Snapshot → Component → Component
unfolding state_of
handle_new_snapshot_event s c =
    if exchange_eq s.exchange_id ExchangeId.k_binance
    then record c {
      state_map =
          Dict.insert s.trading_pair (handle_snapshot s (state_of s.trading_pair c)) c.state_map;
    }
    else c

unfoldable pub handle_book_diff_snapshot_event : Policy → Diff → Component → Component × List Output
unfolding state_of
handle_book_diff_snapshot_event policy diff c =
    let (state, out) = handle_diff policy c.callbacks diff (state_of diff.trading_pair c) in
    if exchange_eq diff.exchange_id ExchangeId.k_binance
    then (record c { state_map = Dict.insert diff.trading_pair state c.state_map }, out)
    else (c, [])

-- RequestNewSnapshot and RequestSubscribeToDiff<true>: `none` where the pair is not tracked.
unfoldable pub request_new_snapshot : TradingPair → Component → Option Request
request_new_snapshot pair c = elim (Dict.lookup pair c.request_bbo) [
  | none ↦ none
  | some info ↦ some (request_snapshot info.exchange_id info.trading_pair info.snapshot_depth)
]

unfoldable pub request_subscribe_to_diff : Bool → TradingPair → Component → Option Request
request_subscribe_to_diff subscribe pair c = elim (Dict.lookup pair c.request_bbo) [
  | none ↦ none
  | some info ↦
      some
        (request_diff info.exchange_id info.trading_pair k_frequency_ms_invalid subscribe info.id)
]

unfoldable pub handle_tracking_new_trading_pair :
    RequestBbo → Component → Component × Option Request
unfolding request_subscribe_to_diff
handle_tracking_new_trading_pair evt c =
    let c' = record c { request_bbo = Dict.insert evt.trading_pair evt c.request_bbo } in
    if Dict.contains evt.trading_pair c.request_bbo
    then (c, none)
    else (c', request_subscribe_to_diff true evt.trading_pair c')

unfoldable pub handle_cancellation : Component → Component
handle_cancellation c = record c { state_map = []; request_bbo = [] }
