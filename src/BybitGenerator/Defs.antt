-- ===== src/BybitGenerator/Defs.antt =====
-- The handlers of Bybit's BidAskGeneratorComponent. A coroutine that a handler spawns is an output,
-- `spawn_subscribe`, which the strand runs later.
use cryptobot.Common.{
  Bool, true, false, ◌&&◌, not, Option, none, some, List, [], ◌∷◌, ◌==◌, if◌then◌else◌,
}
use cryptobot.Common.Dict
use cryptobot.Common.Dict.{Dict}
use cryptobot.Types.{ExchangeId, TradingPair, exchange_eq, pair_key}
use cryptobot.Generator.{
  Diff, Snapshot, BidAskState, next_id, Callbacks, RequestBbo, Request, request_diff, new_state,
}

pub data Output : Type 0 where
  spawn_subscribe : Bool → TradingPair → Output
  snapshot_callback : Snapshot → Output
  diff_callback : Diff → Output

-- `diff.last_id != state.last_id_diff_book_event + 1`.
unfoldable pub is_lost : Diff → BidAskState → Bool
is_lost diff state = not (diff.last_id == next_id state.last_id_diff_book_event)

-- The branch `if (state.need_make_snapshot)`.
unfoldable pub synchronize : Diff → BidAskState → BidAskState
synchronize diff state =
    if state.need_make_snapshot && (diff.last_id == next_id state.snapshot.last_update_id)
    then record state { need_make_snapshot = false; need_process_current_snapshot = true }
    else state

-- What HandleBookDiffSnapshotEvent does from `if (state.need_process_current_snapshot)` on.
unfoldable pub hand_on : Callbacks → Diff → BidAskState → BidAskState × List Output
hand_on cb diff state =
    let pending = state.need_process_current_snapshot in
    let state' =
      if pending
      then record state { need_process_current_snapshot = false; need_process_current_diff = true }
      else state in
    let passes = not state'.diff_packet_lost && state'.need_process_current_diff && cb.for_diffs in
    let diffs = if passes then diff_callback diff ∷ [] else [] in
    let out =
      if pending
      then (if cb.for_snapshots then snapshot_callback state.snapshot ∷ diffs else [])
      else diffs in
    (state', out)

-- HandleBookDiffSnapshotEvent, on the state of the diff's trading pair.
unfoldable pub handle_diff : Callbacks → Diff → BidAskState → BidAskState × List Output
unfolding is_lost synchronize hand_on
handle_diff cb diff state =
    let lost = is_lost diff state in
    let seen : BidAskState = record state {
      diff_packet_lost = lost;
      last_id_diff_book_event = diff.last_id;
    } in
    if lost
    then (
      seen,
      spawn_subscribe false diff.trading_pair ∷ spawn_subscribe true diff.trading_pair ∷ [],
    )
    else hand_on cb diff (synchronize diff seen)

-- HandleNewSnapshotEvent, on the state of the snapshot's trading pair.
unfoldable pub handle_snapshot : Snapshot → BidAskState → BidAskState
handle_snapshot s state =
    if state.snapshot.last_update_id == s.last_update_id
    then record state { need_process_current_snapshot = false }
    else record state {
      need_process_current_snapshot = true;
      snapshot = s;
      last_id_diff_book_event = s.last_update_id;
    }

pub record Component : Type 0 where
  pub callbacks : Callbacks
  pub state_map : Dict TradingPair BidAskState
  pub request_bbo : Dict TradingPair RequestBbo

-- `state_map_[trading_pair]`.
unfoldable pub state_of : TradingPair → Component → BidAskState
state_of pair c = elim (Dict.lookup pair c.state_map) [ none ↦ new_state | some s ↦ s ]

unfoldable pub handle_new_snapshot_event : Snapshot → Component → Component
unfolding state_of
handle_new_snapshot_event s c =
    if exchange_eq s.exchange_id ExchangeId.k_bybit
    then record c {
      state_map =
          Dict.insert s.trading_pair (handle_snapshot s (state_of s.trading_pair c)) c.state_map;
    }
    else c

unfoldable pub handle_book_diff_snapshot_event : Diff → Component → Component × List Output
unfolding state_of
handle_book_diff_snapshot_event diff c =
    let (state, out) = handle_diff c.callbacks diff (state_of diff.trading_pair c) in
    if exchange_eq diff.exchange_id ExchangeId.k_bybit
    then (record c { state_map = Dict.insert diff.trading_pair state c.state_map }, out)
    else (c, [])

-- RequestSubscribeToDiff<subscribe>, the coroutine of `spawn_subscribe`: `none` where the pair is
-- not tracked.
unfoldable pub request_subscribe_to_diff : Bool → TradingPair → Component → Option Request
request_subscribe_to_diff subscribe pair c = elim (Dict.lookup pair c.request_bbo) [
  | none ↦ none
  | some info ↦
      some (request_diff info.exchange_id info.trading_pair info.snapshot_depth subscribe info.id)
]

unfoldable pub handle_tracking_new_trading_pair :
    RequestBbo → Component → Component × Option Request
unfolding request_subscribe_to_diff
handle_tracking_new_trading_pair evt c =
    let c' : Component =
      if Dict.contains evt.trading_pair c.request_bbo
      then c
      else record c { request_bbo = Dict.insert evt.trading_pair evt c.request_bbo } in
    (c', request_subscribe_to_diff evt.subscribe evt.trading_pair c')

unfoldable pub handle_cancellation : Component → Component
handle_cancellation c = record c { state_map = []; request_bbo = [] }
