-- ===== src/Generator/Routing.antt =====
-- The component as a whole: which state an event reaches, and what tracking and stopping do.
use cryptobot.Common.{true, none, some, [], ◌≡◌, ◌≢◌, arith}
use cryptobot.Common.Dict
use cryptobot.Common.Dict.{Dict}
use cryptobot.Types.{ExchangeId, TradingPair, exchange_eq_iff, pair_key}
use cryptobot.Generator.{
  Diff, Snapshot, BidAskState, Policy, Component, state_of, new_state, handle_diff, handle_snapshot,
  handle_new_snapshot_event, handle_book_diff_snapshot_event, RequestBbo, request_diff,
  k_frequency_ms_invalid, request_snapshot, request_new_snapshot, request_subscribe_to_diff,
  handle_tracking_new_trading_pair, handle_cancellation,
}

-- A diff from Binance is handled on the state of its own trading pair, and its outputs are those
-- of that state; the states of the other pairs stay as they are.
pub handle_book_diff_snapshot_event_lem :
    (policy : Policy) (d : Diff) (c : Component) (pair : TradingPair)
    → d.exchange_id ≡ ExchangeId.k_binance
    → pair ≢ d.trading_pair
    → let (c', out) = handle_book_diff_snapshot_event policy d c in
      let step = handle_diff policy c.callbacks d (state_of d.trading_pair c) in
      (state_of d.trading_pair c' ≡ step.0) × (out ≡ step.1) × (state_of pair c' ≡ state_of pair c)
unfolding handle_book_diff_snapshot_event state_of
handle_book_diff_snapshot_event_lem policy d c pair h n =
    let step = handle_diff policy c.callbacks d (state_of d.trading_pair c) in
    ground (
      arith,
      exchange_eq_iff d.exchange_id ExchangeId.k_binance,
      Dict.lookup-insert d.trading_pair d.trading_pair step.0 c.state_map,
      Dict.lookup-insert d.trading_pair pair step.0 c.state_map,
    )

-- A snapshot from Binance replaces the snapshot of its own pair, and a diff or a snapshot of any
-- other exchange changes nothing and hands on nothing.
pub events_routed :
    (policy : Policy) (d : Diff) (s : Snapshot) (c : Component)
    → s.exchange_id ≡ ExchangeId.k_binance
    → d.exchange_id ≢ ExchangeId.k_binance
    → (state_of s.trading_pair (handle_new_snapshot_event s c)
        ≡ handle_snapshot s (state_of s.trading_pair c))
      × (handle_book_diff_snapshot_event policy d c ≡ (c, []))
unfolding handle_book_diff_snapshot_event handle_new_snapshot_event state_of
events_routed policy d s c h n = ground (
  arith,
  exchange_eq_iff d.exchange_id ExchangeId.k_binance,
  exchange_eq_iff s.exchange_id ExchangeId.k_binance,
  Dict.lookup-insert s.trading_pair s.trading_pair (handle_snapshot s (state_of s.trading_pair c))
      c.state_map,
)

-- A pair that is not tracked yet is subscribed to, with the data of the event; afterwards a
-- snapshot can be asked for it, and tracking it a second time changes nothing and sends nothing.
tracking_lem :
    (evt evt' : RequestBbo) (c : Component)
    → Dict.lookup evt.trading_pair c.request_bbo ≡ none
    → evt'.trading_pair ≡ evt.trading_pair
    → let (c', sent) = handle_tracking_new_trading_pair evt c in
      (sent
        ≡ some (request_diff evt.exchange_id evt.trading_pair k_frequency_ms_invalid true evt.id))
      × (request_new_snapshot evt.trading_pair c'
          ≡ some (request_snapshot evt.exchange_id evt.trading_pair evt.snapshot_depth))
      × (handle_tracking_new_trading_pair evt' c' ≡ (c', none))
unfolding handle_tracking_new_trading_pair request_new_snapshot request_subscribe_to_diff
tracking_lem evt evt' c h e =
    ground (arith, Dict.lookup-insert evt.trading_pair evt.trading_pair evt c.request_bbo)

-- After a cancellation no pair is tracked and each pair starts from the initial state, while the
-- callbacks stay registered.
pub handle_cancellation_lem :
    (pair : TradingPair) (c : Component)
    → (request_new_snapshot pair (handle_cancellation c) ≡ none)
      × (state_of pair (handle_cancellation c) ≡ new_state)
      × ((handle_cancellation c).callbacks ≡ c.callbacks)
unfolding handle_cancellation request_new_snapshot state_of
handle_cancellation_lem pair c =
    ground (arith, Dict.lookup-nil {V = BidAskState} pair, Dict.lookup-nil {V = RequestBbo} pair)
