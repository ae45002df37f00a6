-- ===== src/BybitGenerator/Routing.antt =====
-- The component as a whole: which state an event reaches, and what tracking and stopping do.
use cryptobot.Common.{true, false, none, some, List, [], ◌∷◌, ◌≡◌, ◌≢◌, arith}
use cryptobot.Common.Dict
use cryptobot.Types.{ExchangeId, TradingPair, exchange_eq_iff, pair_key}
use cryptobot.Generator.{
  Diff, Snapshot, BidAskState, RequestBbo, Request, request_diff, new_state, Callbacks,
}
use cryptobot.BybitGenerator.Defs.{
  Component, Output, spawn_subscribe, snapshot_callback, diff_callback, is_lost, state_of,
  handle_diff, handle_snapshot, handle_new_snapshot_event, handle_book_diff_snapshot_event,
  request_subscribe_to_diff, handle_tracking_new_trading_pair, handle_cancellation,
}

-- What the strand sends to the bus when it runs the coroutines that a handler spawned.
unfoldable pub sent : Component → List Output → List Request
unfolding request_subscribe_to_diff
sent c [] = []
sent c (spawn_subscribe b pair ∷ out) =
    let rest = sent c out in
    elim (request_subscribe_to_diff b pair c) [ none ↦ rest | some r ↦ r ∷ rest ]
sent c (snapshot_callback s ∷ out) = sent c out
sent c (diff_callback d ∷ out) = sent c out

lost_out :
    (cb : Callbacks) (d : Diff) (state : BidAskState)
    → is_lost d state ≡ true
    → (handle_diff cb d state).1
      ≡ spawn_subscribe false d.trading_pair ∷ spawn_subscribe true d.trading_pair ∷ []
unfolding handle_diff
lost_out cb d state l = ground arith

-- A diff from Bybit that does not have the next id makes the component send, for a pair that is
-- tracked, a request to unsubscribe and then one to subscribe, both with the exchange, the pair and
-- the id it was tracked with, and keeps what is tracked.
pub resubscribe_lem :
    (d : Diff) (info : RequestBbo) (c : Component)
    → d.exchange_id ≡ ExchangeId.k_bybit
    → is_lost d (state_of d.trading_pair c) ≡ true
    → Dict.lookup d.trading_pair c.request_bbo ≡ some info
    → let (c', out) = handle_book_diff_snapshot_event d c in
      (sent c' out
        ≡ request_diff info.exchange_id info.trading_pair info.snapshot_depth false info.id
          ∷ request_diff info.exchange_id info.trading_pair info.snapshot_depth true info.id
          ∷ [])
      × (c'.request_bbo ≡ c.request_bbo)
unfolding handle_book_diff_snapshot_event state_of sent request_subscribe_to_diff
resubscribe_lem d info c h l t =
    let o = lost_out c.callbacks d (state_of d.trading_pair c) l in
    ground (arith, exchange_eq_iff d.exchange_id ExchangeId.k_bybit, o)

-- A pair that is not tracked yet is tracked with the data of the event, and what is sent is the
-- event's own subscription or its end; a second event on the pair keeps the first one's data
-- and sends a request with them and the second event's `subscribe`.
pub tracking_twice :
    (evt evt' : RequestBbo) (c : Component)
    → Dict.lookup evt.trading_pair c.request_bbo ≡ none
    → evt'.trading_pair ≡ evt.trading_pair
    → let (c', sent) = handle_tracking_new_trading_pair evt c in
      (Dict.lookup evt.trading_pair c'.request_bbo ≡ some evt)
      × (sent
          ≡ some (
              request_diff evt.exchange_id evt.trading_pair evt.snapshot_depth evt.subscribe
                evt.id))
      × (handle_tracking_new_trading_pair evt' c' ≡ (
        c',
        some (
            request_diff evt.exchange_id evt.trading_pair evt.snapshot_depth evt'.subscribe evt.id),
      ))
unfolding handle_tracking_new_trading_pair request_subscribe_to_diff
tracking_twice evt evt' c h e =
    ground (arith, Dict.lookup-insert evt.trading_pair evt.trading_pair evt c.request_bbo)

-- A diff or a snapshot of one pair leaves the states of the other pairs as they are.
other_pairs_kept :
    (d : Diff) (s : Snapshot) (pair : TradingPair) (c : Component)
    → pair ≢ d.trading_pair
    → pair ≢ s.trading_pair
    → (state_of pair (handle_book_diff_snapshot_event d c).0 ≡ state_of pair c)
      × (state_of pair (handle_new_snapshot_event s c) ≡ state_of pair c)
unfolding handle_book_diff_snapshot_event handle_new_snapshot_event state_of
other_pairs_kept d s pair c nd ns =
    let seen = (handle_diff c.callbacks d (state_of d.trading_pair c)).0 in
    ground (
      arith,
      Dict.lookup-insert d.trading_pair pair seen c.state_map,
      Dict.lookup-insert s.trading_pair pair (handle_snapshot s (state_of s.trading_pair c))
          c.state_map,
    )

-- A diff or a snapshot of another exchange changes nothing and hands on nothing.
other_exchanges_ignored :
    (d : Diff) (s : Snapshot) (c : Component)
    → d.exchange_id ≢ ExchangeId.k_bybit
    → s.exchange_id ≢ ExchangeId.k_bybit
    → (handle_book_diff_snapshot_event d c ≡ (c, [])) × (handle_new_snapshot_event s c ≡ c)
unfolding handle_book_diff_snapshot_event handle_new_snapshot_event state_of
other_exchanges_ignored d s c nd ns = ground (
  arith,
  exchange_eq_iff d.exchange_id ExchangeId.k_bybit,
  exchange_eq_iff s.exchange_id ExchangeId.k_bybit,
)

-- After a cancellation no pair is tracked, so nothing is sent for any outputs, each pair starts
-- from the initial state, and the callbacks stay registered.
pub cancellation_lem :
    (pair : TradingPair) (out : List Output) (c : Component)
    → (sent (handle_cancellation c) out ≡ [])
      × (state_of pair (handle_cancellation c) ≡ new_state)
      × ((handle_cancellation c).callbacks ≡ c.callbacks)
unfolding handle_cancellation state_of sent request_subscribe_to_diff
cancellation_lem pair [] c = ground (arith, Dict.lookup-nil {V = BidAskState} pair)
cancellation_lem pair (spawn_subscribe b p ∷ out) c =
    ground (arith, Dict.lookup-nil {V = RequestBbo} p, cancellation_lem pair out c)
cancellation_lem pair (snapshot_callback s ∷ out) c = cancellation_lem pair out c
cancellation_lem pair (diff_callback d ∷ out) c = cancellation_lem pair out c
