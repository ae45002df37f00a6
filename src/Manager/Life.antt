-- ===== src/Manager/Life.antt =====
-- How an order comes to be, what the responses do to it, and when its side can be used again.
use cryptobot.Common.{
  ℕ, ◌+◌, ◌%◌, ◌^◌, Bool, true, false, none, ◌∷◌, ◌&&◌, if◌then◌else◌, ◌≡◌, arith,
}
use cryptobot.Common.Dict
use cryptobot.Types.{
  ExchangeId, Side, TradingPair, pair_eq, pair_eq_iff, pair_key, side_eq, side_eq_iff,
  k_order_id_invalid,
}
use cryptobot.Response.{Response, ClientResponseType}
use cryptobot.Manager.Defs.{
  OmOrder, OmOrderState, OrderManager, new_request, cancel_request, get_order, set_order, send,
  order_is_live, order_after, new_order, cancel_order, on_order_response, slots_of, set_slot,
  slot_at, backtest_new_order, backtest_cancel_order,
}
use cryptobot.Manager.Slots.{get-set}

-- What a NewOrder makes of a side.
abbrev pub placed : TradingPair → (price : ℕ) → Side → (qty id : ℕ) → OmOrderState → OmOrder
placed pair price side qty id state = record {
  trading_pair = pair;
  order_id = id;
  side = side;
  price = price;
  qty = qty;
  state = state;
}

-- Where the side has no live order, NewOrder makes one that is pending under the next id, hands
-- the request with that id to the queue, counts the id on, and leaves all other orders alone.
pub new_order_lem :
    (room : Bool) (e : ExchangeId) (p q : TradingPair) (price : ℕ) (s t : Side) (qty : ℕ)
    (m : OrderManager)
    → order_is_live (get_order p s m).state ≡ false
    → let m' = new_order room e p price s qty m in
      (get_order q t m' ≡ (
        if pair_eq p q && side_eq s t
        then placed p price s qty m.next_order_id OmOrderState.pending_new
        else get_order q t m))
      × (m'.next_order_id ≡ (m.next_order_id + 1) % 2 ^ 64)
      × (m'.requests
          ≡ (if room then new_request e p m.next_order_id s price qty ∷ m.requests else m.requests))
unfolding new_order send get_order set_order
new_order_lem room e p q price s t qty m free =
    ground
      (arith, get-set p q s t (placed p price s qty m.next_order_id OmOrderState.pending_new) m)

-- While the side has a live order, NewOrder sends nothing, uses no id and changes no order.
pub new_order_live :
    (room : Bool) (e : ExchangeId) (p q : TradingPair) (price : ℕ) (s t : Side) (qty : ℕ)
    (m : OrderManager)
    → order_is_live (get_order p s m).state ≡ true
    → let m' = new_order room e p price s qty m in
      (get_order q t m' ≡ get_order q t m)
      × (m'.next_order_id ≡ m.next_order_id)
      × (m'.requests ≡ m.requests)
unfolding new_order send set_order
new_order_live room e p q price s t qty m live =
    ground (arith, get-set p q s t (get_order p s m) m, pair_eq_iff p q, side_eq_iff s t)

known_after_set :
    (p : TradingPair) (s : Side) (o : OmOrder) (m : OrderManager)
    → Dict.contains p (set_order p s o m).ticker_side_order ≡ true
unfolding set_order
known_after_set p s o m =
    ground (arith, Dict.lookup-insert p p (set_slot s o (slots_of p m)) m.ticker_side_order)

known_after_new :
    (room : Bool) (e : ExchangeId) (p : TradingPair) (price : ℕ) (s : Side) (qty : ℕ)
    (m : OrderManager)
    → Dict.contains p (new_order room e p price s qty m).ticker_side_order ≡ true
unfolding new_order send
known_after_new room e p price s qty m = ground (
  arith,
  known_after_set p s (get_order p s m) m,
  known_after_set p s (placed p price s qty m.next_order_id OmOrderState.pending_new) m,
  known_after_set p s (placed p price s qty m.next_order_id OmOrderState.pending_new)
      (send room (new_request e p m.next_order_id s price qty) m),
)

-- A response for a pair that is known moves the order of its side as its type says, touches no
-- other order, sends nothing and uses no id.
pub on_order_response_lem :
    (r : Response) (q : TradingPair) (t : Side) (m : OrderManager)
    → Dict.contains r.trading_pair m.ticker_side_order ≡ true
    → let m' = on_order_response r m in
      (get_order q t m' ≡ (
        if pair_eq r.trading_pair q && side_eq r.side t
        then order_after r.type r.leaves_qty (get_order r.trading_pair r.side m)
        else get_order q t m))
      × (m'.next_order_id ≡ m.next_order_id)
      × (m'.requests ≡ m.requests)
unfolding on_order_response set_order
on_order_response_lem r q t m known = ground (
  arith,
  get-set r.trading_pair q r.side t
      (order_after r.type r.leaves_qty (get_order r.trading_pair r.side m)) m,
)

-- On a side with no live order: an order that is placed there, then filled with nothing left, frees
-- its side: the order's state is DEAD with no quantity, so a further NewOrder makes an order again,
-- under the id after.
filled_frees :
    (room : Bool) (e : ExchangeId) (p : TradingPair) (price : ℕ) (s : Side) (qty : ℕ)
    (m : OrderManager) (r : Response)
    → order_is_live (get_order p s m).state ≡ false
    → r.type ≡ ClientResponseType.filled
    → r.leaves_qty ≡ 0
    → r.trading_pair ≡ p
    → r.side ≡ s
    → let after = on_order_response r (new_order room e p price s qty m) in
      (get_order p s after ≡ placed p price s 0 m.next_order_id OmOrderState.dead)
      × (get_order p s (new_order room e p price s qty after)
          ≡ placed p price s qty ((m.next_order_id + 1) % 2 ^ 64) OmOrderState.pending_new)
unfolding order_after
filled_frees room e p price s qty m r free f l eq_p eq_s =
    let m1 = new_order room e p price s qty m in
    let m2 = on_order_response r m1 in
    ground (
      arith,
      new_order_lem room e p p price s s qty m free,
      known_after_new room e p price s qty m,
      on_order_response_lem r p s m1,
      new_order_lem room e p p price s s qty m2,
      pair_eq_iff p p,
      side_eq_iff s s,
    )

-- Cancelling on a pair that never had an order sends a request for the reserved order id of no
-- pair, and from then on the side counts as live: NewOrder sends nothing there and uses no id.
pub cancel_blocks :
    (e : ExchangeId) (p : TradingPair) (price : ℕ) (s : Side) (qty : ℕ) (m : OrderManager)
    → Dict.lookup p m.ticker_side_order ≡ none
    → let m1 = cancel_order true e p s m in
      (m1.requests
        ≡ cancel_request e (record { first = 0; second = 0 }) k_order_id_invalid ∷ m.requests)
      × ((new_order true e p price s qty m1).requests ≡ m1.requests)
      × ((new_order true e p price s qty m1).next_order_id ≡ m.next_order_id)
unfolding cancel_order set_order send get_order slot_at
cancel_blocks e p price s qty m new =
    let m1 = cancel_order true e p s m in
    ground (
      arith,
      get-set p p s s (record (get_order p s m) { state = OmOrderState.pending_cancel })
          (send true (cancel_request e (get_order p s m).trading_pair (get_order p s m).order_id)
            m),
      new_order_live true e p p price s s qty m1,
      pair_eq_iff p p,
      side_eq_iff s s,
    )

-- In a backtest an order is live from the start, and after a cancellation its side takes the
-- next one.
pub backtest_cycle :
    (p : TradingPair) (price : ℕ) (s : Side) (qty : ℕ) (m : OrderManager)
    → order_is_live (get_order p s m).state ≡ false
    → let m1 = backtest_new_order p price s qty m in
      let m2 = backtest_new_order p price s qty (backtest_cancel_order p s m1) in
      (get_order p s m1 ≡ placed p price s qty m.next_order_id OmOrderState.live)
      × (get_order p s m2 ≡ placed p price s qty ((m.next_order_id + 1) % 2 ^ 64) OmOrderState.live)
unfolding backtest_new_order backtest_cancel_order get_order set_order
backtest_cycle p price s qty m free =
    let o = placed p price s qty m.next_order_id OmOrderState.live in
    let m1 = backtest_new_order p price s qty m in
    let m2 = backtest_cancel_order p s m1 in
    ground (
      arith,
      get-set p p s s o m,
      get-set p p s s (record (get_order p s m1) { state = OmOrderState.dead }) m1,
      get-set p p s s (placed p price s qty m2.next_order_id OmOrderState.live) m2,
      pair_eq_iff p p,
      side_eq_iff s s,
    )
