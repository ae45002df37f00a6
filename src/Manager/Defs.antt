-- ===== src/Manager/Defs.antt =====
-- The orders that the manager keeps, and what NewOrder, CancelOrder and OnOrderResponse do to them.
-- A request is one that SendRequestNewOrder or SendRequestCancelOrder put into the queue; `room`
-- is the answer of the queue's try_enqueue, which the manager does not see.
use cryptobot.Common.{
  ℕ, ◌+◌, ◌%◌, ◌^◌, Bool, true, false, none, some, List, [], ◌∷◌, ◌==◌, if◌then◌else◌,
}
use cryptobot.Common.Dict
use cryptobot.Common.Dict.{Dict}
use cryptobot.Types.{
  ExchangeId, Side, TradingPair, pair_key, side_to_index, k_order_id_invalid, k_price_invalid,
  k_qty_invalid,
}
use cryptobot.Response.{Response, ClientResponseType}

pub data OmOrderState : Type 0 where
  invalid pending_new live pending_cancel dead : OmOrderState

pub record OmOrder : Type 0 where
  pub trading_pair : TradingPair
  pub order_id : ℕ
  pub side : Side
  pub price : ℕ
  pub qty : ℕ
  pub state : OmOrderState

abbrev pub new_om_order : OmOrder
new_om_order = record {
  trading_pair = record { first = 0; second = 0 };
  order_id = k_order_id_invalid;
  side = Side.k_invalid;
  price = k_price_invalid;
  qty = k_qty_invalid;
  state = OmOrderState.invalid;
}

-- OMOrderSideHashMap: an array of sideToIndex(kMax) + 1 = 4 orders.
pub record OmOrderSideHashMap : Type 0 where
  pub slot_0 : OmOrder
  pub slot_1 : OmOrder
  pub slot_2 : OmOrder
  pub slot_3 : OmOrder

abbrev pub new_slots : OmOrderSideHashMap
new_slots = record {
  slot_0 = new_om_order;
  slot_1 = new_om_order;
  slot_2 = new_om_order;
  slot_3 = new_om_order;
}

-- `.at(sideToIndex(side))`, which no side takes out of range.
unfoldable pub slot_at : Side → OmOrderSideHashMap → OmOrder
slot_at side a =
    let i = side_to_index side in
    if i == 0 then a.slot_0 else if i == 1 then a.slot_1 else if i == 2 then a.slot_2 else a.slot_3

unfoldable pub set_slot : Side → OmOrder → OmOrderSideHashMap → OmOrderSideHashMap
set_slot side o a =
    let i = side_to_index side in
    if i == 0
    then record a { slot_0 = o }
    else if i == 1
    then record a { slot_1 = o }
    else if i == 2
    then record a { slot_2 = o }
    else record a { slot_3 = o }

pub data Request : Type 0 where
  new_request : ExchangeId → TradingPair → (order_id : ℕ) → Side → (price qty : ℕ) → Request
  cancel_request : ExchangeId → TradingPair → (order_id : ℕ) → Request

pub record OrderManager : Type 0 where
  pub ticker_side_order : Dict TradingPair OmOrderSideHashMap
  pub next_order_id : ℕ
  -- What the queues of the trade engine were given, the latest first.
  pub requests : List Request

abbrev pub new_order_manager : OrderManager
new_order_manager = record { ticker_side_order = []; next_order_id = 1; requests = [] }

abbrev pub slots_of : TradingPair → OrderManager → OmOrderSideHashMap
slots_of pair m = elim (Dict.lookup pair m.ticker_side_order) [ none ↦ new_slots | some a ↦ a ]

-- What GetOrder points to.
unfoldable pub get_order : TradingPair → Side → OrderManager → OmOrder
unfolding slot_at
get_order pair side m = slot_at side (slots_of pair m)

-- `*order = o` through the pointer of GetOrder.
unfoldable pub set_order : TradingPair → Side → OmOrder → OrderManager → OrderManager
unfolding set_slot
set_order pair side o m = record m {
  ticker_side_order = Dict.insert pair (set_slot side o (slots_of pair m)) m.ticker_side_order;
}

abbrev pub order_is_live : OmOrderState → Bool
order_is_live OmOrderState.dead = false
order_is_live OmOrderState.invalid = false
order_is_live _ = true

unfoldable pub send : Bool → Request → OrderManager → OrderManager
send room r m = if room then record m { requests = r ∷ m.requests } else m

unfoldable pub new_order :
    Bool → ExchangeId → TradingPair → (price : ℕ) → Side → (qty : ℕ) → OrderManager → OrderManager
unfolding get_order set_order send
new_order room exchange pair price side qty m =
    let id = m.next_order_id in
    let o : OmOrder = record {
      trading_pair = pair;
      order_id = id;
      side = side;
      price = price;
      qty = qty;
      state = OmOrderState.pending_new;
    } in
    let sent = send room (new_request exchange pair id side price qty) m in
    if order_is_live (get_order pair side m).state
    then set_order pair side (get_order pair side m) m
    else record (set_order pair side o sent) { next_order_id = (id + 1) % 2 ^ 64 }

unfoldable pub cancel_order : Bool → ExchangeId → TradingPair → Side → OrderManager → OrderManager
unfolding get_order set_order send
cancel_order room exchange pair side m =
    let o = get_order pair side m in
    set_order pair side (record o { state = OmOrderState.pending_cancel })
      (send room (cancel_request exchange o.trading_pair o.order_id) m)

-- The switch of OnOrderResponse on the type of the response.
unfoldable pub order_after : ClientResponseType → (leaves_qty : ℕ) → OmOrder → OmOrder
order_after ClientResponseType.accepted leaves o = record o { state = OmOrderState.live }
order_after ClientResponseType.canceled leaves o = record o { state = OmOrderState.dead }
order_after ClientResponseType.filled leaves o =
    if leaves == 0
    then record o { qty = leaves; state = OmOrderState.dead }
    else record o { qty = leaves }
order_after ClientResponseType.cancel_rejected leaves o = o
order_after ClientResponseType.invalid leaves o = o

-- OnOrderResponse(IResponse*); MEClientResponse's does the same.
unfoldable pub on_order_response : Response → OrderManager → OrderManager
unfolding set_order
on_order_response r m =
    if Dict.contains r.trading_pair m.ticker_side_order
    then set_order r.trading_pair r.side
        (order_after r.type r.leaves_qty (get_order r.trading_pair r.side m)) m
    else m

-- backtesting::OrderManager: its orders are those of the base class, which GetOrder reaches.
unfoldable pub backtest_new_order :
    TradingPair → (price : ℕ) → Side → (qty : ℕ) → OrderManager → OrderManager
unfolding get_order set_order
backtest_new_order pair price side qty m =
    let id = m.next_order_id in
    let o : OmOrder = record {
      trading_pair = pair;
      order_id = id;
      side = side;
      price = price;
      qty = qty;
      state = OmOrderState.live;
    } in
    if order_is_live (get_order pair side m).state
    then set_order pair side (get_order pair side m) m
    else record (set_order pair side o m) { next_order_id = (id + 1) % 2 ^ 64 }

unfoldable pub backtest_cancel_order : TradingPair → Side → OrderManager → OrderManager
unfolding get_order set_order
backtest_cancel_order pair side m =
    set_order pair side (record (get_order pair side m) { state = OmOrderState.dead }) m
