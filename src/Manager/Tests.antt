-- ===== src/Manager/Tests.antt =====
-- The theorems on the order manager at a concrete order.
use cryptobot.Common.{◌≡◌, refl, true, List, [], ◌∷◌, arith}
use cryptobot.Common.Dict
use cryptobot.Types.{ExchangeId, Side, TradingPair, pair_key, side_to_index}
use cryptobot.Response.{Response, ClientResponseType}
use cryptobot.Manager.{OrderManager, new_order_manager, new_order}
use cryptobot.Manager.Ids
use cryptobot.Manager.Ids.{Call, call_new, call_response, call_cancel, run_calls, IsDescending}

abbrev pair : TradingPair
pair = record { first = 1; second = 2 }

abbrev response : Response
response = record {
  type = ClientResponseType.filled;
  exchange_id = ExchangeId.k_binance;
  trading_pair = pair;
  order_id = 1;
  side = Side.k_ask;
  price = 100;
  exec_qty = 5;
  leaves_qty = 0;
}

abbrev placed_one : OrderManager
placed_one = new_order true ExchangeId.k_binance pair 100 Side.k_ask 5 new_order_manager

known : Dict.contains pair placed_one.ticker_side_order ≡ true
unfolding new_order side_to_index Dict.lookup Dict.insert
known = refl

abbrev calls : List Call
calls =
    call_new true ExchangeId.k_binance pair 100 Side.k_ask 5
    ∷ call_response response
    ∷ call_new true ExchangeId.k_binance pair 101 Side.k_ask 5
    ∷ []

new_order_ids_example :
    let m = run_calls calls new_order_manager in IsDescending m.next_order_id m.requests
new_order_ids_example = Ids.new_order_ids calls (omega arith)
