-- ===== src/BaseStrategy/Tests.antt =====
-- A predictor that always enters long.
use Prim.Native.String.{String}
use cryptobot.Common.{◌≡◌, refl, true, some, [], ◌∷◌}
use cryptobot.Types.{TradingPair}
use cryptobot.Replay.{OhlcvExt, IntervalUnit}
use cryptobot.Manager.{new_order_manager}
use cryptobot.BaseStrategy.Actions.{parse, TradeAction}
use cryptobot.BaseStrategy.Orders
use cryptobot.BaseStrategy.Orders.{Step, run_klines, OneOrder}

abbrev pair : TradingPair
pair = record { first = 1; second = 2 }

abbrev kline : OhlcvExt
kline = record {
  ohlcv = record { data_ = 0; open_ = 2; high = 2; low = 2; close = 2; volume = 7 };
  interval = record { unit = IntervalUnit.seconds; val = 1 };
  trading_pair = pair;
}

abbrev always : OhlcvExt → String
always k = "enter_long"

parsed : parse "exit_short" ≡ TradeAction.k_exit_short
unfolding parse
parsed = refl

abbrev step : Step
step = record {
  kline = kline;
  strategy = record {
    has_strategy = true;
    order_book = some (record { bid_price = 9; ask_price = 10; bid_qty = 1; ask_qty = 1 });
    ticker_cfg = (pair, 3) ∷ [];
  };
  room = true;
}

run_klines-OneOrder_example :
    OneOrder always pair new_order_manager (run_klines always (step ∷ step ∷ []) new_order_manager)
run_klines-OneOrder_example =
    Orders.run_klines-OneOrder always pair (step ∷ step ∷ []) new_order_manager (refl, (refl, tt))
