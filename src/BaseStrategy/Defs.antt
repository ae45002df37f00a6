-- ===== src/BaseStrategy/Defs.antt =====
-- The actions and OnNewKLine. What the predictor answers is a parameter. The bodies of SellSomeAsset,
-- SellAllAsset and BuyAllAsset are commented out in the source.
use Prim.Native.String.{String}
use cryptobot.Common.{ℕ, Bool, Option, none, some, ◌==◌, if◌then◌else◌}
use cryptobot.Common.Dict
use cryptobot.Common.Dict.{Dict}
use cryptobot.Types.{ExchangeId, Side, TradingPair, pair_key, k_price_invalid}
use cryptobot.OrderBook.Book2.{Bbo}
use cryptobot.Replay.{OhlcvExt}
use cryptobot.Manager.{OrderManager, new_order}
use cryptobot.BaseStrategy.Actions.{TradeAction, parse}

-- `order_book` is the BBO of the book, or none for a null pointer; of a TradeEngineCfg, `clip`.
pub record BaseStrategy : Type 0 where
  pub has_strategy : Bool
  pub order_book : Option Bbo
  pub ticker_cfg : Dict TradingPair ℕ

-- `room` is the answer of the request queue.
unfoldable pub buy_some_asset :
    Bool → ExchangeId → TradingPair → BaseStrategy → OrderManager → OrderManager
buy_some_asset room e pair s m = elim s.order_book [
  | none ↦ m
  | some bbo ↦ elim (Dict.lookup pair s.ticker_cfg) [
    | none ↦ m
    | some clip ↦
        let ordered = new_order room e pair bbo.ask_price Side.k_ask clip m in
        if bbo.ask_price == k_price_invalid then m else ordered
  ]
]

-- The table of InitActions.
unfoldable pub act : TradeAction → Bool → TradingPair → BaseStrategy → OrderManager → OrderManager
unfolding buy_some_asset
act TradeAction.k_enter_long room pair s m = buy_some_asset room ExchangeId.k_invalid pair s m
act TradeAction.k_enter_short room pair s m = m
act TradeAction.k_exit_long room pair s m = m
act TradeAction.k_exit_short room pair s m = m
act TradeAction.k_nope room pair s m = m

unfoldable pub on_new_kline :
    (OhlcvExt → String) → Bool → OhlcvExt → BaseStrategy → OrderManager → OrderManager
unfolding parse act
on_new_kline predict room k s m =
    let acted = act (parse (predict k)) room k.trading_pair s m in
    if s.has_strategy then acted else m
