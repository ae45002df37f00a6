-- ===== src/CrossArbitrage/Tests.antt =====
-- The theorems on the strategy at concrete prices.
use cryptobot.Common.{ℕ, ◌≡◌, refl, [], ◌∷◌, arith, All}
use cryptobot.Common.Dict
use cryptobot.Types.{ExchangeId, TradingPair}
use cryptobot.OrderBook.Book2.{Bbo}
use cryptobot.CrossArbitrage.{
  Strategy, bid_update, price_of, pair_of, launch_payload, on_new_signal,
}
use cryptobot.CrossArbitrage.Payload
use cryptobot.CrossArbitrage.Payload.{both_orders, IsQuoted, IsPriced}

abbrev pair : TradingPair
pair = record { first = 1; second = 2 }

abbrev bbo : (bid ask : ℕ) → Bbo
bbo bid ask = record { bid_price = bid; ask_price = ask; bid_qty = 1; ask_qty = 1 }

-- Both exchanges sell dearer than either buys: there is nothing to win.
abbrev strategy : Strategy
strategy = record {
  prices = (ExchangeId.k_binance, bbo 99 101) ∷ (ExchangeId.k_bybit, bbo 98 100) ∷ [];
  working_pairs = (ExchangeId.k_binance, pair) ∷ (ExchangeId.k_bybit, pair) ∷ [];
  ticker_cfg = (pair, 5) ∷ [];
  exch1 = ExchangeId.k_binance;
  exch2 = ExchangeId.k_bybit;
}

binance-IsQuoted : IsQuoted (price_of ExchangeId.k_binance strategy.prices)
unfolding price_of Dict.lookup
binance-IsQuoted = record { bid = omega arith; ask = omega arith }

bybit-IsQuoted : IsQuoted (price_of ExchangeId.k_bybit strategy.prices)
unfolding price_of Dict.lookup
bybit-IsQuoted = record { bid = omega arith; ask = omega arith }

launch_payload_loses_example :
    (launch_payload strategy).1 ≡ both_orders ExchangeId.k_binance ExchangeId.k_bybit 5 5 strategy
unfolding pair_of price_of Dict.lookup
launch_payload_loses_example =
    Payload.launch_payload_loses strategy 5 5 binance-IsQuoted bybit-IsQuoted refl refl
      (omega arith)

on_new_signal-IsPriced_example :
    All IsPriced (on_new_signal (bid_update ExchangeId.k_bybit 102 3) strategy).1
on_new_signal-IsPriced_example =
    Payload.on_new_signal-IsPriced (bid_update ExchangeId.k_bybit 102 3) strategy
