-- ===== src/Pnl/Tests.antt =====
-- The profit of a trade of two transactions.
use cryptobot.Common.{ℕ, true, false, [], ◌∷◌, if◌then◌else◌, ◌≡◌, refl}
use cryptobot.Common.Int.{ℤ, pos, ◌+ℤ◌, ◌-ℤ◌, ◌*ℤ◌}
use cryptobot.Common.Dict
use cryptobot.Types.{ExchangeId, TradingPair}
use cryptobot.Double.Integers.{integers}
use cryptobot.TradingPairs.{ExchangeTradingPairs, get_pair_info}
use cryptobot.Pnl.Defs.{
  Operation, TradingPairInfo, TransactionReport, Transactions, calculate_trade_pnl,
}
use cryptobot.Pnl.Trade

abbrev pair : TradingPair
pair = record { first = 1; second = 2 }

abbrev table : ExchangeTradingPairs TradingPairInfo
table =
    (ExchangeId.k_binance, (pair, record { price_precission = 0; qty_precission = 0 }) ∷ []) ∷ []

abbrev one : ℕ → ℤ
one n = pos 1

abbrev report : Operation → (enter exit : ℕ) → TransactionReport integers
report operation enter exit = record {
  exchange_id = ExchangeId.k_binance;
  trading_pair = pair;
  operation = operation;
  entry_price = enter;
  exit_price = exit;
  entry_qty = 3;
  exit_qty = 2;
  entry_time = 0;
  exit_time = 0;
  pnl = pos 0;
}

abbrev trade : Transactions integers
trade = (1, report Operation.k_buy 10 15) ∷ (2, report Operation.k_sell 10 11) ∷ []

eight : (calculate_trade_pnl integers one table trade).0 ≡ (true, pos 8)
unfolding calculate_trade_pnl get_pair_info Dict.lookup ◌+ℤ◌ ◌-ℤ◌ ◌*ℤ◌
eight = refl

calculate_trade_pnl_lem_example :
    let (res, ts') = calculate_trade_pnl integers one table trade in
    (res ≡ (
      if Trade.all_known integers one table trade
      then (true, Trade.sum_from integers one table (pos 0) trade)
      else (false, pos 0)))
    × ((if Trade.all_known integers one table trade
          then ts'
          else Trade.each integers one table trade)
        ≡ Trade.each integers one table trade)
calculate_trade_pnl_lem_example = Trade.calculate_trade_pnl_lem integers one table trade
