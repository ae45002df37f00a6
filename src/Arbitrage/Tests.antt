-- ===== src/Arbitrage/Tests.antt =====
-- Two cycles over two exchanges, with integers for doubles.
use cryptobot.Common.{
  ℕ, ◌≡◌, refl, true, List, [], ◌∷◌, nat_key, arith, ◌≤◌, inr, not, zero, suc, ◌/◌,
}
use native.Mathlib.Nat.{zero-div}
use cryptobot.Common.Dict
use cryptobot.Common.Int.{ℤ, pos, negsuc, ◌+ℤ◌, ◌-ℤ◌, ◌*ℤ◌, pos_part, ltb_ℤ}
use cryptobot.Types.{ExchangeId, MarketType, TradingPair}
use cryptobot.Double.Integers.{integers}
use cryptobot.OrderBook.Book2.{Bbo}
use cryptobot.OrderBook.Component.{NewBbo}
use cryptobot.TradingPairs.{ExchangeTradingPairs}
use cryptobot.Pnl.{Operation, TradingPairInfo}
use cryptobot.Arbitrage.Data.{Step, Hashes, Readings, TradeState}
use cryptobot.Arbitrage.Closing
use cryptobot.Arbitrage.Closing.{Call, call_add, call_bbo, IsClosed, run_calls, empty_strategy}
use cryptobot.Arbitrage.Silent
use cryptobot.Arbitrage.Silent.{IsOrdered}
use cryptobot.Arbitrage.Prices.{IsSigned}

abbrev pair : TradingPair
pair = record { first = 1; second = 2 }

abbrev exchange_number : ExchangeId → ℕ
exchange_number ExchangeId.k_binance = 1
exchange_number ExchangeId.k_bybit = 2
exchange_number _ = 3

abbrev hashes : Hashes
hashes = record {
  combined = λ e t p. exchange_number e;
  of_step = λ s. exchange_number s.exchange_id;
  of_cycle = λ x. elim x [ [] ↦ 0 | ◌∷◌ s rest ↦ exchange_number s.exchange_id ];
}

abbrev step : ExchangeId → Operation → Step
step e o = record {
  trading_pair = pair;
  exchange_id = e;
  market_type = MarketType.k_spot;
  operation = o;
}

abbrev cycle : List Step
cycle = step ExchangeId.k_binance Operation.k_buy ∷ step ExchangeId.k_bybit Operation.k_sell ∷ []

abbrev table : ExchangeTradingPairs TradingPairInfo
table =
    (ExchangeId.k_binance, (pair, record { price_precission = 0; qty_precission = 0 }) ∷ [])
    ∷ (ExchangeId.k_bybit, (pair, record { price_precission = 0; qty_precission = 0 }) ∷ [])
    ∷ []

abbrev one : ℕ → ℤ
one n = pos 1

abbrev clock : ℕ → Readings
clock uid = record { buy_entry = 1; sell_entry = 2; buy_exit = 3; sell_exit = 4 }

abbrev told : ExchangeId → (bid ask : ℕ) → NewBbo
told e bid ask = record {
  exchange_id = e;
  trading_pair = pair;
  bbo = record { bid_price = bid; ask_price = ask; bid_qty = 5; ask_qty = 5 };
  market_type = MarketType.k_spot;
}

-- A sale at 110 on one exchange against a purchase at 101 on the other.
abbrev calls : List Call
calls =
    call_add cycle
    ∷ call_bbo clock (told ExchangeId.k_binance 100 101)
    ∷ call_bbo clock (told ExchangeId.k_bybit 110 111)
    ∷ []

empty-IsClosed : IsClosed integers hashes one table (empty_strategy integers hashes one table)
unfolding IsClosed
empty-IsClosed id s e = ground (arith, Dict.lookup-nil {V = TradeState integers} id, e)

run_calls-IsClosed_example :
    IsClosed integers hashes one table
      (run_calls integers hashes one table 0 calls (empty_strategy integers hashes one table)).0
run_calls-IsClosed_example =
    Closing.run_calls-IsClosed integers hashes one table 0 calls
      (empty_strategy integers hashes one table) empty-IsClosed

abbrev NotAbove0 : ℤ → Type 0
NotAbove0 a = not (ltb_ℤ (pos 0) a) ≡ true

sub_sign : (a b : ℕ) → a ≤ b → NotAbove0 (pos a -ℤ pos b)
unfolding ◌-ℤ◌
sub_sign a b h = ground (arith, h)

add_sign : (a b : ℤ) → NotAbove0 a → NotAbove0 b → NotAbove0 (a +ℤ b)
unfolding ◌+ℤ◌
add_sign a b h k = ground (arith, h, k)

div_sign : (a : ℤ) (n : ℕ) → NotAbove0 a → NotAbove0 (pos (pos_part a / n))
div_sign (pos zero) n h = rw (zero-div n) refl
div_sign (pos (suc k)) n h = ground (arith, h)
div_sign (negsuc k) n h = rw (zero-div n) refl

mul_sign : (a : ℤ) (n : ℕ) → NotAbove0 a → NotAbove0 (a *ℤ pos n)
unfolding ◌*ℤ◌
mul_sign (pos zero) n h = ground arith
mul_sign (pos (suc k)) n h = ground (arith, h)
mul_sign (negsuc k) n h = ground arith

integers-IsSigned : IsSigned integers
integers-IsSigned = record {
  sub_sign = sub_sign;
  add_sign = add_sign;
  div_sign = λ a n p h. div_sign a n h;
  mul_sign = λ a n p h. mul_sign a n h;
}

empty-IsOrdered : IsOrdered integers hashes one table (empty_strategy integers hashes one table)
unfolding IsOrdered
empty-IsOrdered key b e = ground (arith, Dict.lookup-nil {V = Bbo} key, e)

run_calls-silent_example :
    (run_calls integers hashes one table 0 calls (empty_strategy integers hashes one table)).1 ≡ []
run_calls-silent_example =
    Silent.run_calls-silent integers hashes one table integers-IsSigned 0 calls
      (empty_strategy integers hashes one table)
      ((ground arith, inr (omega arith)), ((ground arith, inr (omega arith)), _)) empty-IsOrdered
      empty-IsClosed
