-- ===== src/Position/Tests.antt =====
-- The theorems on positions at concrete fills.
use cryptobot.Common.{ℕ, ◌≡◌, refl, List, [], ◌∷◌, arith}
use cryptobot.Common.Int.{pos, negsuc, ◌+ℤ◌, ◌*ℤ◌}
use cryptobot.Types.{ExchangeId, Side, TradingPair}
use cryptobot.Double.Integers.{integers}
use cryptobot.Response.{Response, ClientResponseType}
use cryptobot.Position.{PositionInfo, new_position_info, Keepers}
use cryptobot.Position.Fill
use cryptobot.Position.Fill.{IsInt, IsWithin, net, add_fills, signed}

abbrev fill : Side → ℕ → Response
fill side qty = record {
  type = ClientResponseType.filled;
  exchange_id = ExchangeId.k_binance;
  trading_pair = record { first = 1; second = 2 };
  order_id = 7;
  side = side;
  price = 10;
  exec_qty = qty;
  leaves_qty = 0;
}

abbrev position : PositionInfo integers
position = new_position_info integers

-- Five are bought and eight are sold: the position turns from 5 to -3.
abbrev turning : List Response
turning = fill Side.k_ask 5 ∷ fill Side.k_bid 8 ∷ []

turning-IsWithin : IsWithin (pos 0) turning
unfolding IsWithin ◌+ℤ◌ ◌*ℤ◌
turning-IsWithin = (
  omega arith,
  record { above = omega arith; below = omega arith },
  (omega arith, record { above = omega arith; below = omega arith }, tt),
)

add_fills-position_example : (add_fills integers turning position).position ≡ net (pos 0) turning
add_fills-position_example =
    Fill.add_fills-position integers turning position
      (record { above = omega arith; below = omega arith }) turning-IsWithin

short : net (pos 0) turning ≡ negsuc 2
unfolding net ◌+ℤ◌ ◌*ℤ◌
short = refl

abbrev keepers : Keepers integers
keepers = (ExchangeId.k_binance, []) ∷ []

abbrev pair : TradingPair
pair = record { first = 1; second = 2 }
