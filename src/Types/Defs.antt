-- ===== src/Types/Defs.antt =====
-- The enumerations and records of aot/common/types.h, with their helpers.
use cryptobot.Common.{ℕ, ◌-◌, ◌+◌, ◌%◌, ◌^◌, Bool, true, false, ◌&&◌, ◌==◌, if◌then◌else◌}
use cryptobot.Common.Int.{ℤ, pos, negsuc}

pub data ExchangeId : Type 0 where
  k_binance k_bybit k_mexc k_invalid : ExchangeId

pub data MarketType : Type 0 where
  k_spot k_futures k_options k_invalid : MarketType

-- The side of a taker: `k_ask` buys, `k_bid` sells.
pub data Side : Type 0 where
  k_invalid k_ask k_bid k_max : Side

abbrev pub k_order_id_invalid : ℕ
k_order_id_invalid = 2 ^ 64 - 1

abbrev pub k_ticker_id_invalid : ℕ
k_ticker_id_invalid = 2 ^ 32 - 1

abbrev pub k_price_invalid : ℕ
k_price_invalid = 2 ^ 64 - 1

abbrev pub k_qty_invalid : ℕ
k_qty_invalid = 2 ^ 64 - 1

-- The value of the enumerator, an int8_t.
abbrev pub side_to_value : Side → ℤ
side_to_value Side.k_invalid = pos 0
side_to_value Side.k_ask = pos 1
side_to_value Side.k_bid = negsuc 0
side_to_value Side.k_max = pos 2

-- A conversion of a negative value to size_t adds 2^64.
abbrev pub to_size : ℤ → ℕ
to_size (pos n) = n % 2 ^ 64
to_size (negsuc n) = 2 ^ 64 - 1 - n % 2 ^ 64

unfoldable pub side_to_index : Side → ℕ
side_to_index side = (to_size (side_to_value side) + 1) % 2 ^ 64

pub record TradingPair : Type 0 where
  pub first : ℕ
  pub second : ℕ

-- `operator==`
abbrev pub pair_eq : TradingPair → TradingPair → Bool
pair_eq left right =
    if left.first == right.first && left.second == right.second then true else false
