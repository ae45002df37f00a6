-- ===== src/Types/Equality.antt =====
-- The keys of the program's maps decide equality.
use cryptobot.Common.{◌≡◌, ◌↔◌, Bool, true, false, arith, Eq}
use cryptobot.Types.Defs.{ExchangeId, MarketType, Side, TradingPair, pair_eq}

abbrev pub exchange_eq : ExchangeId → ExchangeId → Bool
exchange_eq ExchangeId.k_binance ExchangeId.k_binance = true
exchange_eq ExchangeId.k_bybit ExchangeId.k_bybit = true
exchange_eq ExchangeId.k_mexc ExchangeId.k_mexc = true
exchange_eq ExchangeId.k_invalid ExchangeId.k_invalid = true
exchange_eq _ _ = false

pub exchange_eq_iff : (a b : ExchangeId) → (exchange_eq a b ≡ true) ↔ (a ≡ b)
exchange_eq_iff a b = ground arith

abbrev pub market_type_eq : MarketType → MarketType → Bool
market_type_eq MarketType.k_spot MarketType.k_spot = true
market_type_eq MarketType.k_futures MarketType.k_futures = true
market_type_eq MarketType.k_options MarketType.k_options = true
market_type_eq MarketType.k_invalid MarketType.k_invalid = true
market_type_eq _ _ = false

abbrev pub side_eq : Side → Side → Bool
side_eq Side.k_invalid Side.k_invalid = true
side_eq Side.k_ask Side.k_ask = true
side_eq Side.k_bid Side.k_bid = true
side_eq Side.k_max Side.k_max = true
side_eq _ _ = false

pub side_eq_iff : (a b : Side) → (side_eq a b ≡ true) ↔ (a ≡ b)
side_eq_iff a b = ground arith

pub pair_eq_iff : (a b : TradingPair) → (pair_eq a b ≡ true) ↔ (a ≡ b)
pair_eq_iff a b = ground arith

instance abbrev pub exchange_key : Eq ExchangeId
exchange_key = record { beq = exchange_eq; beq_iff = exchange_eq_iff }

instance abbrev pub pair_key : Eq TradingPair
pair_key = record { beq = pair_eq; beq_iff = pair_eq_iff }
