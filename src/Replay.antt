-- ===== src/Replay.antt =====
-- The replay of a history of klines: backtesting::OHLCVI and backtesting::KLineService of
-- aot/strategy/kline.h and src/kline.cpp, and backtesting::MarketOrderBook of
-- aot/strategy/market_order_book.h, which shows the last kline.
mod Defs
pub mod Ideal
pub mod Rounds
pub mod Ending
pub mod Shown
mod Tests
unfoldable pub use Defs.*
