-- ===== src/OrderBook/Book1.antt =====
-- MarketOrderBook of aot/strategy/market_order_book.h, which has one hash map for both sides, with
-- OnMarketUpdate and OrderBookService::Run of src/market_order_book.cpp, and the OrderBook of
-- cross_arbitrage, which derives from it.
mod Defs
pub mod Shared
pub mod Step
pub mod Effect
pub mod Sides
pub mod Moved
pub mod Update
pub mod Crossed
pub mod Channels
pub mod Room
pub mod Service
mod Tests
unfoldable pub use Defs.*
