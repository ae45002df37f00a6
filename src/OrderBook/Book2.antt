-- ===== src/OrderBook/Book2.antt =====
-- MarketOrderBook2 of aot/strategy/market_order_book.h and its three OnMarketUpdate of
-- src/market_order_book.cpp.
mod Defs
pub mod Loops
pub mod Fresh
pub mod Snapshot
pub mod Update
unfoldable pub use Defs.*
