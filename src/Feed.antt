-- ===== src/Feed.antt =====
-- The way from an exchange's messages to a local book: the callback handlers at the end of
-- aot/Binance.h and aot/Bybit.h, which sit between the generators, the bus and OrderBookComponent.
mod Defs
pub mod Deliver
pub mod Truth
pub mod BybitTruth
pub mod Single
mod Tests
unfoldable pub use Defs.*
