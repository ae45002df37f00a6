-- ===== src/Generator.antt =====
-- The BidAskGeneratorComponent of aot/Binance.h: how diffs and snapshots of an order book are
-- brought in step before they are passed on.
mod Defs
mod Tests
pub mod Events
pub mod Stream
pub mod Resync
pub mod Routing
unfoldable pub use Defs.*
