-- ===== src/BybitGenerator.antt =====
-- The BidAskGeneratorComponent of aot/Bybit.h, which takes the stream's own snapshots and asks for
-- a new subscription where Binance's component asks for a snapshot.
mod Defs
mod Tests
pub mod Events
pub mod Outcome
pub mod Stream
pub mod Resync
pub mod Routing
unfoldable pub use Defs.*
