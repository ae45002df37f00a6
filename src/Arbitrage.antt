-- ===== src/Arbitrage.antt =====
-- aot::ArbitrageStrategyComponent of aot/strategy/arbitrage/arbitrage_strategy.h: cycles of a purchase
-- and a sale, and the trades that a new BBO opens and closes.
mod Data
mod Trades
mod Defs
pub mod Cycles
pub mod Closing
pub mod Prices
pub mod Silent
mod Tests
unfoldable pub use Data.*
unfoldable pub use Trades.*
unfoldable pub use Defs.*
