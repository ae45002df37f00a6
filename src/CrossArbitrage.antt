-- ===== src/CrossArbitrage.antt =====
-- strategy::cross_arbitrage::CrossArbitrage of aot/strategy/base_strategy.h: a strategy that buys on
-- one exchange and sells on the other.
mod Defs
mod Tests
pub mod Payload
unfoldable pub use Defs.*
