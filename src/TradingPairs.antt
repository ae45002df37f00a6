-- ===== src/TradingPairs.antt =====
-- aot::ExchangeTradingPairs of aot/common/exchange_trading_pair.h: what is known of each trading pair
-- of each exchange.
mod Defs
mod Tests
pub mod Lookup
unfoldable pub use Defs.*
