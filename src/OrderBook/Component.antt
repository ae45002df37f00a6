-- ===== src/OrderBook/Component.antt =====
-- Trading::OrderBookComponent of aot/strategy/market_order_book.h: the books of all exchanges and
-- trading pairs, fed by the bus, and the queries for a price level.
mod Defs
pub mod Levels
pub mod Routing
pub mod Sound
mod Tests
unfoldable pub use Defs.*
