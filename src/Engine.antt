-- ===== src/Engine.antt =====
-- The threads around the queues of orders: Trading::TradeEngine of aot/strategy/trade_engine.h and
-- src/trade_engine.cpp, and Trading::OrderGateway2 of aot/order_gw/order_gw.h and src/order_gw.cpp.
mod Defs
pub mod Responses
pub mod Gateway
mod Tests
unfoldable pub use Defs.*
