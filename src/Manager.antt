-- ===== src/Manager.antt =====
-- Trading::OrderManager of aot/strategy/order_manager.h and order_manager.cpp: one order of each
-- side of each trading pair.
mod Defs
mod Tests
pub mod Slots
pub mod Life
pub mod Ids
unfoldable pub use Defs.*
