-- ===== src/Position.antt =====
-- aot/strategy/position_keeper.h: the position and the profit of each trading pair of each exchange.
mod Defs
mod Tests
pub mod Fill
pub mod Keeper
unfoldable pub use Defs.*
