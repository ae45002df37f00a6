-- ===== src/Pnl.antt =====
-- aot::PnlCalculator of aot/pnl/pnl_calculator.h: the profit of a transaction and of a trade.
mod Defs
mod Tests
pub mod Trade
unfoldable pub use Defs.*
