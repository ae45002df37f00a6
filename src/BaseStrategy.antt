-- ===== src/BaseStrategy.antt =====
-- Trading::BaseStrategy of aot/strategy/base_strategy.h and src/base_strategy.cpp, with the parser of
-- predictions of aot/launcher_predictor.h: a prediction for a kline becomes a call of the order
-- manager.
mod Actions
mod Defs
pub mod Orders
mod Tests
unfoldable pub use Actions.*
unfoldable pub use Defs.*
