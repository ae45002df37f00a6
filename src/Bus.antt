-- ===== src/Bus.antt =====
-- aot::CoBus of aot/bus/bus.h: the subscribers of each publisher, the delivery of an event, and the
-- stopping of the subscribers.
mod Defs
pub mod Delivery
pub mod Stopping
mod Tests
unfoldable pub use Defs.*
