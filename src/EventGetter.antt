-- ===== src/EventGetter.antt =====
-- BookEventGetter3 of aot/Exchange.h, which subscribes to the diffs of an order book on a web socket
-- session.
mod Defs
pub mod Sessions
mod Tests
unfoldable pub use Defs.*
