-- ===== src/Endpoints.antt =====
-- The endpoints of the exchanges: EndpointKey, EndpointKeyHash and EndpointManager of aot/Exchange.h.
mod Defs
pub mod Lookup
mod Tests
unfoldable pub use Defs.*
