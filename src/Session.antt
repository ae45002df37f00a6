-- ===== src/Session.antt =====
-- HttpsSession3 and ConnectionPool of aot/Https.h, with aot/session_status.h: one connection to an
-- exchange, and the pool that hands connections to the executors.
mod Defs
mod Pool
pub mod Once
pub mod Requests
pub mod Acquire
mod Tests
unfoldable pub use Defs.*
unfoldable pub use Pool.*
