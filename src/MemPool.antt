-- ===== src/MemPool.antt =====
-- common::MemPool of aot/common/mem_pool.h: a fixed number of blocks, handed out and taken back.
mod Defs
mod Tests
pub mod Search
pub mod Blocks
unfoldable pub use Defs.*
