-- ===== src/OrderBook/Half.antt =====
-- One side of a MarketOrderBook2: its hash map, its tree, and the nodes of its pool. Both containers
-- hold the addresses of the same nodes, so a write through the hash map is read through the tree.
mod Defs
pub mod Invariant
pub mod Depth
pub mod Top
unfoldable pub use Defs.*
