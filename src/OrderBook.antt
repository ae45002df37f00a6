-- ===== src/OrderBook.antt =====
-- The local order book: aot/strategy/market_order.h, aot/strategy/market_order_book.h and
-- src/market_order_book.cpp.
pub mod Containers
pub mod Half
pub mod Book1
pub mod Book2
pub mod Component
pub mod Tests
