-- ===== src/Wallet.antt =====
-- aot/wallet_asset.h and src/wallet_asset.cpp: the assets of one exchange, what open orders reserve
-- of them, and the wallets of all exchanges.
mod Defs
pub mod Reserve
pub mod Settle
pub mod Exchanges
mod Tests
unfoldable pub use Defs.*
