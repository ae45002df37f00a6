-- ===== src/Endpoints/Tests.antt =====
-- The lookups with the identity for a hash, and one answer that a caller would not expect.
use cryptobot.Common.{ℕ, ◌≡◌, refl, some}
use cryptobot.Types.{ExchangeId, MarketType}
use cryptobot.Endpoints.Defs.{Network, Protocol, new_endpoint, key, listed, get_endpoint}
use cryptobot.Endpoints.Lookup
use cryptobot.Endpoints.Lookup.{exact}

abbrev same : ℕ → ℕ
same n = n

wrong_network :
    get_endpoint same ExchangeId.k_mexc Network.k_testnet MarketType.k_spot Protocol.k_https
    ≡ some (new_endpoint "api.binance.com" 443 5000 60000)
wrong_network = refl

get_endpoint_lem_example :
    get_endpoint same ExchangeId.k_bybit Network.k_mainnet MarketType.k_futures Protocol.k_ws
    ≡ exact (key ExchangeId.k_bybit Network.k_mainnet MarketType.k_futures Protocol.k_ws) listed
get_endpoint_lem_example =
    Lookup.get_endpoint_lem same ExchangeId.k_bybit Network.k_mainnet MarketType.k_futures
      Protocol.k_ws (λ i. refl) refl

get_endpoint-crossed_example :
    (get_endpoint same ExchangeId.k_mexc Network.k_testnet MarketType.k_spot Protocol.k_https
      ≡ get_endpoint same ExchangeId.k_binance Network.k_mainnet MarketType.k_spot Protocol.k_https)
    × (get_endpoint same ExchangeId.k_invalid Network.k_testnet MarketType.k_spot Protocol.k_https
        ≡ get_endpoint same ExchangeId.k_bybit Network.k_mainnet MarketType.k_spot Protocol.k_https)
get_endpoint-crossed_example =
    Lookup.get_endpoint-crossed same Network.k_testnet MarketType.k_spot Protocol.k_https
      (λ i. refl)
