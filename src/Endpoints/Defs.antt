-- ===== src/Endpoints/Defs.antt =====
-- The table and the search in it. `hash` is std::hash<int>. A key is found where an entry has its hash
-- value and is equal to it, by the program's operator==.
use Prim.Native.Nat.{bit_xor}
use Prim.Native.String.{String}
use cryptobot.Common.{
  ℕ, ◌*◌, ◌%◌, ◌^◌, Bool, ◌&&◌, Option, none, some, List, [], ◌∷◌, ◌++◌, ◌==◌, ltb, if◌then◌else◌,
}
use cryptobot.Types.{ExchangeId, MarketType}

pub data Network : Type 0 where
  k_mainnet k_testnet : Network

pub data Protocol : Type 0 where
  k_https k_ws : Protocol

pub record Endpoint : Type 0 where
  pub host : String
  pub port : ℕ
  pub recv_window : ℕ
  pub threashold : ℕ

-- The constructor of Endpoint.
abbrev pub new_endpoint : String → (port recv_window threashold : ℕ) → Endpoint
new_endpoint host port recv_window threashold = record {
  host = host;
  port = port;
  recv_window = if ltb threashold recv_window then threashold else recv_window;
  threashold = threashold;
}

pub record EndpointKey : Type 0 where
  pub exchange : ExchangeId
  pub network : Network
  pub market_type : MarketType
  pub protocol : Protocol

-- The values of the enumerators.
abbrev pub exchange_number : ExchangeId → ℕ
exchange_number ExchangeId.k_binance = 0
exchange_number ExchangeId.k_bybit = 1
exchange_number ExchangeId.k_mexc = 2
exchange_number ExchangeId.k_invalid = 3

abbrev pub network_number : Network → ℕ
network_number Network.k_mainnet = 0
network_number Network.k_testnet = 1

abbrev pub market_number : MarketType → ℕ
market_number MarketType.k_spot = 0
market_number MarketType.k_futures = 1
market_number MarketType.k_options = 2
market_number MarketType.k_invalid = 3

abbrev pub protocol_number : Protocol → ℕ
protocol_number Protocol.k_https = 0
protocol_number Protocol.k_ws = 1

-- EndpointKey::operator==: the comparisons before the comma have no effect.
abbrev pub key_eq : EndpointKey → EndpointKey → Bool
key_eq a b = protocol_number a.protocol == protocol_number b.protocol

-- EndpointKeyHash
abbrev pub key_hash : (ℕ → ℕ) → EndpointKey → ℕ
key_hash hash k =
    bit_xor
      (bit_xor
        (bit_xor (hash (exchange_number k.exchange)) (hash (network_number k.network) * 2 % 2 ^ 64))
        (hash (market_number k.market_type) * 4 % 2 ^ 64))
      (hash (protocol_number k.protocol) * 8 % 2 ^ 64)

abbrev pub Endpoints : Type 0
Endpoints = List (EndpointKey × Endpoint)

abbrev pub find : (ℕ → ℕ) → EndpointKey → Endpoints → Option Endpoint
find hash k [] = none
find hash k ((j, e) ∷ m) =
    if (key_hash hash j == key_hash hash k) && key_eq j k then some e else find hash k m

-- The initializer list goes in from the front; a key that is found already is not put in again.
abbrev pub insert_each : (ℕ → ℕ) → Endpoints → Endpoints → Endpoints
insert_each hash [] m = m
insert_each hash ((k, e) ∷ rest) m =
    insert_each hash rest (elim (find hash k m) [ none ↦ m ++ ((k, e) ∷ []) | some _ ↦ m ])

abbrev pub key : ExchangeId → Network → MarketType → Protocol → EndpointKey
key e n m p = record { exchange = e; network = n; market_type = m; protocol = p }

-- The initializer list of `endpoints_`.
abbrev pub listed : Endpoints
listed =
    (
      key ExchangeId.k_binance Network.k_mainnet MarketType.k_spot Protocol.k_https,
      new_endpoint "api.binance.com" 443 5000 60000,
    )
    ∷ (
      key ExchangeId.k_binance Network.k_mainnet MarketType.k_spot Protocol.k_ws,
      new_endpoint "stream.binance.com" 9443 5000 60000,
    )
    ∷ (
      key ExchangeId.k_binance Network.k_mainnet MarketType.k_futures Protocol.k_https,
      new_endpoint "fapi.binance.com" 443 5000 60000,
    )
    ∷ (
      key ExchangeId.k_binance Network.k_mainnet MarketType.k_futures Protocol.k_ws,
      new_endpoint "fstream.binance.com" 443 5000 60000,
    )
    ∷ (
      key ExchangeId.k_binance Network.k_testnet MarketType.k_spot Protocol.k_https,
      new_endpoint "testnet.binance.vision" 443 5000 60000,
    )
    ∷ (
      key ExchangeId.k_binance Network.k_testnet MarketType.k_spot Protocol.k_ws,
      new_endpoint "testnet.binance.vision" 9443 5000 60000,
    )
    ∷ (
      key ExchangeId.k_binance Network.k_testnet MarketType.k_futures Protocol.k_https,
      new_endpoint "testnet.binancefuture.com" 443 5000 60000,
    )
    ∷ (
      key ExchangeId.k_binance Network.k_testnet MarketType.k_futures Protocol.k_ws,
      new_endpoint "testnet.binancefuture.com" 9443 5000 60000,
    )
    ∷ (
      key ExchangeId.k_bybit Network.k_mainnet MarketType.k_spot Protocol.k_https,
      new_endpoint "api.bybit.com" 443 5000 100,
    )
    ∷ (
      key ExchangeId.k_bybit Network.k_mainnet MarketType.k_spot Protocol.k_ws,
      new_endpoint "stream.bybit.com" 9443 5000 100,
    )
    ∷ (
      key ExchangeId.k_bybit Network.k_mainnet MarketType.k_futures Protocol.k_https,
      new_endpoint "api.bybit.com" 443 5000 100,
    )
    ∷ (
      key ExchangeId.k_bybit Network.k_mainnet MarketType.k_futures Protocol.k_ws,
      new_endpoint "stream.bybit.com" 9443 5000 100,
    )
    ∷ (
      key ExchangeId.k_bybit Network.k_testnet MarketType.k_spot Protocol.k_https,
      new_endpoint "api-testnet.bybit.com" 443 5000 60000,
    )
    ∷ (
      key ExchangeId.k_bybit Network.k_testnet MarketType.k_spot Protocol.k_ws,
      new_endpoint "stream-testnet.bybit.com" 9443 5000 60000,
    )
    ∷ (
      key ExchangeId.k_bybit Network.k_testnet MarketType.k_futures Protocol.k_https,
      new_endpoint "api-testnet.bybit.com" 443 5000 60000,
    )
    ∷ (
      key ExchangeId.k_bybit Network.k_testnet MarketType.k_futures Protocol.k_ws,
      new_endpoint "stream-testnet.bybit.com" 9443 5000 60000,
    )
    ∷ []

abbrev pub get_endpoint : (ℕ → ℕ) → ExchangeId → Network → MarketType → Protocol → Option Endpoint
get_endpoint hash e n m p = find hash (key e n m p) (insert_each hash listed [])
