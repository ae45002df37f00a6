-- ===== src/Endpoints/Lookup.antt =====
-- What GetEndpoint finds, where std::hash<int> is the identity.
use cryptobot.Common.{
  ℕ, Bool, true, false, ◌&&◌, Option, none, some, [], ◌∷◌, ◌==◌, if◌then◌else◌, ◌≡◌, refl, sym,
  subst,
}
use cryptobot.Types.{ExchangeId, MarketType, exchange_eq, market_type_eq}
use cryptobot.Endpoints.Defs.{
  Network, Protocol, Endpoint, EndpointKey, Endpoints, network_number, protocol_number, key, listed,
  get_endpoint,
}

-- Two keys with the same four fields.
abbrev pub same_key : EndpointKey → EndpointKey → Bool
same_key a b =
    exchange_eq a.exchange b.exchange
    && network_number a.network == network_number b.network
    && market_type_eq a.market_type b.market_type
    && protocol_number a.protocol == protocol_number b.protocol

-- The endpoint of a list that has the very key.
abbrev pub exact : EndpointKey → Endpoints → Option Endpoint
exact k [] = none
exact k ((j, e) ∷ m) = if same_key j k then some e else exact k m

abbrev pub is_listed : ExchangeId → Bool
is_listed ExchangeId.k_binance = true
is_listed ExchangeId.k_bybit = true
is_listed _ = false

abbrev pub other : Network → Network
other Network.k_mainnet = Network.k_testnet
other Network.k_testnet = Network.k_mainnet

abbrev identity : ℕ → ℕ
identity n = n

is_identity : (hash : ℕ → ℕ) → ((n : ℕ) → hash n ≡ n) → hash ≡ identity
is_identity hash h = λ i n. h n i

exact_of :
    (e : ExchangeId) (n : Network) (m : MarketType) (p : Protocol)
    → is_listed e ≡ true
    → get_endpoint identity e n m p ≡ exact (key e n m p) listed
exact_of ExchangeId.k_binance Network.k_mainnet MarketType.k_spot Protocol.k_https h = refl
exact_of ExchangeId.k_binance Network.k_mainnet MarketType.k_spot Protocol.k_ws h = refl
exact_of ExchangeId.k_binance Network.k_mainnet MarketType.k_futures Protocol.k_https h = refl
exact_of ExchangeId.k_binance Network.k_mainnet MarketType.k_futures Protocol.k_ws h = refl
exact_of ExchangeId.k_binance Network.k_mainnet MarketType.k_options Protocol.k_https h = refl
exact_of ExchangeId.k_binance Network.k_mainnet MarketType.k_options Protocol.k_ws h = refl
exact_of ExchangeId.k_binance Network.k_mainnet MarketType.k_invalid Protocol.k_https h = refl
exact_of ExchangeId.k_binance Network.k_mainnet MarketType.k_invalid Protocol.k_ws h = refl
exact_of ExchangeId.k_binance Network.k_testnet MarketType.k_spot Protocol.k_https h = refl
exact_of ExchangeId.k_binance Network.k_testnet MarketType.k_spot Protocol.k_ws h = refl
exact_of ExchangeId.k_binance Network.k_testnet MarketType.k_futures Protocol.k_https h = refl
exact_of ExchangeId.k_binance Network.k_testnet MarketType.k_futures Protocol.k_ws h = refl
exact_of ExchangeId.k_binance Network.k_testnet MarketType.k_options Protocol.k_https h = refl
exact_of ExchangeId.k_binance Network.k_testnet MarketType.k_options Protocol.k_ws h = refl
exact_of ExchangeId.k_binance Network.k_testnet MarketType.k_invalid Protocol.k_https h = refl
exact_of ExchangeId.k_binance Network.k_testnet MarketType.k_invalid Protocol.k_ws h = refl
exact_of ExchangeId.k_bybit Network.k_mainnet MarketType.k_spot Protocol.k_https h = refl
exact_of ExchangeId.k_bybit Network.k_mainnet MarketType.k_spot Protocol.k_ws h = refl
exact_of ExchangeId.k_bybit Network.k_mainnet MarketType.k_futures Protocol.k_https h = refl
exact_of ExchangeId.k_bybit Network.k_mainnet MarketType.k_futures Protocol.k_ws h = refl
exact_of ExchangeId.k_bybit Network.k_mainnet MarketType.k_options Protocol.k_https h = refl
exact_of ExchangeId.k_bybit Network.k_mainnet MarketType.k_options Protocol.k_ws h = refl
exact_of ExchangeId.k_bybit Network.k_mainnet MarketType.k_invalid Protocol.k_https h = refl
exact_of ExchangeId.k_bybit Network.k_mainnet MarketType.k_invalid Protocol.k_ws h = refl
exact_of ExchangeId.k_bybit Network.k_testnet MarketType.k_spot Protocol.k_https h = refl
exact_of ExchangeId.k_bybit Network.k_testnet MarketType.k_spot Protocol.k_ws h = refl
exact_of ExchangeId.k_bybit Network.k_testnet MarketType.k_futures Protocol.k_https h = refl
exact_of ExchangeId.k_bybit Network.k_testnet MarketType.k_futures Protocol.k_ws h = refl
exact_of ExchangeId.k_bybit Network.k_testnet MarketType.k_options Protocol.k_https h = refl
exact_of ExchangeId.k_bybit Network.k_testnet MarketType.k_options Protocol.k_ws h = refl
exact_of ExchangeId.k_bybit Network.k_testnet MarketType.k_invalid Protocol.k_https h = refl
exact_of ExchangeId.k_bybit Network.k_testnet MarketType.k_invalid Protocol.k_ws h = refl
exact_of ExchangeId.k_mexc n m p h = cc
exact_of ExchangeId.k_invalid n m p h = cc

crossed_of :
    (n : Network) (m : MarketType) (p : Protocol)
    → (get_endpoint identity ExchangeId.k_mexc n m p
        ≡ get_endpoint identity ExchangeId.k_binance (other n) m p)
      × (get_endpoint identity ExchangeId.k_invalid n m p
          ≡ get_endpoint identity ExchangeId.k_bybit (other n) m p)
crossed_of Network.k_mainnet MarketType.k_spot Protocol.k_https = (refl, refl)
crossed_of Network.k_mainnet MarketType.k_spot Protocol.k_ws = (refl, refl)
crossed_of Network.k_mainnet MarketType.k_futures Protocol.k_https = (refl, refl)
crossed_of Network.k_mainnet MarketType.k_futures Protocol.k_ws = (refl, refl)
crossed_of Network.k_mainnet MarketType.k_options Protocol.k_https = (refl, refl)
crossed_of Network.k_mainnet MarketType.k_options Protocol.k_ws = (refl, refl)
crossed_of Network.k_mainnet MarketType.k_invalid Protocol.k_https = (refl, refl)
crossed_of Network.k_mainnet MarketType.k_invalid Protocol.k_ws = (refl, refl)
crossed_of Network.k_testnet MarketType.k_spot Protocol.k_https = (refl, refl)
crossed_of Network.k_testnet MarketType.k_spot Protocol.k_ws = (refl, refl)
crossed_of Network.k_testnet MarketType.k_futures Protocol.k_https = (refl, refl)
crossed_of Network.k_testnet MarketType.k_futures Protocol.k_ws = (refl, refl)
crossed_of Network.k_testnet MarketType.k_options Protocol.k_https = (refl, refl)
crossed_of Network.k_testnet MarketType.k_options Protocol.k_ws = (refl, refl)
crossed_of Network.k_testnet MarketType.k_invalid Protocol.k_https = (refl, refl)
crossed_of Network.k_testnet MarketType.k_invalid Protocol.k_ws = (refl, refl)

-- For Binance and Bybit, GetEndpoint gives for every network, market type and protocol the endpoint
-- that the list has under exactly this key, and nothing where the list has none, although the keys'
-- operator== compares the protocols alone, if std::hash<int> is the identity. A missing endpoint is
-- an empty optional and no exception, other than the comment on GetEndpoint says.
pub get_endpoint_lem :
    (hash : ℕ → ℕ) (e : ExchangeId) (n : Network) (m : MarketType) (p : Protocol)
    → ((i : ℕ) → hash i ≡ i)
    → is_listed e ≡ true
    → get_endpoint hash e n m p ≡ exact (key e n m p) listed
get_endpoint_lem hash e n m p h l =
    subst (λ f. get_endpoint f e n m p ≡ exact (key e n m p) listed) (sym (is_identity hash h))
      (exact_of e n m p l)

-- If std::hash<int> is the identity, GetEndpoint answers for MEXC with the endpoint of Binance, and
-- for an invalid exchange with that of Bybit, each of the other network, whatever the market type and
-- the protocol.
pub get_endpoint-crossed :
    (hash : ℕ → ℕ) (n : Network) (m : MarketType) (p : Protocol)
    → ((i : ℕ) → hash i ≡ i)
    → (get_endpoint hash ExchangeId.k_mexc n m p
        ≡ get_endpoint hash ExchangeId.k_binance (other n) m p)
      × (get_endpoint hash ExchangeId.k_invalid n m p
          ≡ get_endpoint hash ExchangeId.k_bybit (other n) m p)
get_endpoint-crossed hash n m p h =
    subst
      (λ f.
        (get_endpoint f ExchangeId.k_mexc n m p ≡ get_endpoint f ExchangeId.k_binance (other n) m p)
        × (get_endpoint f ExchangeId.k_invalid n m p
            ≡ get_endpoint f ExchangeId.k_bybit (other n) m p))
      (sym (is_identity hash h)) (crossed_of n m p)
