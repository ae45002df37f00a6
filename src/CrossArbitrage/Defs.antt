-- ===== src/CrossArbitrage/Defs.antt =====
-- The state of the strategy and what a signal makes it do. An order is a call of the order manager's
-- NewOrder.
use cryptobot.Common.{
  ℕ, ◌+◌, ◌-◌, ◌%◌, ◌^◌, Bool, true, ◌&&◌, not, none, some, List, [], ◌∷◌, ◌++◌, ltb, ◌==◌,
  if◌then◌else◌,
}
use cryptobot.Common.Dict
use cryptobot.Common.Dict.{Dict}
use cryptobot.Types.{
  ExchangeId, Side, TradingPair, exchange_key, pair_key, k_price_invalid, k_qty_invalid,
}
use cryptobot.OrderBook.Book2.{Bbo}

abbrev new_bbo : Bbo
new_bbo = record {
  bid_price = k_price_invalid;
  ask_price = k_price_invalid;
  bid_qty = k_qty_invalid;
  ask_qty = k_qty_invalid;
}

pub data Order : Type 0 where
  new_order : ExchangeId → TradingPair → (price : ℕ) → Side → (qty : ℕ) → Order

pub data Signal : Type 0 where
  bid_update : ExchangeId → (price qty : ℕ) → Signal
  ask_update : ExchangeId → (price qty : ℕ) → Signal
  no_event : Signal

pub record Strategy : Type 0 where
  pub prices : Dict ExchangeId Bbo
  pub working_pairs : Dict ExchangeId TradingPair
  -- The clip of each pair of ticker_cfg_.
  pub ticker_cfg : Dict TradingPair ℕ
  pub exch1 : ExchangeId
  pub exch2 : ExchangeId

-- `prices_[e]` and `working_pairs_[e]`: what is read, and the map with the entry it makes.
unfoldable pub price_of : ExchangeId → Dict ExchangeId Bbo → Bbo
price_of e m = elim (Dict.lookup e m) [ none ↦ new_bbo | some b ↦ b ]

unfoldable pub touch : ExchangeId → Dict ExchangeId Bbo → Dict ExchangeId Bbo
unfolding price_of
touch e m = Dict.insert e (price_of e m) m

unfoldable pub pair_of : ExchangeId → Strategy → TradingPair
pair_of e s = elim (Dict.lookup e s.working_pairs) [
  | none ↦ record { first = 0; second = 0 }
  | some p ↦ p
]

unfoldable pub touch_pair : ExchangeId → Strategy → Strategy
unfolding pair_of
touch_pair e s = record s { working_pairs = Dict.insert e (pair_of e s) s.working_pairs }

unfoldable pub buy_some_asset : ExchangeId → TradingPair → Strategy → List Order
unfolding price_of
buy_some_asset e pair s =
    let price = (price_of e s.prices).ask_price in
    if not (Dict.contains e s.prices) then [] else elim (Dict.lookup pair s.ticker_cfg) [
      | none ↦ []
      | some clip ↦
          if price == k_price_invalid then [] else new_order e pair price Side.k_ask clip ∷ []
    ]

unfoldable pub sell_some_asset : ExchangeId → TradingPair → Strategy → List Order
unfolding price_of
sell_some_asset e pair s =
    let price = (price_of e s.prices).bid_price in
    if not (Dict.contains e s.prices) then [] else elim (Dict.lookup pair s.ticker_cfg) [
      | none ↦ []
      | some clip ↦
          if price == k_price_invalid then [] else new_order e pair price Side.k_bid clip ∷ []
    ]

unfoldable pub process_signal : Signal → Strategy → Strategy
unfolding price_of
process_signal (bid_update e price qty) s = record s {
  prices =
      Dict.insert e (record (price_of e s.prices) { bid_price = price; bid_qty = qty }) s.prices;
}
process_signal (ask_update e price qty) s = record s {
  prices =
      Dict.insert e (record (price_of e s.prices) { ask_price = price; ask_qty = qty }) s.prices;
}
process_signal no_event s = s

-- `a - b > 0` on uint64_t, for a and b below 2^64.
unfoldable pub sub_is_positive : ℕ → ℕ → Bool
sub_is_positive a b = ltb 0 ((a + 2 ^ 64 - b) % 2 ^ 64)

-- `prices_[sells].bid_price == kPriceInvalid || prices_[buys].ask_price == kPriceInvalid`, whose
-- second part is only reached when the first one is false.
unfoldable pub unquoted : (sells buys : ExchangeId) → Strategy → Strategy × Bool
unfolding price_of touch
unquoted sells buys s =
    let s' = record s { prices = touch sells s.prices } in
    if (price_of sells s.prices).bid_price == k_price_invalid then (s', true) else (
      record s { prices = touch buys s'.prices },
      (price_of buys s'.prices).ask_price == k_price_invalid,
    )

-- The arguments are evaluated before the calls.
unfoldable pub buy_and_sell : (buys sells : ExchangeId) → Strategy → Strategy × List Order
unfolding pair_of touch_pair buy_some_asset sell_some_asset
buy_and_sell buys sells s =
    let s' = touch_pair buys s in
    (
      touch_pair sells s',
      buy_some_asset buys (pair_of buys s) s' ++ sell_some_asset sells (pair_of sells s') s',
    )

unfoldable pub launch_payload : Strategy → Strategy × List Order
unfolding unquoted buy_and_sell sub_is_positive price_of
launch_payload s =
    let (s1, condition1) = unquoted s.exch2 s.exch1 s in
    let (s2, condition2) = unquoted s.exch1 s.exch2 s1 in
    let first = buy_and_sell s.exch1 s.exch2 s1 in
    let second = buy_and_sell s.exch2 s.exch1 s2 in
    if not condition1
      && sub_is_positive (price_of s.exch2 s1.prices).bid_price
          (price_of s.exch1 s1.prices).ask_price
    then first
    else if not condition2
        && sub_is_positive (price_of s.exch1 s2.prices).bid_price
            (price_of s.exch2 s2.prices).ask_price
    then second
    else (s2, [])

unfoldable pub on_new_signal : Signal → Strategy → Strategy × List Order
unfolding process_signal launch_payload
on_new_signal signal s = launch_payload (process_signal signal s)
