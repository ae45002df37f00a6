-- ===== src/CrossArbitrage/Payload.antt =====
-- Which orders a signal leads to.
use cryptobot.Common.{
  ℕ, ◌^◌, ◌<◌, true, false, not, some, List, [], ◌∷◌, ◌++◌, ◌==◌, if◌then◌else◌, ◌≡◌, ◌≢◌, ◌∙◌,
  refl, arith, All,
}
use cryptobot.Common.Dict
use cryptobot.Common.Dict.{Dict}
use cryptobot.Types.{ExchangeId, Side, TradingPair, exchange_key, pair_key, k_price_invalid}
use cryptobot.OrderBook.Book2.{Bbo}
use cryptobot.CrossArbitrage.Defs.{
  Order, new_order, Signal, Strategy, price_of, touch, pair_of, touch_pair, buy_some_asset,
  sell_some_asset, process_signal, sub_is_positive, unquoted, buy_and_sell, launch_payload,
  on_new_signal,
}

price_of-touch :
    (e f : ExchangeId) (m : Dict ExchangeId Bbo) → price_of e (touch f m) ≡ price_of e m
unfolding price_of touch
price_of-touch e f m = ground (arith, Dict.lookup-insert f e (price_of f m) m)

known-touch :
    (e f : ExchangeId) (m : Dict ExchangeId Bbo)
    → Dict.contains e m ≡ true
    → Dict.contains e (touch f m) ≡ true
unfolding touch
known-touch e f m h = ground (arith, Dict.lookup-insert f e (price_of f m) m)

known-touched : (e : ExchangeId) (m : Dict ExchangeId Bbo) → Dict.contains e (touch e m) ≡ true
unfolding touch
known-touched e m = ground (arith, Dict.lookup-insert e e (price_of e m) m)

pair_of-touch : (e f : ExchangeId) (s : Strategy) → pair_of e (touch_pair f s) ≡ pair_of e s
unfolding pair_of touch_pair
pair_of-touch e f s = ground (arith, Dict.lookup-insert f e (pair_of f s) s.working_pairs)

-- The difference of two prices is positive unless they are equal.
difference : (a b : ℕ) → a < 2 ^ 64 → b < 2 ^ 64 → sub_is_positive a b ≡ not (a == b)
unfolding sub_is_positive
difference a b h k = ground arith

-- The two orders of one direction.
abbrev pub both_orders : (buys sells : ExchangeId) → (clip_b clip_s : ℕ) → Strategy → List Order
both_orders buys sells clip_b clip_s s =
    new_order buys (pair_of buys s) (price_of buys s.prices).ask_price Side.k_ask clip_b
    ∷ new_order sells (pair_of sells s) (price_of sells s.prices).bid_price Side.k_bid clip_s
    ∷ []

buy_and_sell_lem :
    (buys sells : ExchangeId) (cb cs : ℕ) (s : Strategy)
    → Dict.contains buys s.prices ≡ true
    → Dict.contains sells s.prices ≡ true
    → Dict.lookup (pair_of buys s) s.ticker_cfg ≡ some cb
    → Dict.lookup (pair_of sells s) s.ticker_cfg ≡ some cs
    → (price_of buys s.prices).ask_price ≢ k_price_invalid
    → (price_of sells s.prices).bid_price ≢ k_price_invalid
    → (buy_and_sell buys sells s).1 ≡ both_orders buys sells cb cs s
unfolding buy_and_sell buy_some_asset sell_some_asset touch_pair
buy_and_sell_lem buys sells cb cs s hb hs lb ls pb ps = ground (arith, pair_of-touch sells buys s)

unquoted_lem :
    (sells buys : ExchangeId) (s : Strategy)
    → (price_of sells s.prices).bid_price ≢ k_price_invalid
    → (price_of buys s.prices).ask_price ≢ k_price_invalid
    → unquoted sells buys s ≡ (record s { prices = touch buys (touch sells s.prices) }, false)
unfolding unquoted
unquoted_lem sells buys s b a = ground (arith, price_of-touch buys sells s.prices)

abbrev with_prices : Dict ExchangeId Bbo → Strategy → Strategy
with_prices m s = record s { prices = m }

pair_of-prices :
    (e : ExchangeId) (m : Dict ExchangeId Bbo) (s : Strategy)
    → pair_of e (with_prices m s) ≡ pair_of e s
unfolding pair_of
pair_of-prices e m s = refl

-- The map after both prices were read.
abbrev read : (sells buys : ExchangeId) → Dict ExchangeId Bbo → Dict ExchangeId Bbo
read sells buys m = touch buys (touch sells m)

price_of-read :
    (e sells buys : ExchangeId) (m : Dict ExchangeId Bbo)
    → price_of e (read sells buys m) ≡ price_of e m
price_of-read e sells buys m = cc (price_of-touch e buys (touch sells m), price_of-touch e sells m)

read-known :
    (sells buys : ExchangeId) (m : Dict ExchangeId Bbo)
    → (Dict.contains sells (read sells buys m) ≡ true)
      × (Dict.contains buys (read sells buys m) ≡ true)
read-known sells buys m = (
  known-touch sells buys (touch sells m) (known-touched sells m),
  known-touched buys (touch sells m),
)

-- A price that is quoted: not the reserved value, and below 2^64 as every uint64_t.
pub record IsQuoted (b : Bbo) : Type 0 where
  pub bid : b.bid_price < k_price_invalid
  pub ask : b.ask_price < k_price_invalid

-- The orders of one direction, after the prices were read.
orders_after_read :
    (buys sells : ExchangeId) (cb cs : ℕ) (m : Dict ExchangeId Bbo) (s : Strategy)
    → Dict.lookup (pair_of buys s) s.ticker_cfg ≡ some cb
    → Dict.lookup (pair_of sells s) s.ticker_cfg ≡ some cs
    → IsQuoted (price_of buys s.prices)
    → IsQuoted (price_of sells s.prices)
    → Dict.contains buys m ≡ true
    → Dict.contains sells m ≡ true
    → price_of buys m ≡ price_of buys s.prices
    → price_of sells m ≡ price_of sells s.prices
    → (buy_and_sell buys sells (with_prices m s)).1 ≡ both_orders buys sells cb cs s
orders_after_read buys sells cb cs m s lb ls qb qs kb ks pb ps =
    let a = qb.ask in
    let b = qs.bid in
    ground (
      arith,
      buy_and_sell_lem buys sells cb cs (with_prices m s),
      pair_of-prices buys m s,
      pair_of-prices sells m s,
    )

-- With both exchanges quoted and a clip for both pairs, the payload buys on the first exchange and
-- sells on the second unless the second one's bid equals the first one's ask, else the other way
-- round unless those two prices are equal, else it sends nothing. The prices are the BBO's.
launch_payload_lem :
    (s : Strategy) (c1 c2 : ℕ)
    → IsQuoted (price_of s.exch1 s.prices)
    → IsQuoted (price_of s.exch2 s.prices)
    → Dict.lookup (pair_of s.exch1 s) s.ticker_cfg ≡ some c1
    → Dict.lookup (pair_of s.exch2 s) s.ticker_cfg ≡ some c2
    → (launch_payload s).1 ≡ (
        if not ((price_of s.exch2 s.prices).bid_price == (price_of s.exch1 s.prices).ask_price)
        then both_orders s.exch1 s.exch2 c1 c2 s
        else if not ((price_of s.exch1 s.prices).bid_price == (price_of s.exch2 s.prices).ask_price)
        then both_orders s.exch2 s.exch1 c2 c1 s
        else [])
unfolding launch_payload
launch_payload_lem s c1 c2 q1 q2 l1 l2 =
    let e1 = s.exch1 in
    let e2 = s.exch2 in
    let m1 = read e2 e1 s.prices in
    let m2 = read e1 e2 m1 in
    let s1 = with_prices m1 s in
    let b1 = q1.bid in
    let a1 = q1.ask in
    let b2 = q2.bid in
    let a2 = q2.ask in
    let p1 = price_of-read e1 e2 e1 s.prices in
    let p2 = price_of-read e2 e2 e1 s.prices in
    let r1 = price_of-read e1 e1 e2 m1 in
    let r2 = price_of-read e2 e1 e2 m1 in
    let (k2, k1) = read-known e2 e1 s.prices in
    let (j1, j2) = read-known e1 e2 m1 in
    ground (
      arith,
      unquoted_lem e2 e1 s,
      unquoted_lem e1 e2 s1,
      difference (price_of e2 s.prices).bid_price (price_of e1 s.prices).ask_price,
      difference (price_of e1 s.prices).bid_price (price_of e2 s.prices).ask_price,
      orders_after_read e1 e2 c1 c2 m1 s l1 l2 q1 q2 k1 k2 p1 p2,
      orders_after_read e2 e1 c2 c1 m2 s l2 l1 q2 q1 j2 j1 (r2 ∙ p2) (r1 ∙ p1),
    )

-- With both exchanges quoted and a clip for both pairs: where the second exchange's bid is below
-- the first one's ask, so that the trade loses money, the payload makes it all the same.
pub launch_payload_loses :
    (s : Strategy) (c1 c2 : ℕ)
    → IsQuoted (price_of s.exch1 s.prices)
    → IsQuoted (price_of s.exch2 s.prices)
    → Dict.lookup (pair_of s.exch1 s) s.ticker_cfg ≡ some c1
    → Dict.lookup (pair_of s.exch2 s) s.ticker_cfg ≡ some c2
    → (price_of s.exch2 s.prices).bid_price < (price_of s.exch1 s.prices).ask_price
    → (launch_payload s).1 ≡ both_orders s.exch1 s.exch2 c1 c2 s
launch_payload_loses s c1 c2 q1 q2 l1 l2 h = ground (arith, launch_payload_lem s c1 c2 q1 q2 l1 l2)

abbrev price_of_order : Order → ℕ
price_of_order (new_order e p price side qty) = price

-- An order with a price that is not the reserved one.
unfoldable pub IsPriced : Order → Type 0
IsPriced (new_order e p price side qty) = price ≢ k_price_invalid

append-IsPriced : (xs ys : List Order) → All IsPriced xs → All IsPriced ys → All IsPriced (xs ++ ys)
append-IsPriced [] ys a b = b
append-IsPriced (x ∷ xs) ys (p, a) b = (p, append-IsPriced xs ys a b)

buy-IsPriced :
    (e : ExchangeId) (p : TradingPair) (s : Strategy) → All IsPriced (buy_some_asset e p s)
unfolding buy_some_asset IsPriced
buy-IsPriced e p s = ground arith

sell-IsPriced :
    (e : ExchangeId) (p : TradingPair) (s : Strategy) → All IsPriced (sell_some_asset e p s)
unfolding sell_some_asset IsPriced
sell-IsPriced e p s = ground arith

both-IsPriced :
    (buys sells : ExchangeId) (s : Strategy) → All IsPriced (buy_and_sell buys sells s).1
unfolding buy_and_sell
both-IsPriced buys sells s =
    let s' = touch_pair buys s in
    append-IsPriced (buy_some_asset buys (pair_of buys s) s')
      (sell_some_asset sells (pair_of sells s') s') (buy-IsPriced buys (pair_of buys s) s')
      (sell-IsPriced sells (pair_of sells s') s')

-- Whatever the state and the signal, no order is sent with the reserved price.
pub on_new_signal-IsPriced : (x : Signal) (s : Strategy) → All IsPriced (on_new_signal x s).1
unfolding on_new_signal launch_payload unquoted
on_new_signal-IsPriced x s =
    let start = process_signal x s in
    let s1 = (unquoted start.exch2 start.exch1 start).0 in
    let s2 = (unquoted start.exch1 start.exch2 s1).0 in
    ground
      (arith, both-IsPriced start.exch1 start.exch2 s1, both-IsPriced start.exch2 start.exch1 s2)
