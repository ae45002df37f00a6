-- ===== src/OrderBook/Component/Defs.antt =====
-- The nested map of books, the three handlers, AddOrderBook and the two level queries. What goes to
-- the bus is a list beside the component.
use cryptobot.Common.{ℕ, Option, none, some, List, [], map, get_elem?}
use cryptobot.Common.Dict
use cryptobot.Common.Dict.{Dict}
use cryptobot.Types.{
  ExchangeId, MarketType, TradingPair, exchange_key, pair_key, k_price_invalid, k_qty_invalid,
}
use cryptobot.OrderBook.Containers.{Containers, Entry}
use cryptobot.OrderBook.Half.{Half, node_at}
use cryptobot.OrderBook.Book2.{
  Book, Bbo, Levels, MeMarketUpdate2, new_book, on_market_update, on_snapshot, on_diff,
}

-- What SendBBOToBus sends.
pub record NewBbo : Type 0 where
  pub exchange_id : ExchangeId
  pub trading_pair : TradingPair
  pub bbo : Bbo
  pub market_type : MarketType

-- The event that a bus event wraps, or none.
pub data Event : Type 0 where
  market_update : ExchangeId → TradingPair → MeMarketUpdate2 → Event
  response_new_snapshot : ExchangeId → TradingPair → Levels → Event
  book_diff : ExchangeId → TradingPair → Levels → Event
  not_wrapped : Event

module _ (c : Containers) where
  abbrev pub Books : Type 0
  Books = Dict TradingPair (Book c)

  pub record Component : Type 0 where
    pub market_type : MarketType
    pub order_books : Dict ExchangeId Books

  -- The book of a pair on an exchange.
  unfoldable pub book_of : ExchangeId → TradingPair → Component → Option (Book c)
  book_of e pair m = elim (Dict.lookup e m.order_books) [
    | none ↦ none
    | some books ↦ Dict.lookup pair books
  ]

  unfoldable pub set_book : ExchangeId → TradingPair → Book c → Component → Component
  set_book e pair b m =
      let books : Books = elim (Dict.lookup e m.order_books) [ none ↦ [] | some bs ↦ bs ] in
      record m { order_books = Dict.insert e (Dict.insert pair b books) m.order_books }

  -- AddOrderBook: an empty book where there is none yet.
  unfoldable pub add_order_book : ExchangeId → TradingPair → Component → Component
  unfolding book_of set_book
  add_order_book e pair m = elim (book_of e pair m) [
    | none ↦ set_book e pair (new_book c) m
    | some b ↦ m
  ]

  -- SendBBOToBus, for what the book told its subscriber.
  unfoldable pub send_bbo_to_bus : ExchangeId → TradingPair → MarketType → List Bbo → List NewBbo
  send_bbo_to_bus e pair type bbos =
      map (λ b. record { exchange_id = e; trading_pair = pair; bbo = b; market_type = type }) bbos

  -- The common part of the three handlers: the guards on the two maps, and the book's OnMarketUpdate.
  unfoldable pub update_book :
      ExchangeId → TradingPair → (Book c → Book c × List Bbo) → Component → Component × List NewBbo
  unfolding book_of set_book send_bbo_to_bus
  update_book e pair on_update m = elim (book_of e pair m) [
    | none ↦ (m, [])
    | some b ↦
        let (b', bbos) = on_update b in
        (set_book e pair b' m, send_bbo_to_bus e pair m.market_type bbos)
  ]

  -- HandleNewMEMarketUpdate, HandleResponseNewSnapshot and HandleNewDiff.
  unfoldable pub handle : Event → Component → Component × List NewBbo
  unfolding update_book
  handle (market_update e pair u) m = update_book e pair (on_market_update c u) m
  handle (response_new_snapshot e pair l) m = update_book e pair (on_snapshot c l) m
  handle (book_diff e pair l) m = update_book e pair (on_diff c l) m
  handle not_wrapped m = (m, [])

  -- What an iterator over a side's tree shows.
  unfoldable pub shown : Half c → Entry → ℕ × ℕ
  shown h (p, a) = let o = (node_at a h.nodes).first_mkt_order in (o.price, o.qty)

  -- The price and the quantity at a level of a side, counted from begin().
  unfoldable pub at_level : Half c → ℕ → ℕ × ℕ
  unfolding shown
  at_level h level = elim (get_elem? (c.to_list h.tree) level) [
    | none ↦ (k_price_invalid, k_qty_invalid)
    | some e ↦ shown h e
  ]

  unfoldable pub get_price_and_qty_at_level_bid : ExchangeId → TradingPair → ℕ → Component → ℕ × ℕ
  unfolding book_of at_level
  get_price_and_qty_at_level_bid e pair level m = elim (book_of e pair m) [
    | none ↦ (k_price_invalid, k_qty_invalid)
    | some b ↦ at_level b.bids level
  ]

  unfoldable pub get_price_and_qty_at_level_ask : ExchangeId → TradingPair → ℕ → Component → ℕ × ℕ
  unfolding book_of at_level
  get_price_and_qty_at_level_ask e pair level m = elim (book_of e pair m) [
    | none ↦ (k_price_invalid, k_qty_invalid)
    | some b ↦ at_level b.asks level
  ]
