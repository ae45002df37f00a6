-- ===== src/OrderBook/Component/Routing.antt =====
-- Which book an event reaches, and what the bus receives.
use cryptobot.Common.{Bool, ◌&&◌, none, some, List, [], map, if◌then◌else◌, ◌≡◌, arith}
use cryptobot.Common.Dict
use cryptobot.Types.{
  ExchangeId, TradingPair, exchange_eq, exchange_eq_iff, exchange_key, pair_eq, pair_eq_iff,
  pair_key,
}
use cryptobot.OrderBook.Containers.{Containers}
use cryptobot.OrderBook.Book2.{Book, Bbo, new_book}
use cryptobot.OrderBook.Component.Defs.{
  Books, Component, book_of, set_book, add_order_book, send_bbo_to_bus, update_book,
}

module _ (c : Containers) where
  abbrev pub here : (e f : ExchangeId) (p q : TradingPair) → Bool
  here e f p q = exchange_eq e f && pair_eq p q

  book_of-set :
      (e f : ExchangeId) (p q : TradingPair) (b : Book c) (m : Component c)
      → book_of c f q (set_book c e p b m) ≡ (if here e f p q then some b else book_of c f q m)
  unfolding book_of set_book
  book_of-set e f p q b m =
      let books : Books c = elim (Dict.lookup e m.order_books) [ none ↦ [] | some bs ↦ bs ] in
      ground (
        arith,
        exchange_eq_iff e f,
        pair_eq_iff p q,
        Dict.lookup-insert e f (Dict.insert p b books) m.order_books,
        Dict.lookup-insert p q b books,
        Dict.lookup-nil {V = Book c} q,
      )

  -- An event for a pair with a book gives that book what its OnMarketUpdate makes of it, sends each
  -- BBO that the book published under the exchange, the pair and the market type, and leaves every
  -- other book as it was.
  pub update_book_lem :
      (e f : ExchangeId) (p q : TradingPair) (on_update : Book c → Book c × List Bbo)
      (m : Component c) (b : Book c)
      → book_of c e p m ≡ some b
      → let (m', sent) = update_book c e p on_update m in
        (book_of c f q m' ≡ (if here e f p q then some (on_update b).0 else book_of c f q m))
        × (sent
            ≡ map
                (λ x. record {
                  exchange_id = e;
                  trading_pair = p;
                  bbo = x;
                  market_type = m.market_type;
                })
                (on_update b).1)
  unfolding update_book send_bbo_to_bus
  update_book_lem e f p q on_update m b h = ground (arith, book_of-set e f p q (on_update b).0 m)

  -- An event for a pair without a book changes nothing and sends nothing.
  pub update_book-unknown :
      (e : ExchangeId) (p : TradingPair) (on_update : Book c → Book c × List Bbo) (m : Component c)
      → book_of c e p m ≡ none
      → update_book c e p on_update m ≡ (m, [])
  unfolding update_book
  update_book-unknown e p on_update m h = ground arith

  -- Adding a book gives a pair without one an empty book, and changes no book that is there.
  pub add_order_book_lem :
      (e f : ExchangeId) (p q : TradingPair) (m : Component c)
      → book_of c f q (add_order_book c e p m) ≡ elim (book_of c f q m) [
        | none ↦ if here e f p q then some (new_book c) else none
        | some b ↦ some b
      ]
  unfolding add_order_book
  add_order_book_lem e f p q m =
      ground (arith, exchange_eq_iff e f, pair_eq_iff p q, book_of-set e f p q (new_book c) m)
