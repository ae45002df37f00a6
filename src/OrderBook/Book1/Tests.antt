-- ===== src/OrderBook/Book1/Tests.antt =====
-- The theorems on MarketOrderBook at concrete updates.
use cryptobot.Common.{ℕ, ◌≡◌, refl, true, none, some, false, List, [], ◌∷◌, arith, nat_key}
use cryptobot.Common.Dict
use cryptobot.Types.{ExchangeId, Side}
use cryptobot.OrderBook.Containers.{find, place}
use cryptobot.OrderBook.Half.{top}
use cryptobot.OrderBook.Tests.{lists}
use cryptobot.OrderBook.Book2.{MarketUpdateType}
use cryptobot.OrderBook.Book2.Loops.{put_levels}
use cryptobot.OrderBook.Book1.Defs.{
  MeMarketUpdate, Book, bids_of, asks_of, new_book, on_market_update, add_order, update_bbo,
}
use cryptobot.OrderBook.Book1.Sides.{bid_depth, ask_depth, IsWell, IsFresh}
use cryptobot.OrderBook.Book1.Update
use cryptobot.OrderBook.Book1.Room.{is_full}
use cryptobot.OrderBook.Book1.Crossed
use cryptobot.OrderBook.Book1.Service
use cryptobot.OrderBook.Book1.Service.{AllUncrossed, run, levels_of}
use cryptobot.OrderBook.Book1.Channels
use cryptobot.OrderBook.Book1.Channels.{
  Channels, Told, Message, Sent, refused, delivered, IsServed, bbid_updated, bask_updated,
  update_bbo_of, listen, on_market_update_sends,
}
use cryptobot.Queue.Lists

abbrev update : Side → ℕ → ℕ → MeMarketUpdate
update s p n = record {
  type = MarketUpdateType.k_default;
  order_id = 0;
  side = s;
  price = p;
  qty = n;
}

abbrev start : Book lists
start = new_book lists

start-IsWell : IsWell lists start
start-IsWell = Update.new_book-IsWell lists

start-IsFresh : IsFresh lists start
unfolding new_book top
start-IsFresh = (refl, refl)

abbrev bid : MeMarketUpdate
bid = update Side.k_bid 100 5

abbrev ask : MeMarketUpdate
ask = update Side.k_ask 103 2

-- A book with one bid.
abbrev book : Book lists
book = on_market_update lists bid start

book-IsWell : IsWell lists book
unfolding new_book
book-IsWell = Update.on_market_update-IsWell lists bid start refl start-IsWell refl

book-IsFresh : IsFresh lists book
unfolding new_book
book-IsFresh = Update.on_market_update-IsFresh lists bid start refl start-IsWell refl start-IsFresh

held : find 100 book.bids_at_price_map ≡ some 0
unfolding on_market_update new_book update_bbo add_order place Dict.lookup
held = refl

free : find 103 book.bids_at_price_map ≡ none
unfolding on_market_update new_book update_bbo add_order place Dict.lookup
free = refl

crossed_removal_lem_example :
    let b' = on_market_update lists (update Side.k_ask 100 0) book in
    (find 100 b'.bids_at_price_map ≡ some 0)
    × (Dict.lookup 100 b'.price_orders_at_price ≡ none)
    × (Dict.lookup 0 b'.nodes ≡ none)
crossed_removal_lem_example =
    Crossed.crossed_removal_lem lists book book-IsWell (update Side.k_ask 100 0) 0 refl refl refl
      held

abbrev clear : MeMarketUpdate
clear = record ask { type = MarketUpdateType.clear }

updates-AllUncrossed : AllUncrossed lists (bid ∷ ask ∷ []) start
unfolding new_book
updates-AllUncrossed = (refl, refl, (refl, free, tt))

run_lem_example :
    let us = bid ∷ ask ∷ [] in
    let (q', served) = run lists (Lists.lists 8) 2 (us, some start) in
    (q' ≡ [])
    × (b' : Book lists) × (served ≡ some b')
    × IsWell lists b'
    × IsFresh lists b'
    × ((p : ℕ)
        → bid_depth lists b' p ≡ put_levels (levels_of Side.k_bid us) (bid_depth lists start) p)
    × ((p : ℕ)
        → ask_depth lists b' p ≡ put_levels (levels_of Side.k_ask us) (ask_depth lists start) p)
unfolding new_book
run_lem_example =
    Service.run_lem lists (Lists.lists 8) 2 (bid ∷ ask ∷ []) start (omega arith) (omega arith)
      start-IsWell start-IsFresh updates-AllUncrossed

abbrev channels : Channels
channels = record {
  exchange = ExchangeId.k_bybit;
  trading_pair = record { first = 1; second = 2 };
  has_trade_engine = true;
  has_position_keeper = true;
}

abbrev told : Told
told = record {
  bid = (book.bbo.bid_price, book.bbo.bid_qty);
  ask = (book.bbo.ask_price, book.bbo.ask_qty);
}

-- The queue of the position keeper is full.
abbrev sent : Message → Sent
sent (bbid_updated e p price qty) = delivered
sent (bask_updated e p price qty) = delivered
sent (update_bbo_of e p) = refused

sent-IsServed : IsServed sent
sent-IsServed = record {
  bids = λ e p price qty. refl;
  asks = λ e p price qty. refl;
  keeper = λ e p q. cc;
}

book_has_room : is_full lists book ≡ false
unfolding on_market_update new_book update_bbo add_order place Dict.insert Dict.lookup
book_has_room = refl

listen-Knows_example :
    (b' : Book lists) × (ms : List Message) × (on_market_update_sends lists sent channels ask book
      ≡ some (b', ms))
    × ((listen ms told).bid ≡ top lists (bids_of lists b'))
    × ((listen ms told).ask ≡ top lists (asks_of lists b'))
listen-Knows_example =
    Channels.listen-Knows lists sent channels ask book told sent-IsServed refl refl refl
      book_has_room book-IsWell free book-IsFresh (refl, refl)
