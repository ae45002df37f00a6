-- ===== src/Feed/Tests.antt =====
-- The theorems on the feed at a concrete stream.
use cryptobot.Common.{ℕ, refl, none, some, List, [], ◌∷◌, leb, ◌==◌, if◌then◌else◌, arith}
use cryptobot.Common.Dict
use cryptobot.Types.{ExchangeId, MarketType, TradingPair, exchange_key, pair_key}
use cryptobot.Generator.{
  Diff, Snapshot, Policy, snapshot_callback, new_state, handle_diff, handle_snapshot,
  check_packet_loss,
}
use cryptobot.Generator.Events.{Event, diff_event, snapshot_event, run, IsTimely}
use cryptobot.OrderBook.Half.{new_half, depth}
use cryptobot.OrderBook.Half.Invariant.{new_half-Inv}
use cryptobot.OrderBook.Book2.{Levels, new_book}
use cryptobot.OrderBook.Book2.Fresh.{IsWell}
use cryptobot.OrderBook.Book2.Loops.{bid-IsReach, ask-IsReach, put_levels}
use cryptobot.OrderBook.Component.{Component, book_of}
use cryptobot.OrderBook.Tests.{lists}
use cryptobot.Feed.{single_updates}
use cryptobot.Feed.Deliver.{Sides, no_levels, Holds, deliver, handle_events, AllAbout}
use cryptobot.Feed.Single
use cryptobot.Feed.Truth
use cryptobot.Feed.BybitTruth
use cryptobot.Feed.BybitTruth.{handed, AllTrueDeltas}
use cryptobot.BybitGenerator as Bybit
use cryptobot.BybitGenerator.Events as BybitEvents
use cryptobot.BybitGenerator.Events.{IsAnswered}
use cryptobot.Feed.Truth.{Exchange, AllTrue, levels_at}

abbrev pair : TradingPair
pair = record { first = 1; second = 2 }

-- The best bid has 5 until id 8, and 6 from id 9 on.
abbrev exchange : Exchange
exchange = record {
  bids = λ id q. if 100 == q then (if leb 9 id then some 6 else some 5) else none;
  asks = λ id q. none;
}

abbrev bid : ℕ → Levels
bid n = record { bids = record { price = 100; qty = n } ∷ []; asks = [] }

abbrev diff : (first last qty : ℕ) → Diff
diff first last qty = record {
  exchange_id = ExchangeId.k_binance;
  trading_pair = pair;
  levels = bid qty;
  first_id = first;
  last_id = last;
  prev_id = 0;
}

abbrev snapshot : Snapshot
snapshot = record {
  exchange_id = ExchangeId.k_binance;
  trading_pair = pair;
  levels = bid 5;
  last_update_id = 8;
}

abbrev events : List Event
events = diff_event (diff 5 7 5) ∷ snapshot_event snapshot ∷ diff_event (diff 8 9 6) ∷ []

events-IsTimely : IsTimely Policy.spot new_state events
unfolding IsTimely handle_diff handle_snapshot check_packet_loss
events-IsTimely = ground arith

outputs-AllAbout : AllAbout ExchangeId.k_binance pair (run Policy.spot new_state events)
unfolding run handle_diff handle_snapshot check_packet_loss
outputs-AllAbout = (refl, refl, (refl, refl, tt))

outputs-AllTrue : AllTrue exchange (run Policy.spot new_state events)
unfolding run handle_diff handle_snapshot check_packet_loss
outputs-AllTrue = (
  (λ q. ground arith, λ q. refl),
  (
    record {
      ordered = omega arith;
      fits = omega arith;
      bids = λ m below above q. ground arith;
      asks = λ m below above q. refl;
    },
    tt,
  ),
)

abbrev component : Component lists
component = record {
  market_type = MarketType.k_spot;
  order_books = (ExchangeId.k_binance, (pair, new_book lists) ∷ []) ∷ [];
}

empty-IsWell : IsWell lists (new_book lists)
unfolding new_book new_half
empty-IsWell = record {
  bids = new_half-Inv lists bid-IsReach.strict;
  asks = new_half-Inv lists ask-IsReach.strict;
}

component-Holds : Holds lists ExchangeId.k_binance pair component no_levels
unfolding book_of Dict.lookup new_book depth new_half
component-Holds = record {
  book = new_book lists;
  held = refl;
  well = empty-IsWell;
  bids = λ q. refl;
  asks = λ q. refl;
}

book_shows_exchange_example :
    Holds lists ExchangeId.k_binance pair
      (deliver lists (run Policy.spot new_state events) component)
      (levels_at exchange 9)
unfolding run handle_diff handle_snapshot check_packet_loss
book_shows_exchange_example =
    Truth.book_shows_exchange lists exchange ExchangeId.k_binance pair events component no_levels
      (diff 8 9 6) events-IsTimely outputs-AllAbout outputs-AllTrue component-Holds refl

abbrev stale : Sides
stale = record { bids = put_levels (bid 5).bids (λ _. none); asks = λ _. none }

single_snapshot_merges_example :
    Holds lists ExchangeId.k_binance pair
      (handle_events lists (single_updates (snapshot_callback snapshot)) component)
      stale
single_snapshot_merges_example =
    Single.single_snapshot_merges lists snapshot component no_levels component-Holds

-- The same book on Bybit's stream: a snapshot, and the diff of the next id.
abbrev delta : Diff
delta = record (diff 9 9 6) { exchange_id = ExchangeId.k_bybit }

abbrev bybit_snapshot : Snapshot
bybit_snapshot = record snapshot { exchange_id = ExchangeId.k_bybit }

abbrev bybit_events : List Event
bybit_events = snapshot_event bybit_snapshot ∷ diff_event delta ∷ []

bybit_events-IsAnswered : IsAnswered bybit_events
bybit_events-IsAnswered = ground arith

bybit_outputs-AllAbout :
    AllAbout ExchangeId.k_bybit pair (handed (BybitEvents.run new_state bybit_events))
unfolding BybitEvents.run Bybit.handle_diff Bybit.handle_snapshot handed
bybit_outputs-AllAbout = (refl, refl, (refl, refl, tt))

bybit_outputs-AllTrueDeltas : AllTrueDeltas exchange (BybitEvents.run new_state bybit_events)
unfolding BybitEvents.run Bybit.handle_diff Bybit.handle_snapshot
bybit_outputs-AllTrueDeltas = (
  (λ q. ground arith, λ q. refl),
  (record { bids = λ m n q. ground arith; asks = λ m n q. refl }, tt),
)

abbrev bybit_component : Component lists
bybit_component = record {
  market_type = MarketType.k_spot;
  order_books = (ExchangeId.k_bybit, (pair, new_book lists) ∷ []) ∷ [];
}

bybit_component-Holds : Holds lists ExchangeId.k_bybit pair bybit_component no_levels
unfolding book_of Dict.lookup new_book depth new_half
bybit_component-Holds = record {
  book = new_book lists;
  held = refl;
  well = empty-IsWell;
  bids = λ q. refl;
  asks = λ q. refl;
}

bybit_book_shows_exchange_example :
    Holds lists ExchangeId.k_bybit pair
      (deliver lists (handed (BybitEvents.run new_state bybit_events)) bybit_component)
      (levels_at exchange 9)
unfolding BybitEvents.run Bybit.handle_diff Bybit.handle_snapshot
bybit_book_shows_exchange_example =
    BybitTruth.bybit_book_shows_exchange lists exchange ExchangeId.k_bybit pair bybit_events
      bybit_component no_levels delta bybit_events-IsAnswered bybit_outputs-AllAbout
      bybit_outputs-AllTrueDeltas bybit_component-Holds refl
