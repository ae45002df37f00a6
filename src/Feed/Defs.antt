-- ===== src/Feed/Defs.antt =====
-- What the handlers send to the bus. Allocation from the pools and intrusive pointers are left out:
-- an event is its value.
use cryptobot.Common.{◌^◌, ◌-◌, List, [], ◌∷◌, ◌++◌}
use cryptobot.Types.{ExchangeId, TradingPair, Side}
use cryptobot.Generator.{Diff, Snapshot, Output, spawn_request, snapshot_callback, diff_callback}
use cryptobot.Generator.Events as Stream
use cryptobot.OrderBook.Book2.{BookSnapshotElem, Levels, MarketUpdateType}
use cryptobot.OrderBook.Component.{Event, market_update, response_new_snapshot, book_diff}

-- BidAskGeneratorCallbackHandler::ProcessBookEntries of Binance: one update for each entry.
unfoldable pub process_book_entries :
    List BookSnapshotElem → ExchangeId → TradingPair → Side → List Event
process_book_entries [] e pair side = []
process_book_entries (x ∷ entries) e pair side =
    market_update e pair
      (record { type = MarketUpdateType.k_default; side = side; price = x.price; qty = x.qty })
    ∷ process_book_entries entries e pair side

unfoldable pub process_levels : Levels → ExchangeId → TradingPair → List Event
unfolding process_book_entries
process_levels l e pair =
    process_book_entries l.bids e pair Side.k_bid ++ process_book_entries l.asks e pair Side.k_ask

-- The callbacks that BidAskGeneratorCallbackHandler of Binance registers.
unfoldable pub single_updates : Output → List Event
unfolding process_levels
single_updates (spawn_request pair) = []
single_updates (snapshot_callback s) = process_levels s.levels s.exchange_id s.trading_pair
single_updates (diff_callback d) = process_levels d.levels d.exchange_id d.trading_pair

-- The callbacks that BidAskGeneratorCallbackBatchHandler of Binance registers, and
-- BidAskGeneratorCallbackHandler of Bybit.
unfoldable pub batch_of_snapshot : Snapshot → Event
batch_of_snapshot s = response_new_snapshot s.exchange_id s.trading_pair s.levels

unfoldable pub batch_of_diff : Diff → Event
batch_of_diff d = book_diff d.exchange_id d.trading_pair d.levels

unfoldable pub batches : Output → List Event
unfolding batch_of_snapshot batch_of_diff
batches (spawn_request pair) = []
batches (snapshot_callback s) = batch_of_snapshot s ∷ []
batches (diff_callback d) = batch_of_diff d ∷ []

-- What a ParserManager makes of a message: the alternatives of its variant that the handlers treat.
pub data Answer : Type 0 where
  book_diff_snapshot : Diff → Answer
  book_snapshot : Snapshot → Answer
  api_response : Answer

-- HandleResponse of BookEventGetterComponentCallbackHandler of Binance.
unfoldable pub binance_events : Answer → List Stream.Event
binance_events (book_diff_snapshot d) = Stream.diff_event d ∷ []
binance_events (book_snapshot s) = []
binance_events api_response = []

-- HandleResponse of OrderBookWebSocketResponseHandler of Bybit, which sets no prev_id: its
-- default stands.
unfoldable pub bybit_events : Answer → List Stream.Event
bybit_events (book_diff_snapshot d) = Stream.diff_event (record d { prev_id = 2 ^ 64 - 1 }) ∷ []
bybit_events (book_snapshot s) = Stream.snapshot_event s ∷ []
bybit_events api_response = []
