-- ===== src/Lib.antt =====
-- The trading core of cryptobot, modelled from its C++ sources.
--
-- Market data comes from an exchange as diffs and snapshots of an order book. The generator
-- component of Binance (aot/Binance.h) brings the two in step for each trading pair and hands them
-- to callbacks, which feed the local books (MarketOrderBook2). A book tells its subscribers the best
-- bid and offer (BBO). Bybit's generator (aot/Bybit.h) does the same for a stream that carries its
-- own snapshots. OrderBookComponent keeps the books of all pairs and sends each new BBO over
-- the bus, CoBus, to the arbitrage strategy, which opens and closes trades over cycles of pairs and
-- reports their profit. The engine handles the responses in its queue, and the gateway hands
-- requests to the exchanges' executors; a back test replays a history of klines. Strategies such as
-- CrossArbitrage act on these prices through the order manager, whose requests go to the exchange;
-- the responses update the order manager, the wallet and the position keeper. Events come from
-- memory pools.
--
-- The files and what they model, paths from the repository's root:
-- - Common and its children: lists, options, integers and hash maps (association lists), shared.
-- - Types, Response: aot/common/types.h and the getters of aot/client_response.h.
-- - Double: the type double, an interface without laws; Double/Integers is an instance for the tests.
-- - OrderBook: aot/strategy/market_order.h, aot/strategy/market_order_book.h and
--   src/market_order_book.cpp. Containers is the interface to boost's avltree and to the hash map;
--   Half is one side of a MarketOrderBook2 (AddOrder is add_order, RemoveOrdersAtPrice is
--   remove_orders_at_price, ClearOrderBook is clear_half); Book2 is the whole book (OnMarketUpdate of a
--   single update, a snapshot and a diff: on_market_update, on_snapshot, on_diff; UpdateBBO and the
--   signal to the subscribers: publish).
-- - OrderBook/Book1: MarketOrderBook, the older book with one hash map for both sides, with
--   OrderBookService::Run (Service) and the OrderBook of cross_arbitrage (Channels), what becomes of
--   whose messages is a parameter. Room has the limit of its pool of nodes, which ends the program. Shared sees one of
--   the two trees as a half with a hash map of its own, so that what Half says of a half holds of it; Step,
--   Effect, Sides and Moved lead from there to OnMarketUpdate (Update), Crossed is about a price that
--   both sides use.
-- - OrderBook/Component: OrderBookComponent of the same file. Defs has its handlers (HandleNewDiff and
--   the others are handle) and the queries for a level; Levels, Routing and Sound are about them.
-- - Bus: CoBus of aot/bus/bus.h (AsyncSend is async_send; a call of a component is a parameter).
-- - Arbitrage: aot/strategy/arbitrage/arbitrage_strategy.h with arbitrage_step.h, trade_state.h and
--   transaction_report.h beside it, and src/arbitrage_cycle.cpp. EvaluateOpportunityArbitrageCycle is
--   evaluate, made of read_legs, trade_step and close_trade (Data and Trades have what they read and
--   write); Cycles, Closing, and Prices with Silent are about the added cycles, the life of a trade,
--   and the reports.
-- - Queue: the interface to moodycamel::ConcurrentQueue; Queue/Consume is the loop of a thread that
--   serves a queue, Queue/Lists an instance for the tests.
-- - Replay: backtesting::OHLCVI and backtesting::KLineService of aot/strategy/kline.h and src/kline.cpp,
--   with the engine and book of the back test. Ideal compares the service with one whose external queue
--   always has room, Rounds and Ending are about what leaves the service, Shown about the book.
-- - Engine: TradeEngine of src/trade_engine.cpp (Defs, Responses) and OrderGateway2 of
--   src/order_gw.cpp (Gateway).
-- - Endpoints: EndpointKey and EndpointManager of aot/Exchange.h.
-- - Generator: BidAskGeneratorComponent of aot/Binance.h. Defs has its handlers, on the state of one
--   pair (handle_diff, handle_snapshot) and on the component; Events says what is handed on for a
--   sequence of events and Stream that it has no gap, Resync is about getting in step, Routing about
--   the pairs.
-- - BybitGenerator: BidAskGeneratorComponent of aot/Bybit.h, with the same division.
-- - Feed: the callback handlers at the end of aot/Binance.h and aot/Bybit.h. Deliver is about what the
--   generator's outputs make of the books of OrderBookComponent, Truth and BybitTruth about the
--   exchange's own book,
--   Single about the handler that sends single updates.
-- - EventGetter: BookEventGetter3 of aot/Exchange.h, which subscribes on a session of the pool.
-- - Session: HttpsSession3 and ConnectionPool of aot/Https.h, with aot/session_status.h: Defs has the
--   parts of the coroutines (step), Pool the queue of sessions and the free list of its MemoryPool.
-- - Manager: aot/strategy/order_manager.h, aot/strategy/om_order.h and src/order_manager.cpp.
-- - Wallet: aot/wallet_asset.h and src/wallet_asset.cpp.
-- - Position: aot/strategy/position_keeper.h.
-- - CrossArbitrage: the strategy of this name in aot/strategy/base_strategy.h.
-- - BaseStrategy: the base class in that file, with src/base_strategy.cpp and the parser of
--   aot/launcher_predictor.h.
-- - TradingPairs: aot/common/exchange_trading_pair.h.
-- - Pnl: aot/pnl/pnl_calculator.h.
-- - MemPool: the pool of this name in aot/common/mem_pool.h.
-- Tests modules hold concrete data and run the theorems on it.
--
-- State is passed explicitly: an operation takes a state and returns the new one with what it sends.
-- A throw is the constructor raise with the state that it leaves, a failed ASSERT is fails, and none
-- where the operation has no other result. Unsigned sums that can wrap are taken % 2 ^ w, int is 32
-- bits in two's complement. A loop `while (run_)` is a number of rounds. Three more loops are not
-- structural. The search of MemPool for a free block runs on as much fuel as the pool has blocks: it
-- gives up on its own when it is back where it started. AcquireConnection, which waits for a ready
-- session, runs for a number of dequeued sessions: one more than there are before a ready one. The
-- loop around try_enqueue of the replay runs for a number of tries: as many as the reader of that
-- queue lets fail in a row, and one more.
--
-- Not modelled: logging, threads and executors (each component handles its events one at a time), the
-- network and JSON code of the exchanges, third-party libraries, and what a callback does with its
-- argument.
pub mod Common
pub mod Types
pub mod Double
pub mod Endpoints
pub mod Engine
pub mod Response
pub mod OrderBook
pub mod Wallet
pub mod Generator
pub mod BybitGenerator
pub mod Feed
pub mod Session
pub mod EventGetter
pub mod Manager
pub mod CrossArbitrage
pub mod Position
pub mod MemPool
pub mod TradingPairs
pub mod Pnl
pub mod Queue
pub mod Replay
pub mod Arbitrage
pub mod BaseStrategy
pub mod Bus
