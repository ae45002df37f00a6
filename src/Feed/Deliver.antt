-- ===== src/Feed/Deliver.antt =====
-- The outputs of Binance's generator, sent on in batches and handled by OrderBookComponent: which
-- levels the book then has. The bus is taken to deliver the events in the order sent.
use cryptobot.Common.{ℕ, ◌≡◌, ◌∙◌, Option, none, some, List, [], ◌∷◌, arith}
use cryptobot.Types.{ExchangeId, TradingPair, exchange_eq_iff, pair_eq_iff}
use cryptobot.Generator.{Diff, Snapshot, Output, spawn_request, snapshot_callback, diff_callback}
use cryptobot.OrderBook.Containers.{Containers}
use cryptobot.OrderBook.Half.{depth}
use cryptobot.OrderBook.Book2.{Book, Bbo, on_snapshot, on_diff}
use cryptobot.OrderBook.Book2.Loops.{put_levels, put_levels-ext}
use cryptobot.OrderBook.Book2.Fresh.{IsWell, on_diff-IsWell, depth-on_diff}
use cryptobot.OrderBook.Book2.Snapshot.{on_snapshot-IsWell, depth-on_snapshot}
use cryptobot.OrderBook.Component.{Component, Event, book_of, update_book, handle}
use cryptobot.OrderBook.Component.Routing.{update_book_lem}
use cryptobot.Feed.Defs.{batches, batch_of_snapshot, batch_of_diff}

-- The two maps from prices to quantities.
pub record Sides : Type 0 where
  pub bids : ℕ → Option ℕ
  pub asks : ℕ → Option ℕ

abbrev pub no_levels : Sides
no_levels = record { bids = λ _. none; asks = λ _. none }

-- What the outputs say of the levels: a snapshot replaces them, a diff overwrites some.
abbrev pub told_levels : List Output → Sides → Sides
told_levels [] m = m
told_levels (spawn_request pair ∷ out) m = told_levels out m
told_levels (snapshot_callback s ∷ out) m = told_levels out (record {
  bids = put_levels s.levels.bids (λ _. none);
  asks = put_levels s.levels.asks (λ _. none);
})
told_levels (diff_callback d ∷ out) m =
    told_levels out
      (record { bids = put_levels d.levels.bids m.bids; asks = put_levels d.levels.asks m.asks })

-- Every output is about the one pair of the one exchange.
abbrev pub AllAbout : ExchangeId → TradingPair → List Output → Type 0
AllAbout e pair [] = Unit {0}
AllAbout e pair (spawn_request p ∷ out) = AllAbout e pair out
AllAbout e pair (snapshot_callback s ∷ out) =
    (s.exchange_id ≡ e) × (s.trading_pair ≡ pair) × AllAbout e pair out
AllAbout e pair (diff_callback d ∷ out) =
    (d.exchange_id ≡ e) × (d.trading_pair ≡ pair) × AllAbout e pair out

module _ (c : Containers) where
  -- The component handles the events of the bus in their order.
  unfoldable pub handle_events : List Event → Component c → Component c
  handle_events [] m = m
  handle_events (e ∷ es) m = handle_events es (handle c e m).0

  unfoldable pub deliver : List Output → Component c → Component c
  unfolding batches handle_events
  deliver [] m = m
  deliver (o ∷ out) m = deliver out (handle_events (batches o) m)

  pub record Holds (e : ExchangeId) (pair : TradingPair) (m : Component c) (levels : Sides)
      : Type 0 where
    pub book : Book c
    pub held : book_of c e pair m ≡ some book
    pub well : IsWell c book
    pub bids : (q : ℕ) → depth c book.bids q ≡ levels.bids q
    pub asks : (q : ℕ) → depth c book.asks q ≡ levels.asks q

  pub updated :
      (e f : ExchangeId) (p q : TradingPair) (on_update : Book c → Book c × List Bbo)
      (m : Component c) (b : Book c)
      → f ≡ e
      → q ≡ p
      → book_of c e p m ≡ some b
      → book_of c e p (update_book c f q on_update m).0 ≡ some (on_update b).0
  updated e f p q on_update m b ee ep h =
      (update_book_lem c f e q p on_update m b (rw (ee, ep) h)).0
      ∙ ground (arith, exchange_eq_iff f e, pair_eq_iff q p)

  snapshot-Holds :
      (e : ExchangeId) (pair : TradingPair) (s : Snapshot) (m : Component c) (levels : Sides)
      → s.exchange_id ≡ e
      → s.trading_pair ≡ pair
      → Holds e pair m levels
      → Holds e pair (handle c (batch_of_snapshot s) m).0 (record {
        bids = put_levels s.levels.bids (λ _. none);
        asks = put_levels s.levels.asks (λ _. none);
      })
  unfolding handle batch_of_snapshot
  snapshot-Holds e pair s m levels ee ep h = record {
    book = (on_snapshot c s.levels h.book).0;
    held =
        updated e s.exchange_id pair s.trading_pair (on_snapshot c s.levels) m h.book ee ep h.held;
    well = on_snapshot-IsWell c s.levels h.book;
    bids = λ q. (depth-on_snapshot c s.levels h.book q).0;
    asks = λ q. (depth-on_snapshot c s.levels h.book q).1;
  }

  diff-Holds :
      (e : ExchangeId) (pair : TradingPair) (d : Diff) (m : Component c) (levels : Sides)
      → d.exchange_id ≡ e
      → d.trading_pair ≡ pair
      → Holds e pair m levels
      → Holds e pair (handle c (batch_of_diff d) m).0 (record {
        bids = put_levels d.levels.bids levels.bids;
        asks = put_levels d.levels.asks levels.asks;
      })
  unfolding handle batch_of_diff
  diff-Holds e pair d m levels ee ep h = record {
    book = (on_diff c d.levels h.book).0;
    held = updated e d.exchange_id pair d.trading_pair (on_diff c d.levels) m h.book ee ep h.held;
    well = on_diff-IsWell c d.levels h.book h.well;
    bids = λ q.
        (depth-on_diff c d.levels h.book h.well q).0 ∙ put_levels-ext d.levels.bids _ _ h.bids q;
    asks = λ q.
        (depth-on_diff c d.levels h.book h.well q).1 ∙ put_levels-ext d.levels.asks _ _ h.asks q;
  }

  -- Where the component has a well-formed book of the pair with the given levels, and every output
  -- of the generator is about that pair, the component ends with a well-formed book of the pair whose levels
  -- are what the outputs say: those of the last snapshot, overwritten by the diffs after it.
  pub deliver-Holds :
      (e : ExchangeId) (pair : TradingPair) (out : List Output) (m : Component c) (levels : Sides)
      → AllAbout e pair out
      → Holds e pair m levels
      → Holds e pair (deliver out m) (told_levels out levels)
  unfolding deliver
  deliver-Holds e pair [] m levels a h = h
  deliver-Holds e pair (spawn_request p ∷ out) m levels a h = deliver-Holds e pair out m levels a h
  deliver-Holds e pair (snapshot_callback s ∷ out) m levels (ee, ep, a) h =
      deliver-Holds e pair out _ _ a (snapshot-Holds e pair s m levels ee ep h)
  deliver-Holds e pair (diff_callback d ∷ out) m levels (ee, ep, a) h =
      deliver-Holds e pair out _ _ a (diff-Holds e pair d m levels ee ep h)
