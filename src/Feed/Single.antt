-- ===== src/Feed/Single.antt =====
-- BidAskGeneratorCallbackHandler of Binance, which sends each entry as an update of its own: a
-- snapshot is merged into the levels that the book has.
use cryptobot.Common.{◌≡◌, refl, ap, ◌∙◌, some, List, [], ◌∷◌, ◌++◌}
use cryptobot.Types.{ExchangeId, TradingPair, Side}
use cryptobot.Generator.{Snapshot, snapshot_callback}
use cryptobot.OrderBook.Containers.{Containers}
use cryptobot.OrderBook.Book2.{BookSnapshotElem, on_market_update, on_diff}
use cryptobot.OrderBook.Book2.Loops.{put_levels, put_levels-ext}
use cryptobot.OrderBook.Book2.Fresh.{on_diff-IsWell, depth-on_diff}
use cryptobot.OrderBook.Book2.Update.{on_market_update-eq-on_diff, update_of, one_bid, one_ask}
use cryptobot.OrderBook.Component.{Component, Event, update_book, handle}
use cryptobot.Feed.Defs.{process_book_entries, single_updates}
use cryptobot.Feed.Deliver.{Sides, Holds, handle_events, updated}

module _ (c : Containers) (e : ExchangeId) (pair : TradingPair) where
  handle_events-append :
      (xs ys : List Event) (m : Component c)
      → handle_events c (xs ++ ys) m ≡ handle_events c ys (handle_events c xs m)
  unfolding handle_events
  handle_events-append [] ys m = refl
  handle_events-append (x ∷ xs) ys m = handle_events-append xs ys (handle c x m).0

  bid-Holds :
      (x : BookSnapshotElem) (m : Component c) (levels : Sides)
      → Holds c e pair m levels
      → Holds c e pair
          (update_book c e pair (on_market_update c (update_of Side.k_bid x.price x.qty)) m).0
          (record levels { bids = put_levels (x ∷ []) levels.bids })
  bid-Holds x m levels h =
      let same = (on_market_update-eq-on_diff c h.book x.price x.qty).0 in
      record {
        book = (on_diff c (one_bid x.price x.qty) h.book).0;
        held =
            updated c e e pair pair (on_market_update c (update_of Side.k_bid x.price x.qty)) m
              h.book refl refl h.held
            ∙ ap (λ r. some r.0) same;
        well = on_diff-IsWell c (one_bid x.price x.qty) h.book h.well;
        bids = λ q.
            (depth-on_diff c (one_bid x.price x.qty) h.book h.well q).0
            ∙ put_levels-ext (x ∷ []) _ _ h.bids q;
        asks = λ q. (depth-on_diff c (one_bid x.price x.qty) h.book h.well q).1 ∙ h.asks q;
      }

  ask-Holds :
      (x : BookSnapshotElem) (m : Component c) (levels : Sides)
      → Holds c e pair m levels
      → Holds c e pair
          (update_book c e pair (on_market_update c (update_of Side.k_ask x.price x.qty)) m).0
          (record levels { asks = put_levels (x ∷ []) levels.asks })
  ask-Holds x m levels h =
      let same = (on_market_update-eq-on_diff c h.book x.price x.qty).1 in
      record {
        book = (on_diff c (one_ask x.price x.qty) h.book).0;
        held =
            updated c e e pair pair (on_market_update c (update_of Side.k_ask x.price x.qty)) m
              h.book refl refl h.held
            ∙ ap (λ r. some r.0) same;
        well = on_diff-IsWell c (one_ask x.price x.qty) h.book h.well;
        bids = λ q. (depth-on_diff c (one_ask x.price x.qty) h.book h.well q).0 ∙ h.bids q;
        asks = λ q.
            (depth-on_diff c (one_ask x.price x.qty) h.book h.well q).1
            ∙ put_levels-ext (x ∷ []) _ _ h.asks q;
      }

  bids-Holds :
      (xs : List BookSnapshotElem) (m : Component c) (levels : Sides)
      → Holds c e pair m levels
      → Holds c e pair
          (handle_events c (process_book_entries xs e pair Side.k_bid) m)
          (record levels { bids = put_levels xs levels.bids })
  unfolding handle_events process_book_entries handle
  bids-Holds [] m levels h = h
  bids-Holds (x ∷ xs) m levels h = bids-Holds xs _ _ (bid-Holds x m levels h)

  asks-Holds :
      (xs : List BookSnapshotElem) (m : Component c) (levels : Sides)
      → Holds c e pair m levels
      → Holds c e pair
          (handle_events c (process_book_entries xs e pair Side.k_ask) m)
          (record levels { asks = put_levels xs levels.asks })
  unfolding handle_events process_book_entries handle
  asks-Holds [] m levels h = h
  asks-Holds (x ∷ xs) m levels h = asks-Holds xs _ _ (ask-Holds x m levels h)

-- A snapshot of a pair of which the component has a well-formed book leaves, sent as single
-- updates, the levels that the book had, overwritten by those of the snapshot: prices that the
-- snapshot does not name stay.
pub single_snapshot_merges :
    (c : Containers) (s : Snapshot) (m : Component c) (levels : Sides)
    → Holds c s.exchange_id s.trading_pair m levels
    → Holds c s.exchange_id s.trading_pair
        (handle_events c (single_updates (snapshot_callback s)) m)
        (record {
          bids = put_levels s.levels.bids levels.bids;
          asks = put_levels s.levels.asks levels.asks;
        })
unfolding single_updates
single_snapshot_merges c s m levels h =
    let bids = process_book_entries s.levels.bids s.exchange_id s.trading_pair Side.k_bid in
    let asks = process_book_entries s.levels.asks s.exchange_id s.trading_pair Side.k_ask in
    rw (handle_events-append c s.exchange_id s.trading_pair bids asks m) (
      asks-Holds c s.exchange_id s.trading_pair s.levels.asks _ _
        (bids-Holds c s.exchange_id s.trading_pair s.levels.bids m levels h))
