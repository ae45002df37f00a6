-- ===== src/Feed/BybitTruth.antt =====
-- The local book against the book of the exchange: Bybit's generator, its callback handler and
-- OrderBookComponent together.
use cryptobot.Common.{ℕ, ◌≡◌, ◌∙◌, subst, List, [], ◌∷◌}
use cryptobot.Types.{ExchangeId, TradingPair}
use cryptobot.Generator.{Diff, Snapshot, Output as Handed, next_id, new_state}
use cryptobot.Generator as Binance
use cryptobot.Generator.Events.{Event, Track, resync, at_snapshot, at_diff}
use cryptobot.BybitGenerator.{Output, spawn_subscribe, snapshot_callback, diff_callback}
use cryptobot.BybitGenerator.Events.{run, IsContiguous, IsAnswered}
use cryptobot.BybitGenerator.Stream.{run-IsContiguous}
use cryptobot.OrderBook.Containers.{Containers}
use cryptobot.OrderBook.Book2.Loops.{put_levels, put_levels-ext}
use cryptobot.OrderBook.Component.{Component}
use cryptobot.Feed.Deliver.{Sides, told_levels, AllAbout, Holds, deliver, deliver-Holds}
use cryptobot.Feed.Truth.{Exchange, levels_at, IsTrueSnapshot, Shows}

-- What reaches the two callbacks, which do the same as those of Binance's batch handler.
unfoldable pub handed : List Output → List Handed
handed [] = []
handed (spawn_subscribe b p ∷ out) = handed out
handed (snapshot_callback s ∷ out) = Binance.snapshot_callback s ∷ handed out
handed (diff_callback d ∷ out) = Binance.diff_callback d ∷ handed out

module _ (x : Exchange) where
  -- A diff leads from the book at the id before its own to the book at its own.
  pub record IsTrueDelta (d : Diff) : Type 0 where
    pub bids :
        (m : ℕ)
        → d.last_id ≡ next_id m
        → (q : ℕ) → put_levels d.levels.bids (x.bids m) q ≡ x.bids d.last_id q
    pub asks :
        (m : ℕ)
        → d.last_id ≡ next_id m
        → (q : ℕ) → put_levels d.levels.asks (x.asks m) q ≡ x.asks d.last_id q

  abbrev pub AllTrueDeltas : List Output → Type 0
  AllTrueDeltas [] = Unit {0}
  AllTrueDeltas (spawn_subscribe b p ∷ out) = AllTrueDeltas out
  AllTrueDeltas (snapshot_callback s ∷ out) = IsTrueSnapshot x s × AllTrueDeltas out
  AllTrueDeltas (diff_callback d ∷ out) = IsTrueDelta d × AllTrueDeltas out

  abbrev AgreeAt : Track → Sides → Type 0
  AgreeAt resync levels = Unit {0}
  AgreeAt (at_snapshot s) levels = Shows x levels s.last_update_id
  AgreeAt (at_diff d) levels = Shows x levels d.last_id

  Shows-delta :
      (d : Diff) (levels : Sides) (m : ℕ)
      → IsTrueDelta d
      → d.last_id ≡ next_id m
      → Shows x levels m
      → Shows x
          (record {
            bids = put_levels d.levels.bids levels.bids;
            asks = put_levels d.levels.asks levels.asks;
          })
          d.last_id
  Shows-delta d levels m t n s = record {
    bids = λ q. put_levels-ext d.levels.bids _ _ s.bids q ∙ t.bids m n q;
    asks = λ q. put_levels-ext d.levels.asks _ _ s.asks q ∙ t.asks m n q;
  }

-- Where the outputs leave the stream: at a request, or at the last snapshot or diff.
abbrev pub left_at : Track → List Output → Track
left_at t [] = t
left_at t (spawn_subscribe b p ∷ out) = left_at resync out
left_at t (snapshot_callback s ∷ out) = left_at (at_snapshot s) out
left_at t (diff_callback d ∷ out) = left_at (at_diff d) out

agree_at :
    (x : Exchange) (t : Track) (out : List Output) (levels : Sides)
    → IsContiguous t out
    → AllTrueDeltas x out
    → AgreeAt x t levels
    → AgreeAt x (left_at t out) (told_levels (handed out) levels)
unfolding IsContiguous handed
agree_at x t [] levels g h a = a
agree_at x resync (spawn_subscribe b p ∷ out) levels g h a = agree_at x resync out levels g h tt
agree_at x (at_snapshot s) (spawn_subscribe b p ∷ out) levels g h a = absurd g
agree_at x (at_diff d) (spawn_subscribe b p ∷ out) levels g h a =
    agree_at x resync out levels g h tt
agree_at x resync (snapshot_callback s ∷ out) levels g ((sb, sa), h) a =
    agree_at x (at_snapshot s) out _ g h (record { bids = sb; asks = sa })
agree_at x (at_snapshot s') (snapshot_callback s ∷ out) levels g h a = absurd g
agree_at x (at_diff d) (snapshot_callback s ∷ out) levels g ((sb, sa), h) a =
    agree_at x (at_snapshot s) out _ g h (record { bids = sb; asks = sa })
agree_at x resync (diff_callback d ∷ out) levels g h a = absurd g
agree_at x (at_snapshot s) (diff_callback d ∷ out) levels (n, g) (t, h) a =
    agree_at x (at_diff d) out _ g h (Shows-delta x d levels s.last_update_id t n a)
agree_at x (at_diff d') (diff_callback d ∷ out) levels (n, g) (t, h) a =
    agree_at x (at_diff d) out _ g h (Shows-delta x d levels d'.last_id t n a)

-- Bybit's stream from a fresh generator through the handler to a component that has a well-formed
-- book of the pair: where, in the stream (IsAnswered), at the start and after a diff out of order no
-- diff has the id after the one before it until a snapshot has come, and no snapshot has the id
-- of the snapshot before it, or 0 as the first one, and the snapshots and the diffs that are handed
-- on are about that pair and true to the exchange, the last output being a diff means that the
-- book shows, at every price and on both sides, the exchange's quantities at that diff's id.
pub bybit_book_shows_exchange :
    (c : Containers) (x : Exchange) (e : ExchangeId) (pair : TradingPair) (events : List Event)
    (m : Component c) (levels : Sides) (d : Diff)
    → IsAnswered events
    → AllAbout e pair (handed (run new_state events))
    → AllTrueDeltas x (run new_state events)
    → Holds c e pair m levels
    → left_at resync (run new_state events) ≡ at_diff d
    → Holds c e pair (deliver c (handed (run new_state events)) m) (levels_at x d.last_id)
bybit_book_shows_exchange c x e pair events m levels d answered about true_out h last =
    let out = run new_state events in
    let a = agree_at x resync out levels (run-IsContiguous events answered) true_out tt in
    let shows : Shows x (told_levels (handed out) levels) d.last_id =
      subst (λ t. AgreeAt x t (told_levels (handed out) levels)) last a in
    let held = deliver-Holds c e pair (handed out) m levels about h in
    record {
      book = held.book;
      held = held.held;
      well = held.well;
      bids = λ q. held.bids q ∙ shows.bids q;
      asks = λ q. held.asks q ∙ shows.asks q;
    }
