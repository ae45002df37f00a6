-- ===== src/Feed/Truth.antt =====
-- The local book against the book of the exchange: the generator of Binance, the batch handler and
-- OrderBookComponent together.
use cryptobot.Common.{
  ℕ, ◌+◌, ◌-◌, ◌^◌, ◌≤◌, ◌<◌, ◌≡◌, ◌∙◌, subst, Option, none, List, [], ◌∷◌, arith,
}
use cryptobot.Types.{ExchangeId, TradingPair}
use cryptobot.Generator.{
  Diff, Snapshot, Policy, Output, spawn_request, snapshot_callback, diff_callback, new_state,
}
use cryptobot.Generator.Events.{
  Event, run, Track, resync, at_snapshot, at_diff, Follows, IsGapless, IsTimely,
}
use cryptobot.Generator.Stream.{run-IsGapless}
use cryptobot.OrderBook.Containers.{Containers}
use cryptobot.OrderBook.Book2.Loops.{put_levels, put_levels-ext}
use cryptobot.OrderBook.Component.{Component}
use cryptobot.Feed.Deliver.{Sides, told_levels, AllAbout, Holds, deliver, deliver-Holds}

-- The book of the exchange after each update id, as documented for its stream.
pub record Exchange : Type 0 where
  pub bids : ℕ → ℕ → Option ℕ
  pub asks : ℕ → ℕ → Option ℕ

abbrev pub levels_at : Exchange → ℕ → Sides
levels_at x id = record { bids = x.bids id; asks = x.asks id }

-- A snapshot shows the book at its id. A diff carries the quantities that its range of ids leaves,
-- so that it leads from the book at any id from before its first to its last to the book at its last.
module _ (x : Exchange) where
  abbrev pub IsTrueSnapshot : Snapshot → Type 0
  IsTrueSnapshot s =
      ((q : ℕ) → put_levels s.levels.bids (λ _. none) q ≡ x.bids s.last_update_id q)
      × ((q : ℕ) → put_levels s.levels.asks (λ _. none) q ≡ x.asks s.last_update_id q)

  pub record IsTrueDiff (d : Diff) : Type 0 where
    pub ordered : d.first_id ≤ d.last_id
    pub fits : d.last_id < 2 ^ 64 - 1
    pub bids :
        (m : ℕ)
        → d.first_id ≤ m + 1
        → m + 1 ≤ d.last_id
        → (q : ℕ) → put_levels d.levels.bids (x.bids m) q ≡ x.bids d.last_id q
    pub asks :
        (m : ℕ)
        → d.first_id ≤ m + 1
        → m + 1 ≤ d.last_id
        → (q : ℕ) → put_levels d.levels.asks (x.asks m) q ≡ x.asks d.last_id q

  abbrev pub AllTrue : List Output → Type 0
  AllTrue [] = Unit {0}
  AllTrue (spawn_request p ∷ out) = AllTrue out
  AllTrue (snapshot_callback s ∷ out) = IsTrueSnapshot s × AllTrue out
  AllTrue (diff_callback d ∷ out) = IsTrueDiff d × AllTrue out

  -- The levels are those of the exchange at an id.
  pub record Shows (levels : Sides) (id : ℕ) : Type 0 where
    pub bids : (q : ℕ) → levels.bids q ≡ x.bids id q
    pub asks : (q : ℕ) → levels.asks q ≡ x.asks id q

  abbrev pub Agree : Track → Sides → Type 0
  Agree resync levels = Unit {0}
  Agree (at_snapshot s) levels = Shows levels s.last_update_id
  Agree (at_diff d) levels = (d.last_id < 2 ^ 64 - 1) × Shows levels d.last_id

  Shows-diff :
      (d : Diff) (levels : Sides) (m : ℕ)
      → IsTrueDiff d
      → d.first_id ≤ m + 1
      → m + 1 ≤ d.last_id
      → Shows levels m
      → Shows
          (record {
            bids = put_levels d.levels.bids levels.bids;
            asks = put_levels d.levels.asks levels.asks;
          })
          d.last_id
  Shows-diff d levels m t below above s = record {
    bids = λ q. put_levels-ext d.levels.bids _ _ s.bids q ∙ t.bids m below above q;
    asks = λ q. put_levels-ext d.levels.asks _ _ s.asks q ∙ t.asks m below above q;
  }

-- Where the outputs leave the stream: at a request, or at the last snapshot or diff.
abbrev pub track_after : Track → List Output → Track
track_after t [] = t
track_after t (spawn_request p ∷ out) = track_after resync out
track_after t (snapshot_callback s ∷ out) = track_after (at_snapshot s) out
track_after t (diff_callback d ∷ out) = track_after (at_diff d) out

agree :
    (x : Exchange) (t : Track) (out : List Output) (levels : Sides)
    → IsGapless Policy.spot t out
    → AllTrue x out
    → Agree x t levels
    → Agree x (track_after t out) (told_levels out levels)
unfolding IsGapless Follows
agree x t [] levels g h a = a
agree x resync (spawn_request p ∷ out) levels g h a = agree x resync out levels g h tt
agree x (at_snapshot s) (spawn_request p ∷ out) levels g h a = absurd g
agree x (at_diff d) (spawn_request p ∷ out) levels g h a = agree x resync out levels g h tt
agree x resync (snapshot_callback s ∷ out) levels g ((sb, sa), h) a =
    agree x (at_snapshot s) out _ g h (record { bids = sb; asks = sa })
agree x (at_snapshot s') (snapshot_callback s ∷ out) levels g h a = absurd g
agree x (at_diff d) (snapshot_callback s ∷ out) levels g ((sb, sa), h) a =
    agree x (at_snapshot s) out _ g h (record { bids = sb; asks = sa })
agree x resync (diff_callback d ∷ out) levels g h a = absurd g
agree x (at_snapshot s) (diff_callback d ∷ out) levels (below, above, g) (t, h) a =
    agree x (at_diff d) out _ g h (t.fits, Shows-diff x d levels s.last_update_id t below above a)
agree x (at_diff d') (diff_callback d ∷ out) levels (f, g) (t, h) (fits, a) =
    let o = t.ordered in
    agree x (at_diff d) out _ g h
      (t.fits, Shows-diff x d levels d'.last_id t (ground arith) (ground arith) a)

-- Binance's spot stream from a fresh generator through the batch handler to a component that has a
-- well-formed book of the pair: where the events are timely (IsTimely), and the snapshots and the
-- diffs that are handed on are about that pair and true to the exchange, the last output being a diff
-- means that the book shows, at every price and on both sides, the exchange's quantities at
-- that diff's last id.
pub book_shows_exchange :
    (c : Containers) (x : Exchange) (e : ExchangeId) (pair : TradingPair) (events : List Event)
    (m : Component c) (levels : Sides) (d : Diff)
    → IsTimely Policy.spot new_state events
    → AllAbout e pair (run Policy.spot new_state events)
    → AllTrue x (run Policy.spot new_state events)
    → Holds c e pair m levels
    → track_after resync (run Policy.spot new_state events) ≡ at_diff d
    → Holds c e pair (deliver c (run Policy.spot new_state events) m) (levels_at x d.last_id)
book_shows_exchange c x e pair events m levels d timely about true_out h last =
    let out = run Policy.spot new_state events in
    let a = agree x resync out levels (run-IsGapless Policy.spot events timely) true_out tt in
    let shows : Shows x (told_levels out levels) d.last_id =
      (subst (λ t. Agree x t (told_levels out levels)) last a).1 in
    let held = deliver-Holds c e pair out m levels about h in
    record {
      book = held.book;
      held = held.held;
      well = held.well;
      bids = λ q. held.bids q ∙ shows.bids q;
      asks = λ q. held.asks q ∙ shows.asks q;
    }
