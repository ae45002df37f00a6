-- ===== src/OrderBook/Book1/Service.antt =====
-- OrderBookService::Run over MarketOrderBook: the updates of the queue, applied in order.
use cryptobot.Common.{
  ℕ, ◌≡◌, ◌≤◌, ◌∙◌, ◌+◌, ◌<◌, inl, inr, Bool-cases, Option, some, List, [], ◌∷◌, length, refl,
  if◌then◌else◌,
}
use cryptobot.Types.{Side, side_eq}
use cryptobot.Queue.{Queue}
use cryptobot.Queue.Consume.{consume_rounds, consume_rounds_lem, handle_all}
use cryptobot.OrderBook.Containers.{Containers}
use cryptobot.OrderBook.Book2.{MarketUpdateType, BookSnapshotElem}
use cryptobot.OrderBook.Book2.Loops.{put_level, put_levels, put_levels-ext}
use cryptobot.OrderBook.Book1.Defs.{MeMarketUpdate, Book, on_market_update}
use cryptobot.OrderBook.Book1.Sides.{level_of, bid_depth, ask_depth, IsWell, IsFresh, IsFree}
use cryptobot.OrderBook.Book1.Room.{serve_update, serve-some, AllDefault, me_max_orders_at_price}
use cryptobot.OrderBook.Book1.Update.{
  on_market_update-IsWell, on_market_update-IsFresh, depth-on_market_update,
}

-- The levels of one side, in the order of the updates.
abbrev pub levels_of : Side → List MeMarketUpdate → List BookSnapshotElem
levels_of s [] = []
levels_of s (u ∷ us) =
    let rest = levels_of s us in if side_eq u.side s then level_of u ∷ rest else rest

module _ (c : Containers) (queue : Queue MeMarketUpdate) where
  -- Run, for a number of rounds: `ob_` and `queue_` are not null. The book is none once an update has
  -- ended the program.
  unfoldable pub run : ℕ → queue.Q × Option (Book c) → queue.Q × Option (Book c)
  run rounds x = consume_rounds (serve_update c) queue rounds x

module _ (c : Containers) where
  -- No update is a CLEAR, and none has a price that the other side then holds.
  abbrev pub AllUncrossed : List MeMarketUpdate → Book c → Type 0
  AllUncrossed [] b = Unit {0}
  AllUncrossed (u ∷ us) b =
      (u.type ≡ MarketUpdateType.k_default)
      × IsFree c u.side u.price b
      × AllUncrossed us (on_market_update c u b)

  record Served (us : List MeMarketUpdate) (b b' : Book c) : Type 0 where
    well : IsWell c b'
    fresh : IsFresh c b'
    bids : (q : ℕ) → bid_depth c b' q ≡ put_levels (levels_of Side.k_bid us) (bid_depth c b) q
    asks : (q : ℕ) → ask_depth c b' q ≡ put_levels (levels_of Side.k_ask us) (ask_depth c b) q

  put_side :
      (s : Side) (u : MeMarketUpdate) (us : List MeMarketUpdate) (m n : ℕ → Option ℕ)
      → ((q : ℕ) → n q ≡ (if side_eq u.side s then put_level (level_of u) m q else m q))
      → (q : ℕ) → put_levels (levels_of s us) n q ≡ put_levels (levels_of s (u ∷ us)) m q
  put_side s u us m n h q =
      put_levels-ext (levels_of s us) n
        (λ p. if side_eq u.side s then put_level (level_of u) m p else m p) h q
      ∙ (elim (Bool-cases (side_eq u.side s)) [ inl e ↦ rw e refl | inr e ↦ rw e refl ])

  serve :
      (us : List MeMarketUpdate) (b : Book c)
      → IsWell c b
      → IsFresh c b
      → AllUncrossed us b
      → Served us b (handle_all (on_market_update c) us b)
  serve [] b w f a = record { well = w; fresh = f; bids = λ q. refl; asks = λ q. refl }
  serve (u ∷ us) b w f (d, free, rest) =
      let b₁ = on_market_update c u b in
      let r =
        serve us b₁ (on_market_update-IsWell c u b d w free)
          (on_market_update-IsFresh c u b d w free f) rest in
      let depths = depth-on_market_update c u b d w free in
      record {
        well = r.well;
        fresh = r.fresh;
        bids = λ q.
            r.bids q
            ∙ put_side Side.k_bid u us (bid_depth c b) (bid_depth c b₁) (λ p. (depths p).0) q;
        asks = λ q.
            r.asks q
            ∙ put_side Side.k_ask u us (ask_depth c b) (ask_depth c b₁) (λ p. (depths p).1) q;
      }

  all_default : (us : List MeMarketUpdate) (b : Book c) → AllUncrossed us b → AllDefault c us
  all_default [] b a = tt
  all_default (u ∷ us) b (d, free, rest) = (d, all_default us (on_market_update c u b) rest)

  -- Run by a queue with no more updates than rounds, and with fewer than the blocks of the book's pool
  -- less the nodes in use, none of them a CLEAR and none with a price that the other side then
  -- holds, the service does not end the program and empties the queue, and a well-formed book in
  -- step with its BBO ends so, each side holding at each price what the updates of that side, in
  -- the order of the queue, leave there.
  pub run_lem :
      (queue : Queue MeMarketUpdate) (rounds : ℕ) (q : queue.Q) (b : Book c)
      → length (queue.contents q) ≤ rounds
      → length b.nodes + length (queue.contents q) < me_max_orders_at_price
      → IsWell c b
      → IsFresh c b
      → AllUncrossed (queue.contents q) b
      → let us = queue.contents q in
        let (q', served) = run c queue rounds (q, some b) in
        (queue.contents q' ≡ [])
        × (b' : Book c) × (served ≡ some b')
        × IsWell c b'
        × IsFresh c b'
        × ((p : ℕ) → bid_depth c b' p ≡ put_levels (levels_of Side.k_bid us) (bid_depth c b) p)
        × ((p : ℕ) → ask_depth c b' p ≡ put_levels (levels_of Side.k_ask us) (ask_depth c b) p)
  unfolding run
  run_lem queue rounds q b l room w f a =
      let us = queue.contents q in
      let (empty, all) = consume_rounds_lem (serve_update c) queue rounds q (some b) l in
      let r = serve us b w f a in
      (
        empty,
        handle_all (on_market_update c) us b,
        all ∙ serve-some c us b (all_default us b a) room,
        r.well,
        r.fresh,
        r.bids,
        r.asks,
      )
