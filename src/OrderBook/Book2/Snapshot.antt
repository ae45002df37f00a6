-- ===== src/OrderBook/Book2/Snapshot.antt =====
-- OnMarketUpdate(const Exchange::BookSnapshot2*): it replaces the levels, and the BBO of the sides
-- that come with a quantity.
use cryptobot.Common.{ℕ, ◌≡◌, refl, ◌∙◌, ap, ◌∷◌, Bool, true, false, Option, none, List, [], arith}
use cryptobot.Types.{Side}
use cryptobot.OrderBook.Containers.{Containers}
use cryptobot.OrderBook.Half.{depth, clear_half}
use cryptobot.OrderBook.Half.Invariant.{clear_half-Inv}
use cryptobot.OrderBook.Book2.Defs.{
  Book, Bbo, Levels, BookSnapshotElem, bid_before, ask_before, clear_order_book, publish,
  on_snapshot,
}
use cryptobot.OrderBook.Book2.Loops.{
  Loop, bid-IsReach, ask-IsReach, turns-Loop, turns-depth, turns-flag, put_level, put_levels,
  any_qty, put_levels-ext,
}
use cryptobot.OrderBook.Book2.Fresh.{
  IsWell, IsFresh, bids_after, asks_after, looped, on_snapshot-publish, start-Loop-bids,
  start-Loop-asks, publish-IsFresh, publish-IsWell, publish-bids, publish-asks,
}

put_levels-none :
    (xs : List BookSnapshotElem) (m : ℕ → Option ℕ)
    → any_qty xs ≡ false
    → ((q : ℕ) → m q ≡ none)
    → (q : ℕ) → put_levels xs m q ≡ none
put_levels-none [] m e h q = h q
put_levels-none (x ∷ xs) m e h q =
    put_levels-none xs (put_level x m) (ground arith) (λ r. ground (arith, h r)) q

module _ (c : Containers) where
  publish-kept_bid :
      (wb wa : Bool) (b : Book c)
      → wb ≡ false
      → let b' = (publish c wb wa b).0 in
        (b'.bbo.bid_price ≡ b.bbo.bid_price) × (b'.bbo.bid_qty ≡ b.bbo.bid_qty)
  unfolding publish
  publish-kept_bid wb wa b e = ground arith

  abbrev cleared : Book c → Book c
  cleared = clear_order_book c

  cleared-IsWell : (b : Book c) → IsWell c (cleared b)
  unfolding clear_order_book
  cleared-IsWell b = record {
    bids = clear_half-Inv c bid-IsReach.strict b.bids;
    asks = clear_half-Inv c ask-IsReach.strict b.asks;
  }

  cleared_empty :
      (b : Book c) → (c.to_list (cleared b).bids.tree ≡ []) × (c.to_list (cleared b).asks.tree ≡ [])
  unfolding clear_order_book clear_half
  cleared_empty b = (c.to_list-no_nodes, c.to_list-no_nodes)

  cleared-depth :
      (b : Book c) (q : ℕ)
      → (depth c (cleared b).bids q ≡ none) × (depth c (cleared b).asks q ≡ none)
  unfolding clear_order_book clear_half depth
  cleared-depth b q = (ground (arith, c.at-no_entries q), ground (arith, c.at-no_entries q))

  cleared-bbo : (b : Book c) → (cleared b).bbo ≡ b.bbo
  unfolding clear_order_book
  cleared-bbo b = refl

  module _ (l : Levels) (b : Book c) where
    start_bids : Loop c bid_before false (cleared b).bids (cleared b).bids false
    start_bids = start-Loop-bids c false (cleared b) (cleared-IsWell b) (λ _. (cleared_empty b).0)

    start_asks : Loop c ask_before false (cleared b).asks (cleared b).asks false
    start_asks = start-Loop-asks c false (cleared b) (cleared-IsWell b) (λ _. (cleared_empty b).1)

    bid_flag : (bids_after c false l (cleared b)).1 ≡ any_qty l.bids
    bid_flag = turns-flag c bid-IsReach Side.k_bid l.bids _ _ false start_bids

    ask_flag : (asks_after c false l (cleared b)).1 ≡ any_qty l.asks
    ask_flag = turns-flag c ask-IsReach Side.k_ask l.asks _ _ false start_asks

    pub on_snapshot-IsWell : IsWell c (on_snapshot c l b).0
    on_snapshot-IsWell = rw (on_snapshot-publish c l b) (
        publish-IsWell c _ _ (looped c false l (cleared b))
          (turns-Loop c bid-IsReach Side.k_bid false l.bids _ _ false start_bids).half
          (turns-Loop c ask-IsReach Side.k_ask false l.asks _ _ false start_asks).half)

    -- Whatever the book was, a snapshot leaves both sides well formed; with a quantity on each side
    -- the BBO is the first node of each side.
    pub on_snapshot-IsFresh :
        any_qty l.bids ≡ true
        → any_qty l.asks ≡ true
        → IsWell c (on_snapshot c l b).0 × IsFresh c (on_snapshot c l b).0
    on_snapshot-IsFresh p q = (
      on_snapshot-IsWell,
      rw (on_snapshot-publish c l b) (
          publish-IsFresh c _ _ (looped c false l (cleared b))
            (λ e. absurd (ground (arith, bid_flag))) (λ e. absurd (ground (arith, ask_flag)))),
    )

    -- After a snapshot each side maps prices to quantities as the snapshot alone says.
    pub depth-on_snapshot :
        (q : ℕ)
        → (depth c (on_snapshot c l b).0.bids q ≡ put_levels l.bids (λ _. none) q)
          × (depth c (on_snapshot c l b).0.asks q ≡ put_levels l.asks (λ _. none) q)
    depth-on_snapshot q = rw (on_snapshot-publish c l b) (
      rw (publish-bids c _ _ (looped c false l (cleared b))) (
          turns-depth c bid-IsReach Side.k_bid false l.bids _ false (cleared-IsWell b).bids q
          ∙ put_levels-ext l.bids _ _ (λ r. (cleared-depth b r).0) q),
      rw (publish-asks c _ _ (looped c false l (cleared b))) (
          turns-depth c ask-IsReach Side.k_ask false l.asks _ false (cleared-IsWell b).asks q
          ∙ put_levels-ext l.asks _ _ (λ r. (cleared-depth b r).1) q),
    )

    kept_bid :
        any_qty l.bids ≡ false
        → let b' = (on_snapshot c l b).0 in
          (b'.bbo.bid_price ≡ b.bbo.bid_price) × (b'.bbo.bid_qty ≡ b.bbo.bid_qty)
    kept_bid e = rw (on_snapshot-publish c l b) (
        let p = publish-kept_bid _ _ (looped c false l (cleared b)) (bid_flag ∙ e) in
        (
          p.0 ∙ ap (λ (x : Bbo). x.bid_price) (cleared-bbo b),
          p.1 ∙ ap (λ (x : Bbo). x.bid_qty) (cleared-bbo b),
        ))

    -- A snapshot with no quantity on the bid side empties that side, and yet leaves the old bid in
    -- the BBO.
    pub on_snapshot-stale_bid :
        any_qty l.bids ≡ false
        → let b' = (on_snapshot c l b).0 in
          ((q : ℕ) → depth c b'.bids q ≡ none)
          × (b'.bbo.bid_price ≡ b.bbo.bid_price)
          × (b'.bbo.bid_qty ≡ b.bbo.bid_qty)
    on_snapshot-stale_bid e = (
      λ q. (depth-on_snapshot q).0 ∙ put_levels-none l.bids (λ _. none) e (λ _. refl) q,
      (kept_bid e).0,
      (kept_bid e).1,
    )
