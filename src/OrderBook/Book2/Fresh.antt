-- ===== src/OrderBook/Book2/Fresh.antt =====
-- The BBO of a book against the levels that it holds, after each OnMarketUpdate.
use cryptobot.Common.{ℕ, ◌≤◌, ◌≡◌, refl, ◌∙◌, sym, Bool, true, false, some, [], arith}
use cryptobot.Types.{Side}
use cryptobot.OrderBook.Containers.{Containers}
use cryptobot.OrderBook.Half.{Half, top, depth}
use cryptobot.OrderBook.Half.Invariant.{Inv}
use cryptobot.OrderBook.Half.Depth.{top-is_best}
use cryptobot.OrderBook.Book2.Defs.{
  Book, Levels, bid_before, ask_before, bid_reaches, ask_reaches, clear_order_book, publish,
  apply_levels, on_snapshot, on_diff,
}
use cryptobot.OrderBook.Book2.Loops.{
  Loop, bid-IsReach, ask-IsReach, turns, apply_bids-turns, apply_asks-turns, turns-Loop,
  turns-depth, put_levels,
}

-- Both sides are well formed.
pub record IsWell (c : Containers) (b : Book c) : Type 0 where
  pub bids : Inv c bid_before b.bids
  pub asks : Inv c ask_before b.asks

-- The BBO is the first node of each side, or the reserved values where there is none.
pub record IsFresh (c : Containers) (b : Book c) : Type 0 where
  pub bid : (b.bbo.bid_price, b.bbo.bid_qty) ≡ top c b.bids
  pub ask : (b.bbo.ask_price, b.bbo.ask_qty) ≡ top c b.asks

module _ (c : Containers) where
  -- The halves and the flags that the two loops end with.
  abbrev pub bids_after : Bool → Levels → Book c → Half c × Bool
  bids_after always l b = turns c bid_before bid_reaches Side.k_bid always l.bids (b.bids, false)

  abbrev pub asks_after : Bool → Levels → Book c → Half c × Bool
  asks_after always l b = turns c ask_before ask_reaches Side.k_ask always l.asks (b.asks, false)

  apply_levels-turns :
      (always : Bool) (l : Levels) (b : Book c)
      → apply_levels c always l b
        ≡ publish c
            (bids_after always l b).1
            (asks_after always l b).1
            (record b { bids = (bids_after always l b).0; asks = (asks_after always l b).0 })
  unfolding apply_levels
  apply_levels-turns always l b =
      rw (apply_bids-turns c always l.bids b false) (
        rw (apply_asks-turns c always l.asks (record b { bids = (bids_after always l b).0 }) false))

  -- The book as the loops of a diff leave it.
  abbrev pub looped : Bool → Levels → Book c → Book c
  looped always l b = record b {
    bids = (bids_after always l b).0;
    asks = (asks_after always l b).0;
  }

  pub on_diff-publish :
      (l : Levels) (b : Book c)
      → on_diff c l b ≡ publish c (bids_after true l b).1 (asks_after true l b).1 (looped true l b)
  unfolding on_diff
  on_diff-publish l b = apply_levels-turns true l b

  pub on_snapshot-publish :
      (l : Levels) (b : Book c)
      → let b₀ = clear_order_book c b in
        on_snapshot c l b
        ≡ publish c (bids_after false l b₀).1 (asks_after false l b₀).1 (looped false l b₀)
  unfolding on_snapshot
  on_snapshot-publish l b = apply_levels-turns false l (clear_order_book c b)

  pub start-Loop-bids :
      (always : Bool) (b : Book c)
      → IsWell c b
      → (always ≡ false → c.to_list b.bids.tree ≡ [])
      → Loop c bid_before always b.bids b.bids false
  start-Loop-bids always b w e = record {
    half = w.bids;
    top_same = λ _. refl;
    still_empty = λ a _. e a;
  }

  pub start-Loop-asks :
      (always : Bool) (b : Book c)
      → IsWell c b
      → (always ≡ false → c.to_list b.asks.tree ≡ [])
      → Loop c ask_before always b.asks b.asks false
  start-Loop-asks always b w e = record {
    half = w.asks;
    top_same = λ _. refl;
    still_empty = λ a _. e a;
  }

  pub publish-IsFresh :
      (wb wa : Bool) (b : Book c)
      → (wb ≡ false → (b.bbo.bid_price, b.bbo.bid_qty) ≡ top c b.bids)
      → (wa ≡ false → (b.bbo.ask_price, b.bbo.ask_qty) ≡ top c b.asks)
      → IsFresh c (publish c wb wa b).0
  unfolding publish
  publish-IsFresh true true b p q = record { bid = refl; ask = refl }
  publish-IsFresh true false b p q = record { bid = refl; ask = q refl }
  publish-IsFresh false true b p q = record { bid = p refl; ask = refl }
  publish-IsFresh false false b p q = record { bid = p refl; ask = q refl }

  pub publish-bids : (wb wa : Bool) (b : Book c) → (publish c wb wa b).0.bids ≡ b.bids
  unfolding publish
  publish-bids wb wa b = refl

  pub publish-asks : (wb wa : Bool) (b : Book c) → (publish c wb wa b).0.asks ≡ b.asks
  unfolding publish
  publish-asks wb wa b = refl

  pub publish-IsWell :
      (wb wa : Bool) (b : Book c)
      → Inv c bid_before b.bids
      → Inv c ask_before b.asks
      → IsWell c (publish c wb wa b).0
  publish-IsWell wb wa b p q = record {
    bids = rw (publish-bids wb wa b) p;
    asks = rw (publish-asks wb wa b) q;
  }

  module _ (l : Levels) (b : Book c) (w : IsWell c b) where
    diff_bids : Loop c bid_before true b.bids (bids_after true l b).0 (bids_after true l b).1
    diff_bids =
        turns-Loop c bid-IsReach Side.k_bid true l.bids b.bids b.bids false
          (start-Loop-bids true b w (λ e. absurd (ground arith)))

    diff_asks : Loop c ask_before true b.asks (asks_after true l b).0 (asks_after true l b).1
    diff_asks =
        turns-Loop c ask-IsReach Side.k_ask true l.asks b.asks b.asks false
          (start-Loop-asks true b w (λ e. absurd (ground arith)))

    pub on_diff-IsWell : IsWell c (on_diff c l b).0
    on_diff-IsWell =
        rw (on_diff-publish l b)
          (publish-IsWell _ _ (looped true l b) diff_bids.half diff_asks.half)

    bbo_after : IsFresh c b → IsFresh c (on_diff c l b).0
    bbo_after f = rw (on_diff-publish l b) (
        publish-IsFresh _ _ (looped true l b) (λ e. f.bid ∙ sym (diff_bids.top_same e))
          (λ e. f.ask ∙ sym (diff_asks.top_same e)))

    -- A diff keeps both sides well formed and the BBO equal to the first node of each side.
    pub on_diff-IsFresh : IsFresh c b → IsWell c (on_diff c l b).0 × IsFresh c (on_diff c l b).0
    on_diff-IsFresh f = (on_diff-IsWell, bbo_after f)

    -- After a diff on a well-formed book each side maps prices to quantities as the levels say,
    -- applied in order.
    pub depth-on_diff :
        (q : ℕ)
        → (depth c (on_diff c l b).0.bids q ≡ put_levels l.bids (depth c b.bids) q)
          × (depth c (on_diff c l b).0.asks q ≡ put_levels l.asks (depth c b.asks) q)
    depth-on_diff q = rw (on_diff-publish l b) (
      rw (publish-bids _ _ (looped true l b))
          (turns-depth c bid-IsReach Side.k_bid true l.bids b.bids false w.bids q),
      rw (publish-asks _ _ (looped true l b))
          (turns-depth c ask-IsReach Side.k_ask true l.asks b.asks false w.asks q),
    )

    -- From a well-formed and fresh book: after a diff that leaves some bid, no bid has a higher
    -- price than the BBO's, at whose price stands the BBO's quantity.
    pub on_diff-best_bid :
        (r s : ℕ)
        → IsFresh c b
        → depth c (on_diff c l b).0.bids r ≡ some s
        → let b' = (on_diff c l b).0 in
          (depth c b'.bids b'.bbo.bid_price ≡ some b'.bbo.bid_qty) × (r ≤ b'.bbo.bid_price)
    on_diff-best_bid r s f h =
        let b' = (on_diff c l b).0 in
        ground (
          arith,
          top-is_best c bid-IsReach.strict b'.bids on_diff-IsWell.bids b'.bbo.bid_price
              b'.bbo.bid_qty (sym (bbo_after f).bid) r s h,
        )

    -- From a well-formed and fresh book: after a diff that leaves some ask, no ask has a lower
    -- price than the BBO's, at whose price stands the BBO's quantity.
    pub on_diff-best_ask :
        (r s : ℕ)
        → IsFresh c b
        → depth c (on_diff c l b).0.asks r ≡ some s
        → let b' = (on_diff c l b).0 in
          (depth c b'.asks b'.bbo.ask_price ≡ some b'.bbo.ask_qty) × (b'.bbo.ask_price ≤ r)
    on_diff-best_ask r s f h =
        let b' = (on_diff c l b).0 in
        ground (
          arith,
          top-is_best c ask-IsReach.strict b'.asks on_diff-IsWell.asks b'.bbo.ask_price
              b'.bbo.ask_qty (sym (bbo_after f).ask) r s h,
        )
