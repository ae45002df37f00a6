-- ===== src/OrderBook/Book1/Moved.antt =====
-- What an update does to a well-formed book whose other side does not hold its price.
use cryptobot.Common.{ℕ, ◌≡◌, sym, subst, false, ◌==◌, not, ◌&&◌, if◌then◌else◌}
use cryptobot.Types.{Side, side_eq}
use cryptobot.OrderBook.Containers.{Containers}
use cryptobot.OrderBook.Half.{top, reaches_top, depth}
use cryptobot.OrderBook.Book2.{BookSnapshotElem, bid_before, ask_before, bid_reaches, ask_reaches}
use cryptobot.OrderBook.Book2.Loops.{bid-IsReach, ask-IsReach, put_level}
use cryptobot.OrderBook.Book1.Defs.{Book, bids_of, asks_of}
use cryptobot.OrderBook.Book1.Step.{Together, swap}
use cryptobot.OrderBook.Book1.Effect.{Effect, updated-Effect}
use cryptobot.OrderBook.Book1.Sides.{
  held_at, bid_depth, ask_depth, IsWell, IsFree, move, bids_of-move, asks_of-move,
}

module _ (c : Containers) where
  pub record Moved (s : Side) (x : BookSnapshotElem) (b b' : Book c) : Type 0 where
    pub well : IsWell c b'
    pub bids :
        (q : ℕ)
        → bid_depth c b' q
          ≡ (if side_eq s Side.k_bid then put_level x (bid_depth c b) q else bid_depth c b q)
    pub asks :
        (q : ℕ)
        → ask_depth c b' q
          ≡ (if side_eq s Side.k_ask then put_level x (ask_depth c b) q else ask_depth c b q)
    pub bid_top :
        side_eq s Side.k_bid && reaches_top c bid_reaches (bids_of c b) x.price ≡ false
        → top c (bids_of c b') ≡ top c (bids_of c b)
    pub ask_top :
        side_eq s Side.k_ask && reaches_top c ask_reaches (asks_of c b) x.price ≡ false
        → top c (asks_of c b') ≡ top c (asks_of c b)

  -- What the tree of the other side has to do with a step of one side.
  bids_moved :
      (x : BookSnapshotElem) (b b' : Book c)
      → b'.asks_at_price_map ≡ b.asks_at_price_map
      → Effect c bid_before bid_reaches ask_before x
          (bids_of c b)
          (bids_of c b')
          b.asks_at_price_map
      → Moved Side.k_bid x b b'
  unfolding bid_depth ask_depth top reaches_top depth
  bids_moved x b b' same e = record {
    well = subst (Together c bid_before ask_before (bids_of c b')) (sym same) e.together;
    bids = e.depths;
    asks = λ q.
        subst (λ t. held_at c t b' q ≡ held_at c b.asks_at_price_map b q) (sym same) (e.others q);
    bid_top = λ m. e.keeps m;
    ask_top = λ m.
        subst (λ t. top c (record (asks_of c b') { tree = t }) ≡ top c (asks_of c b)) (sym same)
          e.other_top;
  }

  asks_moved :
      (x : BookSnapshotElem) (b b' : Book c)
      → b'.bids_at_price_map ≡ b.bids_at_price_map
      → Effect c ask_before ask_reaches bid_before x
          (asks_of c b)
          (asks_of c b')
          b.bids_at_price_map
      → Moved Side.k_ask x b b'
  unfolding bid_depth ask_depth top reaches_top depth
  asks_moved x b b' same e = record {
    well =
        swap c (asks_of c b') b'.bids_at_price_map
          (subst (Together c ask_before bid_before (asks_of c b')) (sym same) e.together);
    asks = e.depths;
    bids = λ q.
        subst (λ t. held_at c t b' q ≡ held_at c b.bids_at_price_map b q) (sym same) (e.others q);
    ask_top = λ m. e.keeps m;
    bid_top = λ m.
        subst (λ t. top c (record (bids_of c b') { tree = t }) ≡ top c (bids_of c b)) (sym same)
          e.other_top;
  }

  pub move_bid :
      (x : BookSnapshotElem) (b : Book c)
      → IsWell c b
      → IsFree c Side.k_bid x.price b
      → Moved Side.k_bid x b (move c (not (x.qty == 0)) Side.k_bid x b)
  move_bid x b w f =
      let (e, same) = bids_of-move c (not (x.qty == 0)) x b in
      bids_moved x b (move c (not (x.qty == 0)) Side.k_bid x b) same (
        subst
          (λ h. Effect c bid_before bid_reaches ask_before x (bids_of c b) h b.asks_at_price_map)
          (sym e)
          (updated-Effect c bid_before bid_reaches ask_before bid-IsReach (bids_of c b)
            b.asks_at_price_map w Side.k_bid x f))

  pub move_ask :
      (x : BookSnapshotElem) (b : Book c)
      → IsWell c b
      → IsFree c Side.k_ask x.price b
      → Moved Side.k_ask x b (move c (not (x.qty == 0)) Side.k_ask x b)
  move_ask x b w f =
      let (e, same) = asks_of-move c (not (x.qty == 0)) x b in
      asks_moved x b (move c (not (x.qty == 0)) Side.k_ask x b) same (
        subst
          (λ h. Effect c ask_before ask_reaches bid_before x (asks_of c b) h b.bids_at_price_map)
          (sym e)
          (updated-Effect c ask_before ask_reaches bid_before ask-IsReach (asks_of c b)
            b.bids_at_price_map (swap c (bids_of c b) b.asks_at_price_map w) Side.k_ask x f))
