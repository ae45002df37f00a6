-- ===== src/OrderBook/Book1/Update.antt =====
-- OnMarketUpdate on a well-formed book, for an update whose price the other side does not hold.
use cryptobot.Common.{
  ℕ, ◌≡◌, refl, ◌∙◌, sym, ap, Bool, true, false, ◌==◌, not, if◌then◌else◌, inl, inr, Option-cases,
}
use cryptobot.Types.{Side, side_eq}
use cryptobot.OrderBook.Containers.{Containers}
use cryptobot.OrderBook.Half.{top}
use cryptobot.OrderBook.Book2.{MarketUpdateType, BookSnapshotElem}
use cryptobot.OrderBook.Book2.Loops.{put_level}
use cryptobot.OrderBook.Book1.Defs.{
  MeMarketUpdate, Book, bids_of, asks_of, new_book, update_bbo, add_order, remove_orders_at_price,
  bid_will_be_updated, ask_will_be_updated, apply_update, on_market_update,
}
use cryptobot.OrderBook.Book1.Sides.{level_of, bid_depth, ask_depth, IsWell, IsFresh, IsFree, move}
use cryptobot.OrderBook.Book1.Moved.{Moved, move_bid, move_ask}

module _ (c : Containers) where
  pub new_book-IsWell : IsWell c (new_book c)
  unfolding new_book
  new_book-IsWell = record {
    own = record {
      sorted = rw c.to_list-no_nodes tt;
      indexed = λ p. refl;
      stored = rw c.to_list-no_nodes tt;
      in_use = rw c.to_list-no_nodes tt;
    };
    other = record {
      sorted = rw c.to_list-no_nodes tt;
      indexed = λ p. refl;
      stored = rw c.to_list-no_nodes tt;
      in_use = rw c.to_list-no_nodes tt;
    };
    shared = λ q. rw (c.to_list-no_nodes, c.at-no_entries q) refl;
    apart = λ q. inl (rw c.to_list-no_nodes refl);
  }

  -- An update of any side for which its price is free.
  move_side :
      (s : Side) (x : BookSnapshotElem) (b : Book c)
      → IsWell c b
      → IsFree c s x.price b
      → Moved c s x b (move c (not (x.qty == 0)) s x b)
  move_side Side.k_invalid x b w f = absurd f
  move_side Side.k_ask x b w f = move_ask c x b w f
  move_side Side.k_bid x b w f = move_bid c x b w f
  move_side Side.k_max x b w f = absurd f

  pub default_lem :
      (u : MeMarketUpdate) (b : Book c)
      → u.type ≡ MarketUpdateType.k_default
      → on_market_update c u b
        ≡ update_bbo c
            (bid_will_be_updated c u b)
            (ask_will_be_updated c u b)
            (move c (not (u.qty == 0)) u.side (level_of u) b)
  unfolding on_market_update apply_update
  default_lem u b e = rw (e, on_market_update) refl

  update_bbo-IsFresh :
      (wb wa : Bool) (b : Book c)
      → (wb ≡ false → (b.bbo.bid_price, b.bbo.bid_qty) ≡ top c (bids_of c b))
      → (wa ≡ false → (b.bbo.ask_price, b.bbo.ask_qty) ≡ top c (asks_of c b))
      → IsFresh c (update_bbo c wb wa b)
  unfolding update_bbo
  update_bbo-IsFresh true true b p q = (refl, refl)
  update_bbo-IsFresh true false b p q = (refl, q refl)
  update_bbo-IsFresh false true b p q = (p refl, refl)
  update_bbo-IsFresh false false b p q = (p refl, q refl)

  pub bbo_of-move :
      (adds : Bool) (s : Side) (x : BookSnapshotElem) (b : Book c) → (move c adds s x b).bbo ≡ b.bbo
  unfolding add_order remove_orders_at_price
  bbo_of-move true s x b = elim (Option-cases (c.at b.price_orders_at_price x.price)) [
    | inl e ↦ rw (e, add_order) refl
    | inr (a, e) ↦ rw (e, add_order) refl
  ]
  bbo_of-move false s x b = elim (Option-cases (c.at b.price_orders_at_price x.price)) [
    | inl e ↦ rw (e, remove_orders_at_price) refl
    | inr (a, e) ↦ rw (e, remove_orders_at_price) refl
  ]

  module _ (u : MeMarketUpdate) (b : Book c) (d : u.type ≡ MarketUpdateType.k_default)
      (w : IsWell c b) (f : IsFree c u.side u.price b) where
    moved : Moved c u.side (level_of u) b (move c (not (u.qty == 0)) u.side (level_of u) b)
    moved = move_side u.side (level_of u) b w f

    -- An update that is no CLEAR, of a price that the other side does not hold, keeps a book well
    -- formed: its two trees are sorted, the hash map leads to exactly their nodes, and they hold no
    -- price in common.
    pub on_market_update-IsWell : IsWell c (on_market_update c u b)
    unfolding update_bbo
    on_market_update-IsWell = rw (default_lem u b d) moved.well

    -- Such an update sets the quantity of its price on its own side, or takes the price away where the
    -- quantity is zero, and leaves every other price and the other side as they are.
    pub depth-on_market_update :
        (q : ℕ)
        → (bid_depth c (on_market_update c u b) q ≡ (
            if side_eq u.side Side.k_bid
            then put_level (level_of u) (bid_depth c b) q
            else bid_depth c b q))
          × (ask_depth c (on_market_update c u b) q ≡ (
              if side_eq u.side Side.k_ask
              then put_level (level_of u) (ask_depth c b) q
              else ask_depth c b q))
    unfolding update_bbo bid_depth ask_depth
    depth-on_market_update q = rw (default_lem u b d) (moved.bids q, moved.asks q)

    -- Such an update keeps the BBO in step with the trees: where the BBO was the first node of each
    -- side, or the reserved values where there is none, it is so afterwards.
    pub on_market_update-IsFresh : IsFresh c b → IsFresh c (on_market_update c u b)
    on_market_update-IsFresh (bid, ask) =
        let b' = move c (not (u.qty == 0)) u.side (level_of u) b in
        let same : b'.bbo ≡ b.bbo = bbo_of-move (not (u.qty == 0)) u.side (level_of u) b in
        rw (default_lem u b d) (
          update_bbo-IsFresh (bid_will_be_updated c u b) (ask_will_be_updated c u b) b'
            (λ m. ap (λ o. (o.bid_price, o.bid_qty)) same ∙ bid ∙ sym (moved.bid_top m))
            (λ m. ap (λ o. (o.ask_price, o.ask_qty)) same ∙ ask ∙ sym (moved.ask_top m)))
