-- ===== src/OrderBook/Book1/Sides.antt =====
-- The two sides of a MarketOrderBook, and what an update of one does to its trees.
use cryptobot.Common.{
  ℕ, ◌≡◌, refl, Bool, true, false, Option, none, some, if◌then◌else◌, inl, inr, Option-cases,
}
use cryptobot.Types.{Side}
use cryptobot.OrderBook.Containers.{Containers, find}
use cryptobot.OrderBook.Half.{
  node_at, top, add_order as add_to, remove_orders_at_price as remove_from,
}
use cryptobot.OrderBook.Book2.{BookSnapshotElem, order_of, bid_before, ask_before}
use cryptobot.OrderBook.Book1.Defs.{
  MeMarketUpdate, Book, bids_of, asks_of, add_order, remove_orders_at_price,
}
use cryptobot.OrderBook.Book1.Step.{Together}

abbrev pub level_of : MeMarketUpdate → BookSnapshotElem
level_of u = record { price = u.price; qty = u.qty }

module _ (c : Containers) where
  -- The quantity that a tree holds at a price.
  abbrev pub held_at : c.Tree → Book c → ℕ → Option ℕ
  held_at t b p = elim (find p (c.to_list t)) [
    | none ↦ none
    | some a ↦ some ((node_at a b.nodes).first_mkt_order.qty)
  ]

  unfoldable pub bid_depth : Book c → ℕ → Option ℕ
  bid_depth b p = held_at b.bids_at_price_map b p

  unfoldable pub ask_depth : Book c → ℕ → Option ℕ
  ask_depth b p = held_at b.asks_at_price_map b p

  -- The two trees share the hash map and the nodes, and hold no price in common.
  abbrev pub IsWell : Book c → Type 0
  IsWell b = Together c bid_before ask_before (bids_of c b) b.asks_at_price_map

  abbrev pub IsFresh : Book c → Type 0
  IsFresh b =
      ((b.bbo.bid_price, b.bbo.bid_qty) ≡ top c (bids_of c b))
      × ((b.bbo.ask_price, b.bbo.ask_qty) ≡ top c (asks_of c b))

  -- A price that the side opposite to the given one does not hold.
  abbrev pub IsFree : Side → ℕ → Book c → Type 0
  IsFree Side.k_invalid p b = ⊥
  IsFree Side.k_ask p b = find p (c.to_list b.bids_at_price_map) ≡ none
  IsFree Side.k_bid p b = find p (c.to_list b.asks_at_price_map) ≡ none
  IsFree Side.k_max p b = ⊥

  module _ (b : Book c) (p n : ℕ) where
    add_bid :
        let b' = add_order c (order_of Side.k_bid p n) b in
        (bids_of c b' ≡ add_to c bid_before true (order_of Side.k_bid p n) (bids_of c b))
        × (b'.asks_at_price_map ≡ b.asks_at_price_map)
    unfolding add_order add_to
    add_bid = elim (Option-cases (c.at b.price_orders_at_price p)) [
      | inl e ↦ rw (e, add_order, add_to) (refl, refl)
      | inr (a, e) ↦ rw (e, add_order, add_to) (refl, refl)
    ]

    add_ask :
        let b' = add_order c (order_of Side.k_ask p n) b in
        (asks_of c b' ≡ add_to c ask_before true (order_of Side.k_ask p n) (asks_of c b))
        × (b'.bids_at_price_map ≡ b.bids_at_price_map)
    unfolding add_order add_to
    add_ask = elim (Option-cases (c.at b.price_orders_at_price p)) [
      | inl e ↦ rw (e, add_order, add_to) (refl, refl)
      | inr (a, e) ↦ rw (e, add_order, add_to) (refl, refl)
    ]

    remove_bid :
        let b' = remove_orders_at_price c Side.k_bid p b in
        (bids_of c b' ≡ remove_from c true p (bids_of c b))
        × (b'.asks_at_price_map ≡ b.asks_at_price_map)
    unfolding remove_orders_at_price remove_from
    remove_bid = elim (Option-cases (c.at b.price_orders_at_price p)) [
      | inl e ↦ rw (e, remove_orders_at_price, remove_from) (refl, refl)
      | inr (a, e) ↦ rw (e, remove_orders_at_price, remove_from) (refl, refl)
    ]

    remove_ask :
        let b' = remove_orders_at_price c Side.k_ask p b in
        (asks_of c b' ≡ remove_from c true p (asks_of c b))
        × (b'.bids_at_price_map ≡ b.bids_at_price_map)
    unfolding remove_orders_at_price remove_from
    remove_ask = elim (Option-cases (c.at b.price_orders_at_price p)) [
      | inl e ↦ rw (e, remove_orders_at_price, remove_from) (refl, refl)
      | inr (a, e) ↦ rw (e, remove_orders_at_price, remove_from) (refl, refl)
    ]

  -- An update without its BBO.
  abbrev pub move : Bool → Side → BookSnapshotElem → Book c → Book c
  move adds s x b =
      if adds
      then add_order c (order_of s x.price x.qty) b
      else remove_orders_at_price c s x.price b

  pub bids_of-move :
      (adds : Bool) (x : BookSnapshotElem) (b : Book c)
      → let b' = move adds Side.k_bid x b in
        (bids_of c b' ≡ (
          if adds
          then add_to c bid_before true (order_of Side.k_bid x.price x.qty) (bids_of c b)
          else remove_from c true x.price (bids_of c b)))
        × (b'.asks_at_price_map ≡ b.asks_at_price_map)
  bids_of-move true x b = add_bid b x.price x.qty
  bids_of-move false x b = remove_bid b x.price x.qty

  pub asks_of-move :
      (adds : Bool) (x : BookSnapshotElem) (b : Book c)
      → let b' = move adds Side.k_ask x b in
        (asks_of c b' ≡ (
          if adds
          then add_to c ask_before true (order_of Side.k_ask x.price x.qty) (asks_of c b)
          else remove_from c true x.price (asks_of c b)))
        × (b'.bids_at_price_map ≡ b.bids_at_price_map)
  asks_of-move true x b = add_ask b x.price x.qty
  asks_of-move false x b = remove_ask b x.price x.qty
