-- ===== src/OrderBook/Book1/Defs.antt =====
-- The operations of MarketOrderBook, as long as its pool of price nodes has a block to give: Room says
-- when it has none, which ends the program.
use cryptobot.Common.{
  ℕ, suc, Bool, true, false, ◌&&◌, not, none, some, [], ◌==◌, if◌then◌else◌, nat_key,
}
use cryptobot.Common.Dict
use cryptobot.Common.Dict.{Dict}
use cryptobot.Types.{Side, k_price_invalid, k_qty_invalid, side_eq}
use cryptobot.OrderBook.Containers.{Containers, find}
use cryptobot.OrderBook.Half.{
  MarketOrder, MarketOrdersAtPrice, node_at, overwritten, deallocate_all, Half, top, reaches_top,
}
use cryptobot.OrderBook.Book2.{
  Bbo, MarketUpdateType, order_of, bid_before, ask_before, bid_reaches, ask_reaches,
}

pub record MeMarketUpdate : Type 0 where
  pub type : MarketUpdateType
  pub order_id : ℕ
  pub side : Side
  pub price : ℕ
  pub qty : ℕ

module _ (c : Containers) where
  open c use {
    Tree, Index, to_list, at, insert_equal, erase_equal, emplace_unique, erase_key, no_nodes,
    no_entries, addresses,
  }

  pub record Book : Type 0 where
    pub price_orders_at_price : Index
    pub bids_at_price_map : Tree
    pub asks_at_price_map : Tree
    pub nodes : Dict ℕ MarketOrdersAtPrice
    pub next_address : ℕ
    pub bbo : Bbo

  unfoldable pub new_book : Book
  new_book = record {
    price_orders_at_price = no_entries;
    bids_at_price_map = no_nodes;
    asks_at_price_map = no_nodes;
    nodes = [];
    next_address = 0;
    bbo = record {
      bid_price = k_price_invalid;
      ask_price = k_price_invalid;
      bid_qty = k_qty_invalid;
      ask_qty = k_qty_invalid;
    };
  }

  -- One tree of the book, with the hash map and the pool that both trees share.
  abbrev pub bids_of : Book → Half c
  bids_of b = record {
    index = b.price_orders_at_price;
    tree = b.bids_at_price_map;
    nodes = b.nodes;
    next_address = b.next_address;
  }

  abbrev pub asks_of : Book → Half c
  asks_of b = record {
    index = b.price_orders_at_price;
    tree = b.asks_at_price_map;
    nodes = b.nodes;
    next_address = b.next_address;
  }

  unfoldable pub update_bbo : Bool → Bool → Book → Book
  update_bbo update_bid update_ask b =
      let bid = top c (bids_of b) in
      let ask = top c (asks_of b) in
      let bbo : Bbo = b.bbo in
      let with_bid : Bbo =
        if update_bid then record bbo { bid_price = bid.0; bid_qty = bid.1 } else bbo in
      let with_both : Bbo =
        if update_ask then record with_bid { ask_price = ask.0; ask_qty = ask.1 } else with_bid in
      record b { bbo = with_both }

  unfoldable pub clear_order_book : Book → Book
  clear_order_book b = record b {
    bids_at_price_map = no_nodes;
    asks_at_price_map = no_nodes;
    nodes = deallocate_all (addresses b.price_orders_at_price) b.nodes;
    price_orders_at_price = no_entries;
  }

  -- addOrdersAtPrice, for the node at an address.
  unfoldable pub add_orders_at_price : ℕ → MarketOrdersAtPrice → Book → Book
  add_orders_at_price a node b = record b {
    price_orders_at_price = emplace_unique node.price a b.price_orders_at_price;
    asks_at_price_map =
        if side_eq node.side Side.k_ask
        then insert_equal ask_before (node.price, a) b.asks_at_price_map
        else b.asks_at_price_map;
    bids_at_price_map =
        if side_eq node.side Side.k_bid
        then insert_equal bid_before (node.price, a) b.bids_at_price_map
        else b.bids_at_price_map;
  }

  unfoldable pub remove_orders_at_price : Side → ℕ → Book → Book
  remove_orders_at_price side price b = elim (at b.price_orders_at_price price) [
    | none ↦ b
    | some a ↦
        let key = (node_at a b.nodes).price in
        let asked : Bool = elim (find key (to_list b.asks_at_price_map)) [
          | none ↦ false
          | some _ ↦ true
        ] in
        let bid : Bool = elim (find key (to_list b.bids_at_price_map)) [
          | none ↦ false
          | some _ ↦ true
        ] in
        record b {
          asks_at_price_map =
              if side_eq side Side.k_ask && asked
              then erase_equal key b.asks_at_price_map
              else b.asks_at_price_map;
          bids_at_price_map =
              if side_eq side Side.k_bid && bid
              then erase_equal key b.bids_at_price_map
              else b.bids_at_price_map;
          price_orders_at_price = erase_key price b.price_orders_at_price;
          nodes = Dict.erase a b.nodes;
        }
  ]

  unfoldable pub add_order : MarketOrder → Book → Book
  unfolding add_orders_at_price
  add_order order b = elim (at b.price_orders_at_price order.price) [
    | none ↦
        let node : MarketOrdersAtPrice = record {
          side = order.side;
          price = order.price;
          first_mkt_order = order;
        } in
        add_orders_at_price b.next_address node (record b {
          nodes = Dict.insert b.next_address node b.nodes;
          next_address = suc b.next_address;
        })
    | some a ↦ record b { nodes = Dict.insert a (overwritten order (node_at a b.nodes)) b.nodes }
  ]

  abbrev pub bid_will_be_updated : MeMarketUpdate → Book → Bool
  bid_will_be_updated u b =
      side_eq u.side Side.k_bid && reaches_top c bid_reaches (bids_of b) u.price

  abbrev pub ask_will_be_updated : MeMarketUpdate → Book → Bool
  ask_will_be_updated u b =
      side_eq u.side Side.k_ask && reaches_top c ask_reaches (asks_of b) u.price

  -- OnMarketUpdate without its CLEAR, before the BBO.
  unfoldable pub apply_update : MeMarketUpdate → Book → Book
  unfolding add_order remove_orders_at_price
  apply_update u b =
      if not (u.qty == 0)
      then add_order (order_of u.side u.price u.qty) b
      else remove_orders_at_price u.side u.price b

  -- OnMarketUpdate, with the two arguments of its call of the virtual updateBBO.
  unfoldable pub on_market_update : MeMarketUpdate → Book → Book
  unfolding clear_order_book apply_update update_bbo
  on_market_update u b = elim u.type [
    | MarketUpdateType.clear ↦ clear_order_book b
    | MarketUpdateType.k_default ↦
        update_bbo (bid_will_be_updated u b) (ask_will_be_updated u b) (apply_update u b)
  ]
