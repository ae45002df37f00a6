-- ===== src/OrderBook/Half/Defs.antt =====
-- The nodes of aot/strategy/market_order.h, and what MarketOrderBook2 does with one side of a book.
use cryptobot.Common.{
  ℕ, suc, Bool, true, false, ◌&&◌, Option, none, some, List, [], ◌∷◌, if◌then◌else◌, nat_key,
}
use cryptobot.Common.Dict
use cryptobot.Common.Dict.{Dict}
use cryptobot.Types.{Side, k_order_id_invalid, k_price_invalid, k_qty_invalid}
use cryptobot.OrderBook.Containers.{Containers, find}

pub record MarketOrder : Type 0 where
  pub order_id : ℕ
  pub side : Side
  pub price : ℕ
  pub qty : ℕ

pub record MarketOrdersAtPrice : Type 0 where
  pub side : Side
  pub price : ℕ
  pub first_mkt_order : MarketOrder

abbrev pub no_order : MarketOrder
no_order = record {
  order_id = k_order_id_invalid;
  side = Side.k_invalid;
  price = k_price_invalid;
  qty = k_qty_invalid;
}

-- What a default-constructed node holds.
abbrev pub no_node : MarketOrdersAtPrice
no_node = record { side = Side.k_invalid; price = k_price_invalid; first_mkt_order = no_order }

abbrev pub node_at : ℕ → Dict ℕ MarketOrdersAtPrice → MarketOrdersAtPrice
node_at a nodes = elim (Dict.lookup a nodes) [ none ↦ no_node | some n ↦ n ]

pub deallocate_all : List ℕ → Dict ℕ MarketOrdersAtPrice → Dict ℕ MarketOrdersAtPrice
deallocate_all [] nodes = nodes
deallocate_all (a ∷ rest) nodes = deallocate_all rest (Dict.erase a nodes)

-- The writes to a node that holds a price already: all of its order but the side.
abbrev pub overwritten : MarketOrder → MarketOrdersAtPrice → MarketOrdersAtPrice
overwritten order old = record old {
  first_mkt_order = record (old.first_mkt_order) {
    order_id = order.order_id;
    price = order.price;
    qty = order.qty;
  };
}

module _ (c : Containers) where
  open c use {
    Tree, Index, to_list, at, insert_equal, erase_equal, emplace_unique, erase_key, no_nodes,
    no_entries, addresses,
  }

  pub record Half : Type 0 where
    pub index : Index
    pub tree : Tree
    pub nodes : Dict ℕ MarketOrdersAtPrice
    pub next_address : ℕ

  -- `begin()`: the price and the quantity of the first node's order.
  unfoldable pub top : Half → ℕ × ℕ
  top h = elim (to_list h.tree) [
    | [] ↦ (k_price_invalid, k_qty_invalid)
    | (p, a) ∷ es ↦ let order = (node_at a h.nodes).first_mkt_order in (order.price, order.qty)
  ]

  -- `empty() || begin()->price_ …`: the test of a new price against the first node's.
  unfoldable pub reaches_top : (ℕ → ℕ → Bool) → Half → ℕ → Bool
  reaches_top reaches h price = elim (to_list h.tree) [ [] ↦ true | (p, a) ∷ es ↦ reaches price p ]

  -- The pool gives an address that is not in use.
  allocate : MarketOrdersAtPrice → Half → Half
  allocate node h = record h {
    nodes = Dict.insert h.next_address node h.nodes;
    next_address = suc h.next_address;
  }

  -- AddOrdersAtPrice, for a node of the half's own side.
  add_orders_at_price : (ℕ → ℕ → Bool) → ℕ → ℕ → Half → Half
  add_orders_at_price before price a h = record h {
    index = emplace_unique price a h.index;
    tree = insert_equal before (price, a) h.tree;
  }

  overwrite : ℕ → MarketOrder → Half → Half
  overwrite a order h = record h {
    nodes = Dict.insert a (overwritten order (node_at a h.nodes)) h.nodes;
  }

  -- AddOrder. A node whose side is not the half's (`own` is false) is allocated and not linked.
  unfoldable pub add_order : (ℕ → ℕ → Bool) → Bool → MarketOrder → Half → Half
  unfolding allocate add_orders_at_price overwrite
  add_order before own order h = elim (at h.index order.price) [
    | none ↦
        let node : MarketOrdersAtPrice = record {
          side = order.side;
          price = order.price;
          first_mkt_order = order;
        } in
        let h' = allocate node h in
        if own then add_orders_at_price before order.price h.next_address h' else h'
    | some a ↦ overwrite a order h
  ]

  -- RemoveOrdersAtPrice.
  unfoldable pub remove_orders_at_price : Bool → ℕ → Half → Half
  remove_orders_at_price own price h = elim (at h.index price) [
    | none ↦ h
    | some a ↦
        let key = (node_at a h.nodes).price in
        let held : Bool = elim (find key (to_list h.tree)) [ none ↦ false | some _ ↦ true ] in
        record h {
          tree = if own && held then erase_equal key h.tree else h.tree;
          index = erase_key price h.index;
          nodes = Dict.erase a h.nodes;
        }
  ]

  -- The part of ClearOrderBook for one side: every node that the hash map holds goes back to the
  -- pool, and the containers are emptied.
  unfoldable pub clear_half : Half → Half
  clear_half h = record h {
    index = no_entries;
    tree = no_nodes;
    nodes = deallocate_all (addresses h.index) h.nodes;
  }

  unfoldable pub new_half : Half
  new_half = record { index = no_entries; tree = no_nodes; nodes = []; next_address = 0 }

-- The quantity that the hash map leads to at a price.
unfoldable pub depth : (c : Containers) → Half c → ℕ → Option ℕ
depth c h p = elim (c.at h.index p) [
  | none ↦ none
  | some a ↦ some ((node_at a h.nodes).first_mkt_order.qty)
]
