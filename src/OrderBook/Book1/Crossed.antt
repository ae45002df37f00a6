-- ===== src/OrderBook/Book1/Crossed.antt =====
-- What OnMarketUpdate does at a price that the other side holds, and after a CLEAR.
use cryptobot.Common.{ℕ, ◌≡◌, refl, ◌≢◌, ◌∙◌, inl, inr, none, some, arith, nat_key}
use cryptobot.Common.Dict
use cryptobot.Types.{Side, k_price_invalid, k_qty_invalid}
use cryptobot.OrderBook.Containers.{Containers, find}
use cryptobot.OrderBook.Half.{node_at, overwritten, top}
use cryptobot.OrderBook.Book2.{MarketUpdateType, order_of}
use cryptobot.OrderBook.Book1.Defs.{
  MeMarketUpdate, Book, bids_of, asks_of, update_bbo, clear_order_book, add_order,
  remove_orders_at_price, on_market_update,
}
use cryptobot.OrderBook.Book1.Sides.{bid_depth, ask_depth, IsWell}
use cryptobot.OrderBook.Book1.Update.{default_lem}

module _ (c : Containers) (b : Book c) (w : IsWell c b) where
  -- The hash map leads to the node of a bid.
  bid_indexed :
      (p a : ℕ)
      → find p (c.to_list b.bids_at_price_map) ≡ some a
      → c.at b.price_orders_at_price p ≡ some a
  bid_indexed p a f = w.shared p ∙ ground (arith, f)

  no_ask :
      (p a : ℕ)
      → find p (c.to_list b.bids_at_price_map) ≡ some a
      → find p (c.to_list b.asks_at_price_map) ≡ none
  no_ask p a f = elim (w.apart p) [ inl e ↦ ground (arith, e, f) | inr e ↦ e ]

  -- In a well-formed book, an ask at the price of a bid overwrites the bid's quantity, and is not
  -- itself held.
  pub crossed_ask_lem :
      (u : MeMarketUpdate) (a : ℕ)
      → u.type ≡ MarketUpdateType.k_default
      → u.side ≡ Side.k_ask
      → u.qty ≢ 0
      → find u.price (c.to_list b.bids_at_price_map) ≡ some a
      → (bid_depth c (on_market_update c u b) u.price ≡ some u.qty)
        × (ask_depth c (on_market_update c u b) u.price ≡ none)
  unfolding update_bbo bid_depth ask_depth add_order
  crossed_ask_lem u a d s q f =
      let i = bid_indexed u.price a f in
      let n = no_ask u.price a f in
      rw (default_lem c u b d) (
        ground (
          arith,
          i,
          n,
          s,
          f,
          Dict.lookup-insert a a
              (overwritten (order_of Side.k_ask u.price u.qty) (node_at a b.nodes)) b.nodes,
        ))

  -- In a well-formed book, the removal of an ask at the price of a bid gives the bid's node back to
  -- the pool and takes it out of the hash map, but leaves it in the tree of the bids.
  pub crossed_removal_lem :
      (u : MeMarketUpdate) (a : ℕ)
      → u.type ≡ MarketUpdateType.k_default
      → u.side ≡ Side.k_ask
      → u.qty ≡ 0
      → find u.price (c.to_list b.bids_at_price_map) ≡ some a
      → let b' = on_market_update c u b in
        (find u.price (c.to_list b'.bids_at_price_map) ≡ some a)
        × (c.at b'.price_orders_at_price u.price ≡ none)
        × (Dict.lookup a b'.nodes ≡ none)
  unfolding update_bbo remove_orders_at_price
  crossed_removal_lem u a d s q f =
      let i = bid_indexed u.price a f in
      rw (default_lem c u b d) (
        ground (
          arith,
          i,
          s,
          f,
          c.at-erase_key u.price b.price_orders_at_price u.price,
          Dict.lookup-erase a a b.nodes,
        ))

-- A CLEAR empties both trees and the hash map, but the BBO stays what it was.
pub clear_lem :
    (c : Containers) (u : MeMarketUpdate) (b : Book c) (p : ℕ)
    → u.type ≡ MarketUpdateType.clear
    → let b' = on_market_update c u b in
      (top c (bids_of c b') ≡ (k_price_invalid, k_qty_invalid))
      × (top c (asks_of c b') ≡ (k_price_invalid, k_qty_invalid))
      × (c.at b'.price_orders_at_price p ≡ none)
      × (b'.bbo ≡ b.bbo)
unfolding on_market_update clear_order_book top
clear_lem c u b p e =
    rw (e, on_market_update, clear_order_book, top, c.to_list-no_nodes)
      (refl, refl, c.at-no_entries p, refl)
