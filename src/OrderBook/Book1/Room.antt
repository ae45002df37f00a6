-- ===== src/OrderBook/Book1/Room.antt =====
-- The pool of price nodes of MarketOrderBook, which has ME_MAX_ORDERS_AT_PRICE blocks and ends the
-- program when it hands out the last one: OnMarketUpdate as a function that may end the program.
use cryptobot.Common.{
  ℕ, suc, ◌+◌, ◌*◌, ◌≤◌, ◌<◌, ltb, Bool, false, ◌&&◌, not, Option, none, some, List, [], ◌∷◌, ◌==◌,
  length, if◌then◌else◌, nat_key, ◌≡◌, refl, arith, Bool-cases, Option-cases, inl, inr,
}
use cryptobot.Common.Dict
use cryptobot.Common.Dict.{Dict}
use cryptobot.Queue.Consume.{handle_all}
use cryptobot.OrderBook.Containers.{Containers}
use cryptobot.Types.{Side}
use cryptobot.OrderBook.Half.{MarketOrder, MarketOrdersAtPrice, overwritten, node_at}
use cryptobot.OrderBook.Book2.{MarketUpdateType, order_of}
use cryptobot.OrderBook.Book1.Defs.{
  MeMarketUpdate, Book, on_market_update, apply_update, add_order, add_orders_at_price,
  remove_orders_at_price, update_bbo,
}

abbrev pub me_max_orders_at_price : ℕ
me_max_orders_at_price = 50000 * 2

length-insert :
    {V : Type 0} (k : ℕ) (v : V) (m : Dict ℕ V) → length (Dict.insert k v m) ≤ suc (length m)
unfolding Dict.insert
length-insert k v [] = omega arith
length-insert k v ((j, w) ∷ m) = ground (arith, length-insert k v m)

length-erase : {V : Type 0} (k : ℕ) (m : Dict ℕ V) → length (Dict.erase k m) ≤ length m
unfolding Dict.erase
length-erase k [] = omega arith
length-erase k ((j, w) ∷ m) = ground (arith, length-erase k m)

module _ (c : Containers) where
  -- addOrder finds no node for the price and calls allocate.
  abbrev pub takes_block : MeMarketUpdate → Book c → Bool
  takes_block u b = elim u.type [
    | MarketUpdateType.clear ↦ false
    | MarketUpdateType.k_default ↦ elim (c.at b.price_orders_at_price u.price) [
      | none ↦ not (u.qty == 0)
      | some a ↦ false
    ]
  ]

  -- A call of allocate would hand out the last block, for which updateNextFreeIndex ends the program.
  abbrev pub is_full : Book c → Bool
  is_full b = not (ltb (suc (length b.nodes)) me_max_orders_at_price)

  -- OnMarketUpdate, or none where it ends the program.
  unfoldable pub on_market_update_or_end : MeMarketUpdate → Book c → Option (Book c)
  on_market_update_or_end u b =
      if takes_block u b && is_full b then none else some (on_market_update c u b)

  pub on_market_update_or_end-some :
      (u : MeMarketUpdate) (b : Book c)
      → is_full b ≡ false
      → on_market_update_or_end u b ≡ some (on_market_update c u b)
  unfolding on_market_update_or_end
  on_market_update_or_end-some u b room = elim (Bool-cases (takes_block u b)) [
    | inl t ↦ rw (t, room) refl
    | inr t ↦ rw t refl
  ]

  -- The next update of a program that has not ended.
  unfoldable pub serve_update : MeMarketUpdate → Option (Book c) → Option (Book c)
  unfolding on_market_update_or_end
  serve_update u none = none
  serve_update u (some b) = on_market_update_or_end u b

  nodes-add_order :
      (o : MarketOrder) (b : Book c) → length (add_order c o b).nodes ≤ suc (length b.nodes)
  unfolding add_order add_orders_at_price
  nodes-add_order o b =
      let node : MarketOrdersAtPrice = record {
        side = o.side;
        price = o.price;
        first_mkt_order = o;
      } in
      elim (Option-cases (c.at b.price_orders_at_price o.price)) [
        | inl e ↦ ground (arith, e, length-insert b.next_address node b.nodes)
        | inr (a, e) ↦
            ground (arith, e, length-insert a (overwritten o (node_at a b.nodes)) b.nodes)
      ]

  nodes-remove :
      (s : Side) (p : ℕ) (b : Book c)
      → length (remove_orders_at_price c s p b).nodes ≤ suc (length b.nodes)
  unfolding remove_orders_at_price
  nodes-remove s p b = elim (Option-cases (c.at b.price_orders_at_price p)) [
    | inl e ↦ ground (arith, e)
    | inr (a, e) ↦ ground (arith, e, length-erase a b.nodes)
  ]

  nodes-apply_update :
      (u : MeMarketUpdate) (b : Book c) → length (apply_update c u b).nodes ≤ suc (length b.nodes)
  unfolding apply_update
  nodes-apply_update u b = elim (Bool-cases (not (u.qty == 0))) [
    | inl t ↦ rw t (nodes-add_order (order_of u.side u.price u.qty) b)
    | inr t ↦ rw t (nodes-remove u.side u.price b)
  ]

  nodes-on_market_update :
      (u : MeMarketUpdate) (b : Book c)
      → u.type ≡ MarketUpdateType.k_default
      → length (on_market_update c u b).nodes ≤ suc (length b.nodes)
  unfolding on_market_update update_bbo
  nodes-on_market_update u b d = rw d (nodes-apply_update u b)

  abbrev pub AllDefault : List MeMarketUpdate → Type 0
  AllDefault [] = Unit {0}
  AllDefault (u ∷ us) = (u.type ≡ MarketUpdateType.k_default) × AllDefault us

  -- Where the blocks left are more than the updates, the program does not end.
  pub serve-some :
      (us : List MeMarketUpdate) (b : Book c)
      → AllDefault us
      → length b.nodes + length us < me_max_orders_at_price
      → handle_all serve_update us (some b) ≡ some (handle_all (on_market_update c) us b)
  unfolding serve_update
  serve-some [] b d l = refl
  serve-some (u ∷ us) b (d, ds) l =
      let room : is_full b ≡ false = ground (arith, l) in
      let grown = nodes-on_market_update u b d in
      let rest = serve-some us (on_market_update c u b) ds (omega (arith, l, grown)) in
      rw (on_market_update_or_end-some u b room) rest
