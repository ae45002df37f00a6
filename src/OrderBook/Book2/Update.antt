-- ===== src/OrderBook/Book2/Update.antt =====
-- OnMarketUpdate(const Exchange::MEMarketUpdate2*) against the diff handler, what is sent to the
-- subscribers, and what a CLEAR leaves behind.
use cryptobot.Common.{ℕ, ◌≡◌, refl, ◌⊎◌, inl, inr, Bool, true, false, [], ◌∷◌, arith}
use cryptobot.Types.{Side}
use cryptobot.OrderBook.Containers.{Containers}
use cryptobot.OrderBook.Half.{
  clear_half, add_order as add_to, remove_orders_at_price as remove_from,
}
use cryptobot.OrderBook.Book2.Defs.{
  Book, Levels, MeMarketUpdate2, MarketUpdateType, clear_order_book, publish, on_market_update,
  on_diff, apply_bid, apply_ask,
}
use cryptobot.OrderBook.Book2.Fresh.{looped, on_diff-publish}

-- A diff of one level, on the bid side or on the ask side.
abbrev pub one_bid : ℕ → ℕ → Levels
one_bid price qty = record { bids = record { price = price; qty = qty } ∷ []; asks = [] }

abbrev pub one_ask : ℕ → ℕ → Levels
one_ask price qty = record { bids = []; asks = record { price = price; qty = qty } ∷ [] }

abbrev pub update_of : Side → ℕ → ℕ → MeMarketUpdate2
update_of side price qty = record {
  type = MarketUpdateType.k_default;
  side = side;
  price = price;
  qty = qty;
}

module _ (c : Containers) (b : Book c) where
  -- An update of one price is a diff of that one level, for either side.
  pub on_market_update-eq-on_diff :
      (price qty : ℕ)
      → (on_market_update c (update_of Side.k_bid price qty) b ≡ on_diff c (one_bid price qty) b)
        × (on_market_update c (update_of Side.k_ask price qty) b ≡ on_diff c (one_ask price qty) b)
  unfolding on_market_update on_diff apply_bid apply_ask
  on_market_update-eq-on_diff price qty = (ground arith, ground arith)

  publish_says :
      (wb wa : Bool) (b : Book c)
      → (((publish c wb wa b).1 ≡ []) × ((publish c wb wa b).0.bbo ≡ b.bbo))
        ⊎ ((publish c wb wa b).1 ≡ (publish c wb wa b).0.bbo ∷ [])
  unfolding publish
  publish_says true wa b = inr refl
  publish_says false true b = inr refl
  publish_says false false b = inl (refl, refl)

  -- A diff tells the subscribers nothing and leaves the BBO as it was, or sends the new BBO once.
  on_diff-notifies :
      (l : Levels)
      → (((on_diff c l b).1 ≡ []) × ((on_diff c l b).0.bbo ≡ b.bbo))
        ⊎ ((on_diff c l b).1 ≡ (on_diff c l b).0.bbo ∷ [])
  on_diff-notifies l = rw (on_diff-publish c l b) (publish_says _ _ (looped c true l b))

  -- A CLEAR that names no side empties both sides, sends nothing, and leaves the BBO that it had:
  -- the prices of a book that is gone.
  pub on_market_update-clear_stale :
      (price qty : ℕ)
      → let r =
          on_market_update c
            (record {
              type = MarketUpdateType.clear;
              side = Side.k_invalid;
              price = price;
              qty = qty;
            })
            b in
        (c.to_list r.0.bids.tree ≡ [])
        × (c.to_list r.0.asks.tree ≡ [])
        × (r.0.bbo ≡ b.bbo)
        × (r.1 ≡ [])
  unfolding on_market_update clear_order_book clear_half add_to remove_from
  on_market_update-clear_stale price qty = ground (arith, c.to_list-no_nodes, c.at-no_entries price)
