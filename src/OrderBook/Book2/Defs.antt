-- ===== src/OrderBook/Book2/Defs.antt =====
-- The operations of MarketOrderBook2. What is sent to the BBO subscribers is a list beside the book.
use cryptobot.Common.{
  ℕ, Bool, true, false, ◌&&◌, ◌||◌, not, List, [], ◌∷◌, ltb, leb, ◌==◌, if◌then◌else◌,
}
use cryptobot.Types.{Side, k_order_id_invalid, k_price_invalid, k_qty_invalid, side_eq}
use cryptobot.OrderBook.Containers.{Containers}
use cryptobot.OrderBook.Half.{
  MarketOrder, Half, top, reaches_top, new_half, clear_half, add_order as add_to,
  remove_orders_at_price as remove_from,
}

pub record Bbo : Type 0 where
  pub bid_price : ℕ
  pub ask_price : ℕ
  pub bid_qty : ℕ
  pub ask_qty : ℕ

pub data MarketUpdateType : Type 0 where
  k_default clear : MarketUpdateType

pub record MeMarketUpdate2 : Type 0 where
  pub type : MarketUpdateType
  pub side : Side
  pub price : ℕ
  pub qty : ℕ

pub record BookSnapshotElem : Type 0 where
  pub price : ℕ
  pub qty : ℕ

-- BookSnapshot2 and BookDiffSnapshot2, as far as the book reads them.
pub record Levels : Type 0 where
  pub bids : List BookSnapshotElem
  pub asks : List BookSnapshotElem

-- The comparators of BidsatPriceMap and AsksatPriceMap.
abbrev pub bid_before : ℕ → ℕ → Bool
bid_before a b = ltb b a

abbrev pub ask_before : ℕ → ℕ → Bool
ask_before a b = ltb a b

-- `price >= begin()->price_` for bids, `price <= begin()->price_` for asks.
abbrev pub bid_reaches : ℕ → ℕ → Bool
bid_reaches price best = leb best price

abbrev pub ask_reaches : ℕ → ℕ → Bool
ask_reaches price best = leb price best

abbrev pub order_of : Side → ℕ → ℕ → MarketOrder
order_of side price qty = record {
  order_id = k_order_id_invalid;
  side = side;
  price = price;
  qty = qty;
}

module _ (c : Containers) where
  pub record Book : Type 0 where
    pub bids : Half c
    pub asks : Half c
    pub bbo : Bbo

  unfoldable pub new_book : Book
  new_book = record {
    bids = new_half c;
    asks = new_half c;
    bbo = record {
      bid_price = k_price_invalid;
      ask_price = k_price_invalid;
      bid_qty = k_qty_invalid;
      ask_qty = k_qty_invalid;
    };
  }

  unfoldable pub clear_order_book : Book → Book
  clear_order_book b = record b { bids = clear_half c b.bids; asks = clear_half c b.asks }

  -- Any side but kBid looks in the hash map of the asks.
  unfoldable pub add_order : MarketOrder → Book → Book
  add_order o b =
      if side_eq o.side Side.k_bid
      then record b { bids = add_to c bid_before true o b.bids }
      else record b { asks = add_to c ask_before (side_eq o.side Side.k_ask) o b.asks }

  unfoldable pub remove_orders_at_price : Side → ℕ → Book → Book
  remove_orders_at_price side price b =
      if side_eq side Side.k_bid
      then record b { bids = remove_from c true price b.bids }
      else record b { asks = remove_from c (side_eq side Side.k_ask) price b.asks }

  unfoldable pub update_bbo : Bool → Bool → Book → Book
  update_bbo update_bid update_ask b =
      let bid = top c b.bids in
      let ask = top c b.asks in
      let bbo : Bbo = b.bbo in
      let with_bid : Bbo =
        if update_bid then record bbo { bid_price = bid.0; bid_qty = bid.1 } else bbo in
      let with_both : Bbo =
        if update_ask then record with_bid { ask_price = ask.0; ask_qty = ask.1 } else with_bid in
      record b { bbo = with_both }

  -- The end of each OnMarketUpdate.
  unfoldable pub publish : Bool → Bool → Book → Book × List Bbo
  unfolding update_bbo
  publish bid_will_be_updated ask_will_be_updated b =
      let b' = update_bbo bid_will_be_updated ask_will_be_updated b in
      (b', if bid_will_be_updated || ask_will_be_updated then b'.bbo ∷ [] else [])

  -- OnMarketUpdate(const Exchange::MEMarketUpdate2*).
  unfoldable pub on_market_update : MeMarketUpdate2 → Book → Book × List Bbo
  unfolding add_order remove_orders_at_price publish
  on_market_update u b =
      let b₁ : Book = elim u.type [ clear ↦ clear_order_book b | k_default ↦ b ] in
      let bid_will = side_eq u.side Side.k_bid && reaches_top c bid_reaches b₁.bids u.price in
      let ask_will = side_eq u.side Side.k_ask && reaches_top c ask_reaches b₁.asks u.price in
      let b₂ =
        if not (u.qty == 0)
        then add_order (order_of u.side u.price u.qty) b₁
        else remove_orders_at_price u.side u.price b₁ in
      publish bid_will ask_will b₂

  -- One turn of a loop over levels: `best` is the flag so far, `always` says whether a removal can
  -- set it too.
  unfoldable pub apply_bid : Bool → BookSnapshotElem → Book × Bool → Book × Bool
  unfolding add_order remove_orders_at_price
  apply_bid always bid (b, will) =
      let adds = ltb 0 bid.qty in
      let will' = will || (always || adds) && reaches_top c bid_reaches b.bids bid.price in
      let b' =
        if adds
        then add_order (order_of Side.k_bid bid.price bid.qty) b
        else remove_orders_at_price Side.k_bid bid.price b in
      (b', will')

  unfoldable pub apply_ask : Bool → BookSnapshotElem → Book × Bool → Book × Bool
  unfolding add_order remove_orders_at_price
  apply_ask always ask (b, will) =
      let adds = ltb 0 ask.qty in
      let will' = will || (always || adds) && reaches_top c ask_reaches b.asks ask.price in
      let b' =
        if adds
        then add_order (order_of Side.k_ask ask.price ask.qty) b
        else remove_orders_at_price Side.k_ask ask.price b in
      (b', will')

  unfoldable pub apply_bids : Bool → List BookSnapshotElem → Book × Bool → Book × Bool
  apply_bids always [] s = s
  apply_bids always (x ∷ xs) s = apply_bids always xs (apply_bid always x s)

  unfoldable pub apply_asks : Bool → List BookSnapshotElem → Book × Bool → Book × Bool
  apply_asks always [] s = s
  apply_asks always (x ∷ xs) s = apply_asks always xs (apply_ask always x s)

  -- The two loops and what follows them, from the book as it stands.
  unfoldable pub apply_levels : Bool → Levels → Book → Book × List Bbo
  unfolding apply_bids apply_asks publish
  apply_levels always levels b =
      let (b₁, bid_will) = apply_bids always levels.bids (b, false) in
      let (b₂, ask_will) = apply_asks always levels.asks (b₁, false) in publish bid_will ask_will b₂

  -- OnMarketUpdate(const Exchange::BookSnapshot2*): the flags are set by additions alone.
  unfoldable pub on_snapshot : Levels → Book → Book × List Bbo
  unfolding apply_levels clear_order_book
  on_snapshot levels b = apply_levels false levels (clear_order_book b)

  -- OnMarketUpdate(const Exchange::BookDiffSnapshot2*).
  unfoldable pub on_diff : Levels → Book → Book × List Bbo
  unfolding apply_levels
  on_diff levels b = apply_levels true levels b
