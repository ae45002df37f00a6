-- ===== src/Position/Defs.antt =====
-- PositionInfo and the two position keepers. A product of two values of type int is the exact one:
-- where it does not fit, the program has no defined behaviour.
use cryptobot.Common.{
  ℕ, ◌+◌, ◌-◌, ◌*◌, ◌%◌, ◌^◌, Bool, false, ◌&&◌, not, Option, none, some, [], ◌∷◌, ltb, ◌==◌,
  if◌then◌else◌,
}
use cryptobot.Common.Int.{ℤ, pos, negsuc, ◌*ℤ◌, ltb_ℤ, abs}
use cryptobot.Common.Dict
use cryptobot.Common.Dict.{Dict}
use cryptobot.Types.{
  ExchangeId, Side, TradingPair, exchange_eq, exchange_key, pair_key, side_to_index, side_to_value,
  side_eq, to_size, k_price_invalid,
}
use cryptobot.Double.{Double}
use cryptobot.Response.{Response}
use cryptobot.OrderBook.Book2.{Bbo}

-- A conversion of a uint64_t to int keeps the lower 32 bits, in two's complement.
abbrev pub to_int : ℕ → ℤ
to_int n = let m = n % 2 ^ 32 in if ltb m (2 ^ 31) then pos m else negsuc (2 ^ 32 - 1 - m)

abbrev pub min_ℤ : ℤ → ℤ → ℤ
min_ℤ a b = if ltb_ℤ b a then b else a

-- `position += exec_qty * side_value`: the sum is taken on uint64_t.
unfoldable pub moved : ℤ → ℕ → Side → ℤ
moved position exec_qty side =
    to_int ((to_size position + exec_qty * to_size (side_to_value side)) % 2 ^ 64)

module _ (d : Double) where
  open d use {D, of_ℕ, of_ℤ, half, add, sub, mul, div}

  -- `open_vwap` is the array, as a function of its index.
  pub record PositionInfo : Type 0 where
    pub position : ℤ
    pub real_pnl : D
    pub unreal_pnl : D
    pub total_pnl : D
    pub open_vwap : ℕ → D
    pub volume : D
    pub bbo : Option Bbo

  abbrev pub new_position_info : PositionInfo
  new_position_info = record {
    position = pos 0;
    real_pnl = of_ℕ 0;
    unreal_pnl = of_ℕ 0;
    total_pnl = of_ℕ 0;
    open_vwap = λ i. of_ℕ 0;
    volume = of_ℕ 0;
    bbo = none;
  }

  abbrev pub set_vwap : Side → D → (ℕ → D) → ℕ → D
  set_vwap side x vwap i = if i == side_to_index side then x else vwap i

  abbrev pub opposite : Side → Side
  opposite side = if side_eq side Side.k_ask then Side.k_bid else Side.k_ask

  -- `opened / increased position`
  unfoldable pub increase : Side → (exec_qty price : ℕ) → PositionInfo → PositionInfo
  increase side exec_qty price p = record p {
    open_vwap =
        set_vwap side (add (p.open_vwap (side_to_index side)) (of_ℕ (price * exec_qty % 2 ^ 64)))
          p.open_vwap;
  }

  -- `decreased position`; `p.position` is the new position.
  unfoldable pub decrease :
      Side → (exec_qty price : ℕ) → (old_position : ℤ) → PositionInfo → PositionInfo
  decrease side exec_qty price old p =
      let opp = opposite side in
      let opp_side_vwap = div (p.open_vwap (side_to_index opp)) (of_ℤ (abs old)) in
      let vwap = set_vwap opp (mul opp_side_vwap (of_ℤ (abs p.position))) p.open_vwap in
      let flipped =
        set_vwap opp (of_ℕ 0)
          (set_vwap side (of_ℕ (price * to_size (abs p.position) % 2 ^ 64)) vwap) in
      let gain =
        mul (mul (of_ℤ (min_ℤ (to_int exec_qty) (abs old))) (sub opp_side_vwap (of_ℕ price)))
          (of_ℤ (side_to_value side)) in
      record p {
        real_pnl = add p.real_pnl gain;
        open_vwap = if ltb_ℤ (p.position *ℤ old) (pos 0) then flipped else vwap;
      }

  -- The unrealised profit at a price, for a position that is not 0.
  abbrev pub unreal_at : D → PositionInfo → D
  unreal_at price p =
      let size = of_ℤ (abs p.position) in
      if ltb_ℤ (pos 0) p.position
      then mul (sub price (div (p.open_vwap (side_to_index Side.k_ask)) size)) size
      else mul (sub (div (p.open_vwap (side_to_index Side.k_bid)) size) price) size

  abbrev pub is_flat : ℤ → Bool
  is_flat (pos n) = n == 0
  is_flat (negsuc n) = false

  -- `if (!position)` and its else, then `total_pnl = unreal_pnl + real_pnl`.
  unfoldable pub settle : (price : ℕ) → PositionInfo → PositionInfo
  settle price p =
      let flat = is_flat p.position in
      let unreal = if flat then of_ℕ 0 else unreal_at (of_ℕ price) p in
      record p {
        open_vwap =
            if flat
            then set_vwap Side.k_ask (of_ℕ 0) (set_vwap Side.k_bid (of_ℕ 0) p.open_vwap)
            else p.open_vwap;
        unreal_pnl = unreal;
        total_pnl = add unreal p.real_pnl;
      }

  unfoldable pub add_fill : Response → PositionInfo → PositionInfo
  unfolding increase decrease settle moved
  add_fill r p =
      let q = record p {
        position = moved p.position r.exec_qty r.side;
        volume = add p.volume (of_ℕ r.exec_qty);
      } in
      if ltb_ℤ (p.position *ℤ side_to_value r.side) (pos 0)
      then settle r.price (decrease r.side r.exec_qty r.price p.position q)
      else settle r.price (increase r.side r.exec_qty r.price q)

  unfoldable pub update_bbo : Bbo → PositionInfo → PositionInfo
  update_bbo b p =
      let q = record p { bbo = some b } in
      let mid_price = mul (of_ℕ ((b.bid_price + b.ask_price) % 2 ^ 64)) half in
      let unreal = unreal_at mid_price q in
      if not (is_flat p.position)
        && not (b.bid_price == k_price_invalid)
        && not (b.ask_price == k_price_invalid)
      then record q { unreal_pnl = unreal; total_pnl = add unreal q.real_pnl }
      else q

  -- Trading::PositionKeeper.
  abbrev pub Positions : Type 0
  Positions = Dict TradingPair PositionInfo

  unfoldable pub info : TradingPair → Positions → PositionInfo
  info pair k = elim (Dict.lookup pair k) [ none ↦ new_position_info | some p ↦ p ]

  unfoldable pub keep_fill : Response → Positions → Positions
  unfolding info
  keep_fill r k = Dict.insert r.trading_pair (add_fill r (info r.trading_pair k)) k

  unfoldable pub keep_bbo : TradingPair → Bbo → Positions → Positions
  unfolding info
  keep_bbo pair b k = Dict.insert pair (update_bbo b (info pair k)) k

  -- exchange::PositionKeeper: a keeper of its own for each exchange. A null pointer is `none`.
  abbrev pub Keepers : Type 0
  Keepers = Dict ExchangeId Positions

  unfoldable pub route_fill : Option Response → Keepers → Keepers
  unfolding keep_fill
  route_fill none ks = ks
  route_fill (some r) ks = elim (Dict.lookup r.exchange_id ks) [
    | none ↦ ks
    | some k ↦
        if exchange_eq r.exchange_id ExchangeId.k_invalid
        then ks
        else Dict.insert r.exchange_id (keep_fill r k) ks
  ]

  unfoldable pub route_bbo : ExchangeId → TradingPair → Option Bbo → Keepers → Keepers
  unfolding keep_bbo
  route_bbo e pair none ks = ks
  route_bbo e pair (some b) ks = elim (Dict.lookup e ks) [
    | none ↦ ks
    | some k ↦
        if exchange_eq e ExchangeId.k_invalid then ks else Dict.insert e (keep_bbo pair b k) ks
  ]

  -- What GetPositionInfo gives: a null pointer, a position, or a call through a null pointer.
  pub data Found : Type 0 where
    null_pointer : Found
    position_found : PositionInfo → Found
    null_call : Found

  -- Trading::PositionKeeper::GetPositionInfo, which enters a pair that is new.
  unfoldable pub get_info : TradingPair → Positions → PositionInfo × Positions
  unfolding info
  get_info pair k = (info pair k, Dict.insert pair (info pair k) k)

  -- exchange::PositionKeeper::GetPositionInfo: an exchange without a keeper has no guard.
  unfoldable pub get_position_info : ExchangeId → TradingPair → Keepers → Found × Keepers
  unfolding get_info
  get_position_info e pair ks =
      if exchange_eq e ExchangeId.k_invalid then (null_pointer, ks) else elim (Dict.lookup e ks) [
        | none ↦ (null_call, ks)
        | some k ↦ let (p, k') = get_info pair k in (position_found p, Dict.insert e k' ks)
      ]

  -- The loop of ToString over its two sums, which both begin at 0.
  unfoldable pub totals : D × D → Positions → D × D
  totals sums [] = sums
  totals (total_pnl, total_vol) ((pair, p) ∷ k) =
      totals (add total_pnl p.total_pnl, add total_vol p.volume) k
