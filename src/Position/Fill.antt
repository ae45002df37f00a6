-- ===== src/Position/Fill.antt =====
-- What a fill does to a position, and a fill or a new BBO to its profit.
use cryptobot.Common.{
  ℕ, ◌+◌, ◌%◌, ◌^◌, ◌<◌, ◌≤◌, ◌&&◌, not, some, List, [], ◌∷◌, ◌==◌, if◌then◌else◌, ◌≡◌, refl, subst,
  sym, ap, ◌∙◌, arith,
}
use cryptobot.Common.Int.{ℤ, pos, pos_part, neg_part, ◌+ℤ◌, ◌*ℤ◌, ltb_ℤ, abs}
use cryptobot.Types.{Side, side_to_index, side_to_value, k_price_invalid}
use cryptobot.Double.{Double}
use cryptobot.Response.{Response}
use cryptobot.OrderBook.Book2.{Bbo}
use cryptobot.Position.Defs.{
  moved, to_int, min_ℤ, PositionInfo, increase, decrease, settle, add_fill, update_bbo, is_flat,
  unreal_at, opposite,
}

-- The signed quantity of a fill.
abbrev pub signed : ℕ → Side → ℤ
signed qty side = pos qty *ℤ side_to_value side

-- A value of type int.
pub record IsInt (a : ℤ) : Type 0 where
  pub above : pos_part a < 2 ^ 31
  pub below : neg_part a ≤ 2 ^ 31

parts :
    (a : ℤ) (qty : ℕ) (side : Side)
    → IsInt a
    → IsInt (a +ℤ signed qty side)
    → (pos_part a < 2 ^ 31)
      × (neg_part a ≤ 2 ^ 31)
      × (pos_part (a +ℤ signed qty side) < 2 ^ 31)
      × (neg_part (a +ℤ signed qty side) ≤ 2 ^ 31)
parts a qty side i j = (i.above, i.below, j.above, j.below)

-- A fill moves the position by its signed quantity, exactly, where that fits an int.
moved-exact :
    (a : ℤ) (qty : ℕ) (side : Side)
    → IsInt a
    → qty < 2 ^ 64
    → IsInt (a +ℤ signed qty side)
    → moved a qty side ≡ a +ℤ signed qty side
unfolding moved ◌+ℤ◌ ◌*ℤ◌
moved-exact a qty Side.k_ask i h j = let (u, v, x, y) = parts a qty Side.k_ask i j in ground arith
moved-exact a qty Side.k_bid i h j = let (u, v, x, y) = parts a qty Side.k_bid i j in ground arith
moved-exact a qty Side.k_invalid i h j =
    let (u, v, x, y) = parts a qty Side.k_invalid i j in ground arith
moved-exact a qty Side.k_max i h j = let (u, v, x, y) = parts a qty Side.k_max i j in ground arith

-- The position that a list of fills adds up to.
unfoldable pub net : ℤ → List Response → ℤ
net a [] = a
net a (r ∷ rs) = net (a +ℤ signed r.exec_qty r.side) rs

-- Every fill has a uint64_t quantity, and after each one the exact position fits an int.
unfoldable pub IsWithin : ℤ → List Response → Type 0
IsWithin a [] = Unit {0}
IsWithin a (r ∷ rs) =
    (r.exec_qty < 2 ^ 64)
    × IsInt (a +ℤ signed r.exec_qty r.side)
    × IsWithin (a +ℤ signed r.exec_qty r.side) rs

module _ (d : Double) where
  open d use {D, of_ℕ, of_ℤ, half, add, sub, mul, div}

  unfoldable pub add_fills : List Response → PositionInfo d → PositionInfo d
  add_fills [] p = p
  add_fills (r ∷ rs) p = add_fills rs (add_fill d r p)

  add_fill-position :
      (r : Response) (p : PositionInfo d)
      → (add_fill d r p).position ≡ moved p.position r.exec_qty r.side
  unfolding add_fill increase decrease settle
  add_fill-position r p = ground arith

  -- After any sequence of fills with uint64_t quantities that keeps the exact position within an
  -- int, the position is the starting one plus what was bought minus what was sold.
  pub add_fills-position :
      (rs : List Response) (p : PositionInfo d)
      → IsInt p.position
      → IsWithin p.position rs
      → (add_fills rs p).position ≡ net p.position rs
  unfolding add_fills net IsWithin
  add_fills-position [] p i w = refl
  add_fills-position (r ∷ rs) p i (h, j, w) =
      let e = add_fill-position r p ∙ moved-exact p.position r.exec_qty r.side i h j in
      add_fills-position rs (add_fill d r p) (subst IsInt (sym e) j)
        (subst (λ a. IsWithin a rs) (sym e) w)
      ∙ ap (λ a. net a rs) e

  -- After every fill the total is the unrealised plus the realised profit, the volume has grown by
  -- the quantity, and where the position is 0 nothing is unrealised and the VWAPs of both sides are 0.
  add_fill-totals :
      (r : Response) (p : PositionInfo d)
      → let p' = add_fill d r p in
        let flat = is_flat d (moved p.position r.exec_qty r.side) in
        (p'.total_pnl ≡ add p'.unreal_pnl p'.real_pnl)
        × (p'.volume ≡ add p.volume (of_ℕ r.exec_qty))
        × ((if flat then p'.unreal_pnl else of_ℕ 0) ≡ of_ℕ 0)
        × ((if flat then p'.open_vwap (side_to_index Side.k_ask) else of_ℕ 0) ≡ of_ℕ 0)
        × ((if flat then p'.open_vwap (side_to_index Side.k_bid) else of_ℕ 0) ≡ of_ℕ 0)
  unfolding add_fill increase decrease settle side_to_index
  add_fill-totals r p = ground arith

  -- A fill on the side of the position, or from 0, realises nothing; one against the position
  -- realises the closed quantity times the difference to the VWAP of the other side, with the sign
  -- of the fill's side.
  pub add_fill-real :
      (r : Response) (p : PositionInfo d)
      → let old = p.position in
        let vwap = div (p.open_vwap (side_to_index (opposite d r.side))) (of_ℤ (abs old)) in
        let closed = min_ℤ (to_int r.exec_qty) (abs old) in
        (add_fill d r p).real_pnl ≡ (
          if ltb_ℤ (old *ℤ side_to_value r.side) (pos 0)
          then add p.real_pnl
              (mul (mul (of_ℤ closed) (sub vwap (of_ℕ r.price))) (of_ℤ (side_to_value r.side)))
          else p.real_pnl)
  unfolding add_fill increase decrease settle
  add_fill-real r p = ground arith

  -- A new BBO is kept; the profit changes only with an open position and both prices known, when
  -- the total is again the unrealised profit at the mid price plus the realised one. Position,
  -- VWAPs, volume and realised profit stay.
  pub update_bbo_lem :
      (b : Bbo) (p : PositionInfo d)
      → let p' = update_bbo d b p in
        let priced = not (b.bid_price == k_price_invalid) && not (b.ask_price == k_price_invalid) in
        let mid = mul (of_ℕ ((b.bid_price + b.ask_price) % 2 ^ 64)) half in
        (p'.bbo ≡ some b)
        × (p'.position ≡ p.position)
        × (p'.volume ≡ p.volume)
        × (p'.real_pnl ≡ p.real_pnl)
        × (p'.open_vwap ≡ p.open_vwap)
        × (p'.unreal_pnl
            ≡ (if not (is_flat d p.position) && priced then unreal_at d mid p else p.unreal_pnl))
        × (p'.total_pnl ≡ (
            if not (is_flat d p.position) && priced
            then add (unreal_at d mid p) p.real_pnl
            else p.total_pnl))
  unfolding update_bbo
  update_bbo_lem b p = ground arith
