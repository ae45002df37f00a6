-- ===== src/Manager/Slots.antt =====
-- The orders that GetOrder reaches, after one of them is written.
use cryptobot.Common.{◌&&◌, if◌then◌else◌, ◌≡◌, arith}
use cryptobot.Common.Dict
use cryptobot.Types.{Side, TradingPair, pair_eq, pair_key, side_eq, side_to_index}
use cryptobot.Manager.Defs.{
  OmOrder, OmOrderSideHashMap, slot_at, set_slot, OrderManager, get_order, set_order, slots_of,
}

slot-set :
    (s t : Side) (o : OmOrder) (a : OmOrderSideHashMap)
    → slot_at t (set_slot s o a) ≡ (if side_eq s t then o else slot_at t a)
unfolding slot_at set_slot side_to_index
slot-set s t o a = ground arith

pub get-set :
    (p q : TradingPair) (s t : Side) (o : OmOrder) (m : OrderManager)
    → get_order q t (set_order p s o m)
      ≡ (if pair_eq p q && side_eq s t then o else get_order q t m)
unfolding get_order set_order
get-set p q s t o m = ground (
  arith,
  Dict.lookup-insert p q (set_slot s o (slots_of p m)) m.ticker_side_order,
  slot-set s t o (slots_of p m),
)
