-- ===== src/Position/Keeper.antt =====
-- Which position a fill or a BBO reaches through the keeper of all exchanges.
use cryptobot.Common.{Option, none, some, ◌&&◌, if◌then◌else◌, ◌≡◌, ◌≢◌, arith}
use cryptobot.Common.Dict
use cryptobot.Common.Dict.{Dict}
use cryptobot.Types.{
  ExchangeId, TradingPair, exchange_eq, exchange_eq_iff, exchange_key, pair_eq, pair_eq_iff,
  pair_key,
}
use cryptobot.Double.{Double}
use cryptobot.Response.{Response}
use cryptobot.OrderBook.Book2.{Bbo}
use cryptobot.Position.Defs.{
  PositionInfo, add_fill, update_bbo, Positions, info, get_position_info, position_found,
  null_pointer, null_call, keep_fill, keep_bbo, Keepers, route_fill, route_bbo,
}

module _ (d : Double) where
  -- The position of a pair on an exchange, where the exchange has a keeper.
  abbrev pub position_on : ExchangeId → TradingPair → Keepers d → Option (PositionInfo d)
  position_on e pair ks = elim (Dict.lookup e ks) [ none ↦ none | some k ↦ some (info d pair k) ]

  -- A fill from an exchange that has a keeper is added to the position of its pair there, and
  -- every other position, of this exchange or another, stays as it is.
  route_fill_lem :
      (r : Response) (ks : Keepers d) (k : Positions d) (e : ExchangeId) (pair : TradingPair)
      → r.exchange_id ≢ ExchangeId.k_invalid
      → Dict.lookup r.exchange_id ks ≡ some k
      → position_on e pair (route_fill d (some r) ks) ≡ (
          if exchange_eq r.exchange_id e && pair_eq r.trading_pair pair
          then some (add_fill d r (info d pair k))
          else position_on e pair ks)
  unfolding route_fill keep_fill info
  route_fill_lem r ks k e pair valid known = ground (
    arith,
    exchange_eq_iff r.exchange_id ExchangeId.k_invalid,
    exchange_eq_iff r.exchange_id e,
    pair_eq_iff r.trading_pair pair,
    Dict.lookup-insert r.exchange_id e (keep_fill d r k) ks,
    Dict.lookup-insert r.trading_pair pair (add_fill d r (info d r.trading_pair k)) k,
  )

  -- The same for a BBO.
  route_bbo_lem :
      (b : Bbo) (x e : ExchangeId) (p pair : TradingPair) (ks : Keepers d) (k : Positions d)
      → x ≢ ExchangeId.k_invalid
      → Dict.lookup x ks ≡ some k
      → position_on e pair (route_bbo d x p (some b) ks) ≡ (
          if exchange_eq x e && pair_eq p pair
          then some (update_bbo d b (info d pair k))
          else position_on e pair ks)
  unfolding route_bbo keep_bbo info
  route_bbo_lem b x e p pair ks k valid known = ground (
    arith,
    exchange_eq_iff x ExchangeId.k_invalid,
    exchange_eq_iff x e,
    pair_eq_iff p pair,
    Dict.lookup-insert x e (keep_bbo d p b k) ks,
    Dict.lookup-insert p pair (update_bbo d b (info d p k)) k,
  )

  -- The position that is looked up after a fill from an exchange with a keeper is the fill added to
  -- the one before.
  get_position_info-route_fill :
      (r : Response) (ks : Keepers d) (k : Positions d)
      → r.exchange_id ≢ ExchangeId.k_invalid
      → Dict.lookup r.exchange_id ks ≡ some k
      → (get_position_info d r.exchange_id r.trading_pair (route_fill d (some r) ks)).0
        ≡ position_found (add_fill d r (info d r.trading_pair k))
  unfolding get_position_info route_fill keep_fill info
  get_position_info-route_fill r ks k valid known = ground (
    arith,
    exchange_eq_iff r.exchange_id ExchangeId.k_invalid,
    exchange_eq_iff r.exchange_id r.exchange_id,
    pair_eq_iff r.trading_pair r.trading_pair,
    known,
    Dict.lookup-insert r.exchange_id r.exchange_id (keep_fill d r k) ks,
    Dict.lookup-insert r.trading_pair r.trading_pair (add_fill d r (info d r.trading_pair k)) k,
  )

  -- Looking up a position of an exchange with a keeper changes no position.
  get_position_info_keeps :
      (x e : ExchangeId) (p pair : TradingPair) (ks : Keepers d) (k : Positions d)
      → Dict.lookup x ks ≡ some k
      → position_on e pair (get_position_info d x p ks).1 ≡ position_on e pair ks
  unfolding get_position_info info
  get_position_info_keeps x e p pair ks k known = ground (
    arith,
    known,
    exchange_eq_iff x ExchangeId.k_invalid,
    exchange_eq_iff x e,
    pair_eq_iff p pair,
    Dict.lookup-insert x e (Dict.insert p (info d p k) k) ks,
    Dict.lookup-insert p pair (info d p k) k,
  )

  -- An exchange without a keeper is called through a null pointer, unless it is the invalid one.
  get_position_info-unknown :
      (e : ExchangeId) (pair : TradingPair) (ks : Keepers d)
      → Dict.lookup e ks ≡ none
      → (get_position_info d e pair ks).0
        ≡ (if exchange_eq e ExchangeId.k_invalid then null_pointer else null_call)
  unfolding get_position_info
  get_position_info-unknown e pair ks h = ground arith
