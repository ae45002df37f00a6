-- ===== src/TradingPairs/Tests.antt =====
-- The flat view at one pair.
use cryptobot.Common.{ℕ, true, false, ◌&&◌, none, some, [], ◌∷◌, if◌then◌else◌, ◌≡◌}
use cryptobot.Types.{ExchangeId, TradingPair, exchange_eq, pair_eq}
use cryptobot.TradingPairs.Defs.{
  ExchangeTradingPairs, add_or_update_pair, get_pair_info, remove_exchange, remove_pair,
  pair_exists,
}
use cryptobot.TradingPairs.Lookup

abbrev pair : TradingPair
pair = record { first = 1; second = 2 }

abbrev other : TradingPair
other = record { first = 1; second = 3 }

abbrev table : ExchangeTradingPairs ℕ
table = (ExchangeId.k_binance, (pair, 8) ∷ []) ∷ []

get_pair_info-flat_example :
    let e = ExchangeId.k_binance in
    let f = ExchangeId.k_binance in
    (get_pair_info f pair (add_or_update_pair e other 5 table)
      ≡ (if exchange_eq e f && pair_eq other pair then some 5 else get_pair_info f pair table))
    × (get_pair_info f pair (remove_pair e other table)
        ≡ (if exchange_eq e f && pair_eq other pair then none else get_pair_info f pair table))
    × (get_pair_info f pair (remove_exchange e table)
        ≡ (if exchange_eq e f then none else get_pair_info f pair table))
    × (pair_exists f pair table
        ≡ elim (get_pair_info f pair table) [ none ↦ false | some i ↦ true ])
get_pair_info-flat_example =
    Lookup.get_pair_info-flat ExchangeId.k_binance ExchangeId.k_binance other pair table 5
