-- ===== src/TradingPairs/Lookup.antt =====
-- The nested map against one flat map, from an exchange and a pair to what is known of them.
use cryptobot.Common.{true, false, ◌&&◌, none, some, [], if◌then◌else◌, ◌≡◌, arith}
use cryptobot.Common.Dict
use cryptobot.Types.{
  ExchangeId, TradingPair, exchange_eq, exchange_eq_iff, exchange_key, pair_eq, pair_eq_iff,
  pair_key,
}
use cryptobot.TradingPairs.Defs.{
  Pairs, ExchangeTradingPairs, add_or_update_pair, get_pair_info, remove_exchange, remove_pair,
  pair_exists,
}

module _ {ℓ} {Info : Type ℓ} (e f : ExchangeId) (p q : TradingPair)
    (m : ExchangeTradingPairs Info) where
  get-update :
      (info : Info)
      → get_pair_info f q (add_or_update_pair e p info m)
        ≡ (if exchange_eq e f && pair_eq p q then some info else get_pair_info f q m)
  unfolding get_pair_info add_or_update_pair
  get-update info =
      let pairs : Pairs Info = elim (Dict.lookup e m) [ none ↦ [] | some ps ↦ ps ] in
      ground (
        arith,
        exchange_eq_iff e f,
        pair_eq_iff p q,
        Dict.lookup-insert e f (Dict.insert p info pairs) m,
        Dict.lookup-insert p q info pairs,
        Dict.lookup-nil {V = Info} q,
      )

  get-remove :
      get_pair_info f q (remove_pair e p m)
      ≡ (if exchange_eq e f && pair_eq p q then none else get_pair_info f q m)
  unfolding get_pair_info remove_pair
  get-remove =
      let pairs : Pairs Info = elim (Dict.lookup e m) [ none ↦ [] | some ps ↦ ps ] in
      ground (
        arith,
        exchange_eq_iff e f,
        pair_eq_iff p q,
        Dict.lookup-insert e f (Dict.erase p pairs) m,
        Dict.lookup-erase p q pairs,
      )

  get-remove_exchange :
      get_pair_info f q (remove_exchange e m)
      ≡ (if exchange_eq e f then none else get_pair_info f q m)
  unfolding get_pair_info remove_exchange
  get-remove_exchange = ground (arith, Dict.lookup-erase e f m)

  -- The nested map behaves as one flat map from an exchange and a pair to their information:
  -- adding or updating a pair sets that entry alone, removing a pair clears that entry alone,
  -- removing an exchange clears all its entries alone, and a pair exists exactly where there is one.
  pub get_pair_info-flat :
      (info : Info)
      → (get_pair_info f q (add_or_update_pair e p info m)
          ≡ (if exchange_eq e f && pair_eq p q then some info else get_pair_info f q m))
        × (get_pair_info f q (remove_pair e p m)
            ≡ (if exchange_eq e f && pair_eq p q then none else get_pair_info f q m))
        × (get_pair_info f q (remove_exchange e m)
            ≡ (if exchange_eq e f then none else get_pair_info f q m))
        × (pair_exists f q m ≡ elim (get_pair_info f q m) [ none ↦ false | some i ↦ true ])
  unfolding pair_exists get_pair_info
  get_pair_info-flat info = (get-update info, get-remove, get-remove_exchange, ground arith)
