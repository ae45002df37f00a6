-- ===== src/TradingPairs/Defs.antt =====
-- The nested map and its operations. A TradingPairInfo is stored and returned unread: it is any type.
use cryptobot.Common.{Bool, false, Option, none, some, List, [], ◌∷◌, if◌then◌else◌}
use cryptobot.Common.Dict
use cryptobot.Common.Dict.{Dict}
use cryptobot.Types.{ExchangeId, TradingPair, exchange_key, pair_key}

abbrev pub Pairs {ℓ} : Type ℓ → Type ℓ
Pairs Info = Dict TradingPair Info

abbrev pub ExchangeTradingPairs {ℓ} : Type ℓ → Type ℓ
ExchangeTradingPairs Info = Dict ExchangeId (Pairs Info)

module _ {ℓ} {Info : Type ℓ} where
  -- `emplace`, which keeps an entry that is there.
  unfoldable pub add_exchange :
      ExchangeId → Pairs Info → ExchangeTradingPairs Info → ExchangeTradingPairs Info
  add_exchange e pairs m = if Dict.contains e m then m else Dict.insert e pairs m

  unfoldable pub add_or_update_pair :
      ExchangeId → TradingPair → Info → ExchangeTradingPairs Info → ExchangeTradingPairs Info
  add_or_update_pair e pair info m =
      let pairs : Pairs Info = elim (Dict.lookup e m) [ none ↦ [] | some ps ↦ ps ] in
      Dict.insert e (Dict.insert pair info pairs) m

  unfoldable pub get_pairs_for_exchange :
      ExchangeId → ExchangeTradingPairs Info → Option (Pairs Info)
  get_pairs_for_exchange e m = Dict.lookup e m

  unfoldable pub get_pair_info : ExchangeId → TradingPair → ExchangeTradingPairs Info → Option Info
  get_pair_info e pair m = elim (Dict.lookup e m) [
    | none ↦ none
    | some pairs ↦ Dict.lookup pair pairs
  ]

  unfoldable pub remove_exchange :
      ExchangeId → ExchangeTradingPairs Info → ExchangeTradingPairs Info
  remove_exchange e m = Dict.erase e m

  unfoldable pub remove_pair :
      ExchangeId → TradingPair → ExchangeTradingPairs Info → ExchangeTradingPairs Info
  remove_pair e pair m = elim (Dict.lookup e m) [
    | none ↦ m
    | some pairs ↦ Dict.insert e (Dict.erase pair pairs) m
  ]

  unfoldable pub exchange_exists : ExchangeId → ExchangeTradingPairs Info → Bool
  exchange_exists e m = Dict.contains e m

  unfoldable pub pair_exists : ExchangeId → TradingPair → ExchangeTradingPairs Info → Bool
  pair_exists e pair m = elim (Dict.lookup e m) [
    | none ↦ false
    | some pairs ↦ Dict.contains pair pairs
  ]

  unfoldable pub get_all_exchanges : ExchangeTradingPairs Info → List ExchangeId
  get_all_exchanges [] = []
  get_all_exchanges ((e, pairs) ∷ m) = e ∷ get_all_exchanges m
