-- ===== src/Wallet/Tests.antt =====
-- The theorems on wallets at concrete assets.
use cryptobot.Common.{ℕ, ◌≡◌, refl, [], ◌∷◌, nat_key}
use cryptobot.Common.Int.{pos, ◌+ℤ◌, ◌-ℤ◌}
use cryptobot.Common.Dict
use cryptobot.Types.{ExchangeId, Side, exchange_key}
use cryptobot.Double.Integers.{integers}
use cryptobot.Response.{Response, ClientResponseType}
use cryptobot.Wallet.Defs.{ok, ReservedForTicker, Wallet, reserve, update, Wallets}
use cryptobot.Wallet.Reserve.{balance}
use cryptobot.Wallet.Settle

abbrev wallet : Wallet integers
wallet = record { assets = (2, pos 1000) ∷ []; reserves = [] }

abbrev response : ClientResponseType → Response
response type = record {
  type = type;
  exchange_id = ExchangeId.k_binance;
  trading_pair = record { first = 1; second = 2 };
  order_id = 7;
  side = Side.k_ask;
  price = 10;
  exec_qty = 5;
  leaves_qty = 0;
}

abbrev entry : ReservedForTicker
entry = record { reserved_ticker = 2; reserved_qty = 50 }

abbrev unknown : Response
unknown = response ClientResponseType.invalid

handled : update integers unknown wallet ≡ ok wallet
unfolding update Dict.lookup
handled = refl

reserve-canceled_example :
    (w' : Wallet integers) × (update integers
        (response ClientResponseType.canceled)
        (reserve integers 7 2 50 wallet).1
      ≡ ok w')
    × ((j : ℕ) → balance integers w' j ≡ balance integers wallet j)
unfolding Dict.lookup ◌+ℤ◌ ◌-ℤ◌
reserve-canceled_example =
    Settle.reserve-canceled integers 7 2 50 wallet (response ClientResponseType.canceled) refl refl
      refl refl

abbrev wallets : Wallets integers
wallets = (ExchangeId.k_binance, wallet) ∷ []
