-- ===== src/Wallet/Defs.antt =====
-- The classes Wallet and exchange::Wallet. A method that may throw std::out_of_range returns `raise`
-- with the object as the exception finds it.
use cryptobot.Common.{
  ℕ, Bool, true, false, Option, none, some, List, [], ◌∷◌, if◌then◌else◌, nat_key,
}
use cryptobot.Common.Dict
use cryptobot.Common.Dict.{Dict}
use cryptobot.Types.{ExchangeId, Side, k_ticker_id_invalid, k_qty_invalid, exchange_key}
use cryptobot.Double.{Double}
use cryptobot.Response.{Response, ClientResponseType}

pub data Result (A : Type 0) : Type 0 where
  ok : A → Result A
  raise : A → Result A

-- What is left, whether the call returned or threw.
abbrev pub after : {A : Type 0} → Result A → A
after (ok a) = a
after (raise a) = a

pub record ReservedForTicker : Type 0 where
  pub reserved_ticker : ℕ
  pub reserved_qty : ℕ

abbrev pub no_reserve : ReservedForTicker
no_reserve = record { reserved_ticker = k_ticker_id_invalid; reserved_qty = k_qty_invalid }

module _ (d : Double) where
  open d use {D, of_ℕ, add, sub, geb}

  pub record Wallet : Type 0 where
    pub assets : Dict ℕ D
    pub reserves : Dict ℕ ReservedForTicker

  abbrev pub new_wallet : Wallet
  new_wallet = record { assets = []; reserves = [] }

  unfoldable pub init_ticker : ℕ → Wallet → Wallet
  init_ticker ticker w =
      if Dict.contains ticker w.assets
      then w
      else record w { assets = Dict.insert ticker (of_ℕ 0) w.assets }

  -- `at(ticker) += qty`, which throws if the ticker is not in the map.
  unfoldable pub credit : ℕ → ℕ → Wallet → Result Wallet
  credit ticker qty w = elim (Dict.lookup ticker w.assets) [
    | none ↦ raise w
    | some x ↦ ok (record w { assets = Dict.insert ticker (add x (of_ℕ qty)) w.assets })
  ]

  unfoldable pub can_reserve : ℕ → ℕ → Wallet → Bool × Wallet
  unfolding init_ticker
  can_reserve ticker qty w =
      let w' = init_ticker ticker w in
      (elim (Dict.lookup ticker w'.assets) [ none ↦ false | some x ↦ geb x (of_ℕ qty) ], w')

  unfoldable pub reserve : ℕ → ℕ → ℕ → Wallet → Bool × Wallet
  unfolding can_reserve
  reserve order_id ticker qty w =
      let (can, w') = can_reserve ticker qty w in
      let r : ReservedForTicker = record { reserved_ticker = ticker; reserved_qty = qty } in
      if can
      then elim (Dict.lookup ticker w'.assets) [
        | none ↦ (false, w')
        | some x ↦ (
          true,
          record {
            assets = Dict.insert ticker (sub x (of_ℕ qty)) w'.assets;
            reserves = Dict.insert order_id r w'.reserves;
          },
        )
      ]
      else (false, w')

  release : ℕ → Wallet → Wallet
  release order_id w = record w { reserves = Dict.erase order_id w.reserves }

  -- The reserve of an order goes back to its ticker, and is then erased; where that throws, the
  -- entry stays.
  give_back : ℕ → ReservedForTicker → Wallet → Result Wallet
  unfolding credit release
  give_back order_id r w = elim (credit r.reserved_ticker r.reserved_qty w) [
    | ok w' ↦ ok (release order_id w')
    | raise w' ↦ raise w'
  ]

  -- CANCELED: `reserves_[order_id]` makes an entry of reserved values for an unknown order.
  on_canceled : ℕ → Wallet → Result Wallet
  unfolding give_back
  on_canceled order_id w = elim (Dict.lookup order_id w.reserves) [
    | none ↦
        give_back order_id no_reserve
          (record w { reserves = Dict.insert order_id no_reserve w.reserves })
    | some r ↦ give_back order_id r w
  ]

  -- FILLED: the ticker of the side gets the executed quantity.
  on_filled : Response → Wallet → Result Wallet
  unfolding init_ticker credit release
  on_filled r w =
      let w' = release r.order_id w in
      elim r.side [
        | Side.k_ask ↦ credit r.trading_pair.first r.exec_qty (init_ticker r.trading_pair.first w')
        | Side.k_bid ↦
            credit r.trading_pair.second r.exec_qty (init_ticker r.trading_pair.second w')
        | _ ↦ ok w'
      ]

  -- INVALID: an unknown order is only logged.
  on_invalid : ℕ → Wallet → Result Wallet
  unfolding give_back
  on_invalid order_id w = elim (Dict.lookup order_id w.reserves) [
    | none ↦ ok w
    | some r ↦ give_back order_id r w
  ]

  unfoldable pub update : Response → Wallet → Result Wallet
  unfolding on_canceled on_filled on_invalid release
  update r w = elim r.type [
    | ClientResponseType.accepted ↦ ok (release r.order_id w)
    | ClientResponseType.cancel_rejected ↦ ok (release r.order_id w)
    | ClientResponseType.canceled ↦ on_canceled r.order_id w
    | ClientResponseType.filled ↦ on_filled r w
    | ClientResponseType.invalid ↦ on_invalid r.order_id w
  ]

  -- exchange::Wallet.
  abbrev pub Wallets : Type 0
  Wallets = Dict ExchangeId Wallet

  unfoldable pub at : ExchangeId → Wallets → Option Wallet
  at exchange_id ws = Dict.lookup exchange_id ws

  -- `try_emplace` leaves a wallet that is there as it is.
  unfoldable pub init_wallets : List ExchangeId → Wallets → Wallets
  init_wallets [] ws = ws
  init_wallets (id ∷ ids) ws =
      init_wallets ids (if Dict.contains id ws then ws else Dict.insert id new_wallet ws)

  unfoldable pub update_exchange : Response → Wallets → Result Wallets
  update_exchange r ws = elim r.exchange_id [
    | ExchangeId.k_invalid ↦ ok ws
    | id ↦ elim (Dict.lookup id ws) [
      | none ↦ ok ws
      | some w ↦ elim (update r w) [
        | ok w' ↦ ok (Dict.insert id w' ws)
        | raise w' ↦ raise (Dict.insert id w' ws)
      ]
    ]
  ]

  unfoldable pub can_reserve_on : ExchangeId → ℕ → ℕ → Wallets → Bool × Wallets
  can_reserve_on id ticker qty ws = elim (Dict.lookup id ws) [
    | none ↦ (false, ws)
    | some w ↦ let (can, w') = can_reserve ticker qty w in (can, Dict.insert id w' ws)
  ]

  unfoldable pub reserve_on : ExchangeId → ℕ → ℕ → ℕ → Wallets → Bool × Wallets
  reserve_on id order_id ticker qty ws = elim (Dict.lookup id ws) [
    | none ↦ (false, ws)
    | some w ↦ let (done, w') = reserve order_id ticker qty w in (done, Dict.insert id w' ws)
  ]

  -- OnNewSignal.
  unfoldable pub on_new_signal : ExchangeId → ℕ → ℕ → ℕ → Wallets → Bool × Wallets
  unfolding reserve_on
  on_new_signal id order_id ticker qty ws = elim id [
    | ExchangeId.k_invalid ↦ (false, ws)
    | known ↦ reserve_on known order_id ticker qty ws
  ]
