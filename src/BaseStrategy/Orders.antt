-- ===== src/BaseStrategy/Orders.antt =====
-- The orders that a sequence of klines leads to.
use Prim.Native.String.{String}
use cryptobot.Common.{
  ℕ, Bool, true, false, List, [], ◌∷◌, ◌==◌, if◌then◌else◌, ◌≡◌, refl, sym, ap, subst, ◌∙◌, ◌⊎◌,
  inl, inr, arith, Bool-cases, Option-cases, All,
}
use cryptobot.Common.Dict
use cryptobot.Types.{
  ExchangeId, Side, TradingPair, pair_eq_iff, side_eq_iff, pair_key, k_price_invalid,
}
use cryptobot.Replay.{OhlcvExt}
use cryptobot.Manager.{OrderManager, new_request, new_order, get_order, order_is_live}
use cryptobot.Manager.Life.{new_order_lem, new_order_live}
use cryptobot.BaseStrategy.Actions.{TradeAction, parse}
use cryptobot.BaseStrategy.Defs.{BaseStrategy, buy_some_asset, act, on_new_kline}

-- A kline, the strategy as it is then, and whether the request queue has room.
pub record Step : Type 0 where
  pub kline : OhlcvExt
  pub strategy : BaseStrategy
  pub room : Bool

module _ (predict : OhlcvExt → String) where
  unfoldable pub run_klines : List Step → OrderManager → OrderManager
  run_klines [] m = m
  run_klines (x ∷ xs) m = run_klines xs (on_new_kline predict x.room x.kline x.strategy m)

  -- An action does nothing, or places one purchase.
  abbrev Acted : (pair : TradingPair) (m m' : OrderManager) → Type 0
  Acted pair m m' =
      (m' ≡ m)
      ⊎ ((room : Bool) × (price : ℕ) × (qty : ℕ) × (m'
            ≡ new_order room ExchangeId.k_invalid pair price Side.k_ask qty m))

  buy-Acted :
      (room : Bool) (pair : TradingPair) (s : BaseStrategy) (m : OrderManager)
      → Acted pair m (buy_some_asset room ExchangeId.k_invalid pair s m)
  unfolding buy_some_asset
  buy-Acted room pair s m = elim (Option-cases s.order_book) [
    | inl n ↦ inl (ground (arith, n))
    | inr (bbo, e) ↦ elim (Option-cases (Dict.lookup pair s.ticker_cfg)) [
      | inl n ↦ inl (ground (arith, n, e))
      | inr (clip, f) ↦ elim (Bool-cases (bbo.ask_price == k_price_invalid)) [
        | inl y ↦ inl (ground (arith, e, f, y))
        | inr n ↦ inr (room, bbo.ask_price, clip, ground (arith, e, f, n))
      ]
    ]
  ]

  act-Acted :
      (a : TradeAction) (room : Bool) (pair : TradingPair) (s : BaseStrategy) (m : OrderManager)
      → Acted pair m (act a room pair s m)
  unfolding act
  act-Acted TradeAction.k_enter_long room pair s m = buy-Acted room pair s m
  act-Acted TradeAction.k_enter_short room pair s m = inl refl
  act-Acted TradeAction.k_exit_long room pair s m = inl refl
  act-Acted TradeAction.k_exit_short room pair s m = inl refl
  act-Acted TradeAction.k_nope room pair s m = inl refl

  chosen :
      (pair : TradingPair) (b : Bool) (m m' : OrderManager)
      → Acted pair m m'
      → Acted pair m (if b then m' else m)
  chosen pair true m m' a = a
  chosen pair false m m' a = inl refl

  abbrev after : Step → OrderManager → OrderManager
  after x m = on_new_kline predict x.room x.kline x.strategy m

  kline-Acted :
      (p : TradingPair) (x : Step) (m : OrderManager)
      → x.kline.trading_pair ≡ p
      → Acted p m (after x m)
  unfolding on_new_kline
  kline-Acted p x m h =
      subst (λ q. Acted q m (after x m)) h
        (chosen x.kline.trading_pair x.strategy.has_strategy m _
          (act-Acted (parse (predict x.kline)) x.room x.kline.trading_pair x.strategy m))

  -- The pair has a live purchase.
  abbrev IsLive : TradingPair → OrderManager → Type 0
  IsLive p m = order_is_live (get_order p Side.k_ask m).state ≡ true

  step-IsLive :
      (p : TradingPair) (x : Step) (m : OrderManager)
      → x.kline.trading_pair ≡ p
      → IsLive p m
      → ((after x m).requests ≡ m.requests) × IsLive p (after x m)
  step-IsLive p x m h l = elim (kline-Acted p x m h) [
    | inl e ↦ (ap (λ y. y.requests) e, subst (IsLive p) (sym e) l)
    | inr (room, price, qty, e) ↦
        let (order, _, requests) =
          new_order_live room ExchangeId.k_invalid p p price Side.k_ask Side.k_ask qty m l in
        (
          ap (λ y. y.requests) e ∙ requests,
          subst (IsLive p) (sym e) (ap (λ o. order_is_live o.state) order ∙ l),
        )
  ]

  run-IsLive :
      (p : TradingPair) (xs : List Step) (m : OrderManager)
      → All (λ x. x.kline.trading_pair ≡ p) xs
      → IsLive p m
      → (run_klines xs m).requests ≡ m.requests
  unfolding run_klines
  run-IsLive p [] m h l = refl
  run-IsLive p (x ∷ xs) m h l =
      let (requests, live) = step-IsLive p x m h.0 l in
      run-IsLive p xs (after x m) h.1 live ∙ requests

  -- Nothing is sent, or one purchase, for no exchange.
  abbrev pub OneOrder : TradingPair → (m m' : OrderManager) → Type 0
  OneOrder p m m' =
      (m'.requests ≡ m.requests)
      ⊎ ((price : ℕ) × (qty : ℕ) × (m'.requests
            ≡ new_request ExchangeId.k_invalid p m.next_order_id Side.k_ask price qty ∷ m.requests))

  first_order :
      (p : TradingPair) (room : Bool) (price qty : ℕ) (m : OrderManager)
      → order_is_live (get_order p Side.k_ask m).state ≡ false
      → let m' = new_order room ExchangeId.k_invalid p price Side.k_ask qty m in
        OneOrder p m m' × IsLive p m'
  first_order p room price qty m free =
      let (order, _, requests) =
        new_order_lem room ExchangeId.k_invalid p p price Side.k_ask Side.k_ask qty m free in
      let live : IsLive p (new_order room ExchangeId.k_invalid p price Side.k_ask qty m) =
        ground (arith, order, pair_eq_iff p p, side_eq_iff Side.k_ask Side.k_ask) in
      elim (Bool-cases room) [
        | inl y ↦ (inr (price, qty, ground (arith, requests, y)), live)
        | inr n ↦ (inl (ground (arith, requests, n)), live)
      ]

  -- Over any klines of one pair, whatever is predicted, however the book and the configuration change
  -- and whether or not the request queue has room, at most one request is sent as long as no response
  -- is handled: a purchase of the pair under the next order id, with the invalid exchange.
  pub run_klines-OneOrder :
      (p : TradingPair) (xs : List Step) (m : OrderManager)
      → All (λ x. x.kline.trading_pair ≡ p) xs
      → OneOrder p m (run_klines xs m)
  unfolding run_klines
  run_klines-OneOrder p [] m h = inl refl
  run_klines-OneOrder p (x ∷ xs) m h =
      elim (Bool-cases (order_is_live (get_order p Side.k_ask m).state)) [
        | inl live ↦ inl (run-IsLive p (x ∷ xs) m h live)
        | inr free ↦ elim (kline-Acted p x m h.0) [
          | inl e ↦
              subst (λ y. OneOrder p m (run_klines xs y)) (sym e) (run_klines-OneOrder p xs m h.1)
          | inr (room, price, qty, e) ↦
              let (one, live) = first_order p room price qty m free in
              let m' = new_order room ExchangeId.k_invalid p price Side.k_ask qty m in
              let rest = run-IsLive p xs m' h.1 live in
              subst (λ y. OneOrder p m (run_klines xs y)) (sym e)
                (elim one [
                  | inl same ↦ inl (rest ∙ same)
                  | inr (a, b, sent) ↦ inr (a, b, rest ∙ sent)
                ])
        ]
      ]
