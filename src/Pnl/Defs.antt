-- ===== src/Pnl/Defs.antt =====
-- The two CalculatePnl. `pow10 n` is std::pow(10, -n).
use cryptobot.Common.{ℕ, Bool, true, false, none, some, List, [], ◌∷◌, ltb, if◌then◌else◌}
use cryptobot.Types.{ExchangeId, TradingPair}
use cryptobot.Double.{Double}
use cryptobot.TradingPairs.{ExchangeTradingPairs, get_pair_info}

pub data Operation : Type 0 where
  k_buy k_sell : Operation

-- The precisions of a TradingPairInfo, which are what the calculator reads.
pub record TradingPairInfo : Type 0 where
  pub price_precission : ℕ
  pub qty_precission : ℕ

module _ (d : Double) where
  open d use {D, of_ℕ, add, sub, mul}

  pub record TransactionReport : Type 0 where
    pub exchange_id : ExchangeId
    pub trading_pair : TradingPair
    pub operation : Operation
    pub entry_price : ℕ
    pub exit_price : ℕ
    pub entry_qty : ℕ
    pub exit_qty : ℕ
    pub entry_time : ℕ
    pub exit_time : ℕ
    pub pnl : D

  -- The transactions of a TradeState, in the order of the loop.
  abbrev pub Transactions : Type 0
  Transactions = List (ℕ × TransactionReport)

  module _ (pow10 : ℕ → D) (table : ExchangeTradingPairs TradingPairInfo) where
    abbrev pub get_price_double : TradingPairInfo → ℕ → D
    get_price_double info price = mul (of_ℕ price) (pow10 info.price_precission)

    abbrev pub get_qty_double : TradingPairInfo → ℕ → D
    get_qty_double info qty = mul (of_ℕ qty) (pow10 info.qty_precission)

    abbrev pub min_ℕ : ℕ → ℕ → ℕ
    min_ℕ a b = if ltb b a then b else a

    unfoldable pub calculate_pnl : TransactionReport → (Bool × D) × TransactionReport
    calculate_pnl t = elim (get_pair_info t.exchange_id t.trading_pair table) [
      | none ↦ ((false, of_ℕ 0), t)
      | some info ↦
          let qty = get_qty_double info (min_ℕ t.entry_qty t.exit_qty) in
          let exit = get_price_double info t.exit_price in
          let enter = get_price_double info t.entry_price in
          let pnl : D = elim t.operation [
            | k_sell ↦ mul (sub enter exit) qty
            | k_buy ↦ mul (sub exit enter) qty
          ] in
          ((true, pnl), record t { pnl = pnl })
    ]

    -- The loop, from the total so far.
    unfoldable pub calculate_from : D → Transactions → (Bool × D) × Transactions
    unfolding calculate_pnl
    calculate_from total [] = ((true, total), [])
    calculate_from total ((id, t) ∷ ts) =
        let (res, t') = calculate_pnl t in
        let (res', ts') = calculate_from (add total res.1) ts in
        if res.0 then (res', (id, t') ∷ ts') else ((false, of_ℕ 0), (id, t') ∷ ts)

    unfoldable pub calculate_trade_pnl : Transactions → (Bool × D) × Transactions
    unfolding calculate_from
    calculate_trade_pnl ts = calculate_from (of_ℕ 0) ts
