-- ===== src/Pnl/Trade.antt =====
-- The profit of a trade against the formula for its transactions.
use cryptobot.Common.{
  ℕ, Bool, true, false, ◌&&◌, none, some, [], ◌∷◌, if◌then◌else◌, ltb, ◌≡◌, refl, arith, Bool-cases,
  inl, inr,
}
use cryptobot.Double.{Double}
use cryptobot.TradingPairs.{ExchangeTradingPairs, get_pair_info, pair_exists}
use cryptobot.Pnl.Defs.{
  Operation, TradingPairInfo, TransactionReport, Transactions, calculate_pnl, calculate_from,
  calculate_trade_pnl,
}

module _ (d : Double) (pow10 : ℕ → d.D) (table : ExchangeTradingPairs TradingPairInfo) where
  open d use {D, of_ℕ, add, sub, mul}

  abbrev pub known : TransactionReport d → Bool
  known t = pair_exists t.exchange_id t.trading_pair table

  -- The difference of the two prices, the later minus the earlier one of a purchase and the other
  -- way round for a sale, times the smaller of the two quantities, each in the pair's precision.
  abbrev pub profit : TransactionReport d → D
  profit t = elim (get_pair_info t.exchange_id t.trading_pair table) [
    | none ↦ of_ℕ 0
    | some info ↦
        let price : ℕ → D = λ p. mul (of_ℕ p) (pow10 info.price_precission) in
        let least = if ltb t.exit_qty t.entry_qty then t.exit_qty else t.entry_qty in
        let qty = mul (of_ℕ least) (pow10 info.qty_precission) in
        elim t.operation [
          | Operation.k_buy ↦ mul (sub (price t.exit_price) (price t.entry_price)) qty
          | Operation.k_sell ↦ mul (sub (price t.entry_price) (price t.exit_price)) qty
        ]
  ]

  calculate_pnl-known :
      (t : TransactionReport d)
      → known t ≡ true
      → calculate_pnl d pow10 table t ≡ ((true, profit t), record t { pnl = profit t })
  unfolding calculate_pnl get_pair_info pair_exists
  calculate_pnl-known t k = ground (arith, k)

  calculate_pnl-unknown :
      (t : TransactionReport d) → known t ≡ false → (calculate_pnl d pow10 table t).0.0 ≡ false
  unfolding calculate_pnl get_pair_info pair_exists
  calculate_pnl-unknown t k = ground (arith, k)

  -- Every transaction's pair is known on its exchange.
  abbrev pub all_known : Transactions d → Bool
  all_known [] = true
  all_known ((id, t) ∷ ts) = known t && all_known ts

  abbrev pub sum_from : D → Transactions d → D
  sum_from total [] = total
  sum_from total ((id, t) ∷ ts) = sum_from (add total (profit t)) ts

  abbrev pub each : Transactions d → Transactions d
  each [] = []
  each ((id, t) ∷ ts) = (id, record t { pnl = profit t }) ∷ each ts

  from_lem :
      (total : D) (ts : Transactions d)
      → let (res, ts') = calculate_from d pow10 table total ts in
        (res ≡ (if all_known ts then (true, sum_from total ts) else (false, of_ℕ 0)))
        × ((if all_known ts then ts' else each ts) ≡ each ts)
  unfolding calculate_from
  from_lem total [] = (refl, refl)
  from_lem total ((id, t) ∷ ts) = elim (Bool-cases (known t)) [
    | inl k ↦
        let (res, stored) = from_lem (add total (profit t)) ts in
        rw (k, calculate_pnl-known t k)
          (elim (Bool-cases (all_known ts)) [
            | inl a ↦ (ground (arith, res), ground (arith, stored))
            | inr a ↦ (ground (arith, res), ground arith)
          ])
    | inr k ↦ rw (k, calculate_pnl-unknown t k) (refl, refl)
  ]

  -- A trade has a profit exactly when the pair of every transaction is known on its exchange: it is
  -- then the sum of theirs, added in the loop's order from 0, and each transaction stores its own,
  -- which is the difference of its prices, with the sign of its operation, times the smaller of its
  -- quantities; otherwise the result is false and 0.
  pub calculate_trade_pnl_lem :
      (ts : Transactions d)
      → let (res, ts') = calculate_trade_pnl d pow10 table ts in
        (res ≡ (if all_known ts then (true, sum_from (of_ℕ 0) ts) else (false, of_ℕ 0)))
        × ((if all_known ts then ts' else each ts) ≡ each ts)
  unfolding calculate_trade_pnl
  calculate_trade_pnl_lem ts = from_lem (of_ℕ 0) ts
