-- ===== src/Arbitrage/Trades.antt =====
-- The writes of the evaluation to a trade, and the search in the multimap of cycles.
use cryptobot.Common.{
  ℕ, Bool, true, false, ◌&&◌, ◌||◌, none, some, List, [], ◌∷◌, nat_key, ◌==◌, if◌then◌else◌,
}
use cryptobot.Common.Dict
use cryptobot.Common.Dict.{Dict}
use cryptobot.Types.{k_price_invalid}
use cryptobot.Double.{Double}
use cryptobot.Pnl.{TransactionReport, Transactions}
use cryptobot.Arbitrage.Data.{Step, cycle_eq, Readings, Legs, min_ℕ, max_ℕ, TradeState}

module _ (d : Double) where
  open d use {D, of_ℕ, add, sub, mul, div, geb}

  -- `any_of` over the range of equal keys.
  unfoldable pub has_cycle : ℕ → List Step → List (ℕ × List Step) → Bool
  has_cycle key cycle [] = false
  has_cycle key cycle ((k, x) ∷ m) = (k == key && cycle_eq x cycle) || has_cycle key cycle m

  -- The cycles of the range of equal keys.
  unfoldable pub cycles_of : ℕ → List (ℕ × List Step) → List (List Step)
  cycles_of key [] = []
  cycles_of key ((k, x) ∷ m) = let rest = cycles_of key m in if k == key then x ∷ rest else rest

  -- `transaction_states[t]`, changed in place.
  unfoldable pub modify :
      ℕ → (TransactionReport d → TransactionReport d) → Transactions d → Transactions d
  modify t f ts = elim (Dict.lookup t ts) [ none ↦ ts | some x ↦ Dict.insert t (f x) ts ]

  -- The prices and times of a trade's transactions; both transactions are there.
  unfoldable pub entry_price_of : ℕ → Transactions d → ℕ
  entry_price_of t ts = elim (Dict.lookup t ts) [ none ↦ k_price_invalid | some x ↦ x.entry_price ]

  unfoldable pub entry_time_of : ℕ → Transactions d → ℕ
  entry_time_of t ts = elim (Dict.lookup t ts) [ none ↦ 0 | some x ↦ x.entry_time ]

  unfoldable pub exit_time_of : ℕ → Transactions d → ℕ
  exit_time_of t ts = elim (Dict.lookup t ts) [ none ↦ 0 | some x ↦ x.exit_time ]

  abbrev pub enter : (price qty time : ℕ) → TransactionReport d → TransactionReport d
  enter price qty time x = record x { entry_price = price; entry_qty = qty; entry_time = time }

  abbrev leave : (price qty time : ℕ) → TransactionReport d → TransactionReport d
  leave price qty time x = record x { exit_price = price; exit_qty = qty; exit_time = time }

  -- The writes where a trade is opened.
  unfoldable pub open_trade : Legs → Readings → TradeState d → TradeState d
  unfolding modify entry_time_of
  open_trade l now s =
      let ts =
        modify l.transaction_buy (enter l.open_buy_price l.open_buy_qty now.buy_entry)
          s.transaction_states in
      let ts' =
        modify l.transaction_sell (enter l.open_sell_price l.open_sell_qty now.sell_entry) ts in
      record s {
        transaction_states = ts';
        is_open = true;
        entry_time =
            min_ℕ (entry_time_of l.transaction_buy ts') (entry_time_of l.transaction_sell ts');
      }

  -- profit_or_loss_percent
  unfoldable pub profit_percent : Legs → (buy_entry sell_entry : ℕ) → D
  profit_percent l buy_entry sell_entry =
      let buy = sub (of_ℕ l.exit_buy_price) (of_ℕ buy_entry) in
      let sell = sub (of_ℕ sell_entry) (of_ℕ l.exit_sell_price) in
      mul (div (add buy sell) (of_ℕ buy_entry)) (of_ℕ 100)

  -- The writes under `if (take_profit)`, before the profit is calculated.
  unfoldable pub exit_trade : Legs → Readings → TradeState d → TradeState d
  unfolding modify exit_time_of
  exit_trade l now s =
      let ts =
        modify l.transaction_buy (leave l.exit_buy_price l.exit_buy_qty now.buy_exit)
          s.transaction_states in
      let ts' =
        modify l.transaction_sell (leave l.exit_sell_price l.exit_sell_qty now.sell_exit) ts in
      record s {
        transaction_states = ts';
        exit_time =
            max_ℕ (exit_time_of l.transaction_buy ts') (exit_time_of l.transaction_sell ts');
      }
