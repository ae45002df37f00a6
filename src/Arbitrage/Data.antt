-- ===== src/Arbitrage/Data.antt =====
-- The data of the strategy: steps and cycles, what the evaluation reads, trades and reports.
use cryptobot.Common.{
  ℕ, Bool, true, false, ◌&&◌, not, List, [], ◌∷◌, nat_key, ltb, ◌==◌, if◌then◌else◌,
}
use cryptobot.Common.Dict.{Dict}
use cryptobot.Types.{
  ExchangeId, MarketType, TradingPair, exchange_eq, market_type_eq, pair_eq, k_price_invalid,
  k_qty_invalid,
}
use cryptobot.Double.{Double}
use cryptobot.OrderBook.Book2.{Bbo}
use cryptobot.Pnl.{Operation, Transactions}

pub record Step : Type 0 where
  pub trading_pair : TradingPair
  pub exchange_id : ExchangeId
  pub market_type : MarketType
  pub operation : Operation

abbrev pub operation_eq : Operation → Operation → Bool
operation_eq Operation.k_buy Operation.k_buy = true
operation_eq Operation.k_sell Operation.k_sell = true
operation_eq _ _ = false

-- Step::operator==
abbrev pub step_eq : Step → Step → Bool
step_eq a b =
    pair_eq a.trading_pair b.trading_pair
    && exchange_eq a.exchange_id b.exchange_id
    && market_type_eq a.market_type b.market_type
    && operation_eq a.operation b.operation

-- operator== of two cycles: the sizes, then the steps.
abbrev pub cycle_eq : List Step → List Step → Bool
cycle_eq [] [] = true
cycle_eq (a ∷ x) (b ∷ y) = step_eq a b && cycle_eq x y
cycle_eq _ _ = false

-- The readings of the clock in one evaluation.
pub record Readings : Type 0 where
  pub buy_entry : ℕ
  pub sell_entry : ℕ
  pub buy_exit : ℕ
  pub sell_exit : ℕ

-- What the loop of EvaluateOpportunityArbitrageCycle reads off the steps of a cycle. The two
-- transactions are set with the prices, and are not read before these are known to be set.
pub record Legs : Type 0 where
  pub open_buy_price : ℕ
  pub exit_buy_price : ℕ
  pub open_sell_price : ℕ
  pub exit_sell_price : ℕ
  pub open_buy_qty : ℕ
  pub exit_buy_qty : ℕ
  pub open_sell_qty : ℕ
  pub exit_sell_qty : ℕ
  pub transaction_buy : ℕ
  pub transaction_sell : ℕ

abbrev pub no_legs : Legs
no_legs = record {
  open_buy_price = k_price_invalid;
  exit_buy_price = k_price_invalid;
  open_sell_price = k_price_invalid;
  exit_sell_price = k_price_invalid;
  open_buy_qty = k_qty_invalid;
  exit_buy_qty = k_qty_invalid;
  open_sell_qty = k_qty_invalid;
  exit_sell_qty = k_qty_invalid;
  transaction_buy = 0;
  transaction_sell = 0;
}

-- The early returns after the loop.
abbrev pub is_complete : Legs → Bool
is_complete l =
    not (l.open_buy_price == k_price_invalid)
    && not (l.open_sell_price == k_price_invalid)
    && not (l.exit_buy_price == k_price_invalid)
    && not (l.exit_sell_price == k_price_invalid)
    && not (l.open_buy_qty == k_qty_invalid)
    && not (l.exit_buy_qty == k_qty_invalid)
    && not (l.open_sell_qty == k_qty_invalid)
    && not (l.exit_sell_qty == k_qty_invalid)

abbrev pub min_ℕ : ℕ → ℕ → ℕ
min_ℕ a b = if ltb b a then b else a

abbrev pub max_ℕ : ℕ → ℕ → ℕ
max_ℕ a b = if ltb a b then b else a

-- common::HashCombined, StepHash and ArbitrageCycleHash.
pub record Hashes : Type 0 where
  pub combined : ExchangeId → MarketType → TradingPair → ℕ
  pub of_step : Step → ℕ
  pub of_cycle : List Step → ℕ

module _ (d : Double) where
  open d use {D, of_ℕ, add, sub, mul, div, geb}

  pub record TradeState : Type 0 where
    pub transaction_states : Transactions d
    pub is_open : Bool
    pub pnl : D
    pub entry_time : ℕ
    pub exit_time : ℕ

  abbrev pub new_trade_state : TradeState
  new_trade_state = record {
    transaction_states = [];
    is_open = false;
    pnl = of_ℕ 0;
    entry_time = 0;
    exit_time = 0;
  }

  pub record ArbitrageReport : Type 0 where
    pub uid_trade : ℕ
    pub time_open : ℕ
    pub time_close : ℕ
    pub pnl : D
    pub transactions : Transactions d

  pub record Strategy : Type 0 where
    pub exchange_bbo_map : Dict ℕ Bbo
    -- A multimap from the key of a step to the cycles with that step.
    pub trade_dictionary : List (ℕ × List Step)
    pub trades_state : Dict ℕ TradeState
