-- ===== src/Arbitrage/Defs.antt =====
-- AddArbitrageCycle and the handling of a new BBO. The hash functions, the clock, std::pow, and the
-- value of a time that the constructor leaves unset are parameters.
use cryptobot.Common.{
  ℕ, false, ◌&&◌, not, Option, none, some, List, [], ◌∷◌, ◌++◌, nat_key, ltb, if◌then◌else◌,
}
use cryptobot.Common.Dict
use cryptobot.Common.Dict.{Dict}
use cryptobot.Types.{k_price_invalid, k_qty_invalid}
use cryptobot.Double.{Double}
use cryptobot.OrderBook.Book2.{Bbo}
use cryptobot.OrderBook.Component.{NewBbo}
use cryptobot.TradingPairs.{ExchangeTradingPairs}
use cryptobot.Pnl.{Operation, TradingPairInfo, TransactionReport, Transactions, calculate_trade_pnl}
use cryptobot.Arbitrage.Data.{
  Step, Readings, Legs, no_legs, is_complete, Hashes, TradeState, new_trade_state, ArbitrageReport,
  Strategy,
}
use cryptobot.Arbitrage.Trades.{
  has_cycle, cycles_of, entry_price_of, open_trade, profit_percent, exit_trade,
}

module _ (d : Double) where
  open d use {D, of_ℕ, add, sub, mul, div, geb}

  module _ (hashes : Hashes) where
    open hashes use {combined, of_step, of_cycle}

    abbrev pub key_of : Step → ℕ
    key_of s = combined s.exchange_id s.market_type s.trading_pair

    unfoldable pub add_steps : List Step → List Step → List (ℕ × List Step) → List (ℕ × List Step)
    unfolding has_cycle
    add_steps cycle [] m = m
    add_steps cycle (s ∷ steps) m =
        add_steps cycle steps
          (if has_cycle d (key_of s) cycle m then m else m ++ ((key_of s, cycle) ∷ []))

    abbrev new_report : (unset : ℕ) → Step → TransactionReport d
    new_report unset s = record {
      exchange_id = s.exchange_id;
      trading_pair = s.trading_pair;
      operation = s.operation;
      entry_price = k_price_invalid;
      exit_price = k_price_invalid;
      entry_qty = k_qty_invalid;
      exit_qty = k_qty_invalid;
      entry_time = unset;
      exit_time = unset;
      pnl = of_ℕ 0;
    }

    unfoldable new_transactions : ℕ → List Step → Transactions d → Transactions d
    new_transactions unset [] ts = ts
    new_transactions unset (s ∷ steps) ts =
        new_transactions unset steps (Dict.insert (of_step s) (new_report unset s) ts)

    unfoldable pub add_arbitrage_cycle : (unset : ℕ) → List Step → Strategy d → Strategy d
    unfolding add_steps new_transactions
    add_arbitrage_cycle unset cycle m =
        let m' = record m { trade_dictionary = add_steps cycle cycle m.trade_dictionary } in
        let state = record (new_trade_state d) {
          transaction_states = new_transactions unset cycle [];
        } in
        if Dict.contains (of_cycle cycle) m.trades_state
        then m'
        else record m' { trades_state = Dict.insert (of_cycle cycle) state m.trades_state }

    unfoldable pub add_or_update_bbo : ℕ → Bbo → Strategy d → Strategy d
    add_or_update_bbo key bbo m = record m {
      exchange_bbo_map = Dict.insert key bbo m.exchange_bbo_map;
    }

    -- One step of the loop, with the BBO of its key.
    unfoldable pub read_step : Step → Bbo → Legs → Legs
    read_step s b l = elim s.operation [
      | Operation.k_buy ↦ record l {
        open_buy_price = b.ask_price;
        open_buy_qty = b.ask_qty;
        exit_buy_price = b.bid_price;
        exit_buy_qty = b.bid_qty;
        transaction_buy = of_step s;
      }
      | Operation.k_sell ↦ record l {
        open_sell_price = b.bid_price;
        open_sell_qty = b.bid_qty;
        exit_sell_price = b.ask_price;
        exit_sell_qty = b.ask_qty;
        transaction_sell = of_step s;
      }
    ]

    -- The loop: `none` where a BBO is not there yet.
    unfoldable pub read_legs : Dict ℕ Bbo → List Step → Legs → Option Legs
    unfolding read_step
    read_legs bbos [] l = some l
    read_legs bbos (s ∷ steps) l = elim (Dict.lookup (key_of s) bbos) [
      | none ↦ none
      | some b ↦ read_legs bbos steps (read_step s b l)
    ]

    module _ (pow10 : ℕ → D) (table : ExchangeTradingPairs TradingPairInfo) where
      -- The part under `if (trade_state.IsOpened())`, with the report that is sent.
      unfoldable pub close_trade :
          ℕ → Legs → Readings → TradeState d → TradeState d × List (ArbitrageReport d)
      unfolding exit_trade profit_percent entry_price_of
      close_trade uid l now s =
          let percent =
            profit_percent d l (entry_price_of d l.transaction_buy s.transaction_states)
              (entry_price_of d l.transaction_sell s.transaction_states) in
          let take_profit = geb percent (of_ℕ 0) in
          let stop_loss = geb (of_ℕ 0) percent in
          let closed = record s { is_open = false } in
          let exited = exit_trade d l now closed in
          let (result, ts) = calculate_trade_pnl d pow10 table exited.transaction_states in
          let counted = record exited { transaction_states = ts } in
          let final = record counted { pnl = result.1 } in
          let report : ArbitrageReport d = record {
            uid_trade = uid;
            time_open = final.entry_time;
            time_close = final.exit_time;
            pnl = final.pnl;
            transactions = final.transaction_states;
          } in
          if stop_loss
          then (closed, [])
          else if not take_profit
          then (closed, [])
          else if result.0
          then (final, report ∷ [])
          else (counted, [])

      -- From `if (!trade_state.IsOpened())` on.
      unfoldable pub trade_step :
          ℕ → Legs → Readings → TradeState d → TradeState d × List (ArbitrageReport d)
      unfolding open_trade close_trade
      trade_step uid l now s =
          let opened =
            if not s.is_open && ltb l.open_buy_price l.open_sell_price
            then open_trade d l now s
            else s in
          if opened.is_open then close_trade uid l now opened else (opened, [])

      -- EvaluateOpportunityArbitrageCycle.
      unfoldable pub evaluate :
          Readings → List Step → Strategy d → Strategy d × List (ArbitrageReport d)
      unfolding read_legs trade_step
      evaluate now cycle m =
          let uid = of_cycle cycle in
          elim (read_legs m.exchange_bbo_map cycle no_legs) [
            | none ↦ (m, [])
            | some l ↦ elim (Dict.lookup uid m.trades_state) [
              | none ↦ (m, [])
              | some s ↦
                  let (s', sent) = trade_step uid l now s in
                  if is_complete l
                    && Dict.contains l.transaction_buy s.transaction_states
                    && Dict.contains l.transaction_sell s.transaction_states
                  then (record m { trades_state = Dict.insert uid s' m.trades_state }, sent)
                  else (m, [])
            ]
          ]

      unfoldable pub evaluate_all :
          (ℕ → Readings) → List (List Step) → Strategy d → Strategy d × List (ArbitrageReport d)
      unfolding evaluate
      evaluate_all clock [] m = (m, [])
      evaluate_all clock (cycle ∷ cycles) m =
          let (m', sent) = evaluate (clock (of_cycle cycle)) cycle m in
          let (m'', sent') = evaluate_all clock cycles m' in (m'', sent ++ sent')

      unfoldable pub handle_new_bbo :
          (ℕ → Readings) → NewBbo → Strategy d → Strategy d × List (ArbitrageReport d)
      unfolding add_or_update_bbo cycles_of evaluate_all
      handle_new_bbo clock event m =
          let key = combined event.exchange_id event.market_type event.trading_pair in
          let m' = add_or_update_bbo key event.bbo m in
          evaluate_all clock (cycles_of d key m'.trade_dictionary) m'
