-- ===== src/Arbitrage/Closing.antt =====
-- The life of a trade: what is open, and what is reported.
use cryptobot.Common.{
  ℕ, ◌≡◌, refl, Bool, true, false, ◌&&◌, some, Option-cases, List, [], ◌∷◌, ◌++◌, not, ◌⊎◌, inl,
  inr, ltb, arith, nat_key, if◌then◌else◌, Bool-cases,
}
use cryptobot.Common.Dict
use cryptobot.Common.Dict.{Dict, lookup-insert}
use cryptobot.Double.{Double}
use cryptobot.OrderBook.Component.{NewBbo}
use cryptobot.TradingPairs.{ExchangeTradingPairs}
use cryptobot.Pnl.{TradingPairInfo}
use cryptobot.Arbitrage.Data.{
  Step, Readings, Legs, no_legs, is_complete, Hashes, TradeState, ArbitrageReport, Strategy,
}
use cryptobot.Arbitrage.Trades.{open_trade, exit_trade, cycles_of}
use cryptobot.Arbitrage.Defs.{
  read_legs, close_trade, trade_step, evaluate, evaluate_all, handle_new_bbo, add_arbitrage_cycle,
  add_or_update_bbo,
}

-- A call of the component from outside.
pub data Call : Type 0 where
  call_add : List Step → Call
  call_bbo : (ℕ → Readings) → NewBbo → Call

module _ (d : Double) (hashes : Hashes) (pow10 : ℕ → d.D)
    (table : ExchangeTradingPairs TradingPairInfo) where
  unfoldable pub IsClosed : Strategy d → Type 0
  IsClosed m =
      (id : ℕ) (s : TradeState d) → Dict.lookup id m.trades_state ≡ some s → s.is_open ≡ false

  exit-closed :
      (l : Legs) (now : Readings) (s : TradeState d) → (exit_trade d l now s).is_open ≡ s.is_open
  unfolding exit_trade
  exit-closed l now s = refl

  close_trade-closed :
      (uid : ℕ) (l : Legs) (now : Readings) (s : TradeState d)
      → (close_trade d hashes pow10 table uid l now s).0.is_open ≡ false
  unfolding close_trade
  close_trade-closed uid l now s = ground (arith, exit-closed l now (record s { is_open = false }))

  trade_step-closed :
      (uid : ℕ) (l : Legs) (now : Readings) (s : TradeState d)
      → (trade_step d hashes pow10 table uid l now s).0.is_open ≡ false
  unfolding trade_step
  trade_step-closed uid l now s =
      let opened =
        if not s.is_open && ltb l.open_buy_price l.open_sell_price
        then open_trade d l now s
        else s in
      elim (Bool-cases opened.is_open) [
        | inl e ↦ ground (arith, close_trade-closed uid l now opened, e)
        | inr e ↦ ground (arith, e)
      ]

  insert-IsClosed :
      (m : Strategy d) (id : ℕ) (s : TradeState d)
      → IsClosed m
      → s.is_open ≡ false
      → IsClosed (record m { trades_state = Dict.insert id s m.trades_state })
  unfolding IsClosed
  insert-IsClosed m id s h c j t e =
      let l = lookup-insert id j s m.trades_state in
      elim (Bool-cases (nat_key.beq id j)) [
        | inl y ↦ ground (arith, l, e, y, c)
        | inr n ↦ h j t (ground (arith, l, e, n))
      ]

  abbrev pub stored : ℕ → TradeState d → Strategy d → Strategy d
  stored id s m = record m { trades_state = Dict.insert id s m.trades_state }

  abbrev pub is_ready : Legs → TradeState d → Bool
  is_ready l s =
      is_complete l
      && Dict.contains l.transaction_buy s.transaction_states
      && Dict.contains l.transaction_sell s.transaction_states

  -- A cycle is skipped, or its trade makes a step with the prices of a complete reading.
  abbrev Evaluated : Readings → List Step → Strategy d → Type 0
  Evaluated now cycle m =
      (l : Legs) × (s : TradeState d) × (read_legs d hashes m.exchange_bbo_map cycle no_legs
        ≡ some l)
      × (Dict.lookup (hashes.of_cycle cycle) m.trades_state ≡ some s)
      × (is_ready l s ≡ true)
      × (evaluate d hashes pow10 table now cycle m
          ≡ let (s', sent) = trade_step d hashes pow10 table (hashes.of_cycle cycle) l now s in
            (stored (hashes.of_cycle cycle) s' m, sent))

  pub evaluate-cases :
      (now : Readings) (cycle : List Step) (m : Strategy d)
      → (evaluate d hashes pow10 table now cycle m ≡ (m, [])) ⊎ Evaluated now cycle m
  unfolding evaluate
  evaluate-cases now cycle m =
      elim (Option-cases (read_legs d hashes m.exchange_bbo_map cycle no_legs)) [
        | inl e ↦ inl (ground (arith, e))
        | inr (l, e) ↦ elim (Option-cases (Dict.lookup (hashes.of_cycle cycle) m.trades_state)) [
          | inl f ↦ inl (ground (arith, e, f))
          | inr (s, f) ↦ elim (Bool-cases (is_ready l s)) [
            | inl t ↦ inr (l, s, e, f, t, ground (arith, e, f, t))
            | inr n ↦ inl (ground (arith, e, f, n))
          ]
        ]
      ]

  pub evaluate-IsClosed :
      (now : Readings) (cycle : List Step) (m : Strategy d)
      → IsClosed m
      → IsClosed (evaluate d hashes pow10 table now cycle m).0
  evaluate-IsClosed now cycle m h = elim (evaluate-cases now cycle m) [
    | inl e ↦ rw e h
    | inr (l, s, _, _, _, e) ↦ rw e (
        insert-IsClosed m (hashes.of_cycle cycle) _ h
          (trade_step-closed (hashes.of_cycle cycle) l now s))
  ]

  evaluate_all-IsClosed :
      (clock : ℕ → Readings) (cycles : List (List Step)) (m : Strategy d)
      → IsClosed m
      → IsClosed (evaluate_all d hashes pow10 table clock cycles m).0
  unfolding evaluate_all
  evaluate_all-IsClosed clock [] m h = h
  evaluate_all-IsClosed clock (cycle ∷ cycles) m h =
      evaluate_all-IsClosed clock cycles
        (evaluate d hashes pow10 table (clock (hashes.of_cycle cycle)) cycle m).0
        (evaluate-IsClosed (clock (hashes.of_cycle cycle)) cycle m h)

  pub add_cycle-IsClosed :
      (unset : ℕ) (cycle : List Step) (m : Strategy d)
      → IsClosed m
      → IsClosed (add_arbitrage_cycle d hashes unset cycle m)
  unfolding add_arbitrage_cycle IsClosed
  add_cycle-IsClosed unset cycle m h =
      elim (Bool-cases (Dict.contains (hashes.of_cycle cycle) m.trades_state)) [
        | inl t ↦ rw t h
        | inr n ↦ rw n (insert-IsClosed m (hashes.of_cycle cycle) _ h refl)
      ]

  pub handle-IsClosed :
      (clock : ℕ → Readings) (event : NewBbo) (m : Strategy d)
      → IsClosed m
      → IsClosed (handle_new_bbo d hashes pow10 table clock event m).0
  unfolding handle_new_bbo add_or_update_bbo IsClosed
  handle-IsClosed clock event m h =
      let key = hashes.combined event.exchange_id event.market_type event.trading_pair in
      evaluate_all-IsClosed clock (cycles_of d key m.trade_dictionary)
        (add_or_update_bbo d hashes key event.bbo m) h

  unfoldable pub run_calls :
      (unset : ℕ) → List Call → Strategy d → Strategy d × List (ArbitrageReport d)
  run_calls unset [] m = (m, [])
  run_calls unset (call_add cycle ∷ calls) m =
      run_calls unset calls (add_arbitrage_cycle d hashes unset cycle m)
  run_calls unset (call_bbo clock event ∷ calls) m =
      let (m', sent) = handle_new_bbo d hashes pow10 table clock event m in
      let (m'', sent') = run_calls unset calls m' in (m'', sent ++ sent')

  abbrev pub empty_strategy : Strategy d
  empty_strategy = record { exchange_bbo_map = []; trade_dictionary = []; trades_state = [] }

  -- Where no trade is open, whatever cycles are added and whatever BBOs are told after that, in any
  -- order and at any times, no trade is open between two events: a trade that an evaluation opens is closed by
  -- the same evaluation.
  pub run_calls-IsClosed :
      (unset : ℕ) (calls : List Call) (m : Strategy d)
      → IsClosed m
      → IsClosed (run_calls unset calls m).0
  unfolding run_calls
  run_calls-IsClosed unset [] m h = h
  run_calls-IsClosed unset (call_add cycle ∷ calls) m h =
      run_calls-IsClosed unset calls (add_arbitrage_cycle d hashes unset cycle m)
        (add_cycle-IsClosed unset cycle m h)
  run_calls-IsClosed unset (call_bbo clock event ∷ calls) m h =
      run_calls-IsClosed unset calls (handle_new_bbo d hashes pow10 table clock event m).0
        (handle-IsClosed clock event m h)
