-- ===== src/Arbitrage/Silent.antt =====
-- The reports of a component that is told only BBOs that are not crossed.
use cryptobot.Common.{
  ℕ, ◌≡◌, refl, ap, ◌∙◌, subst, true, false, some, Option-cases, List, [], ◌∷◌, inl, inr, ltb,
  arith, nat_key, Bool-cases,
}
use cryptobot.Common.Dict
use cryptobot.Common.Dict.{Dict, lookup-insert}
use cryptobot.Double.{Double}
use cryptobot.OrderBook.Book2.{Bbo}
use cryptobot.OrderBook.Component.{NewBbo}
use cryptobot.TradingPairs.{ExchangeTradingPairs}
use cryptobot.Pnl.{TradingPairInfo}
use cryptobot.Arbitrage.Data.{Step, Readings, Legs, no_legs, Hashes, TradeState, Strategy}
use cryptobot.Arbitrage.Trades.{open_trade, cycles_of}
use cryptobot.Arbitrage.Defs.{
  read_step, read_legs, close_trade, trade_step, evaluate, evaluate_all, handle_new_bbo,
  add_arbitrage_cycle, add_or_update_bbo, key_of,
}
use cryptobot.Arbitrage.Closing.{
  Call, call_add, call_bbo, IsClosed, is_ready, evaluate-cases, evaluate-IsClosed, handle-IsClosed,
  add_cycle-IsClosed, run_calls,
}
use cryptobot.Arbitrage.Prices.{
  IsUncrossed, IsFair, IsSigned, profit_lem, entries, entry-open, closed-quiet, complete-prices,
  read_step-IsFair,
}

module _ (d : Double) (hashes : Hashes) (pow10 : ℕ → d.D)
    (table : ExchangeTradingPairs TradingPairInfo) where
  read_legs-IsFair :
      (bbos : Dict ℕ Bbo) (steps : List Step) (l l' : Legs)
      → ((key : ℕ) (b : Bbo) → Dict.lookup key bbos ≡ some b → IsUncrossed b)
      → IsFair l
      → read_legs d hashes bbos steps l ≡ some l'
      → IsFair l'
  unfolding read_legs
  read_legs-IsFair bbos [] l l' h fair e = ground (arith, fair, e)
  read_legs-IsFair bbos (s ∷ steps) l l' h fair e =
      elim (Option-cases (Dict.lookup (key_of d hashes s) bbos)) [
        | inl n ↦ ground (arith, n, e)
        | inr (b, f) ↦
            read_legs-IsFair bbos steps (read_step d hashes s b l) l' h
              (read_step-IsFair d hashes s b l (h (key_of d hashes s) b f) fair)
              (ground (arith, f, e))
      ]

  trade_step-quiet :
      (signed : IsSigned d) (uid : ℕ) (l : Legs) (now : Readings) (s : TradeState d)
      → IsFair l
      → is_ready d hashes pow10 table l s ≡ true
      → s.is_open ≡ false
      → (trade_step d hashes pow10 table uid l now s).1 ≡ []
  unfolding trade_step
  trade_step-quiet signed uid l now s fair ready o =
      let prices = complete-prices l fair (ground (arith, ready)) in
      let read = entry-open d signed l now s (ground (arith, ready)) (ground (arith, ready)) in
      elim (Bool-cases (ltb l.open_buy_price l.open_sell_price)) [
        | inr n ↦ ground (arith, n, o)
        | inl y ↦
            let opened = open_trade d l now s in
            let quiet : (close_trade d hashes pow10 table uid l now opened).1 ≡ [] =
              closed-quiet d signed uid l now opened hashes pow10 table (
                profit_lem d signed l (entries d signed l.transaction_buy l now s)
                  (entries d signed l.transaction_sell l now s) (ground (arith, read, fair, y))
                  (ground (arith, read, prices, y)) (ground (arith, read, prices))) in
            ground (arith, y, o, quiet)
      ]

  -- The BBOs that the component keeps are not crossed.
  unfoldable pub IsOrdered : Strategy d → Type 0
  IsOrdered m = (key : ℕ) (b : Bbo) → Dict.lookup key m.exchange_bbo_map ≡ some b → IsUncrossed b

  evaluate-IsOrdered :
      (now : Readings) (cycle : List Step) (m : Strategy d)
      → IsOrdered m
      → IsOrdered (evaluate d hashes pow10 table now cycle m).0
  unfolding IsOrdered
  evaluate-IsOrdered now cycle m h = elim (evaluate-cases d hashes pow10 table now cycle m) [
    | inl e ↦ rw e h
    | inr (l, s, _, _, _, e) ↦ rw e h
  ]

  evaluate-quiet :
      (signed : IsSigned d) (now : Readings) (cycle : List Step) (m : Strategy d)
      → IsOrdered m
      → IsClosed d hashes pow10 table m
      → (evaluate d hashes pow10 table now cycle m).1 ≡ []
  unfolding IsOrdered IsClosed
  evaluate-quiet signed now cycle m h c = elim (evaluate-cases d hashes pow10 table now cycle m) [
    | inl e ↦ ap (λ x. x.1) e
    | inr (l, s, read, there, ready, e) ↦
        ap (λ x. x.1) e
        ∙ trade_step-quiet signed (hashes.of_cycle cycle) l now s
            (read_legs-IsFair m.exchange_bbo_map cycle no_legs l h (ground arith) read) ready
            (c (hashes.of_cycle cycle) s there)
  ]

  evaluate_all-quiet :
      (signed : IsSigned d) (clock : ℕ → Readings) (cycles : List (List Step)) (m : Strategy d)
      → IsOrdered m
      → IsClosed d hashes pow10 table m
      → ((evaluate_all d hashes pow10 table clock cycles m).1 ≡ [])
        × IsOrdered (evaluate_all d hashes pow10 table clock cycles m).0
  unfolding evaluate_all
  evaluate_all-quiet signed clock [] m h c = (refl, h)
  evaluate_all-quiet signed clock (cycle ∷ cycles) m h c =
      let now = clock (hashes.of_cycle cycle) in
      let m' = (evaluate d hashes pow10 table now cycle m).0 in
      let rest =
        evaluate_all-quiet signed clock cycles m' (evaluate-IsOrdered now cycle m h)
          (evaluate-IsClosed d hashes pow10 table now cycle m c) in
      (rw (evaluate-quiet signed now cycle m h c) rest.0, rest.1)

  update-IsOrdered :
      (key : ℕ) (b : Bbo) (m : Strategy d)
      → IsUncrossed b
      → IsOrdered m
      → IsOrdered (add_or_update_bbo d hashes key b m)
  unfolding IsOrdered add_or_update_bbo
  update-IsOrdered key b m u h j x e =
      let l = lookup-insert key j b m.exchange_bbo_map in
      elim (Bool-cases (nat_key.beq key j)) [
        | inl y ↦
            let same : some b ≡ some x = ground (arith, l, e, y) in
            let same' : b ≡ x = cc in subst IsUncrossed same' u
        | inr n ↦ h j x (ground (arith, l, e, n))
      ]

  abbrev AllUncrossed : List Call → Type 0
  AllUncrossed [] = Unit {0}
  AllUncrossed (call_add cycle ∷ calls) = AllUncrossed calls
  AllUncrossed (call_bbo clock event ∷ calls) = IsUncrossed event.bbo × AllUncrossed calls

  add_cycle-IsOrdered :
      (unset : ℕ) (cycle : List Step) (m : Strategy d)
      → IsOrdered m
      → IsOrdered (add_arbitrage_cycle d hashes unset cycle m)
  unfolding IsOrdered add_arbitrage_cycle
  add_cycle-IsOrdered unset cycle m h =
      elim (Bool-cases (Dict.contains (hashes.of_cycle cycle) m.trades_state)) [
        | inl t ↦ rw t h
        | inr n ↦ rw n h
      ]

  handle-quiet :
      (signed : IsSigned d) (clock : ℕ → Readings) (event : NewBbo) (m : Strategy d)
      → IsUncrossed event.bbo
      → IsOrdered m
      → IsClosed d hashes pow10 table m
      → ((handle_new_bbo d hashes pow10 table clock event m).1 ≡ [])
        × IsOrdered (handle_new_bbo d hashes pow10 table clock event m).0
  unfolding handle_new_bbo add_or_update_bbo IsClosed
  handle-quiet signed clock event m u h c =
      let key = hashes.combined event.exchange_id event.market_type event.trading_pair in
      evaluate_all-quiet signed clock (cycles_of d key m.trade_dictionary)
        (add_or_update_bbo d hashes key event.bbo m) (update-IsOrdered key event.bbo m u h) c

  -- Where no trade is open and the BBOs that are kept are not crossed, no sequence of added cycles
  -- and of BBOs that are not crossed makes the component report a trade, for doubles where a - b is
  -- not above 0 for naturals a up to b, and where sums of numbers not above 0, and their quotients
  -- and products by positive naturals, are not above 0. A BBO is crossed when its bid is there and
  -- is above its ask, or its ask is 0.
  pub run_calls-silent :
      (signed : IsSigned d) (unset : ℕ) (calls : List Call) (m : Strategy d)
      → AllUncrossed calls
      → IsOrdered m
      → IsClosed d hashes pow10 table m
      → (run_calls d hashes pow10 table unset calls m).1 ≡ []
  unfolding run_calls
  run_calls-silent signed unset [] m u h c = refl
  run_calls-silent signed unset (call_add cycle ∷ calls) m u h c =
      run_calls-silent signed unset calls (add_arbitrage_cycle d hashes unset cycle m) u
        (add_cycle-IsOrdered unset cycle m h)
        (add_cycle-IsClosed d hashes pow10 table unset cycle m c)
  run_calls-silent signed unset (call_bbo clock event ∷ calls) m u h c =
      let quiet = handle-quiet signed clock event m u.0 h c in
      rw quiet.0 (
        run_calls-silent signed unset calls (handle_new_bbo d hashes pow10 table clock event m).0
          u.1 quiet.1 (handle-IsClosed d hashes pow10 table clock event m c))
