-- ===== src/Arbitrage/Cycles.antt =====
-- The multimap of cycles and the trades that AddArbitrageCycle makes.
use cryptobot.Common.{
  ℕ, ◌≡◌, refl, Bool, true, false, ◌&&◌, ◌||◌, List, [], ◌∷◌, ◌++◌, arith, nat_key, if◌then◌else◌,
  Bool-cases, inl, inr,
}
use cryptobot.Common.Dict
use cryptobot.Common.Dict.{Dict, lookup-insert_other, contains-insert}
use cryptobot.Types.{exchange_eq_iff, pair_eq_iff, MarketType, market_type_eq}
use cryptobot.Double.{Double}
use cryptobot.Pnl.{Operation}
use cryptobot.Arbitrage.Data.{Step, Hashes, Strategy, step_eq, operation_eq, cycle_eq}
use cryptobot.Arbitrage.Trades.{has_cycle}
use cryptobot.Arbitrage.Defs.{add_steps, key_of, add_arbitrage_cycle}

step_eq_refl : (s : Step) → step_eq s s ≡ true
step_eq_refl s = ground (
  arith,
  pair_eq_iff s.trading_pair s.trading_pair,
  exchange_eq_iff s.exchange_id s.exchange_id,
  market-refl s.market_type,
  operation-refl s.operation,
)
  where
    market-refl : (t : MarketType) → market_type_eq t t ≡ true
    market-refl t = ground arith

    operation-refl : (o : Operation) → operation_eq o o ≡ true
    operation-refl o = ground arith

cycle_eq_refl : (x : List Step) → cycle_eq x x ≡ true
cycle_eq_refl [] = refl
cycle_eq_refl (s ∷ x) = ground (arith, step_eq_refl s, cycle_eq_refl x)

module _ (d : Double) (hashes : Hashes) where
  has_cycle-append :
      (key : ℕ) (x : List Step) (m n : List (ℕ × List Step))
      → has_cycle d key x (m ++ n) ≡ (has_cycle d key x m || has_cycle d key x n)
  unfolding has_cycle
  has_cycle-append key x [] n = refl
  has_cycle-append key x ((k, y) ∷ m) n = ground (arith, has_cycle-append key x m n)

  -- Every step's key leads to the cycle.
  abbrev pub all_found : List Step → List Step → List (ℕ × List Step) → Bool
  all_found cycle [] m = true
  all_found cycle (s ∷ steps) m = has_cycle d (key_of d hashes s) cycle m && all_found cycle steps m

  abbrev one_step : List Step → Step → List (ℕ × List Step) → List (ℕ × List Step)
  one_step cycle s m =
      if has_cycle d (key_of d hashes s) cycle m then m else m ++ ((key_of d hashes s, cycle) ∷ [])

  one_step-keeps :
      (key : ℕ) (x cycle : List Step) (s : Step) (m : List (ℕ × List Step))
      → has_cycle d key x m ≡ true
      → has_cycle d key x (one_step cycle s m) ≡ true
  one_step-keeps key x cycle s m h =
      ground (arith, h, has_cycle-append key x m ((key_of d hashes s, cycle) ∷ []))

  one_step-found :
      (cycle : List Step) (s : Step) (m : List (ℕ × List Step))
      → has_cycle d (key_of d hashes s) cycle (one_step cycle s m) ≡ true
  unfolding has_cycle
  one_step-found cycle s m =
      let key = key_of d hashes s in
      ground (arith, has_cycle-append key cycle m ((key, cycle) ∷ []), cycle_eq_refl cycle)

  add_steps-keeps :
      (key : ℕ) (x cycle steps : List Step) (m : List (ℕ × List Step))
      → has_cycle d key x m ≡ true
      → has_cycle d key x (add_steps d hashes cycle steps m) ≡ true
  unfolding add_steps
  add_steps-keeps key x cycle [] m h = h
  add_steps-keeps key x cycle (s ∷ steps) m h =
      add_steps-keeps key x cycle steps (one_step cycle s m) (one_step-keeps key x cycle s m h)

  add_steps-found :
      (cycle steps : List Step) (m : List (ℕ × List Step))
      → all_found cycle steps (add_steps d hashes cycle steps m) ≡ true
  unfolding add_steps
  add_steps-found cycle [] m = refl
  add_steps-found cycle (s ∷ steps) m =
      let m' = one_step cycle s m in
      ground (
        arith,
        add_steps-found cycle steps m',
        add_steps-keeps (key_of d hashes s) cycle cycle steps m' (one_step-found cycle s m),
      )

  add_steps-again :
      (cycle steps : List Step) (m : List (ℕ × List Step))
      → all_found cycle steps m ≡ true
      → add_steps d hashes cycle steps m ≡ m
  unfolding add_steps
  add_steps-again cycle [] m h = refl
  add_steps-again cycle (s ∷ steps) m h = ground (arith, add_steps-again cycle steps m, h)

  dictionary-add :
      (unset : ℕ) (cycle : List Step) (m : Strategy d)
      → (add_arbitrage_cycle d hashes unset cycle m).trade_dictionary
        ≡ add_steps d hashes cycle cycle m.trade_dictionary
  unfolding add_arbitrage_cycle
  dictionary-add unset cycle m =
      elim (Bool-cases (Dict.contains (hashes.of_cycle cycle) m.trades_state)) [
        | inl t ↦ rw t refl
        | inr n ↦ rw n refl
      ]

  lookup-add :
      (unset id : ℕ) (cycle : List Step) (m : Strategy d)
      → nat_key.beq (hashes.of_cycle cycle) id ≡ false
      → Dict.lookup id (add_arbitrage_cycle d hashes unset cycle m).trades_state
        ≡ Dict.lookup id m.trades_state
  unfolding add_arbitrage_cycle
  lookup-add unset id cycle m h =
      elim (Bool-cases (Dict.contains (hashes.of_cycle cycle) m.trades_state)) [
        | inl t ↦ rw t refl
        | inr n ↦ rw n (lookup-insert_other (hashes.of_cycle cycle) id _ m.trades_state h)
      ]

  lookup-others :
      (unset id : ℕ) (cycle : List Step) (m : Strategy d)
      → (if nat_key.beq (hashes.of_cycle cycle) id
          then Dict.lookup id m.trades_state
          else Dict.lookup id (add_arbitrage_cycle d hashes unset cycle m).trades_state)
        ≡ Dict.lookup id m.trades_state
  lookup-others unset id cycle m = elim (Bool-cases (nat_key.beq (hashes.of_cycle cycle) id)) [
    | inl t ↦ rw t refl
    | inr n ↦ rw n (lookup-add unset id cycle m n)
  ]

  contains-add :
      (unset : ℕ) (cycle : List Step) (m : Strategy d)
      → Dict.contains
          (hashes.of_cycle cycle)
          (add_arbitrage_cycle d hashes unset cycle m).trades_state
        ≡ true
  unfolding add_arbitrage_cycle
  contains-add unset cycle m =
      let id = hashes.of_cycle cycle in
      elim (Bool-cases (Dict.contains id m.trades_state)) [
        | inl t ↦ rw t t
        | inr n ↦ rw n (contains-insert id _ m.trades_state)
      ]

  add-known :
      (unset : ℕ) (cycle : List Step) (m : Strategy d)
      → all_found cycle cycle m.trade_dictionary ≡ true
      → Dict.contains (hashes.of_cycle cycle) m.trades_state ≡ true
      → add_arbitrage_cycle d hashes unset cycle m ≡ m
  unfolding add_arbitrage_cycle
  add-known unset cycle m f t = rw (t, add_steps-again cycle cycle m.trade_dictionary f) refl

  -- AddArbitrageCycle, from any state: afterwards the key of each step of the cycle leads to the
  -- cycle, the cycle has a trade, every other trade is as it was, and adding the cycle once more
  -- changes nothing.
  pub add_arbitrage_cycle_lem :
      (unset id : ℕ) (cycle : List Step) (m : Strategy d)
      → let m' = add_arbitrage_cycle d hashes unset cycle m in
        (all_found cycle cycle m'.trade_dictionary ≡ true)
        × (Dict.contains (hashes.of_cycle cycle) m'.trades_state ≡ true)
        × ((if nat_key.beq (hashes.of_cycle cycle) id
              then Dict.lookup id m.trades_state
              else Dict.lookup id m'.trades_state)
            ≡ Dict.lookup id m.trades_state)
        × (add_arbitrage_cycle d hashes unset cycle m' ≡ m')
  add_arbitrage_cycle_lem unset id cycle m =
      let m' = add_arbitrage_cycle d hashes unset cycle m in
      let found : all_found cycle cycle m'.trade_dictionary ≡ true =
        rw (dictionary-add unset cycle m) (add_steps-found cycle cycle m.trade_dictionary) in
      let there = contains-add unset cycle m in
      (found, there, lookup-others unset id cycle m, add-known unset cycle m' found there)
