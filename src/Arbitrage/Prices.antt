-- ===== src/Arbitrage/Prices.antt =====
-- BBOs that are not crossed, and the prices that a cycle reads from them.
use cryptobot.Common.{
  ℕ, ◌≡◌, refl, ◌∙◌, true, none, some, Option-cases, [], ◌≤◌, ◌<◌, ◌⊎◌, inl, inr, arith, nat_key,
  if◌then◌else◌, Bool-cases,
}
use cryptobot.Common.Dict
use cryptobot.Common.Dict.{Dict, lookup-insert}
use cryptobot.Types.{k_price_invalid}
use cryptobot.Double.{Double}
use cryptobot.OrderBook.Book2.{Bbo}
use cryptobot.TradingPairs.{ExchangeTradingPairs}
use cryptobot.Pnl.{TradingPairInfo, TransactionReport, Transactions, Operation}
use cryptobot.Arbitrage.Data.{Step, Readings, Legs, is_complete, Hashes, TradeState}
use cryptobot.Arbitrage.Trades.{modify, enter, entry_price_of, open_trade, profit_percent}
use cryptobot.Arbitrage.Defs.{read_step, close_trade}

-- A bid that is there is not above the ask, and an ask is not 0.
abbrev pub IsUncrossed : Bbo → Type 0
IsUncrossed b = (0 < b.ask_price) × ((b.bid_price ≡ k_price_invalid) ⊎ (b.bid_price ≤ b.ask_price))

-- The prices in a reading are those of BBOs that are not crossed.
abbrev pub IsFair : Legs → Type 0
IsFair l =
    (0 < l.open_buy_price)
    × ((l.exit_buy_price ≡ k_price_invalid) ⊎ (l.exit_buy_price ≤ l.open_buy_price))
    × ((l.open_sell_price ≡ k_price_invalid) ⊎ (l.open_sell_price ≤ l.exit_sell_price))

-- The signs of differences, sums, quotients and products of doubles that are not above 0.
pub record IsSigned (d : Double) : Type 0 where
  pub sub_sign : (a b : ℕ) → a ≤ b → d.geb (d.of_ℕ 0) (d.sub (d.of_ℕ a) (d.of_ℕ b)) ≡ true
  pub add_sign :
      (a b : d.D)
      → d.geb (d.of_ℕ 0) a ≡ true
      → d.geb (d.of_ℕ 0) b ≡ true
      → d.geb (d.of_ℕ 0) (d.add a b) ≡ true
  pub div_sign :
      (a : d.D) (n : ℕ)
      → 0 < n
      → d.geb (d.of_ℕ 0) a ≡ true
      → d.geb (d.of_ℕ 0) (d.div a (d.of_ℕ n)) ≡ true
  pub mul_sign :
      (a : d.D) (n : ℕ)
      → 0 < n
      → d.geb (d.of_ℕ 0) a ≡ true
      → d.geb (d.of_ℕ 0) (d.mul a (d.of_ℕ n)) ≡ true

module _ (d : Double) (signed : IsSigned d) where
  pub profit_lem :
      (l : Legs) (buy_entry sell_entry : ℕ)
      → 0 < buy_entry
      → l.exit_buy_price ≤ buy_entry
      → sell_entry ≤ l.exit_sell_price
      → d.geb (d.of_ℕ 0) (profit_percent d l buy_entry sell_entry) ≡ true
  unfolding profit_percent
  profit_lem l buy_entry sell_entry p b s = signed.mul_sign _ 100 (omega arith) (
      signed.div_sign _ buy_entry p
        (signed.add_sign _ _ (signed.sub_sign _ _ b) (signed.sub_sign _ _ s)))

  lookup-modify :
      (t j : ℕ) (f : TransactionReport d → TransactionReport d) (ts : Transactions d)
      → Dict.lookup j (modify d t f ts) ≡ (
          if nat_key.beq t j
          then elim (Dict.lookup j ts) [ none ↦ none | some x ↦ some (f x) ]
          else Dict.lookup j ts)
  unfolding modify
  lookup-modify t j f ts = elim (Option-cases (Dict.lookup t ts)) [
    | inl e ↦ ground (arith, e, nat_key.beq_iff t j)
    | inr (x, e) ↦ ground (arith, e, nat_key.beq_iff t j, lookup-insert t j (f x) ts)
  ]

  contains-modify :
      (t j : ℕ) (f : TransactionReport d → TransactionReport d) (ts : Transactions d)
      → Dict.contains j (modify d t f ts) ≡ Dict.contains j ts
  contains-modify t j f ts = ground (arith, lookup-modify t j f ts)

  entry-enter :
      (t j price qty time : ℕ) (ts : Transactions d)
      → Dict.contains j ts ≡ true
      → entry_price_of d j (modify d t (enter d price qty time) ts)
        ≡ (if nat_key.beq t j then price else entry_price_of d j ts)
  unfolding entry_price_of
  entry-enter t j price qty time ts h =
      ground (arith, lookup-modify t j (enter d price qty time) ts)

  abbrev pub entries : ℕ → Legs → Readings → TradeState d → ℕ
  entries t l now s = entry_price_of d t (open_trade d l now s).transaction_states

  pub entry-open :
      (l : Legs) (now : Readings) (s : TradeState d)
      → Dict.contains l.transaction_buy s.transaction_states ≡ true
      → Dict.contains l.transaction_sell s.transaction_states ≡ true
      → (entries l.transaction_sell l now s ≡ l.open_sell_price)
        × ((entries l.transaction_buy l now s ≡ l.open_buy_price)
            ⊎ (entries l.transaction_buy l now s ≡ l.open_sell_price))
  unfolding open_trade
  entry-open l now s hb hs =
      let first = enter d l.open_buy_price l.open_buy_qty now.buy_entry in
      let ts = modify d l.transaction_buy first s.transaction_states in
      let in_ts = contains-modify l.transaction_buy l.transaction_sell first s.transaction_states in
      let in_ts' = contains-modify l.transaction_buy l.transaction_buy first s.transaction_states in
      let sell =
        entry-enter l.transaction_sell l.transaction_sell l.open_sell_price l.open_sell_qty
          now.sell_entry ts (in_ts ∙ hs) in
      let buy =
        entry-enter l.transaction_sell l.transaction_buy l.open_sell_price l.open_sell_qty
          now.sell_entry ts (in_ts' ∙ hb) in
      let bought =
        entry-enter l.transaction_buy l.transaction_buy l.open_buy_price l.open_buy_qty
          now.buy_entry s.transaction_states hb in
      (
        ground (arith, sell, nat_key.beq_iff l.transaction_sell l.transaction_sell),
        elim (Bool-cases (nat_key.beq l.transaction_sell l.transaction_buy)) [
          | inl e ↦ inr (ground (arith, buy, e))
          | inr n ↦
              inl (
                ground (arith, buy, n, bought, nat_key.beq_iff l.transaction_buy l.transaction_buy))
        ],
      )

  pub closed-quiet :
      (uid : ℕ) (l : Legs) (now : Readings) (s : TradeState d) (hashes : Hashes) (pow10 : ℕ → d.D)
      (table : ExchangeTradingPairs TradingPairInfo)
      → d.geb (d.of_ℕ 0) (
          profit_percent d l
            (entry_price_of d l.transaction_buy s.transaction_states)
            (entry_price_of d l.transaction_sell s.transaction_states))
        ≡ true
      → (close_trade d hashes pow10 table uid l now s).1 ≡ []
  unfolding close_trade
  closed-quiet uid l now s hashes pow10 table h = ground (arith, h)

pub complete-prices :
    (l : Legs)
    → IsFair l
    → is_complete l ≡ true
    → (l.exit_buy_price ≤ l.open_buy_price) × (l.open_sell_price ≤ l.exit_sell_price)
complete-prices l (p, b, s) h = ground (arith, b, s, h)

operation_cases : (o : Operation) → (o ≡ Operation.k_buy) ⊎ (o ≡ Operation.k_sell)
operation_cases Operation.k_buy = inl refl
operation_cases Operation.k_sell = inr refl

pub read_step-IsFair :
    (d : Double) (hashes : Hashes) (s : Step) (b : Bbo) (l : Legs)
    → IsUncrossed b
    → IsFair l
    → IsFair (read_step d hashes s b l)
unfolding read_step
read_step-IsFair d hashes s b l h fair = elim (operation_cases s.operation) [
  | inl e ↦ rw e (h.0, h.1, fair.2)
  | inr e ↦ rw e (fair.0, fair.1, h.1)
]
