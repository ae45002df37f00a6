-- ===== src/Wallet/Reserve.antt =====
-- Reserving, and what a response does to the reserve of its order.
use cryptobot.Common.{
  ℕ, ◌≡◌, true, ◌&&◌, none, some, arith, ◌==◌, if◌then◌else◌, nat_key, Bool-cases, Option-cases,
  inl, inr,
}
use cryptobot.Common.Dict
use cryptobot.Common.Dict.{Dict}
use cryptobot.Double.{Double}
use cryptobot.Wallet.Defs.{ReservedForTicker, Wallet, init_ticker, reserve}

module _ (d : Double) where
  open d use {D, of_ℕ, add, sub, geb}

  -- A ticker that was never seen counts as zero.
  abbrev pub balance : Wallet d → ℕ → D
  balance w t = elim (Dict.lookup t w.assets) [ none ↦ of_ℕ 0 | some x ↦ x ]

  init_ticker_lem :
      (t : ℕ) (w : Wallet d)
      → (Dict.lookup t (init_ticker d t w).assets ≡ some (balance w t))
        × ((j : ℕ) → balance (init_ticker d t w) j ≡ balance w j)
        × ((init_ticker d t w).reserves ≡ w.reserves)
  unfolding init_ticker
  init_ticker_lem t w = elim (Option-cases (Dict.lookup t w.assets)) [
    | inl e ↦ (
      ground (arith, Dict.lookup-insert t t (of_ℕ 0) w.assets),
      λ j. ground (arith, Dict.lookup-insert t j (of_ℕ 0) w.assets),
      ground arith,
    )
    | inr (x, e) ↦ (ground arith, λ j. ground arith, ground arith)
  ]

  module _ (order_id ticker qty : ℕ) (w : Wallet d) where
    abbrev entry : ReservedForTicker
    entry = record { reserved_ticker = ticker; reserved_qty = qty }

    -- A reservation succeeds exactly when the balance covers it. It then takes the quantity from
    -- its ticker and is recorded under its order; otherwise all balances and reserves stay.
    pub reserve_lem :
        let (done, w') = reserve d order_id ticker qty w in
        (done ≡ geb (balance w ticker) (of_ℕ qty))
        × ((j : ℕ)
            → balance w' j
              ≡ (if done && ticker == j then sub (balance w j) (of_ℕ qty) else balance w j))
        × ((o : ℕ)
            → Dict.lookup o w'.reserves
              ≡ (if done && order_id == o then some entry else Dict.lookup o w.reserves))
    unfolding reserve
    reserve_lem = elim (Bool-cases (geb (balance w ticker) (of_ℕ qty))) [
      | inl e ↦ (
        ground (arith, init.0),
        λ j. ground (
          arith,
          init.0,
          init.1 j,
          Dict.lookup-insert ticker j (sub (balance w ticker) (of_ℕ qty))
              (init_ticker d ticker w).assets,
        ),
        λ o. ground (arith, init.0, init.2, Dict.lookup-insert order_id o entry w.reserves),
      )
      | inr e ↦ (
        ground (arith, init.0),
        λ j. ground (arith, init.0, init.1 j),
        λ o. ground (arith, init.0, init.2),
      )
    ]
      where
        init :
            (Dict.lookup ticker (init_ticker d ticker w).assets ≡ some (balance w ticker))
            × ((j : ℕ) → balance (init_ticker d ticker w) j ≡ balance w j)
            × ((init_ticker d ticker w).reserves ≡ w.reserves)
        init = init_ticker_lem ticker w

    -- After a successful reservation the ticker has an entry.
    pub reserve_stores :
        geb (balance w ticker) (of_ℕ qty) ≡ true
        → Dict.lookup ticker (reserve d order_id ticker qty w).1.assets
          ≡ some (sub (balance w ticker) (of_ℕ qty))
    unfolding reserve
    reserve_stores e = ground (
      arith,
      (init_ticker_lem ticker w).0,
      Dict.lookup-insert ticker ticker (sub (balance w ticker) (of_ℕ qty))
          (init_ticker d ticker w).assets,
    )
