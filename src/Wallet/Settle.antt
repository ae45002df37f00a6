-- ===== src/Wallet/Settle.antt =====
-- What a response from the exchange does to the reserve of its order, and to the others.
use cryptobot.Common.{ℕ, ◌≡◌, ◌≢◌, true, Option, none, some, arith, ◌==◌, if◌then◌else◌, nat_key}
use cryptobot.Common.Dict
use cryptobot.Common.Dict.{Dict}
use cryptobot.Types.{k_ticker_id_invalid}
use cryptobot.Double.{Double}
use cryptobot.Response.{Response, ClientResponseType}
use cryptobot.Wallet.Defs.{
  ok, raise, after, ReservedForTicker, no_reserve, Wallet, init_ticker, credit, reserve, update,
}
use cryptobot.Wallet.Reserve.{balance, reserve_lem, reserve_stores}

module _ (d : Double) where
  open d use {D, of_ℕ, add, sub, geb}

  abbrev reserved : ℕ → Wallet d → Option ReservedForTicker
  reserved o w = Dict.lookup o w.reserves

  init_ticker-reserves : (t : ℕ) (w : Wallet d) → (init_ticker d t w).reserves ≡ w.reserves
  unfolding init_ticker
  init_ticker-reserves t w = ground arith

  credit-reserves : (t q : ℕ) (w : Wallet d) → (after (credit d t q w)).reserves ≡ w.reserves
  unfolding credit
  credit-reserves t q w = ground arith

  -- A response touches the reserve of no other order, also when it throws.
  update_others :
      (r : Response) (w : Wallet d) (o : ℕ)
      → o ≢ r.order_id
      → reserved o (after (update d r w)) ≡ reserved o w
  unfolding update credit
  update_others r w o h = ground (
    arith,
    Dict.lookup-erase r.order_id o w.reserves,
    Dict.lookup-insert r.order_id o no_reserve w.reserves,
    Dict.lookup-erase r.order_id o (Dict.insert r.order_id no_reserve w.reserves),
    init_ticker-reserves r.trading_pair.first
        (record w { reserves = Dict.erase r.order_id w.reserves }),
    init_ticker-reserves r.trading_pair.second
        (record w { reserves = Dict.erase r.order_id w.reserves }),
  )

  -- A response that is handled without an exception leaves no reserve for its order.
  update-settles :
      (r : Response) (w : Wallet d) {w' : Wallet d}
      → update d r w ≡ ok w'
      → reserved r.order_id w' ≡ none
  unfolding update credit
  update-settles r w e = ground (
    arith,
    Dict.lookup-erase r.order_id r.order_id w.reserves,
    Dict.lookup-erase r.order_id r.order_id (Dict.insert r.order_id no_reserve w.reserves),
    init_ticker-reserves r.trading_pair.first
        (record w { reserves = Dict.erase r.order_id w.reserves }),
    init_ticker-reserves r.trading_pair.second
        (record w { reserves = Dict.erase r.order_id w.reserves }),
  )

  -- CANCELED and INVALID give a known reserve back to its ticker; the other balances stay.
  canceled_returns :
      (r : Response) (w : Wallet d) (s : ReservedForTicker) (x : D)
      → r.type ≡ ClientResponseType.canceled
      → reserved r.order_id w ≡ some s
      → Dict.lookup s.reserved_ticker w.assets ≡ some x
      → (w' : Wallet d) × (update d r w ≡ ok w')
        × ((j : ℕ)
            → balance d w' j
              ≡ (if s.reserved_ticker == j then add x (of_ℕ s.reserved_qty) else balance d w j))
  unfolding update credit
  canceled_returns r w s x t e f = (
    record {
      assets = Dict.insert s.reserved_ticker (add x (of_ℕ s.reserved_qty)) w.assets;
      reserves = Dict.erase r.order_id w.reserves;
    },
    ground arith,
    λ j.
        ground
          (arith, Dict.lookup-insert s.reserved_ticker j (add x (of_ℕ s.reserved_qty)) w.assets),
  )

  -- Reserving and then canceling gives every balance back, where the balance covers the quantity
  -- and taking it and giving it back is exact on these two values.
  pub reserve-canceled :
      (order_id ticker qty : ℕ) (w : Wallet d) (r : Response)
      → geb (balance d w ticker) (of_ℕ qty) ≡ true
      → add (sub (balance d w ticker) (of_ℕ qty)) (of_ℕ qty) ≡ balance d w ticker
      → r.type ≡ ClientResponseType.canceled
      → r.order_id ≡ order_id
      → (w' : Wallet d) × (update d r (reserve d order_id ticker qty w).1 ≡ ok w')
        × ((j : ℕ) → balance d w' j ≡ balance d w j)
  reserve-canceled order_id ticker qty w r covered exact t same =
      let w₁ = (reserve d order_id ticker qty w).1 in
      let spec = reserve_lem d order_id ticker qty w in
      let s : ReservedForTicker = record { reserved_ticker = ticker; reserved_qty = qty } in
      let held : reserved r.order_id w₁ ≡ some s = ground (arith, spec.0, spec.2 r.order_id) in
      let x = sub (balance d w ticker) (of_ℕ qty) in
      let stored : Dict.lookup ticker w₁.assets ≡ some x =
        reserve_stores d order_id ticker qty w covered in
      let (w', e, b) = canceled_returns r w₁ s x t held stored in
      (w', e, λ j. ground (arith, b j, spec.0, spec.1 j))

  -- With no asset under the reserved ticker id, CANCELED for an order with no reserve throws, and
  -- leaves an entry of reserved values behind; INVALID for such an order changes nothing.
  pub update-unknown_order :
      (r : Response) (w : Wallet d)
      → reserved r.order_id w ≡ none
      → Dict.lookup k_ticker_id_invalid w.assets ≡ none
      → let left = record w { reserves = Dict.insert r.order_id no_reserve w.reserves } in
        (update d (record r { type = ClientResponseType.canceled }) w ≡ raise left)
        × (reserved r.order_id left ≡ some no_reserve)
        × (update d (record r { type = ClientResponseType.invalid }) w ≡ ok w)
  unfolding update credit
  update-unknown_order r w e f = (
    ground arith,
    ground (arith, Dict.lookup-insert r.order_id r.order_id no_reserve w.reserves),
    ground arith,
  )
