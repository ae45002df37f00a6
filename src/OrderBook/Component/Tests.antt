-- ===== src/OrderBook/Component/Tests.antt =====
-- The component with books on concrete containers.
use cryptobot.Common.{false, ℕ, ◌≡◌, refl, true, some, List, [], ◌∷◌, length, arith}
use cryptobot.Common.Dict
use cryptobot.Types.{ExchangeId, MarketType, Side, TradingPair}
use cryptobot.OrderBook.Tests.{lists, levels}
use cryptobot.OrderBook.Containers.{place}
use cryptobot.OrderBook.Half.{MarketOrder, Half, new_half, add_order, depth}
use cryptobot.OrderBook.Half.Invariant.{Inv, new_half-Inv, add_order-Inv}
use cryptobot.OrderBook.Book2.{bid_before, on_diff, new_book}
use cryptobot.OrderBook.Book2.Loops.{bid-IsReach}
use cryptobot.OrderBook.Component.Defs.{
  Component, book_diff, book_of, add_order_book, get_price_and_qty_at_level_bid,
  get_price_and_qty_at_level_ask, at_level,
}
use cryptobot.OrderBook.Component.Levels
use cryptobot.OrderBook.Component.Sound
use cryptobot.OrderBook.Component.Sound.{Call, call_add, call_handle, run_calls, empty_component}

abbrev pair : TradingPair
pair = record { first = 1; second = 2 }

abbrev calls : List Call
calls =
    call_add ExchangeId.k_binance pair
    ∷ call_handle (book_diff ExchangeId.k_binance pair levels)
    ∷ []

abbrev with_book : Component lists
with_book = add_order_book lists ExchangeId.k_binance pair (empty_component lists MarketType.k_spot)

level_0-eq-bbo_example :
    let m = run_calls lists calls (empty_component lists MarketType.k_spot) in
    let b = (on_diff lists levels (new_book lists)).0 in
    (get_price_and_qty_at_level_bid lists ExchangeId.k_binance pair 0 m
      ≡ (b.bbo.bid_price, b.bbo.bid_qty))
    × (get_price_and_qty_at_level_ask lists ExchangeId.k_binance pair 0 m
        ≡ (b.bbo.ask_price, b.bbo.ask_qty))
unfolding book_of Dict.lookup run_calls Sound.run_call add_order_book Dict.insert
level_0-eq-bbo_example =
    Sound.level_0-eq-bbo lists MarketType.k_spot calls ExchangeId.k_binance pair
      (on_diff lists levels (new_book lists)).0 refl refl

abbrev order : ℕ → MarketOrder
order price = record { order_id = 1; side = Side.k_bid; price = price; qty = 5 }

abbrev two : Half lists
two =
    add_order lists bid_before true (order 101)
      (add_order lists bid_before true (order 100) (new_half lists))

two-Inv : Inv lists bid_before two
two-Inv =
    add_order-Inv lists bid-IsReach.strict
      (add_order lists bid_before true (order 100) (new_half lists))
      (add_order-Inv lists bid-IsReach.strict (new_half lists)
        (new_half-Inv lists bid-IsReach.strict) (order 100))
      (order 101)

two_levels : length (lists.to_list two.tree) ≡ 2
unfolding add_order new_half place Dict.lookup Dict.insert
two_levels = refl

at_level_lem_example :
    (depth lists two (at_level lists two 1).0 ≡ some (at_level lists two 1).1)
    × (bid_before (at_level lists two 1).0 (at_level lists two 0).0 ≡ false)
at_level_lem_example =
    Levels.at_level_lem lists bid-IsReach.strict two two-Inv 1 0 (omega (arith, two_levels))
      (omega (arith, two_levels))
