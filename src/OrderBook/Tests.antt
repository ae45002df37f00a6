-- ===== src/OrderBook/Tests.antt =====
-- Containers that run, and the theorems on books at concrete levels.
use cryptobot.Common.{ℕ, ◌≡◌, refl, ◌∙◌, ◌≤◌, none, some, List, [], ◌∷◌, nat_key}
use cryptobot.Common.Dict
use cryptobot.Common.Dict.{Dict}
use cryptobot.Types.{Side}
use cryptobot.OrderBook.Containers.{Containers, Entry, place, discard}
use cryptobot.OrderBook.Half.{new_half, top, depth}
use cryptobot.OrderBook.Half.Invariant.{new_half-Inv}
use cryptobot.OrderBook.Book2.{
  Book, Levels, BookSnapshotElem, new_book, on_market_update, on_snapshot, on_diff,
}
use cryptobot.OrderBook.Book2.Loops.{bid-IsReach, ask-IsReach, put_levels}
use cryptobot.OrderBook.Book2.Fresh
use cryptobot.OrderBook.Book2.Fresh.{IsWell, IsFresh}
use cryptobot.OrderBook.Book2.Snapshot
use cryptobot.OrderBook.Book2.Update

abbrev second_parts : Dict ℕ ℕ → List ℕ
second_parts [] = []
second_parts ((p, a) ∷ m) = a ∷ second_parts m

abbrev pub lists : Containers
lists = record {
  Tree = List Entry;
  to_list = λ t. t;
  no_nodes = [];
  insert_equal = place;
  erase_equal = discard;
  to_list-no_nodes = refl;
  to_list-insert_equal = λ before e t s. refl;
  to_list-erase_equal = λ p t. refl;
  Index = Dict ℕ ℕ;
  at = λ i p. Dict.lookup p i;
  addresses = second_parts;
  no_entries = [];
  emplace_unique = λ p a i. Dict.insert p a i;
  erase_key = λ p i. Dict.erase p i;
  at-no_entries = λ q. Dict.lookup-nil q;
  at-emplace_unique = λ p a i q e. Dict.lookup-insert p q a i;
  at-erase_key = λ p i q. Dict.lookup-erase p q i;
}

abbrev elem : ℕ → ℕ → BookSnapshotElem
elem p q = record { price = p; qty = q }

abbrev pub levels : Levels
levels = record { bids = elem 100 5 ∷ elem 101 7 ∷ []; asks = elem 103 2 ∷ [] }

abbrev no_bids : Levels
no_bids = record { bids = elem 100 0 ∷ []; asks = elem 103 2 ∷ [] }

abbrev pub start : Book lists
start = new_book lists

start-IsWell : IsWell lists start
unfolding new_book
start-IsWell = record {
  bids = new_half-Inv lists bid-IsReach.strict;
  asks = new_half-Inv lists ask-IsReach.strict;
}

start-IsFresh : IsFresh lists start
unfolding new_book top new_half
start-IsFresh = record { bid = refl; ask = refl }

on_diff-IsFresh_example :
    IsWell lists (on_diff lists levels start).0 × IsFresh lists (on_diff lists levels start).0
on_diff-IsFresh_example = Fresh.on_diff-IsFresh lists levels start start-IsWell start-IsFresh

depth-on_diff_example :
    (depth lists (on_diff lists levels start).0.bids 101
      ≡ put_levels levels.bids (depth lists start.bids) 101)
    × (depth lists (on_diff lists levels start).0.asks 101
        ≡ put_levels levels.asks (depth lists start.asks) 101)
depth-on_diff_example = Fresh.depth-on_diff lists levels start start-IsWell 101

held_bid : depth lists (on_diff lists levels start).0.bids 100 ≡ some 5
held_bid = (Fresh.depth-on_diff lists levels start start-IsWell 100).0 ∙ refl

held_ask : depth lists (on_diff lists levels start).0.asks 103 ≡ some 2
held_ask = (Fresh.depth-on_diff lists levels start start-IsWell 103).1 ∙ refl

on_diff-best_bid_example :
    let b' = (on_diff lists levels start).0 in
    (depth lists b'.bids b'.bbo.bid_price ≡ some b'.bbo.bid_qty) × (100 ≤ b'.bbo.bid_price)
on_diff-best_bid_example =
    Fresh.on_diff-best_bid lists levels start start-IsWell 100 5 start-IsFresh held_bid

depth-on_snapshot_example :
    let b' = (on_snapshot lists levels start).0 in
    (depth lists b'.bids 100 ≡ put_levels levels.bids (λ _. none) 100)
    × (depth lists b'.asks 100 ≡ put_levels levels.asks (λ _. none) 100)
depth-on_snapshot_example = Snapshot.depth-on_snapshot lists levels start 100

on_market_update-eq-on_diff_example :
    (on_market_update lists (Update.update_of Side.k_bid 100 5) start
      ≡ on_diff lists (Update.one_bid 100 5) start)
    × (on_market_update lists (Update.update_of Side.k_ask 100 5) start
        ≡ on_diff lists (Update.one_ask 100 5) start)
on_market_update-eq-on_diff_example = Update.on_market_update-eq-on_diff lists start 100 5
