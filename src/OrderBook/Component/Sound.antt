-- ===== src/OrderBook/Component/Sound.antt =====
-- The books after any sequence of events.
use cryptobot.Common.{
  ℕ, Bool, true, false, ◌&&◌, some, List, [], ◌∷◌, ◌≡◌, arith, Bool-cases, Option-cases, inl, inr,
  subst, sym, ap, ◌∙◌,
}
use cryptobot.Common.Dict
use cryptobot.Types.{ExchangeId, MarketType, Side, TradingPair, exchange_key}
use cryptobot.OrderBook.Containers.{Containers}
use cryptobot.OrderBook.Half.{top, new_half}
use cryptobot.OrderBook.Half.Invariant.{new_half-Inv}
use cryptobot.OrderBook.Book2.{
  Book, Bbo, MarketUpdateType, new_book, on_market_update, on_snapshot, on_diff,
}
use cryptobot.OrderBook.Book2.Loops.{any_qty, bid-IsReach, ask-IsReach}
use cryptobot.OrderBook.Book2.Fresh.{IsWell, IsFresh, on_diff-IsFresh}
use cryptobot.OrderBook.Book2.Snapshot.{on_snapshot-IsFresh}
use cryptobot.OrderBook.Book2.Update.{on_market_update-eq-on_diff, one_bid, one_ask}
use cryptobot.OrderBook.Component.Defs.{
  Books, Component, Event, response_new_snapshot, book_diff, market_update, not_wrapped, book_of,
  add_order_book, update_book, handle, get_price_and_qty_at_level_bid,
  get_price_and_qty_at_level_ask,
}
use cryptobot.OrderBook.Component.Levels.{at_level-top}
use cryptobot.OrderBook.Component.Routing.{
  here, update_book_lem, update_book-unknown, add_order_book_lem,
}

-- A call of the component.
pub data Call : Type 0 where
  call_add : ExchangeId → TradingPair → Call
  call_handle : Event → Call

abbrev is_level : MarketUpdateType → Side → Bool
is_level MarketUpdateType.k_default Side.k_bid = true
is_level MarketUpdateType.k_default Side.k_ask = true
is_level _ _ = false

-- An update of a price on one of the two sides, a diff, a snapshot with a quantity on each side, or an event that wraps nothing.
abbrev is_regular : Call → Bool
is_regular (call_add e p) = true
is_regular (call_handle (market_update e p u)) = is_level u.type u.side
is_regular (call_handle (response_new_snapshot e p l)) = any_qty l.bids && any_qty l.asks
is_regular (call_handle (book_diff e p l)) = true
is_regular (call_handle not_wrapped) = true

module _ (c : Containers) where
  unfoldable pub run_call : Call → Component c → Component c
  unfolding handle
  run_call (call_add e p) m = add_order_book c e p m
  run_call (call_handle event) m = (handle c event m).0

  unfoldable pub run_calls : List Call → Component c → Component c
  run_calls [] m = m
  run_calls (x ∷ xs) m = run_calls xs (run_call x m)

  abbrev all_regular : List Call → Bool
  all_regular [] = true
  all_regular (x ∷ xs) = is_regular x && all_regular xs

  -- Every book is well formed and shows its first nodes as BBO.
  unfoldable IsSound : Component c → Type 0
  IsSound m =
      (e : ExchangeId) (p : TradingPair) (b : Book c)
      → book_of c e p m ≡ some b
      → IsWell c b × IsFresh c b

  new_book-IsSound : IsWell c (new_book c) × IsFresh c (new_book c)
  unfolding new_book top new_half
  new_book-IsSound = (
    record { bids = new_half-Inv c bid-IsReach.strict; asks = new_half-Inv c ask-IsReach.strict },
    record { bid = ground (arith, c.to_list-no_nodes); ask = ground (arith, c.to_list-no_nodes) },
  )

  update-IsSound :
      (type : MarketUpdateType) (side : Side) (price qty : ℕ) (b : Book c)
      → is_level type side ≡ true
      → IsWell c b × IsFresh c b
      → let r =
          on_market_update c (record { type = type; side = side; price = price; qty = qty }) b in
        IsWell c r.0 × IsFresh c r.0
  update-IsSound MarketUpdateType.k_default Side.k_bid price qty b l (w, f) =
      rw ((on_market_update-eq-on_diff c b price qty).0)
        (on_diff-IsFresh c (one_bid price qty) b w f)
  update-IsSound MarketUpdateType.k_default Side.k_ask price qty b l (w, f) =
      rw ((on_market_update-eq-on_diff c b price qty).1)
        (on_diff-IsFresh c (one_ask price qty) b w f)
  update-IsSound MarketUpdateType.k_default Side.k_invalid price qty b l s = cc
  update-IsSound MarketUpdateType.k_default Side.k_max price qty b l s = cc
  update-IsSound MarketUpdateType.clear side price qty b l s = cc

  -- An OnMarketUpdate that keeps one book sound keeps all books sound.
  update_book-IsSound :
      (e : ExchangeId) (p : TradingPair) (on_update : Book c → Book c × List Bbo) (m : Component c)
      → ((b : Book c)
          → IsWell c b × IsFresh c b
          → IsWell c (on_update b).0 × IsFresh c (on_update b).0)
      → IsSound m
      → IsSound (update_book c e p on_update m).0
  unfolding IsSound
  update_book-IsSound e p on_update m keeps s f q b' h = elim (Option-cases (book_of c e p m)) [
    | inl n ↦
        s f q b' (ap (λ r. book_of c f q r.0) (sym (update_book-unknown c e p on_update m n)) ∙ h)
    | inr (b, k) ↦
        let known = (update_book_lem c e f p q on_update m b k).0 in
        elim (Bool-cases (here c e f p q)) [
          | inl t ↦
              let same : (on_update b).0 ≡ b' = ground arith in
              subst (λ x. IsWell c x × IsFresh c x) same (keeps b (s e p b k))
          | inr t ↦ s f q b' (ground arith)
        ]
  ]

  add-IsSound :
      (e : ExchangeId) (p : TradingPair) (m : Component c)
      → IsSound m
      → IsSound (add_order_book c e p m)
  unfolding IsSound
  add-IsSound e p m s f q b h = elim (Option-cases (book_of c f q m)) [
    | inl n ↦
        let fresh : new_book c ≡ b = ground (arith, add_order_book_lem c e f p q m) in
        subst (λ x. IsWell c x × IsFresh c x) fresh new_book-IsSound
    | inr (b', k) ↦
        let same : b' ≡ b = ground (arith, add_order_book_lem c e f p q m) in
        subst (λ x. IsWell c x × IsFresh c x) same (s f q b' k)
  ]

  run_call-IsSound :
      (x : Call) (m : Component c) → is_regular x ≡ true → IsSound m → IsSound (run_call x m)
  unfolding run_call handle
  run_call-IsSound (call_add e p) m r s = add-IsSound e p m s
  run_call-IsSound (call_handle (market_update e p u)) m r s =
      update_book-IsSound e p (on_market_update c u) m
        (λ b k. update-IsSound u.type u.side u.price u.qty b r k) s
  run_call-IsSound (call_handle (response_new_snapshot e p l)) m r s =
      let full : (any_qty l.bids ≡ true) × (any_qty l.asks ≡ true) = ground arith in
      update_book-IsSound e p (on_snapshot c l) m (λ b k. on_snapshot-IsFresh c l b full.0 full.1) s
  run_call-IsSound (call_handle (book_diff e p l)) m r s =
      update_book-IsSound e p (on_diff c l) m (λ b k. on_diff-IsFresh c l b k.0 k.1) s
  run_call-IsSound (call_handle not_wrapped) m r s = s

  run_calls-IsSound :
      (xs : List Call) (m : Component c)
      → all_regular xs ≡ true
      → IsSound m
      → IsSound (run_calls xs m)
  unfolding run_calls
  run_calls-IsSound [] m r s = s
  run_calls-IsSound (x ∷ xs) m r s =
      let both : (is_regular x ≡ true) × (all_regular xs ≡ true) = ground arith in
      run_calls-IsSound xs (run_call x m) both.1 (run_call-IsSound x m both.0 s)

  abbrev pub empty_component : MarketType → Component c
  empty_component type = record { market_type = type; order_books = [] }

  empty-IsSound : (type : MarketType) → IsSound (empty_component type)
  unfolding IsSound book_of
  empty-IsSound type e p b h = ground (arith, Dict.lookup-nil {V = Books c} e)

  -- From no books, after any sequence of added books, price updates of a side, diffs, and snapshots
  -- with a quantity on each side: the BBO of each book is what the queries show at level 0 of its
  -- two sides.
  pub level_0-eq-bbo :
      (type : MarketType) (xs : List Call) (e : ExchangeId) (p : TradingPair) (b : Book c)
      → all_regular xs ≡ true
      → book_of c e p (run_calls xs (empty_component type)) ≡ some b
      → let m = run_calls xs (empty_component type) in
        (get_price_and_qty_at_level_bid c e p 0 m ≡ (b.bbo.bid_price, b.bbo.bid_qty))
        × (get_price_and_qty_at_level_ask c e p 0 m ≡ (b.bbo.ask_price, b.bbo.ask_qty))
  unfolding get_price_and_qty_at_level_bid get_price_and_qty_at_level_ask IsSound
  level_0-eq-bbo type xs e p b r h =
      let m = run_calls xs (empty_component type) in
      let (w, f) = run_calls-IsSound xs (empty_component type) r (empty-IsSound type) e p b h in
      (
        ground (arith, h, at_level-top c bid-IsReach.strict b.bids w.bids, f.bid),
        ground (arith, h, at_level-top c ask-IsReach.strict b.asks w.asks, f.ask),
      )
