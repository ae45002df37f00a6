-- ===== src/OrderBook/Book2/Loops.antt =====
-- The loops over the levels of a snapshot or a diff: what they keep, and the map that they compute.
use cryptobot.Common.{
  ℕ, ◌≡◌, refl, ◌∙◌, ap, inl, inr, Bool, true, false, ◌||◌, ◌&&◌, Option, none, some, List, [], ◌∷◌,
  arith, ltb, ◌==◌, if◌then◌else◌, Bool-cases,
}
use cryptobot.Types.{Side}
use cryptobot.OrderBook.Containers.{Containers, IsStrict, find}
use cryptobot.OrderBook.Half.{
  Half, MarketOrder, top, reaches_top, depth, add_order as add_to,
  remove_orders_at_price as remove_from,
}
use cryptobot.OrderBook.Half.Invariant.{Inv, add_order-Inv, remove-Inv, remove-missing}
use cryptobot.OrderBook.Half.Depth.{depth-add_order, depth-remove}
use cryptobot.OrderBook.Half.Top.{IsReach, add_order-Keeps, remove-Keeps}
use cryptobot.OrderBook.Book2.Defs.{
  Book, BookSnapshotElem, order_of, bid_before, ask_before, bid_reaches, ask_reaches, apply_bid,
  apply_ask, apply_bids, apply_asks,
}

bid-IsStrict : IsStrict bid_before
bid-IsStrict = record {
  irrefl = λ a. ground arith;
  trans = λ a b c h k. ground arith;
  connex = λ a b h k. ground arith;
}

ask-IsStrict : IsStrict ask_before
ask-IsStrict = record {
  irrefl = λ a. ground arith;
  trans = λ a b c h k. ground arith;
  connex = λ a b h k. ground arith;
}

pub bid-IsReach : IsReach bid_before bid_reaches
bid-IsReach = record { strict = bid-IsStrict; misses = λ p q h. ground arith }

pub ask-IsReach : IsReach ask_before ask_reaches
ask-IsReach = record { strict = ask-IsStrict; misses = λ p q h. ground arith }

-- The specification of an update: the quantity of a price, or nothing for a quantity of zero.
abbrev pub put_level : BookSnapshotElem → (ℕ → Option ℕ) → ℕ → Option ℕ
put_level x m q = if x.price == q then (if ltb 0 x.qty then some x.qty else none) else m q

abbrev pub put_levels : List BookSnapshotElem → (ℕ → Option ℕ) → ℕ → Option ℕ
put_levels [] m = m
put_levels (x ∷ xs) m = put_levels xs (put_level x m)

pub put_levels-ext :
    (xs : List BookSnapshotElem) (m n : ℕ → Option ℕ)
    → ((q : ℕ) → m q ≡ n q)
    → (q : ℕ) → put_levels xs m q ≡ put_levels xs n q
put_levels-ext [] m n h q = h q
put_levels-ext (x ∷ xs) m n h q =
    put_levels-ext xs (put_level x m) (put_level x n) (λ r. ground (arith, h r)) q

-- A turn of either loop, on its half of the book.
module _ (c : Containers) (before reaches : ℕ → ℕ → Bool) (side : Side) (always : Bool) where
  turn : BookSnapshotElem → Half c × Bool → Half c × Bool
  turn x (h, will) = (
    if ltb 0 x.qty
        then add_to c before true (order_of side x.price x.qty) h
        else remove_from c true x.price h,
    will || (always || ltb 0 x.qty) && reaches_top c reaches h x.price,
  )

  pub turns : List BookSnapshotElem → Half c × Bool → Half c × Bool
  turns [] s = s
  turns (x ∷ xs) s = turns xs (turn x s)

apply_bid-turn :
    (c : Containers) (always : Bool) (x : BookSnapshotElem) (b : Book c) (will : Bool)
    → let (h, will') = turn c bid_before bid_reaches Side.k_bid always x (b.bids, will) in
      apply_bid c always x (b, will) ≡ (record b { bids = h }, will')
unfolding turn apply_bid
apply_bid-turn c always x b will = elim (Bool-cases (ltb 0 x.qty)) [ inl e ↦ rw e | inr e ↦ rw e ]

pub apply_bids-turns :
    (c : Containers) (always : Bool) (xs : List BookSnapshotElem) (b : Book c) (will : Bool)
    → let (h, will') = turns c bid_before bid_reaches Side.k_bid always xs (b.bids, will) in
      apply_bids c always xs (b, will) ≡ (record b { bids = h }, will')
unfolding turns apply_bids
apply_bids-turns c always [] b will = refl
apply_bids-turns c always (x ∷ xs) b will =
    let (h, will') = turn c bid_before bid_reaches Side.k_bid always x (b.bids, will) in
    ap (apply_bids c always xs) (apply_bid-turn c always x b will)
    ∙ apply_bids-turns c always xs (record b { bids = h }) will'

apply_ask-turn :
    (c : Containers) (always : Bool) (x : BookSnapshotElem) (b : Book c) (will : Bool)
    → let (h, will') = turn c ask_before ask_reaches Side.k_ask always x (b.asks, will) in
      apply_ask c always x (b, will) ≡ (record b { asks = h }, will')
unfolding turn apply_ask
apply_ask-turn c always x b will = elim (Bool-cases (ltb 0 x.qty)) [ inl e ↦ rw e | inr e ↦ rw e ]

pub apply_asks-turns :
    (c : Containers) (always : Bool) (xs : List BookSnapshotElem) (b : Book c) (will : Bool)
    → let (h, will') = turns c ask_before ask_reaches Side.k_ask always xs (b.asks, will) in
      apply_asks c always xs (b, will) ≡ (record b { asks = h }, will')
unfolding turns apply_asks
apply_asks-turns c always [] b will = refl
apply_asks-turns c always (x ∷ xs) b will =
    let (h, will') = turn c ask_before ask_reaches Side.k_ask always x (b.asks, will) in
    ap (apply_asks c always xs) (apply_ask-turn c always x b will)
    ∙ apply_asks-turns c always xs (record b { asks = h }) will'

or_true : (b : Bool) → (b || true) ≡ true
or_true b = ground arith

or_false : (b : Bool) → (b || false) ≡ b
or_false b = ground arith

-- What a loop keeps, from the half `h₀`: while the flag is down the top is as it was, and in a
-- snapshot, where a removal does not raise the flag, the half is still empty.
pub record Loop (c : Containers) (before : ℕ → ℕ → Bool) (always : Bool) (h₀ h : Half c)
    (will : Bool) : Type 0 where
  pub half : Inv c before h
  pub top_same : will ≡ false → top c h ≡ top c h₀
  pub still_empty : always ≡ false → will ≡ false → c.to_list h.tree ≡ []

module _ (c : Containers) {before reaches : ℕ → ℕ → Bool} (reach : IsReach before reaches)
    (side : Side) (always : Bool) where
  add-Loop :
      (o : MarketOrder) (h₀ h : Half c) (will : Bool)
      → Loop c before always h₀ h will
      → Loop c before always h₀ (add_to c before true o h) (will || reaches_top c reaches h o.price)
  unfolding reaches_top
  add-Loop o h₀ h will l = record {
    half = add_order-Inv c reach.strict h l.half o;
    top_same = λ w. add_order-Keeps c reach h l.half o (ground arith) ∙ l.top_same (ground arith);
    still_empty = λ a w. absurd (ground (arith, l.still_empty a));
  }

  -- A removal from an empty half does nothing.
  remove_empty :
      (p : ℕ) (h : Half c) → Inv c before h → c.to_list h.tree ≡ [] → remove_from c true p h ≡ h
  remove_empty p h v e = remove-missing c reach.strict h v p (v.indexed p ∙ ap (find p) e)

  remove-Loop :
      (p : ℕ) (h₀ h : Half c) (will : Bool)
      → Loop c before always h₀ h will
      → Loop c before always h₀
          (remove_from c true p h)
          (will || always && reaches_top c reaches h p)
  remove-Loop p h₀ h will l = record {
    half = remove-Inv c reach.strict h l.half p;
    top_same = λ w. elim (Bool-cases always) [
      | inl e ↦ remove-Keeps c reach h l.half p (ground arith) ∙ l.top_same (ground arith)
      | inr e ↦
          ap (top c) (remove_empty p h l.half (l.still_empty e (ground arith)))
          ∙ l.top_same (ground arith)
    ];
    still_empty = λ a w.
        let empty = l.still_empty a (ground arith) in rw (remove_empty p h l.half empty) empty;
  }

  turn-Loop :
      (x : BookSnapshotElem) (h₀ h : Half c) (will : Bool)
      → Loop c before always h₀ h will
      → let (h', will') = turn c before reaches side always x (h, will) in
        Loop c before always h₀ h' will'
  unfolding turn
  turn-Loop x h₀ h will l = elim (Bool-cases (ltb 0 x.qty)) [
    | inl adds ↦ rw (adds, or_true always) (add-Loop (order_of side x.price x.qty) h₀ h will l)
    | inr removes ↦ rw (removes, or_false always) (remove-Loop x.price h₀ h will l)
  ]

  turn-Inv :
      (x : BookSnapshotElem) (h : Half c) (will : Bool)
      → Inv c before h
      → Inv c before (turn c before reaches side always x (h, will)).0
  unfolding turn
  turn-Inv x h will v = elim (Bool-cases (ltb 0 x.qty)) [
    | inl adds ↦ rw adds (add_order-Inv c reach.strict h v _)
    | inr removes ↦ rw removes (remove-Inv c reach.strict h v x.price)
  ]

  turn-depth :
      (x : BookSnapshotElem) (h : Half c) (will : Bool) (q : ℕ)
      → Inv c before h
      → depth c (turn c before reaches side always x (h, will)).0 q ≡ put_level x (depth c h) q
  unfolding turn
  turn-depth x h will q v = elim (Bool-cases (ltb 0 x.qty)) [
    | inl adds ↦ rw adds (depth-add_order c reach.strict h v _ q)
    | inr removes ↦ rw removes (depth-remove c reach.strict h v x.price q)
  ]

  pub turns-Loop :
      (xs : List BookSnapshotElem) (h₀ h : Half c) (will : Bool)
      → Loop c before always h₀ h will
      → let (h', will') = turns c before reaches side always xs (h, will) in
        Loop c before always h₀ h' will'
  unfolding turns
  turns-Loop [] h₀ h will l = l
  turns-Loop (x ∷ xs) h₀ h will l = turns-Loop xs h₀ _ _ (turn-Loop x h₀ h will l)

  pub turns-depth :
      (xs : List BookSnapshotElem) (h : Half c) (will : Bool)
      → Inv c before h
      → (q : ℕ)
      → depth c (turns c before reaches side always xs (h, will)).0 q ≡ put_levels xs (depth c h) q
  unfolding turns
  turns-depth [] h will v q = refl
  turns-depth (x ∷ xs) h will v q =
      turns-depth xs _ _ (turn-Inv x h will v) q
      ∙ put_levels-ext xs _ _ (λ r. turn-depth x h will r v) q

-- Whether a level with a quantity stands in a snapshot.
abbrev pub any_qty : List BookSnapshotElem → Bool
any_qty [] = false
any_qty (x ∷ xs) = ltb 0 x.qty || any_qty xs

module _ (c : Containers) {before reaches : ℕ → ℕ → Bool} (reach : IsReach before reaches)
    (side : Side) where
  turn-flag :
      (x : BookSnapshotElem) (h₀ h : Half c) (will : Bool)
      → Loop c before false h₀ h will
      → (turn c before reaches side false x (h, will)).1 ≡ (will || ltb 0 x.qty)
  unfolding turn reaches_top
  turn-flag x h₀ h true l = refl
  turn-flag x h₀ h false l = ground (arith, l.still_empty refl refl)

  -- In a snapshot the flag says whether a level with a quantity came.
  pub turns-flag :
      (xs : List BookSnapshotElem) (h₀ h : Half c) (will : Bool)
      → Loop c before false h₀ h will
      → (turns c before reaches side false xs (h, will)).1 ≡ (will || any_qty xs)
  unfolding turns
  turns-flag [] h₀ h will l = ground arith
  turns-flag (x ∷ xs) h₀ h will l =
      turns-flag xs h₀ _ _ (turn-Loop c reach side false x h₀ h will l)
      ∙ (rw (turn-flag x h₀ h will l) (ground arith))
