-- ===== src/OrderBook/Book1/Effect.antt =====
-- What one update of a tree does, where the other tree does not hold its price.
use cryptobot.Common.{
  ℕ, ◌≡◌, sym, subst, Bool, true, false, none, arith, ◌==◌, ltb, not, if◌then◌else◌, inl, inr,
  Bool-cases,
}
use cryptobot.Types.{Side}
use cryptobot.OrderBook.Containers.{Containers, find}
use cryptobot.OrderBook.Half.{Half, top, reaches_top, add_order, remove_orders_at_price, depth}
use cryptobot.OrderBook.Half.Invariant.{Inv, add_order-Inv, remove-Inv}
use cryptobot.OrderBook.Half.Depth.{depth-add_order, depth-remove}
use cryptobot.OrderBook.Half.Top.{IsReach, add_order-Keeps, remove-Keeps}
use cryptobot.OrderBook.Book2.{order_of, BookSnapshotElem}
use cryptobot.OrderBook.Book2.Loops.{put_level}
use cryptobot.OrderBook.Book1.Shared.{own_index, view, view-add_order, view-remove}
use cryptobot.OrderBook.Book1.Step.{
  Together, facing, update-Together, update-depth, update-top, add_order-IsUpdate, remove-IsUpdate,
  own_at, own_price,
}

module _ (c : Containers) (before reaches before' : ℕ → ℕ → Bool) where
  pub record Effect (x : BookSnapshotElem) (h h' : Half c) (u : c.Tree) : Type 0 where
    pub together : Together c before before' h' u
    pub depths :
        (q : ℕ) → depth (own_index c) (view c h') q ≡ put_level x (depth (own_index c) (view c h)) q
    pub others :
        (q : ℕ) → depth (own_index c) (facing c u h') q ≡ depth (own_index c) (facing c u h) q
    pub other_top : top (own_index c) (facing c u h') ≡ top (own_index c) (facing c u h)
    pub keeps :
        reaches_top (own_index c) reaches (view c h) x.price ≡ false
        → top (own_index c) (view c h') ≡ top (own_index c) (view c h)

  module _ (reach : IsReach before reaches) (h : Half c) (u : c.Tree)
      (t : Together c before before' h u) (side : Side) (x : BookSnapshotElem)
      (free : find x.price (c.to_list u) ≡ none) where
    adding :
        view c (add_order c before true (order_of side x.price x.qty) h)
        ≡ add_order (own_index c) before true (order_of side x.price x.qty) (view c h)
    adding =
        view-add_order c before h (order_of side x.price x.qty) t.own.sorted
          (own_at c reach.strict h u t x.price free)

    removing :
        view c (remove_orders_at_price c true x.price h)
        ≡ remove_orders_at_price (own_index c) true x.price (view c h)
    removing =
        view-remove c before h x.price (own_at c reach.strict h u t x.price free)
          (own_price c reach.strict h u t x.price)

    add_order-Effect :
        ltb 0 x.qty ≡ true → Effect x h (add_order c before true (order_of side x.price x.qty) h) u
    add_order-Effect e =
        let o = order_of side x.price x.qty in
        let i = add_order-IsUpdate c reach.strict h u t o free in
        let h' = add_order c before true o h in
        record {
          together = update-Together c x.price h h' u t free i (
              subst (Inv (own_index c) before) (sym adding)
                (add_order-Inv (own_index c) reach.strict (view c h) t.own o));
          depths =
              λ q. rw (adding, e) (depth-add_order (own_index c) reach.strict (view c h) t.own o q);
          others = update-depth c x.price h h' u t free i;
          other_top = update-top c x.price h h' u t free i;
          keeps = λ m. rw adding (add_order-Keeps (own_index c) reach (view c h) t.own o m);
        }

    remove-Effect : ltb 0 x.qty ≡ false → Effect x h (remove_orders_at_price c true x.price h) u
    remove-Effect e =
        let i = remove-IsUpdate c reach.strict h u t x.price free in
        let h' = remove_orders_at_price c true x.price h in
        record {
          together = update-Together c x.price h h' u t free i (
              subst (Inv (own_index c) before) (sym removing)
                (remove-Inv (own_index c) reach.strict (view c h) t.own x.price));
          depths = λ q.
              rw (removing, e) (depth-remove (own_index c) reach.strict (view c h) t.own x.price q);
          others = update-depth c x.price h h' u t free i;
          other_top = update-top c x.price h h' u t free i;
          keeps = λ m. rw removing (remove-Keeps (own_index c) reach (view c h) t.own x.price m);
        }

    -- What an update does to the tree of its own side.
    abbrev pub updated : Half c
    updated =
        if not (x.qty == 0)
        then add_order c before true (order_of side x.price x.qty) h
        else remove_orders_at_price c true x.price h

    pub updated-Effect : Effect x h updated u
    updated-Effect = elim (Bool-cases (x.qty == 0)) [
      | inl e ↦ rw e (remove-Effect (ground arith))
      | inr e ↦ rw e (add_order-Effect (ground arith))
    ]
