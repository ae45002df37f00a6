-- ===== src/OrderBook/Half/Top.antt =====
-- A price that does not reach the first node's leaves the top of its half as it is.
use cryptobot.Common.{
  ℕ, ◌≡◌, refl, ◌∙◌, Bool, true, false, none, some, List, [], ◌∷◌, arith, inl, inr, Option-cases,
}
use cryptobot.OrderBook.Containers.{Containers, Entry, IsStrict, place_behind}
use cryptobot.OrderBook.Half.Defs.{
  MarketOrder, MarketOrdersAtPrice, node_at, overwritten, Half, top, reaches_top, add_order,
  remove_orders_at_price,
}
use cryptobot.OrderBook.Half.Invariant.{
  Inv, node_at-insert, node_at-erase, at-IsStored, remove-found, remove-missing,
}

-- The test of a price against the best one fails only for a worse price.
pub record IsReach (before reaches : ℕ → ℕ → Bool) : Type 0 where
  pub strict : IsStrict before
  pub misses : (p q : ℕ) → reaches p q ≡ false → before q p ≡ true

module _ (c : Containers) {before reaches : ℕ → ℕ → Bool} (reach : IsReach before reaches)
    (h : Half c) (v : Inv c before h) where
  abbrev Keeps : Half c → Type 0
  Keeps h' = top c h' ≡ top c h

  ahead : (p k : ℕ) → reaches p k ≡ false → (before p k ≡ false) × (p ≡ k → ⊥)
  ahead p k m = grind (arith, reach.misses p k, reach.strict.irrefl, reach.strict.trans)

  module _ (k b : ℕ) (es : List Entry) (e : c.to_list h.tree ≡ (k, b) ∷ es) where
    held : c.at h.index k ≡ some b
    held = v.indexed k ∙ rw e (ground arith)

    add_new-Keeps :
        (o : MarketOrder)
        → reaches o.price k ≡ false
        → c.at h.index o.price ≡ none
        → Keeps (add_order c before true o h)
    unfolding top add_order
    add_new-Keeps o m f = ground (
      arith,
      e,
      ahead o.price k m,
      place_behind before (o.price, h.next_address) (k, b) es,
      c.to_list-insert_equal before (o.price, h.next_address) h.tree v.sorted,
      node_at-insert h.next_address b node h.nodes,
      (at-IsStored c reach.strict h v k b held).1,
    )
      where
        node : MarketOrdersAtPrice
        node = record { side = o.side; price = o.price; first_mkt_order = o }

    add_held-Keeps :
        (o : MarketOrder) (a : ℕ)
        → reaches o.price k ≡ false
        → c.at h.index o.price ≡ some a
        → Keeps (add_order c before true o h)
    unfolding top add_order
    add_held-Keeps o a m f = ground (
      arith,
      e,
      ahead o.price k m,
      node_at-insert a b (overwritten o (node_at a h.nodes)) h.nodes,
      (at-IsStored c reach.strict h v k b held).0.1,
      (at-IsStored c reach.strict h v o.price a f).0.1,
    )

    remove_held-Keeps :
        (p a : ℕ)
        → reaches p k ≡ false
        → c.at h.index p ≡ some a
        → Keeps (remove_orders_at_price c true p h)
    unfolding top
    remove_held-Keeps p a m f = rw (remove-found c reach.strict h v p a f) (
        ground (
          arith,
          e,
          ahead p k m,
          c.to_list-erase_equal p h.tree,
          node_at-erase a b h.nodes,
          (at-IsStored c reach.strict h v k b held).0.1,
          (at-IsStored c reach.strict h v p a f).0.1,
        ))

  pub add_order-Keeps :
      (o : MarketOrder)
      → reaches_top c reaches h o.price ≡ false
      → Keeps (add_order c before true o h)
  unfolding reaches_top
  add_order-Keeps o m = go (c.to_list h.tree) refl
    where
      go : (es : List Entry) → c.to_list h.tree ≡ es → Keeps (add_order c before true o h)
      go [] e = absurd (ground arith)
      go ((k, b) ∷ es) e = elim (Option-cases (c.at h.index o.price)) [
        | inl f ↦ add_new-Keeps k b es e o (ground arith) f
        | inr (a, f) ↦ add_held-Keeps k b es e o a (ground arith) f
      ]

  pub remove-Keeps :
      (p : ℕ) → reaches_top c reaches h p ≡ false → Keeps (remove_orders_at_price c true p h)
  unfolding reaches_top
  remove-Keeps p m = go (c.to_list h.tree) refl
    where
      go : (es : List Entry) → c.to_list h.tree ≡ es → Keeps (remove_orders_at_price c true p h)
      go [] e = absurd (ground arith)
      go ((k, b) ∷ es) e = elim (Option-cases (c.at h.index p)) [
        | inl f ↦ rw (remove-missing c reach.strict h v p f) refl
        | inr (a, f) ↦ remove_held-Keeps k b es e p a (ground arith) f
      ]
