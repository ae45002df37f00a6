-- ===== src/OrderBook/Half/Depth.antt =====
-- One side of a book is the map from prices to quantities that its updates describe, and its first
-- node is the best of them.
use cryptobot.Common.{
  ℕ, ◌≡◌, refl, ◌⊎◌, inl, inr, ◌∙◌, sym, ap, Bool, true, none, some, List, [], ◌∷◌, arith, ◌==◌,
  if◌then◌else◌, nat_key, Option-cases,
}
use cryptobot.Common.Dict
use cryptobot.OrderBook.Containers.{Containers, Entry, IsStrict, IsSorted, find, first_is_best}
use cryptobot.OrderBook.Half.Defs.{
  MarketOrder, MarketOrdersAtPrice, node_at, overwritten, Half, top, add_order,
  remove_orders_at_price, depth,
}
use cryptobot.OrderBook.Half.Invariant.{
  Inv, node_at-insert, node_at-erase, at-IsStored, remove-found, remove-missing, found,
}

module _ (c : Containers) {before : ℕ → ℕ → Bool} (strict : IsStrict before) (h : Half c)
    (v : Inv c before h) where
  depth-add_new :
      (o : MarketOrder) (q : ℕ)
      → c.at h.index o.price ≡ none
      → depth c (add_order c before true o h) q ≡ (if o.price == q then some o.qty else depth c h q)
  unfolding depth add_order
  depth-add_new o q e = elim (Option-cases (c.at h.index q)) [
    | inl f ↦ ground (
      arith,
      c.at-emplace_unique o.price h.next_address h.index q e,
      node_at-insert h.next_address h.next_address node h.nodes,
    )
    | inr (b, f) ↦ ground (
      arith,
      c.at-emplace_unique o.price h.next_address h.index q e,
      node_at-insert h.next_address h.next_address node h.nodes,
      node_at-insert h.next_address b node h.nodes,
      (at-IsStored c strict h v q b f).1,
    )
  ]
    where
      node : MarketOrdersAtPrice
      node = record { side = o.side; price = o.price; first_mkt_order = o }

  depth-overwrite :
      (o : MarketOrder) (a q : ℕ)
      → c.at h.index o.price ≡ some a
      → depth c (add_order c before true o h) q ≡ (if o.price == q then some o.qty else depth c h q)
  unfolding depth add_order
  depth-overwrite o a q e = elim (Option-cases (c.at h.index q)) [
    | inl f ↦ ground arith
    | inr (b, f) ↦ ground (
      arith,
      node_at-insert a b node h.nodes,
      (at-IsStored c strict h v q b f).0.1,
      (at-IsStored c strict h v o.price a e).0.1,
    )
  ]
    where
      node : MarketOrdersAtPrice
      node = overwritten o (node_at a h.nodes)

  -- In a well-formed half, adding an order of its own side sets the quantity at its price, and
  -- leaves the other prices alone.
  pub depth-add_order :
      (o : MarketOrder) (q : ℕ)
      → depth c (add_order c before true o h) q ≡ (if o.price == q then some o.qty else depth c h q)
  depth-add_order o q = elim (Option-cases (c.at h.index o.price)) [
    | inl e ↦ depth-add_new o q e
    | inr (a, e) ↦ depth-overwrite o a q e
  ]

  -- Removing a price leaves nothing there, and leaves the other prices alone.
  pub depth-remove :
      (p q : ℕ)
      → depth c (remove_orders_at_price c true p h) q ≡ (if p == q then none else depth c h q)
  unfolding depth
  depth-remove p q = elim (Option-cases (c.at h.index p)) [
    | inl e ↦ rw (remove-missing c strict h v p e) (ground arith)
    | inr (a, e) ↦ rw (remove-found c strict h v p a e) (depth_erased a e)
  ]
    where
      depth_erased :
          (a : ℕ)
          → c.at h.index p ≡ some a
          → depth c
              (record h {
                tree = c.erase_equal p h.tree;
                index = c.erase_key p h.index;
                nodes = Dict.erase a h.nodes;
              })
              q
            ≡ (if p == q then none else depth c h q)
      depth_erased a e = elim (Option-cases (c.at h.index q)) [
        | inl f ↦ ground (arith, c.at-erase_key p h.index q)
        | inr (b, f) ↦ ground (
          arith,
          c.at-erase_key p h.index q,
          node_at-erase a b h.nodes,
          (at-IsStored c strict h v q b f).0.1,
          (at-IsStored c strict h v p a e).0.1,
        )
      ]

  -- `begin()` is the best price of the half, with its quantity.
  pub top-is_best :
      (p q : ℕ)
      → top c h ≡ (p, q)
      → (r s : ℕ) → depth c h r ≡ some s
      → (depth c h p ≡ some q) × ((p ≡ r) ⊎ (before p r ≡ true))
  unfolding top depth
  top-is_best p q t r s d = go (c.to_list h.tree) refl
    where
      go :
          (es : List Entry)
          → c.to_list h.tree ≡ es
          → (depth c h p ≡ some q) × ((p ≡ r) ⊎ (before p r ≡ true))
      go [] e = ground (arith, v.indexed r, e)
      go ((k, a) ∷ es) e =
          let sorted : IsSorted before ((k, a) ∷ es) = rw e at v.sorted in
          let held : c.at h.index k ≡ some a = v.indexed k ∙ rw e (ground arith) in
          elim (Option-cases (c.at h.index r)) [
            | inl f ↦ ground arith
            | inr (b, f) ↦ ground (
              arith,
              first_is_best strict k a r b es sorted (ap (find r) (sym e) ∙ found c strict h v r f),
              held,
              (at-IsStored c strict h v k a held).0,
            )
          ]
