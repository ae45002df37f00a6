-- ===== src/OrderBook/Half/Invariant.antt =====
-- One side of a book keeps its hash map, its tree and its nodes in step, and is the map from prices
-- to quantities that its updates describe.
use cryptobot.Common.{
  ℕ, suc, ◌<◌, ◌≡◌, refl, ◌≢◌, inl, inr, ◌∙◌, sym, Bool, true, Option, none, some, arith, ◌==◌,
  if◌then◌else◌, nat_key, All, All-map, All-zip, Option-cases,
}
use cryptobot.Common.Dict
use cryptobot.Common.Dict.{Dict}
use cryptobot.OrderBook.Containers.{
  Containers, Entry, IsStrict, IsSorted, find, discard, discard_ne, place, All-place, All-discard,
  All-find, place-IsSorted, discard-IsSorted, find-place, find-discard,
}
use cryptobot.OrderBook.Half.Defs.{
  MarketOrder, MarketOrdersAtPrice, node_at, Half, add_order, remove_orders_at_price, clear_half,
  new_half,
}

pub node_at-insert :
    (a b : ℕ) (n : MarketOrdersAtPrice) (nodes : Dict ℕ MarketOrdersAtPrice)
    → node_at b (Dict.insert a n nodes) ≡ (if a == b then n else node_at b nodes)
node_at-insert a b n nodes = ground (arith, Dict.lookup-insert a b n nodes)

pub node_at-erase :
    (a b : ℕ) (nodes : Dict ℕ MarketOrdersAtPrice)
    → a ≢ b
    → node_at b (Dict.erase a nodes) ≡ node_at b nodes
node_at-erase a b nodes h = ground (arith, Dict.lookup-erase a b nodes)

-- The node of a tree entry is allocated, and its two price fields are the key.
abbrev pub IsStored : Dict ℕ MarketOrdersAtPrice → Entry → Type 0
IsStored nodes (p, a) =
    (Dict.contains a nodes ≡ true)
    × ((node_at a nodes).price ≡ p)
    × ((node_at a nodes).first_mkt_order.price ≡ p)

IsStored-insert_ne :
    (a : ℕ) (n : MarketOrdersAtPrice) (nodes : Dict ℕ MarketOrdersAtPrice) (e : Entry)
    → a ≢ e.1
    → IsStored nodes e
    → IsStored (Dict.insert a n nodes) e
IsStored-insert_ne a n nodes e h s = ground (arith, Dict.lookup-insert a e.1 n nodes)

-- Overwriting a node's order by one of the same price.
IsStored-insert_same :
    (a : ℕ) (n : MarketOrdersAtPrice) (nodes : Dict ℕ MarketOrdersAtPrice) (e : Entry)
    → n.price ≡ (node_at a nodes).price
    → n.first_mkt_order.price ≡ n.price
    → IsStored nodes e
    → IsStored (Dict.insert a n nodes) e
IsStored-insert_same a n nodes e h k s = ground (arith, Dict.lookup-insert a e.1 n nodes)

IsStored-erase_ne :
    (a : ℕ) (nodes : Dict ℕ MarketOrdersAtPrice) (e : Entry)
    → a ≢ e.1
    → IsStored nodes e
    → IsStored (Dict.erase a nodes) e
IsStored-erase_ne a nodes e h s = ground (arith, Dict.lookup-erase a e.1 nodes)

module _ (c : Containers) (before : ℕ → ℕ → Bool) where
  open c use {to_list, at}

  pub record Inv (h : Half c) : Type 0 where
    pub sorted : IsSorted before (to_list h.tree)
    pub indexed : (p : ℕ) → at h.index p ≡ find p (to_list h.tree)
    pub stored : All (IsStored h.nodes) (to_list h.tree)
    pub in_use : All (λ e. e.1 < h.next_address) (to_list h.tree)

module _ (c : Containers) {before : ℕ → ℕ → Bool} (strict : IsStrict before) where
  pub new_half-Inv : Inv c before (new_half c)
  unfolding new_half
  new_half-Inv = record {
    sorted = rw c.to_list-no_nodes tt;
    indexed = λ p. rw (c.to_list-no_nodes, c.at-no_entries p);
    stored = rw c.to_list-no_nodes tt;
    in_use = rw c.to_list-no_nodes tt;
  }

  pub clear_half-Inv : (h : Half c) → Inv c before (clear_half c h)
  unfolding clear_half
  clear_half-Inv h = record {
    sorted = rw c.to_list-no_nodes tt;
    indexed = λ p. rw (c.to_list-no_nodes, c.at-no_entries p);
    stored = rw c.to_list-no_nodes tt;
    in_use = rw c.to_list-no_nodes tt;
  }

  module _ (h : Half c) (v : Inv c before h) where
    pub found : (p : ℕ) {o : Option ℕ} → c.at h.index p ≡ o → find p (c.to_list h.tree) ≡ o
    found p e = sym (v.indexed p) ∙ e

    -- The node that the hash map leads to is one of the tree's, and in use.
    pub at-IsStored :
        (p a : ℕ) → c.at h.index p ≡ some a → IsStored h.nodes (p, a) × (a < h.next_address)
    at-IsStored p a e = (
      All-find (IsStored h.nodes) p {a = a} (c.to_list h.tree) v.stored (found p e),
      All-find (λ x. x.1 < h.next_address) p {a = a} (c.to_list h.tree) v.in_use (found p e),
    )

    add_new-Inv :
        (o : MarketOrder) → c.at h.index o.price ≡ none → Inv c before (add_order c before true o h)
    unfolding add_order
    add_new-Inv o e =
        rw (e, add_order)
          record {
            sorted = rw added (place-IsSorted strict _ _ (found o.price e) v.sorted);
            indexed = λ q. rw (
              added,
              c.at-emplace_unique o.price h.next_address h.index q e,
              find-place before o.price h.next_address q _ (found o.price e),
              v.indexed q,
            );
            stored = rw added (
                All-place (IsStored _) before _ _
                  (ground (arith, Dict.lookup-insert h.next_address h.next_address node h.nodes))
                  (All-zip _
                    (λ x s u. IsStored-insert_ne h.next_address node h.nodes x (omega arith) s)
                    v.stored v.in_use));
            in_use = rw added (
                All-place (λ x. x.1 < suc h.next_address) before _ _ (omega arith)
                  (All-map _ (λ x u. omega arith) v.in_use));
          }
      where
        added :
            c.to_list (c.insert_equal before (o.price, h.next_address) h.tree)
            ≡ place before (o.price, h.next_address) (c.to_list h.tree)
        added = c.to_list-insert_equal before (o.price, h.next_address) h.tree v.sorted

        node : MarketOrdersAtPrice
        node = record { side = o.side; price = o.price; first_mkt_order = o }

    overwrite-Inv :
        (own : Bool) (o : MarketOrder) (a : ℕ)
        → c.at h.index o.price ≡ some a
        → Inv c before (add_order c before own o h)
    unfolding add_order
    overwrite-Inv own o a e =
        rw (e, add_order)
          record {
            sorted = v.sorted;
            indexed = v.indexed;
            stored =
                All-map _
                  (λ x.
                    IsStored-insert_same a _ h.nodes x refl (sym ((at-IsStored o.price a e).0.1)))
                  v.stored;
            in_use = v.in_use;
          }

    -- Adding an order of the half's own side keeps the half well formed.
    pub add_order-Inv : (o : MarketOrder) → Inv c before (add_order c before true o h)
    add_order-Inv o = elim (Option-cases (c.at h.index o.price)) [
      | inl e ↦ add_new-Inv o e
      | inr (a, e) ↦ overwrite-Inv true o a e
    ]

    -- What RemoveOrdersAtPrice does at a price that the half holds.
    pub remove-found :
        (p a : ℕ)
        → c.at h.index p ≡ some a
        → remove_orders_at_price c true p h ≡ record h {
          tree = c.erase_equal p h.tree;
          index = c.erase_key p h.index;
          nodes = Dict.erase a h.nodes;
        }
    unfolding remove_orders_at_price
    remove-found p a e = ground (arith, e, (at-IsStored p a e).0.1, found p e)

    remove_found-Inv :
        (p a : ℕ) → c.at h.index p ≡ some a → Inv c before (remove_orders_at_price c true p h)
    remove_found-Inv p a e = rw (remove-found p a e) record {
      sorted = rw erased (discard-IsSorted before p _ v.sorted);
      indexed = λ q. rw (erased, c.at-erase_key p h.index q, find-discard p q _, v.indexed q);
      stored = rw erased (
          All-zip _
            (λ x other s.
              IsStored-erase_ne a h.nodes x
                (λ same. other (sym s.1 ∙ (rw (← same) (at-IsStored p a e).0.1))) s)
            (discard_ne p _) (All-discard (IsStored h.nodes) p _ v.stored));
      in_use = rw erased (All-discard (λ x. x.1 < h.next_address) p _ v.in_use);
    }
      where
        erased : c.to_list (c.erase_equal p h.tree) ≡ discard p (c.to_list h.tree)
        erased = c.to_list-erase_equal p h.tree

    pub remove-missing : (p : ℕ) → c.at h.index p ≡ none → remove_orders_at_price c true p h ≡ h
    unfolding remove_orders_at_price
    remove-missing p e = rw (e, remove_orders_at_price)

    -- Removing a price keeps the half well formed, whether it held the price or not.
    pub remove-Inv : (p : ℕ) → Inv c before (remove_orders_at_price c true p h)
    remove-Inv p = elim (Option-cases (c.at h.index p)) [
      | inl e ↦ rw (remove-missing p e) v
      | inr (a, e) ↦ remove_found-Inv p a e
    ]
