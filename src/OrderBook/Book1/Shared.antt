-- ===== src/OrderBook/Book1/Shared.antt =====
-- One tree of a book that shares its hash map and its nodes with another tree: as seen by the tree
-- alone, it is a half with a hash map of its own.
use cryptobot.Common.{
  ℕ, suc, ◌≤◌, ◌≡◌, refl, inl, inr, ◌∙◌, sym, subst, Bool, true, false, Option, none, some, List,
  [], ◌∷◌, arith, ◌==◌, if◌then◌else◌, nat_key, All, All-map, All-zip, Option-cases,
}
use cryptobot.Common.Dict
use cryptobot.Common.Dict.{Dict}
use cryptobot.OrderBook.Containers.{
  Containers, Entry, IsSorted, find, find-place, find-discard, All-find,
}
use cryptobot.OrderBook.Half.{
  MarketOrder, MarketOrdersAtPrice, node_at, Half, top, add_order, remove_orders_at_price, depth,
}
use cryptobot.OrderBook.Half.Invariant.{Inv}

-- The same trees, with a hash map that is a function.
abbrev pub own_index : Containers → Containers
own_index c = record {
  Tree = c.Tree;
  to_list = c.to_list;
  no_nodes = c.no_nodes;
  insert_equal = c.insert_equal;
  erase_equal = c.erase_equal;
  to_list-no_nodes = c.to_list-no_nodes;
  to_list-insert_equal = c.to_list-insert_equal;
  to_list-erase_equal = c.to_list-erase_equal;
  Index = ℕ → Option ℕ;
  at = λ i p. i p;
  addresses = λ i. [];
  no_entries = λ q. none;
  emplace_unique = λ p a i q. if p == q then some a else i q;
  erase_key = λ p i q. if p == q then none else i q;
  at-no_entries = λ q. refl;
  at-emplace_unique = λ p a i q e. refl;
  at-erase_key = λ p i q. refl;
}

module _ (c : Containers) where
  -- A tree with the prices that it holds itself.
  abbrev pub view : Half c → Half (own_index c)
  view h = record {
    index = λ p. find p (c.to_list h.tree);
    tree = h.tree;
    nodes = h.nodes;
    next_address = h.next_address;
  }

  module _ (before : ℕ → ℕ → Bool) (h : Half c) where
    pub placed :
        (o : MarketOrder)
        → find o.price (c.to_list h.tree) ≡ none
        → IsSorted before (c.to_list h.tree)
        → (q : ℕ)
        → find q (c.to_list (c.insert_equal before (o.price, h.next_address) h.tree))
          ≡ (if o.price == q then some h.next_address else find q (c.to_list h.tree))
    placed o f s q =
        rw (c.to_list-insert_equal before (o.price, h.next_address) h.tree s)
          (find-place before o.price h.next_address q (c.to_list h.tree) f)

    placed_half : MarketOrder → Half (own_index c)
    placed_half o = record {
      index = λ p. find p (c.to_list h.tree);
      tree = c.insert_equal before (o.price, h.next_address) h.tree;
      nodes =
          Dict.insert h.next_address
            (record { side = o.side; price = o.price; first_mkt_order = o }) h.nodes;
      next_address = suc h.next_address;
    }

    erased :
        (p q : ℕ)
        → find q (c.to_list (c.erase_equal p h.tree))
          ≡ (if p == q then none else find q (c.to_list h.tree))
    erased p q = rw (c.to_list-erase_equal p h.tree) (find-discard p q (c.to_list h.tree))

    abbrev pub cut_tree : ℕ → c.Tree
    cut_tree key =
        let held : Bool = elim (find key (c.to_list h.tree)) [ none ↦ false | some _ ↦ true ] in
        if held then c.erase_equal key h.tree else h.tree

    pub cut :
        (p a : ℕ)
        → find p (c.to_list h.tree) ≡ some a
        → (q : ℕ)
        → find q (c.to_list (cut_tree p)) ≡ (if p == q then none else find q (c.to_list h.tree))
    cut p a g q = rw g (erased p q)

    abbrev cut_half : (ℕ → Option ℕ) → ℕ → ℕ → Half (own_index c)
    cut_half index a key = record {
      index = index;
      tree = cut_tree key;
      nodes = Dict.erase a h.nodes;
      next_address = h.next_address;
    }

    -- Where the hash map has no more at a price than the tree, adding an order and seeing the tree
    -- alone commute.
    pub view-add_order :
        (o : MarketOrder)
        → IsSorted before (c.to_list h.tree)
        → c.at h.index o.price ≡ find o.price (c.to_list h.tree)
        → view (add_order c before true o h) ≡ add_order (own_index c) before true o (view h)
    unfolding add_order placed_half
    view-add_order o s e = elim (Option-cases (c.at h.index o.price)) [
      | inl f ↦
          let g : find o.price (c.to_list h.tree) ≡ none = sym e ∙ f in
          rw (f, g, add_order) (λ i. record (placed_half o) { index = λ q. placed o g s q i })
      | inr (a, f) ↦
          let g : find o.price (c.to_list h.tree) ≡ some a = sym e ∙ f in rw (f, g, add_order) refl
    ]

    pub view-remove :
        (p : ℕ)
        → c.at h.index p ≡ find p (c.to_list h.tree)
        → ((a : ℕ) → find p (c.to_list h.tree) ≡ some a → (node_at a h.nodes).price ≡ p)
        → view (remove_orders_at_price c true p h)
          ≡ remove_orders_at_price (own_index c) true p (view h)
    unfolding remove_orders_at_price
    view-remove p e k = elim (Option-cases (c.at h.index p)) [
      | inl f ↦
          let g : find p (c.to_list h.tree) ≡ none = sym e ∙ f in
          rw (f, g, remove_orders_at_price) refl
      | inr (a, f) ↦
          let g : find p (c.to_list h.tree) ≡ some a = sym e ∙ f in
          rw (f, g, remove_orders_at_price)
            (subst
              (λ key.
                cut_half (λ q. find q (c.to_list (cut_tree key))) a key
                ≡ cut_half (λ q. if p == q then none else find q (c.to_list h.tree)) a key)
              (sym (k a g)) (λ i. cut_half (λ q. cut p a g q i) a p))
    ]

-- A half whose nodes change, at addresses outside its tree.
module _ (c : Containers) (before : ℕ → ℕ → Bool) (h : Half c) (nodes : Dict ℕ MarketOrdersAtPrice)
    (next : ℕ) where
  abbrev reframed : Half c
  reframed = record h { nodes = nodes; next_address = next }

  abbrev pub SameNodes : Type 0
  SameNodes = All (λ e. Dict.lookup e.1 nodes ≡ Dict.lookup e.1 h.nodes) (c.to_list h.tree)

  pub reframe-Inv : h.next_address ≤ next → SameNodes → Inv c before h → Inv c before reframed
  reframe-Inv n s v = record {
    sorted = v.sorted;
    indexed = v.indexed;
    stored = All-zip _ (λ x e i. ground (arith, e)) s v.stored;
    in_use = All-map _ (λ x u. omega arith) v.in_use;
  }

  pub reframe-depth : SameNodes → Inv c before h → (q : ℕ) → depth c reframed q ≡ depth c h q
  unfolding depth
  reframe-depth s v q = elim (Option-cases (c.at h.index q)) [
    | inl f ↦ rw (f, depth) refl
    | inr (a, f) ↦
        let same : Dict.lookup a nodes ≡ Dict.lookup a h.nodes =
          All-find (λ e. Dict.lookup e.1 nodes ≡ Dict.lookup e.1 h.nodes) q {a = a}
            (c.to_list h.tree) s (sym (v.indexed q) ∙ f) in
        ground (arith, f, same)
  ]

  pub reframe-top : SameNodes → top c reframed ≡ top c h
  unfolding top
  reframe-top s = go (c.to_list h.tree) refl
    where
      go : (es : List Entry) → c.to_list h.tree ≡ es → top c reframed ≡ top c h
      go [] e = rw (e, top) refl
      go ((k, a) ∷ es) e =
          let all : All (λ x. Dict.lookup x.1 nodes ≡ Dict.lookup x.1 h.nodes) ((k, a) ∷ es) =
            subst (All (λ x. Dict.lookup x.1 nodes ≡ Dict.lookup x.1 h.nodes)) e s in
          ground (arith, e, all.0)
