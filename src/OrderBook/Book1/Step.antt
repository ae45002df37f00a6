-- ===== src/OrderBook/Book1/Step.antt =====
-- Two trees that share a hash map and their nodes: an update of the one, at a price that the other
-- does not hold, keeps both well formed and leaves the other's levels alone.
use cryptobot.Common.{
  ℕ, ◌≤◌, ◌≡◌, refl, ◌≢◌, ◌⊎◌, inl, inr, ◌∙◌, sym, subst, Bool, true, Option, none, some, List, [],
  ◌∷◌, arith, ◌==◌, if◌then◌else◌, nat_key, All, All-map, All-zip, Option-cases, Bool-cases,
}
use cryptobot.Common.Dict
use cryptobot.Common.Dict.{Dict}
use cryptobot.OrderBook.Containers.{Containers, Entry, IsStrict, find}
use cryptobot.OrderBook.Half.{
  MarketOrder, MarketOrdersAtPrice, node_at, overwritten, Half, top, add_order,
  remove_orders_at_price, depth,
}
use cryptobot.OrderBook.Half.Invariant.{Inv, IsStored, at-IsStored}
use cryptobot.OrderBook.Book1.Shared.{
  own_index, view, reframe-Inv, reframe-depth, reframe-top, placed, cut_tree, cut,
}

abbrev pub either : Option ℕ → Option ℕ → Option ℕ
either none y = y
either (some a) y = some a

either_comm : (x y : Option ℕ) → (x ≡ none) ⊎ (y ≡ none) → either x y ≡ either y x
either_comm none none e = refl
either_comm none (some b) e = refl
either_comm (some a) none e = refl
either_comm (some a) (some b) (inl e) = cc
either_comm (some a) (some b) (inr e) = cc

flip : {x y : Option ℕ} → (x ≡ none) ⊎ (y ≡ none) → (y ≡ none) ⊎ (x ≡ none)
flip (inl e) = inr e
flip (inr e) = inl e

either-none : (x : Option ℕ) → x ≡ either x none
either-none none = refl
either-none (some a) = refl

find-none : (p : ℕ) (es : List Entry) → find p es ≡ none → All (λ e. e.0 ≢ p) es
find-none p [] f = tt
find-none p (e ∷ es) f = ground (arith, find-none p es)

module _ (c : Containers) where
  -- The other tree, as a half.
  abbrev pub facing : c.Tree → Half c → Half (own_index c)
  facing u h = view c (record h { tree = u })

  -- Each tree is well formed by itself, the hash map leads to the nodes of both, and no price is in
  -- both.
  pub record Together (before before' : ℕ → ℕ → Bool) (h : Half c) (u : c.Tree) : Type 0 where
    pub own : Inv (own_index c) before (view c h)
    pub other : Inv (own_index c) before' (facing u h)
    pub shared :
        (q : ℕ) → c.at h.index q ≡ either (find q (c.to_list h.tree)) (find q (c.to_list u))
    pub apart : (q : ℕ) → (find q (c.to_list h.tree) ≡ none) ⊎ (find q (c.to_list u) ≡ none)

  pub swap :
      {before before' : ℕ → ℕ → Bool} (h : Half c) (u : c.Tree)
      → Together before before' h u
      → Together before' before (record h { tree = u }) h.tree
  swap h u t = record {
    own = t.other;
    other = t.own;
    shared = λ q.
        t.shared q ∙ either_comm (find q (c.to_list h.tree)) (find q (c.to_list u)) (t.apart q);
    apart = λ q. flip (t.apart q);
  }

  -- An update of one price: what the hash map and the tree then find there, and nothing elsewhere.
  pub record IsUpdate (p : ℕ) (h h' : Half c) (u : c.Tree) : Type 0 where
    entry : Option ℕ
    indexed : (q : ℕ) → c.at h'.index q ≡ (if p == q then entry else c.at h.index q)
    held :
        (q : ℕ) → find q (c.to_list h'.tree) ≡ (if p == q then entry else find q (c.to_list h.tree))
    grows : h.next_address ≤ h'.next_address
    others : All (λ e. Dict.lookup e.1 h'.nodes ≡ Dict.lookup e.1 h.nodes) (c.to_list u)

  module _ {before before' : ℕ → ℕ → Bool} (p : ℕ) (h h' : Half c) (u : c.Tree)
      (t : Together before before' h u) (free : find p (c.to_list u) ≡ none)
      (i : IsUpdate p h h' u) where
    pub update-Together : Inv (own_index c) before (view c h') → Together before before' h' u
    update-Together v = record {
      own = v;
      other =
          reframe-Inv (own_index c) before' (facing u h) h'.nodes h'.next_address i.grows i.others
            t.other;
      shared = λ q. ground (arith, i.indexed q, i.held q, t.shared q, either-none i.entry, free);
      apart = λ q. apart_at q (t.apart q);
    }
      where
        apart_at :
            (q : ℕ)
            → (find q (c.to_list h.tree) ≡ none) ⊎ (find q (c.to_list u) ≡ none)
            → (find q (c.to_list h'.tree) ≡ none) ⊎ (find q (c.to_list u) ≡ none)
        apart_at q (inr e) = inr e
        apart_at q (inl e) = elim (Bool-cases (p == q)) [
          | inl same ↦ inr (ground (arith, free))
          | inr differ ↦ inl (ground (arith, i.held q))
        ]

    pub update-depth :
        (q : ℕ) → depth (own_index c) (facing u h') q ≡ depth (own_index c) (facing u h) q
    update-depth q =
        reframe-depth (own_index c) before' (facing u h) h'.nodes h'.next_address i.others t.other q

    pub update-top : top (own_index c) (facing u h') ≡ top (own_index c) (facing u h)
    update-top = reframe-top (own_index c) before' (facing u h) h'.nodes h'.next_address i.others

-- The node at an address of the other tree is another one than the node at the own price.
other_address :
    (p a : ℕ) (nodes : Dict ℕ MarketOrdersAtPrice) (e : Entry)
    → (node_at a nodes).price ≡ p
    → e.0 ≢ p
    → IsStored nodes e
    → a ≢ e.1
other_address p a nodes e k n s = λ same. n (sym s.1 ∙ (rw (← same) k))

module _ (c : Containers) {before before' : ℕ → ℕ → Bool} (strict : IsStrict before) (h : Half c)
    (u : c.Tree) (t : Together c before before' h u) where
  pub own_at : (p : ℕ) → find p (c.to_list u) ≡ none → c.at h.index p ≡ find p (c.to_list h.tree)
  own_at p free = rw (t.shared p, free) (sym (either-none (find p (c.to_list h.tree))))

  pub own_price : (p a : ℕ) → find p (c.to_list h.tree) ≡ some a → (node_at a h.nodes).price ≡ p
  own_price p a f = (at-IsStored (own_index c) strict (view c h) t.own p a f).0.1

  -- The nodes of the other tree are not the node at a price that it does not hold.
  others_kept :
      (p a : ℕ)
      → find p (c.to_list u) ≡ none
      → find p (c.to_list h.tree) ≡ some a
      → All (λ e. a ≢ e.1) (c.to_list u)
  others_kept p a free f =
      All-zip _ (λ e n s. other_address p a h.nodes e (own_price p a f) n s)
        (find-none p (c.to_list u) free) t.other.stored

  pub add_order-IsUpdate :
      (o : MarketOrder)
      → find o.price (c.to_list u) ≡ none
      → IsUpdate c o.price h (add_order c before true o h) u
  unfolding add_order
  add_order-IsUpdate o free = elim (Option-cases (c.at h.index o.price)) [
    | inl f ↦
        let g : find o.price (c.to_list h.tree) ≡ none = sym (own_at o.price free) ∙ f in
        rw (f, add_order)
          record {
            entry = some h.next_address;
            indexed = λ q. c.at-emplace_unique o.price h.next_address h.index q f;
            held = λ q. placed c before h o g t.own.sorted q;
            grows = omega arith;
            others =
                All-map _
                  (λ e l. ground (
                    arith,
                    Dict.lookup-insert h.next_address e.1
                        (record { side = o.side; price = o.price; first_mkt_order = o }) h.nodes,
                  ))
                  t.other.in_use;
          }
    | inr (a, f) ↦
        let g : find o.price (c.to_list h.tree) ≡ some a = sym (own_at o.price free) ∙ f in
        rw (f, add_order)
          record {
            entry = some a;
            indexed = λ q. ground (arith, f);
            held = λ q. ground (arith, g);
            grows = omega arith;
            others =
                All-map _
                  (λ e n.
                    ground
                      (arith, Dict.lookup-insert a e.1 (overwritten o (node_at a h.nodes)) h.nodes))
                  (others_kept o.price a free g);
          }
  ]

  pub remove-IsUpdate :
      (p : ℕ) → find p (c.to_list u) ≡ none → IsUpdate c p h (remove_orders_at_price c true p h) u
  unfolding remove_orders_at_price
  remove-IsUpdate p free = elim (Option-cases (c.at h.index p)) [
    | inl f ↦
        let g : find p (c.to_list h.tree) ≡ none = sym (own_at p free) ∙ f in
        rw (f, remove_orders_at_price)
          record {
            entry = none;
            indexed = λ q. ground (arith, f);
            held = λ q. ground (arith, g);
            grows = omega arith;
            others = All-map _ (λ e n. refl) t.other.in_use;
          }
    | inr (a, f) ↦
        let g : find p (c.to_list h.tree) ≡ some a = sym (own_at p free) ∙ f in
        rw (f, remove_orders_at_price)
          record {
            entry = none;
            indexed = λ q. c.at-erase_key p h.index q;
            held = λ q.
                subst
                  (λ key.
                    find q (c.to_list (cut_tree c before h key))
                    ≡ (if p == q then none else find q (c.to_list h.tree)))
                  (sym (own_price p a g)) (cut c before h p a g q);
            grows = omega arith;
            others =
                All-map _ (λ e n. ground (arith, Dict.lookup-erase a e.1 h.nodes))
                  (others_kept p a free g);
          }
  ]
