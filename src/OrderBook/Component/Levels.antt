-- ===== src/OrderBook/Component/Levels.antt =====
-- A level of a side against the map from prices to quantities.
use cryptobot.Common.{
  ℕ, zero, suc, ◌<◌, Bool, true, false, none, some, List, [], ◌∷◌, get_elem?, length, ◌==◌, ◌≡◌,
  refl, arith, All, Option-cases, Bool-cases, ==_iff, ◌≤◌, ltb, inl, inr, ap, sym, ◌∙◌, subst,
}
use cryptobot.Types.{k_price_invalid, k_qty_invalid}
use cryptobot.OrderBook.Containers.{Containers, Entry, IsStrict, IsSorted, find}
use cryptobot.OrderBook.Half.{Half, depth, top}
use cryptobot.OrderBook.Half.Invariant.{Inv, at-IsStored}
use cryptobot.OrderBook.Component.Defs.{shown, at_level}

All-get {ℓ} :
    (P : Entry → Type ℓ) (es : List Entry) (i : ℕ) (e : Entry)
    → All P es
    → get_elem? es i ≡ some e
    → P e
All-get P [] i e h g = cc
All-get P (x ∷ es) zero e h g = subst P (some-inj g) h.0
  where
    some-inj : some x ≡ some e → x ≡ e
    some-inj q = cc
All-get P (x ∷ es) (suc i) e h g = All-get P es i e h.1 g

-- In a sorted list each entry is the one that its price finds.
find-get :
    {before : ℕ → ℕ → Bool} (strict : IsStrict before) (es : List Entry) (i : ℕ) (e : Entry)
    → IsSorted before es
    → get_elem? es i ≡ some e
    → find e.0 es ≡ some e.1
find-get strict [] i e s g = cc
find-get strict (x ∷ es) zero e s g = ground arith
find-get strict (x ∷ es) (suc i) e s g =
    ground (arith, All-get (λ y. _) es i e s.0 g, strict.irrefl e.0, find-get strict es i e s.1 g)

-- A later entry comes after an earlier one.
before-get :
    (before : ℕ → ℕ → Bool) (es : List Entry) (i j : ℕ) (e f : Entry)
    → IsSorted before es
    → i < j
    → get_elem? es i ≡ some e
    → get_elem? es j ≡ some f
    → before e.0 f.0 ≡ true
before-get before [] i j e f s l g h = cc
before-get before (x ∷ es) i zero e f s l g h = absurd (omega arith)
before-get before (x ∷ es) zero (suc j) e f s l g h =
    rw (ap (λ (y : Entry). y.0) (sym (some-inj g)))
      (All-get (λ y. before x.0 y.0 ≡ true) es j f s.0 h)
  where
    some-inj : some x ≡ some e → x ≡ e
    some-inj q = cc
before-get before (x ∷ es) (suc i) (suc j) e f s l g h =
    before-get before es i j e f s.1 (omega arith) g h

-- What a price finds stands at some place.
get-find :
    (es : List Entry) (p : ℕ) {a : ℕ}
    → find p es ≡ some a
    → (i : ℕ) × (get_elem? es i ≡ some (p, a)) × (i < length es)
get-find [] p f = cc
get-find ((q, b) ∷ es) p {a} f = elim (Bool-cases (q == p)) [
  | inl t ↦ (0, ground (arith, ==_iff q p), omega arith)
  | inr t ↦ let (i, g, l) = get-find es p {a = a} (ground arith) in (suc i, g, omega arith)
]

get-bound : (es : List Entry) (i : ℕ) → i < length es → (e : Entry) × (get_elem? es i ≡ some e)
get-bound [] i h = absurd (omega arith)
get-bound (x ∷ es) zero h = (x, refl)
get-bound (x ∷ es) (suc i) h = get-bound es i (omega arith)

get-beyond : (es : List Entry) (i : ℕ) → length es ≤ i → get_elem? es i ≡ none
get-beyond [] i h = refl
get-beyond (x ∷ es) zero h = absurd (omega arith)
get-beyond (x ∷ es) (suc i) h = get-beyond es i (omega arith)

module _ (c : Containers) {before : ℕ → ℕ → Bool} (strict : IsStrict before) (h : Half c)
    (v : Inv c before h) where
  -- The entry of a node shows the price that leads to it, and the quantity there.
  shown-depth :
      (i : ℕ) (e : Entry)
      → get_elem? (c.to_list h.tree) i ≡ some e
      → ((shown c h e).0 ≡ e.0) × (depth c h e.0 ≡ some (shown c h e).1)
  unfolding shown depth
  shown-depth i e g =
      let indexed = v.indexed e.0 ∙ find-get strict (c.to_list h.tree) i e v.sorted g in
      ground (arith, indexed, at-IsStored c strict h v e.0 e.1 indexed)

  place_of :
      (i j : ℕ) (e f : Entry)
      → get_elem? (c.to_list h.tree) i ≡ some e
      → get_elem? (c.to_list h.tree) j ≡ some f
      → before e.0 f.0 ≡ ltb i j
  place_of i j e f g k = elim (Bool-cases (ltb i j)) [
    | inl t ↦ rw t (before-get before es i j e f v.sorted (ground (arith, t)) g k)
    | inr t ↦ rw t (elim (Bool-cases (ltb j i)) [
      | inl u ↦
          let back = before-get before es j i f e v.sorted (ground (arith, u)) k g in
          asym e.0 f.0 back
      | inr u ↦
          let same : i ≡ j = ground (arith, t, u) in
          let equal : e ≡ f = some-inj (sym g ∙ ap (get_elem? es) same ∙ k) in
          subst (λ (y : Entry). before e.0 y.0 ≡ false) equal (strict.irrefl e.0)
    ])
  ]
    where
      es : List Entry
      es = c.to_list h.tree

      some-inj : some e ≡ some f → e ≡ f
      some-inj q = cc

      asym : (x y : ℕ) → before y x ≡ true → before x y ≡ false
      asym x y b = elim (Bool-cases (before x y)) [
        | inl a ↦ let loop = strict.trans x y x a b in let no = strict.irrefl x in cc
        | inr a ↦ a
      ]

  -- At each level within a well-formed side stands a price with its quantity, and of two levels
  -- within the side the one before the other has the price that comes first in the order of the side.
  pub at_level_lem :
      (i j : ℕ)
      → i < length (c.to_list h.tree)
      → j < length (c.to_list h.tree)
      → (depth c h (at_level c h i).0 ≡ some (at_level c h i).1)
        × (before (at_level c h i).0 (at_level c h j).0 ≡ ltb i j)
  unfolding at_level
  at_level_lem i j l b =
      let es = c.to_list h.tree in
      let (e, g) = get-bound es i l in
      let (f, k) = get-bound es j b in
      let se = shown-depth i e g in
      let sf = shown-depth j f k in let order = place_of i j e f g k in ground (arith, g, k, order)

  -- Beyond the side a level shows the reserved values.
  at_level-beyond :
      (i : ℕ) → length (c.to_list h.tree) ≤ i → at_level c h i ≡ (k_price_invalid, k_qty_invalid)
  unfolding at_level
  at_level-beyond i b = ground (arith, get-beyond (c.to_list h.tree) i b)

  -- Every price held stands at some level.
  level_of :
      (p q : ℕ)
      → depth c h p ≡ some q
      → (i : ℕ) × (i < length (c.to_list h.tree)) × (at_level c h i ≡ (p, q))
  unfolding at_level depth
  level_of p q d = elim (Option-cases (c.at h.index p)) [
    | inl n ↦ cc
    | inr (a, e) ↦
        let (i, g, l) = get-find (c.to_list h.tree) p {a = a} (sym (v.indexed p) ∙ e) in
        let s = shown-depth i (p, a) g in (i, l, ground (arith, s, g))
  ]

  -- Level 0 is begin().
  pub at_level-top : at_level c h 0 ≡ top c h
  unfolding at_level top shown
  at_level-top = ground arith
