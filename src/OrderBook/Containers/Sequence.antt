-- ===== src/OrderBook/Containers/Sequence.antt =====
-- Sorted sequences of tree nodes: insertion behind equal keys, removal of a key, search.
use cryptobot.Common.{
  ℕ, ◌≡◌, refl, ◌≢◌, ◌⊎◌, Bool, true, false, Option, none, some, List, [], ◌∷◌, arith, ◌==◌,
  if◌then◌else◌, All, All-map, Bool-cases, inl, inr,
}

-- The `price_` of a node, and its address.
abbrev pub Entry : Type 0
Entry = ℕ × ℕ

-- What the comparator of a tree is: a strict order in which different keys are ordered.
pub record IsStrict (before : ℕ → ℕ → Bool) : Type 0 where
  pub irrefl : (a : ℕ) → before a a ≡ false
  pub trans : (a b c : ℕ) → before a b ≡ true → before b c ≡ true → before a c ≡ true
  pub connex : (a b : ℕ) → before a b ≡ false → a ≢ b → before b a ≡ true

abbrev pub find : ℕ → List Entry → Option ℕ
find p [] = none
find p ((q, a) ∷ es) = if q == p then some a else find p es

abbrev pub discard : ℕ → List Entry → List Entry
discard p [] = []
discard p (e ∷ es) = let rest = discard p es in if e.0 == p then rest else e ∷ rest

module _ (before : ℕ → ℕ → Bool) where
  abbrev pub IsSorted : List Entry → Type 0
  IsSorted [] = Unit {0}
  IsSorted (e ∷ es) = All (λ x. before e.0 x.0 ≡ true) es × IsSorted es

  unfoldable pub place : Entry → List Entry → List Entry
  place e [] = e ∷ []
  place e (x ∷ es) = let rest = place e es in if before e.0 x.0 then e ∷ x ∷ es else x ∷ rest

module _ {ℓ} (P : Entry → Type ℓ) where
  pub All-discard : (p : ℕ) (es : List Entry) → All P es → All P (discard p es)
  All-discard p [] h = h
  All-discard p (e ∷ es) h = ground (arith, All-discard p es h.1)

  pub All-place :
      (before : ℕ → ℕ → Bool) (e : Entry) (es : List Entry)
      → P e
      → All P es
      → All P (place before e es)
  unfolding place
  All-place before e [] p h = (p, tt)
  All-place before e (x ∷ es) p h = ground (arith, All-place before e es p h.1)

  pub All-find : (p : ℕ) {a : ℕ} (es : List Entry) → All P es → find p es ≡ some a → P (p, a)
  All-find p [] h f = cc
  All-find p {a} ((q, b) ∷ es) h f = ground (arith, All-find p {a = a} es h.1)

pub discard_ne : (p : ℕ) (es : List Entry) → All (λ e. e.0 ≢ p) (discard p es)
discard_ne p [] = tt
discard_ne p (e ∷ es) = ground (arith, discard_ne p es)

pub find-discard :
    (p q : ℕ) (es : List Entry) → find q (discard p es) ≡ (if p == q then none else find q es)
find-discard p q [] = ground arith
find-discard p q (e ∷ es) = ground (arith, find-discard p q es)

module _ (before : ℕ → ℕ → Bool) where
  pub discard-IsSorted :
      (p : ℕ) (es : List Entry) → IsSorted before es → IsSorted before (discard p es)
  discard-IsSorted p [] s = s
  discard-IsSorted p (e ∷ es) s =
      ground (arith, discard-IsSorted p es s.1, All-discard (λ x. before e.0 x.0 ≡ true) p es s.0)

  -- A node that does not come before the first one goes behind it.
  pub place_behind :
      (e x : Entry) (es : List Entry)
      → before e.0 x.0 ≡ false
      → place before e (x ∷ es) ≡ x ∷ place before e es
  unfolding place
  place_behind e x es h = ground arith

  pub find-place :
      (p a q : ℕ) (es : List Entry)
      → find p es ≡ none
      → find q (place before (p, a) es) ≡ (if p == q then some a else find q es)
  unfolding place
  find-place p a q [] f = refl
  find-place p a q (e ∷ es) f = ground (arith, find-place p a q es)

module _ {before : ℕ → ℕ → Bool} (strict : IsStrict before) where
  pub place-IsSorted :
      (e : Entry) (es : List Entry)
      → find e.0 es ≡ none
      → IsSorted before es
      → IsSorted before (place before e es)
  unfolding place
  place-IsSorted e [] f s = (tt, tt)
  place-IsSorted e (x ∷ es) f s = elim (Bool-cases (before e.0 x.0)) [
    | inl first ↦ rw first ((first, All-map es (λ y h. strict.trans e.0 x.0 y.0 first h) s.0), s)
    | inr later ↦ rw later (
      All-place (λ y. before x.0 y.0 ≡ true) before e es
          (strict.connex e.0 x.0 later (ground arith)) s.0,
      place-IsSorted e es (ground arith) s.1,
    )
  ]

  -- The first node of a sorted sequence comes before every other key.
  pub first_is_best :
      (p a q b : ℕ) (es : List Entry)
      → IsSorted before ((p, a) ∷ es)
      → find q ((p, a) ∷ es) ≡ some b
      → (p ≡ q) ⊎ (before p q ≡ true)
  first_is_best p a q b es s f = elim (Bool-cases (p == q)) [
    | inl same ↦ inl (ground arith)
    | inr other ↦ inr (All-find (λ x. before p x.0 ≡ true) q {a = b} es s.0 (ground arith))
  ]
