-- ===== src/Queue/Lists.antt =====
-- A list as a queue, for the tests.
use cryptobot.Common.{
  ℕ, zero, suc, ◌≡◌, refl, ap, ◌≤◌, ◌<◌, List, [], ◌∷◌, ◌++◌, length, arith, ltb, if◌then◌else◌,
}
use cryptobot.Queue.{Queue}

module _ {A : Type 0} where
  abbrev pub split : ℕ → List A → List A × List A
  split zero xs = ([], xs)
  split (suc n) [] = ([], [])
  split (suc n) (x ∷ xs) = let rest = split n xs in (x ∷ rest.0, rest.1)

  pub split-append : (n : ℕ) (xs : List A) → xs ≡ (split n xs).0 ++ (split n xs).1
  split-append zero xs = refl
  split-append (suc n) [] = refl
  split-append (suc n) (x ∷ xs) = ap (λ ys. x ∷ ys) (split-append n xs)

  pub length-split : (n : ℕ) (xs : List A) → length (split n xs).0 ≤ n
  length-split zero xs = omega arith
  length-split (suc n) [] = omega arith
  length-split (suc n) (x ∷ xs) = omega (arith, length-split n xs)

  pub split_empty : (n : ℕ) (xs : List A) → 0 < n → (split n xs).0 ≡ [] → xs ≡ []
  split_empty zero xs h e = absurd (omega arith)
  split_empty (suc n) [] h e = refl
  split_empty (suc n) (x ∷ xs) h e = cc

  -- A queue with room for so many elements.
  abbrev pub lists : ℕ → Queue A
  lists room = record {
    Q = List A;
    contents = λ q. q;
    try_enqueue = λ x q. (ltb (length q) room, if ltb (length q) room then q ++ (x ∷ []) else q);
    try_dequeue_bulk = split;
    contents-try_enqueue = λ x q. refl;
    contents-try_dequeue_bulk = split-append;
    length-try_dequeue_bulk = length-split;
    try_dequeue_bulk_empty = split_empty;
  }
