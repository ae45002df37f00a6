-- ===== src/MemPool/Search.antt =====
-- The search for the next free block: how far it goes, and what it finds.
use cryptobot.Common.{
  ℕ, zero, suc, ◌+◌, ◌-◌, ◌<◌, true, false, List, leb, ◌==◌, if◌then◌else◌, length, ◌≡◌, ◌≢◌, ◌⊎◌,
  inl, inr, refl, arith, Bool-cases, subst, ==_iff,
}
use cryptobot.MemPool.Defs.{ObjectBlock, done, unfinished, free_at, next_index, search}

-- The steps from `i` to `j`, around the end of a store of `n` blocks.
unfoldable pub distance : ℕ → ℕ → ℕ → ℕ
distance n i j = if leb i j then j - i else j + n - i

unfoldable pub after : ℕ → ℕ → ℕ
after n i = if i + 1 == n then 0 else i + 1

pub after-bound : (n i : ℕ) → i < n → after n i < n
unfolding after
after-bound n i h = ground arith

after-distance : (n i j : ℕ) → i < n → j < n → i ≢ j → distance n (after n i) j + 1 ≡ distance n i j
unfolding after distance
after-distance n i j hi hj ne = ground arith

distance-zero : (n i j : ℕ) → i < n → j < n → distance n i j ≡ 0 → i ≡ j
unfolding distance
distance-zero n i j hi hj e = ground arith

distance_self : (n i : ℕ) → distance n i i ≡ 0
unfolding distance
distance_self n i = ground arith

pub distance-bound : (n i j : ℕ) → i < n → j < n → distance n i j < n
unfolding distance
distance-bound n i j hi hj = ground arith

after-initial : (n i j : ℕ) → i < n → j < n → i ≢ j → i ≢ after n i
unfolding after
after-initial n i j hi hj ne = ground arith

after_self :
    (n i j : ℕ) → i < n → j < n → i ≢ j → distance n (after n i) j < distance n (after n i) i
unfolding after distance
after_self n i j hi hj ne = ground arith

-- A block ahead of the start stays ahead of it.
ahead-after :
    (n i j s : ℕ)
    → i < n
    → j < n
    → s < n
    → i ≢ j
    → (i ≡ s) ⊎ (distance n i j < distance n i s)
    → (s ≢ after n i) × (distance n (after n i) j < distance n (after n i) s)
ahead-after n i j s hi hj hs ne (inl e) =
    subst (λ t. (t ≢ after n i) × (distance n (after n i) j < distance n (after n i) t)) e
      (after-initial n i j hi hj ne, after_self n i j hi hj ne)
ahead-after n i j s hi hj hs ne (inr h) =
    let step = after-distance n i j hi hj ne in
    let ns : i ≢ s = (λ e. ground (arith, distance_self n i)) in
    let step_s = after-distance n i s hi hs ns in
    ((λ e. ground (arith, distance_self n s)), omega arith)

module _ {ℓ} {A : Type ℓ} (store : List (ObjectBlock A)) where
  next-after : (i : ℕ) → next_index store i ≡ after (length store) i
  unfolding after
  next-after i = refl

  -- What is found is free.
  pub search-free :
      (fuel initial i k : ℕ) → search fuel initial store i ≡ done k → free_at store k ≡ true
  unfolding search
  search-free zero initial i k e = cc
  search-free (suc fuel) initial i k e =
      ground (arith, search-free fuel initial (next_index store i) k)

  -- A free block within the fuel is found before the search is back where it started.
  pub search-finds :
      (fuel initial i j : ℕ)
      → i < length store
      → j < length store
      → initial < length store
      → free_at store j ≡ true
      → distance (length store) i j < fuel
      → (i ≡ initial) ⊎ (distance (length store) i j < distance (length store) i initial)
      → (k : ℕ) × (search fuel initial store i ≡ done k)
  unfolding search after
  search-finds zero initial i j hi hj h0 f d ahead = (0, ground arith)
  search-finds (suc fuel) initial i j hi hj h0 f d ahead =
      let n = length store in
      elim (Bool-cases (free_at store i)) [
        | inl e ↦ (i, cc)
        | inr e ↦
            let ne : i ≢ j = (λ eq. cc) in
            let (ni, further) = ahead-after n i j initial hi hj h0 ne ahead in
            let shorter = after-distance n i j hi hj ne in
            let (k, found) =
              search-finds fuel initial (after n i) j (after-bound n i hi) hj h0 f (omega arith)
                (inr further) in
            (k, not_there fuel initial i k e ni found)
      ]
    where
      not_there :
          (fuel initial i k : ℕ)
          → free_at store i ≡ false
          → initial ≢ after (length store) i
          → search fuel initial store (after (length store) i) ≡ done k
          → search (suc fuel) initial store i ≡ done k
      not_there fuel initial i k e ni found =
          ground (arith, ==_iff initial (after (length store) i))

  -- With fuel for each block on the way back to the start the search is never cut off.
  pub search-ends :
      (fuel initial i : ℕ)
      → i < length store
      → initial < length store
      → distance (length store) (after (length store) i) initial < fuel
      → search fuel initial store i ≢ unfinished
  unfolding search after
  search-ends zero initial i hi h0 d = ground arith
  search-ends (suc fuel) initial i hi h0 d =
      let n = length store in
      elim (Bool-cases (initial == after n i)) [
        | inl e ↦ ground arith
        | inr e ↦
            let ne : after n i ≢ initial = ground (arith, ==_iff initial (after n i)) in
            let shorter = after-distance n (after n i) initial (after-bound n i hi) h0 ne in
            let rest = search-ends fuel initial (after n i) (after-bound n i hi) h0 (omega arith) in
            ground arith
      ]
