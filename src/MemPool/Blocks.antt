-- ===== src/MemPool/Blocks.antt =====
-- What allocate, deallocate and reset do to the blocks of a pool.
use cryptobot.Common.{
  ℕ, zero, suc, ◌<◌, true, false, some, List, [], ◌∷◌, ltb, ◌==◌, if◌then◌else◌, length, get_elem?,
  set, map, ◌≡◌, ◌≢◌, ◌⊎◌, inl, inr, refl, arith, Bool-cases, ==_iff,
}
use cryptobot.MemPool.Defs.{
  ObjectBlock, MemPool, Outcome, done, fails, unfinished, free_at, search, update_next_free_index,
  allocate, deallocate, free_block, reset,
}
use cryptobot.MemPool.Search.{
  search-free, search-finds, search-ends, distance-bound, after, after-bound,
}

outcome_cases : (o : Outcome ℕ) → ((k : ℕ) × (o ≡ done k)) ⊎ ((o ≡ fails) ⊎ (o ≡ unfinished))
outcome_cases (done k) = inl (k, refl)
outcome_cases fails = inr (inl refl)
outcome_cases unfinished = inr (inr refl)

module _ {ℓ} {A : Type ℓ} where
  free_at-set :
      (store : List (ObjectBlock A)) (i j : ℕ) (b : ObjectBlock A)
      → free_at (set store i b) j
        ≡ (if i == j then (if ltb i (length store) then b.is_free else false) else free_at store j)
  free_at-set [] i j b = ground arith
  free_at-set (x ∷ store) zero zero b = ground arith
  free_at-set (x ∷ store) zero (suc j) b = ground arith
  free_at-set (x ∷ store) (suc i) zero b = ground arith
  free_at-set (x ∷ store) (suc i) (suc j) b = ground (arith, free_at-set store i j b)

  length-set :
      (store : List (ObjectBlock A)) (i : ℕ) (b : ObjectBlock A)
      → length (set store i b) ≡ length store
  length-set [] i b = refl
  length-set (x ∷ store) zero b = refl
  length-set (x ∷ store) (suc i) b = ground (arith, length-set store i b)

  free_at-bound : (store : List (ObjectBlock A)) (i : ℕ) → free_at store i ≡ true → i < length store
  free_at-bound [] i e = ground arith
  free_at-bound (x ∷ store) zero e = omega arith
  free_at-bound (x ∷ store) (suc i) e = ground (arith, free_at-bound store i)

  get-bound :
      (store : List (ObjectBlock A)) (i : ℕ) (b : ObjectBlock A)
      → get_elem? store i ≡ some b
      → i < length store
  get-bound [] i b e = ground arith
  get-bound (x ∷ store) zero b e = omega arith
  get-bound (x ∷ store) (suc i) b e = ground (arith, get-bound store i b)

  get-set :
      (store : List (ObjectBlock A)) (i : ℕ) (b : ObjectBlock A)
      → i < length store
      → get_elem? (set store i b) i ≡ some b
  get-set [] i b h = ground arith
  get-set (x ∷ store) zero b h = refl
  get-set (x ∷ store) (suc i) b h = get-set store i b (omega arith)

  all_free :
      (store : List (ObjectBlock A)) (i : ℕ)
      → i < length store
      → free_at (map free_block store) i ≡ true
  all_free [] i h = ground arith
  all_free (x ∷ store) zero h = refl
  all_free (x ∷ store) (suc i) h = all_free store i (omega arith)

  length-map : (store : List (ObjectBlock A)) → length (map free_block store) ≡ length store
  length-map [] = refl
  length-map (x ∷ store) = ground (arith, length-map store)

  -- The next block to hand out is free.
  pub record IsReady (p : MemPool A) : Type ℓ where
    pub ready : free_at p.store p.next_free_index ≡ true

  -- From a pool that is ready and has a second free block, allocate succeeds: it hands out a block
  -- that was free, only that block is in use after it, the number of blocks stays, and the pool is
  -- ready again.
  pub allocate_lem :
      (a : A) (p : MemPool A) (j k : ℕ)
      → IsReady p
      → j ≢ p.next_free_index
      → free_at p.store j ≡ true
      → (p' : MemPool A) × (allocate a p ≡ done (p.next_free_index, p'))
        × IsReady p'
        × (free_at p'.store k ≡ (if p.next_free_index == k then false else free_at p.store k))
        × (length p'.store ≡ length p.store)
  unfolding allocate update_next_free_index
  allocate_lem a p j k r ne f =
      let i = p.next_free_index in
      let b : ObjectBlock A = record { object = a; is_free = false } in
      let taken = set p.store i b in
      let size = length-set p.store i b in
      let hi = free_at-bound p.store i r.ready in
      let hj = free_at-bound p.store j f in
      let now = free_at-set p.store i j b in
      let ti : i < length taken = omega arith in
      let tj : j < length taken = omega arith in
      let still : free_at taken j ≡ true = ground arith in
      let (next, found) =
        search-finds taken (length taken) i i j ti tj ti still
          (distance-bound (length taken) i j ti tj) (inl refl) in
      (
        record { store = taken; next_free_index = next },
        ground arith,
        record { ready = search-free taken (length taken) i i next found },
        ground (arith, free_at-set p.store i k b),
        size,
      )

  -- On a pool that is ready and whose next block is the only free one, allocate ends the program,
  -- although it has a block to hand out: a pool of n blocks serves n - 1 objects.
  pub allocate_last :
      (a : A) (p : MemPool A)
      → IsReady p
      → ((j : ℕ) → j ≢ p.next_free_index → free_at p.store j ≡ false)
      → allocate a p ≡ fails
  unfolding allocate update_next_free_index
  allocate_last a p r none_else =
      let i = p.next_free_index in
      let b : ObjectBlock A = record { object = a; is_free = false } in
      let taken = set p.store i b in
      let n = length taken in
      let size = length-set p.store i b in
      let hi = free_at-bound p.store i r.ready in
      let ti : i < n = omega arith in
      let next = after-bound n i ti in
      let ends = search-ends taken n i i ti ti (distance-bound n (after n i) i next ti) in
      elim (outcome_cases (search n i taken i)) [
        | inl (k, e) ↦
            let f = search-free taken n i i k e in
            let now = free_at-set p.store i k b in
            let others = none_else k in
            elim (Bool-cases (i == k)) [
              | inl eq ↦ ground arith
              | inr ne ↦ let other = none_else k (ground (arith, ==_iff i k)) in ground arith
            ]
        | inr (inl e) ↦ let yes = r.ready in cc
        | inr (inr e) ↦ elim (ends e) [ ]
      ]

  -- A block in use that is given back to a pool that is ready is free after it, the other blocks
  -- stay, and the pool is ready still; giving it back a second time ends the program.
  deallocate_lem :
      (i k : ℕ) (p : MemPool A) (b : ObjectBlock A)
      → IsReady p
      → get_elem? p.store i ≡ some b
      → b.is_free ≡ false
      → (p' : MemPool A) × (deallocate i p ≡ done p')
        × IsReady p'
        × (free_at p'.store k ≡ (if i == k then true else free_at p.store k))
        × (deallocate i p' ≡ fails)
  unfolding deallocate
  deallocate_lem i k p b r e u =
      let back = set p.store i (free_block b) in
      let hi = get-bound p.store i b e in
      let ready = r.ready in
      let again = get-set p.store i (free_block b) hi in
      (
        record p { store = back },
        cc,
        record { ready = ground (arith, free_at-set p.store i p.next_free_index (free_block b)) },
        ground (arith, free_at-set p.store i k (free_block b)),
        cc,
      )

  -- After a reset all blocks are free, and a pool with any block is ready.
  pub reset_lem :
      (p : MemPool A) (k : ℕ)
      → k < length p.store
      → (free_at (reset p).store k ≡ true)
        × IsReady (reset p)
        × (length (reset p).store ≡ length p.store)
  unfolding reset
  reset_lem p k h = (
    all_free p.store k h,
    record { ready = all_free p.store 0 (omega arith) },
    length-map p.store,
  )
