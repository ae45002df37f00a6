-- ===== src/MemPool/Defs.antt =====
-- The pool and its operations. A pointer to a block is the block's index. An ASSERT that does not
-- hold ends the program: `fails`.
use cryptobot.Common.{
  ℕ, zero, suc, ◌+◌, Bool, true, false, none, some, List, [], ◌∷◌, ◌==◌, if◌then◌else◌, length,
  get_elem?, set, map,
}

module _ {ℓ} (A : Type ℓ) where
  pub record ObjectBlock : Type ℓ where
    pub object : A
    pub is_free : Bool

  pub record MemPool : Type ℓ where
    pub store : List ObjectBlock
    pub next_free_index : ℕ

pub data Outcome {ℓ} (B : Type ℓ) : Type ℓ where
  done : B → Outcome B
  fails : Outcome B
  unfinished : Outcome B

module _ {ℓ} {A : Type ℓ} where
  abbrev pub free_at : List (ObjectBlock A) → ℕ → Bool
  free_at store i = elim (get_elem? store i) [ none ↦ false | some b ↦ b.is_free ]

  abbrev pub new_pool : A → ℕ → MemPool A
  new_pool a n = record { store = blocks n; next_free_index = 0 }
    where
      blocks : ℕ → List (ObjectBlock A)
      blocks zero = []
      blocks (suc k) = record { object = a; is_free = true } ∷ blocks k

  -- `++next_free_index_`, and 0 at the end.
  abbrev pub next_index : List (ObjectBlock A) → ℕ → ℕ
  next_index store i = if i + 1 == length store then 0 else i + 1

  -- The loop of updateNextFreeIndex, on fuel.
  unfoldable pub search : ℕ → (initial : ℕ) → List (ObjectBlock A) → ℕ → Outcome ℕ
  search zero initial store i = unfinished
  search (suc fuel) initial store i =
      let j = next_index store i in
      let rest = search fuel initial store j in
      if free_at store i then done i else if initial == j then fails else rest

  unfoldable pub update_next_free_index : MemPool A → Outcome (MemPool A)
  unfolding search
  update_next_free_index p =
      elim (search (length p.store) p.next_free_index p.store p.next_free_index) [
        | done i ↦ done (record p { next_free_index = i })
        | fails ↦ fails
        | unfinished ↦ unfinished
      ]

  -- The index of the block that is handed out, and the pool after.
  unfoldable pub allocate : A → MemPool A → Outcome (ℕ × MemPool A)
  unfolding update_next_free_index
  allocate a p =
      let i = p.next_free_index in
      let taken = set p.store i (record { object = a; is_free = false }) in
      if free_at p.store i
      then elim (update_next_free_index (record p { store = taken })) [
        | done p' ↦ done (i, p')
        | fails ↦ fails
        | unfinished ↦ unfinished
      ]
      else fails

  unfoldable pub deallocate : ℕ → MemPool A → Outcome (MemPool A)
  deallocate i p = elim (get_elem? p.store i) [
    | none ↦ fails
    | some b ↦
        if b.is_free
        then fails
        else done (record p { store = set p.store i (record b { is_free = true }) })
  ]

  abbrev pub free_block : ObjectBlock A → ObjectBlock A
  free_block b = record b { is_free = true }

  unfoldable pub reset : MemPool A → MemPool A
  reset p = record { store = map free_block p.store; next_free_index = 0 }
