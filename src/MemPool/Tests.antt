-- ===== src/MemPool/Tests.antt =====
-- The theorems on the pool at three blocks and at two.
use cryptobot.Common.{
  ℕ, zero, suc, ◌≡◌, ◌≢◌, refl, Bool, true, false, [], ◌∷◌, ◌==◌, if◌then◌else◌, arith, length,
}
use cryptobot.MemPool.{MemPool, ObjectBlock, done, free_at, allocate}
use cryptobot.MemPool.Blocks
use cryptobot.MemPool.Blocks.{IsReady}

abbrev block : Bool → ObjectBlock ℕ
block f = record { object = 7; is_free = f }

abbrev pool : MemPool ℕ
pool = record { store = block false ∷ block true ∷ block true ∷ []; next_free_index = 1 }

abbrev last_one : MemPool ℕ
last_one = record { store = block false ∷ block true ∷ []; next_free_index = 1 }

only_one : (j : ℕ) → j ≢ 1 → free_at last_one.store j ≡ false
only_one zero h = refl
only_one (suc zero) h = ground arith
only_one (suc (suc j)) h = refl

allocate_lem_example :
    (p' : MemPool ℕ) × (allocate 9 pool ≡ done (1, p'))
    × IsReady p'
    × (free_at p'.store 2 ≡ (if 1 == 2 then false else free_at pool.store 2))
    × (length p'.store ≡ length pool.store)
allocate_lem_example = Blocks.allocate_lem 9 pool 2 2 (record { ready = refl }) (ground arith) refl
