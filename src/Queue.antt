-- ===== src/Queue.antt =====
-- moodycamel::ConcurrentQueue, which is not this program's, as one producer and one consumer use it:
-- first in, first out. An enqueue may fail; a bulk dequeue takes at most the number asked for, and
-- something if there is something.
pub mod Lists
pub mod Consume
use cryptobot.Common.{ℕ, ◌≡◌, ◌≤◌, ◌<◌, Bool, List, [], ◌∷◌, ◌++◌, length, if◌then◌else◌}

pub record Queue (A : Type 0) : Type 1 where
  pub Q : Type 0
  pub contents : Q → List A
  pub try_enqueue : A → Q → Bool × Q
  pub try_dequeue_bulk : ℕ → Q → List A × Q
  pub contents-try_enqueue :
      (x : A) (q : Q)
      → contents (try_enqueue x q).1
        ≡ (if (try_enqueue x q).0 then contents q ++ (x ∷ []) else contents q)
  pub contents-try_dequeue_bulk :
      (n : ℕ) (q : Q) → contents q ≡ (try_dequeue_bulk n q).0 ++ contents (try_dequeue_bulk n q).1
  pub length-try_dequeue_bulk : (n : ℕ) (q : Q) → length (try_dequeue_bulk n q).0 ≤ n
  pub try_dequeue_bulk_empty :
      (n : ℕ) (q : Q) → 0 < n → (try_dequeue_bulk n q).0 ≡ [] → contents q ≡ []
