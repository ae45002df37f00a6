-- ===== src/OrderBook/Containers.antt =====
-- The containers of a book that are not this program's: boost::intrusive::avltree, and
-- emhash7::HashMap as the code uses it. A tree is seen through its iteration from begin() to end(),
-- which gives each node as its `price_`, the key, and its address; a hash map through `at`, where
-- `none` is the null pointer that the code tests for.
mod Sequence
unfoldable pub use Sequence.*
use cryptobot.Common.{ℕ, ◌≡◌, Bool, Option, none, some, List, [], ◌==◌, if◌then◌else◌}

pub record Containers : Type 1 where
  pub Tree : Type 0
  pub to_list : Tree → List Entry
  pub no_nodes : Tree
  pub insert_equal : (ℕ → ℕ → Bool) → Entry → Tree → Tree
  pub erase_equal : ℕ → Tree → Tree
  pub to_list-no_nodes : to_list no_nodes ≡ []
  -- An insertion into a sorted tree goes behind the nodes that do not come after the new one.
  pub to_list-insert_equal :
      (before : ℕ → ℕ → Bool) (e : Entry) (t : Tree)
      → IsSorted before (to_list t)
      → to_list (insert_equal before e t) ≡ place before e (to_list t)
  -- Erasing by a key erases every node with it.
  pub to_list-erase_equal : (p : ℕ) (t : Tree) → to_list (erase_equal p t) ≡ discard p (to_list t)
  pub Index : Type 0
  pub at : Index → ℕ → Option ℕ
  -- The addresses that an iteration over the hash map meets.
  pub addresses : Index → List ℕ
  pub no_entries : Index
  pub emplace_unique : ℕ → ℕ → Index → Index
  pub erase_key : ℕ → Index → Index
  pub at-no_entries : (q : ℕ) → at no_entries q ≡ none
  pub at-emplace_unique :
      (p a : ℕ) (i : Index) (q : ℕ)
      → at i p ≡ none
      → at (emplace_unique p a i) q ≡ (if p == q then some a else at i q)
  pub at-erase_key :
      (p : ℕ) (i : Index) (q : ℕ) → at (erase_key p i) q ≡ (if p == q then none else at i q)
