-- ===== src/Session/Pool.antt =====
-- ConnectionPool: sessions by their addresses. The queues of useless and of copied connections are
-- never filled. An enqueue finds room. Its session_pool_ is a MemoryPool, which gives the block that
-- came back last; where no block has come back, the address is boost's, a parameter.
use cryptobot.Common.{
  ℕ, zero, suc, Bool, true, false, Option, none, some, List, [], ◌∷◌, ◌++◌, ◌==◌, if◌then◌else◌,
}
use cryptobot.Session.Defs.{StatusSession, status_eq}

pub record ConnectionPool : Type 0 where
  pub awaiable_connections : List ℕ
  -- The sessions that session_pool_ has handed out, and its free list from head_ on.
  pub live : List ℕ
  pub free : List ℕ
  pub is_handling_session : Bool

abbrev pub remove : ℕ → List ℕ → List ℕ
remove a [] = []
remove a (x ∷ xs) = let rest = remove a xs in if x == a then rest else x ∷ rest

abbrev pub is_in : ℕ → List ℕ → Bool
is_in a [] = false
is_in a (x ∷ xs) = let rest = is_in a xs in if x == a then true else rest

-- The constructor, for the addresses that session_pool_ gives, which is as many as pool_size.
unfoldable pub new_pool : List ℕ → ConnectionPool
new_pool addresses = record {
  awaiable_connections = [];
  live = addresses;
  free = [];
  is_handling_session = false;
}

-- The callback of a session that becomes ready.
unfoldable pub on_ready : ℕ → ConnectionPool → ConnectionPool
on_ready a p = record p { awaiable_connections = p.awaiable_connections ++ (a ∷ []) }

-- Deallocate of MemoryPoolThreadSafety, without interference of another thread.
unfoldable pub deallocate : ℕ → ConnectionPool → ConnectionPool
deallocate a p = record p { live = remove a p.live; free = a ∷ p.free }

-- Its Allocate, with the address that boost gives where the free list is empty.
unfoldable pub allocate : ℕ → ConnectionPool → ℕ × ConnectionPool
allocate fresh p = elim p.free [ [] ↦ (fresh, p) | ◌∷◌ a rest ↦ (a, record p { free = rest }) ]

-- TryCreateNewSession, for a constructor that throws or not: if it does, the block is lost.
unfoldable pub try_create_new_session : Bool → ℕ → ConnectionPool → ConnectionPool
unfolding allocate
try_create_new_session throws fresh p =
    let (a, p') = allocate fresh p in if throws then p' else record p' { live = a ∷ p'.live }

-- The callback of a session that expires or is closed by the system.
unfoldable pub on_end : ℕ → Bool → ℕ → ConnectionPool → ConnectionPool
unfolding try_create_new_session deallocate
on_end a throws fresh p =
    if p.is_handling_session then p else try_create_new_session throws fresh (deallocate a p)

-- AcquireConnection, for a number of dequeued sessions: it waits where the queue is empty.
unfoldable pub acquire_connection : ℕ → (ℕ → StatusSession) → List ℕ → Option ℕ × List ℕ
acquire_connection zero status queue = (none, queue)
acquire_connection (suc n) status [] = (none, [])
acquire_connection (suc n) status (a ∷ queue) =
    let rest = acquire_connection n status (queue ++ (a ∷ [])) in
    if status_eq (status a) StatusSession.ready then (some a, queue ++ (a ∷ [])) else rest

-- CloseAllSessions: the sessions that AsyncCloseSessionGracefully is called on.
unfoldable pub close_all_sessions : ConnectionPool → ConnectionPool × List ℕ
close_all_sessions p = (record p { awaiable_connections = [] }, p.awaiable_connections)
