-- ===== src/Session/Acquire.antt =====
-- Which session a client gets from the pool.
use cryptobot.Common.{
  ℕ, zero, suc, ◌<◌, Bool, true, false, some, List, [], ◌∷◌, ◌++◌, ◌≡◌, refl, ◌∙◌, ap, sym, subst,
  arith, length, All,
}
use cryptobot.Session.Defs.{StatusSession, status_eq}
use cryptobot.Session.Pool.{ConnectionPool, remove, is_in, on_ready, on_end, acquire_connection}
use mathlib.Core.List.{append-nil, append_assoc}

module _ (status : ℕ → StatusSession) where
  abbrev pub is_ready : ℕ → Bool
  is_ready a = status_eq (status a) StatusSession.ready

  abbrev pub NoneReady : List ℕ → Type 0
  NoneReady xs = All (λ a. is_ready a ≡ false) xs

  NoneReady-append : (xs ys : List ℕ) → NoneReady xs → NoneReady ys → NoneReady (xs ++ ys)
  NoneReady-append [] ys h k = k
  NoneReady-append (x ∷ xs) ys (h, hs) k = (h, NoneReady-append xs ys hs k)

  -- AcquireConnection returns the first session of the queue that is ready, within more turns than
  -- there are sessions before it, and moves those, and the session itself, to the end of the
  -- queue.
  pub acquire_connection_lem :
      (n : ℕ) (xs ys : List ℕ) (a : ℕ)
      → length xs < n
      → NoneReady xs
      → is_ready a ≡ true
      → acquire_connection n status (xs ++ (a ∷ ys)) ≡ (some a, ys ++ (xs ++ (a ∷ [])))
  unfolding acquire_connection
  acquire_connection_lem zero xs ys a l h r = absurd (omega arith)
  acquire_connection_lem (suc n) [] ys a l h r = rw r refl
  acquire_connection_lem (suc n) (x ∷ xs) ys a l (h, hs) r = rw h (
      ap (acquire_connection n status) (append_assoc xs (a ∷ ys) (x ∷ []))
      ∙ acquire_connection_lem n xs (ys ++ (x ∷ [])) a (omega arith) hs r
      ∙ ap (λ q. (some a, q)) (append_assoc ys (x ∷ []) (xs ++ (a ∷ []))))

  -- Two clients that take a session one after the other, while no session changes its status, get the
  -- same one where no other session is ready.
  pub acquire_connection_twice :
      (n m : ℕ) (xs ys : List ℕ) (a : ℕ)
      → length xs < n
      → length (ys ++ xs) < m
      → NoneReady xs
      → NoneReady ys
      → is_ready a ≡ true
      → let (first, queue) = acquire_connection n status (xs ++ (a ∷ ys)) in
        (first ≡ some a) × ((acquire_connection m status queue).0 ≡ some a)
  acquire_connection_twice n m xs ys a l k hx hy r = rw (acquire_connection_lem n xs ys a l hx r) (
    refl,
    subst (λ q. (acquire_connection m status q).0 ≡ some a) (append_assoc ys xs (a ∷ []))
        (ap (λ z. z.0)
          (acquire_connection_lem m (ys ++ xs) [] a k (NoneReady-append ys xs hy hx) r)),
  )

remove_twice : (a : ℕ) (xs : List ℕ) → remove a (remove a xs) ≡ remove a xs
remove_twice a [] = refl
remove_twice a (x ∷ xs) = ground (arith, remove_twice a xs)

abbrev pub replicate : ℕ → ℕ → List ℕ
replicate zero a = []
replicate (suc n) a = a ∷ replicate n a

-- So many times, the session at an address ends, and the one built in its place becomes ready.
unfoldable pub renewed : ℕ → (a fresh : ℕ) → ConnectionPool → ConnectionPool
renewed zero a fresh p = p
renewed (suc n) a fresh p = renewed n a fresh (on_ready a (on_end a false fresh p))

-- A session that ends is not taken from the queue, and the one that is built in its place, where the
-- constructor does not throw, has its address, since the memory pool gives the block that came back
-- last. So after the session at an address has ended and its successor has become ready n times,
-- one end handled after the other, the queue has n more entries for that address, after all that it
-- had, while the sessions are the same as before.
pub on_end_again :
    (n a fresh : ℕ) (p : ConnectionPool)
    → p.is_handling_session ≡ false
    → is_in a p.live ≡ true
    → let p' = renewed n a fresh p in
      (p'.awaiable_connections ≡ p.awaiable_connections ++ replicate n a)
      × (is_in a p'.live ≡ true)
      × (remove a p'.live ≡ remove a p.live)
      × (p'.free ≡ p.free)
unfolding renewed on_end on_ready
on_end_again zero a fresh p f l = (sym (append-nil p.awaiable_connections), l, refl, refl)
on_end_again (suc n) a fresh p f l =
    let p₁ = on_ready a (on_end a false fresh p) in
    let q₁ : p₁.awaiable_connections ≡ p.awaiable_connections ++ (a ∷ []) = ground (arith, f) in
    let l₁ : p₁.live ≡ a ∷ remove a p.live = ground (arith, f) in
    let free₁ : p₁.free ≡ p.free = ground (arith, f) in
    let r₁ : remove a p₁.live ≡ remove a p.live = ground (arith, l₁, remove_twice a p.live) in
    let (q, live, others, free) =
      on_end_again n a fresh p₁ (ground (arith, f)) (ground (arith, l₁)) in
    (
      q ∙ ap (λ x. x ++ replicate n a) q₁ ∙ append_assoc p.awaiable_connections (a ∷ []) _,
      live,
      others ∙ r₁,
      free ∙ free₁,
    )
