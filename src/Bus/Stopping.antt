-- ===== src/Bus/Stopping.antt =====
-- Which components a stop reaches, and how often.
use cryptobot.Common.{
  ℕ, ◌+◌, ◌≤◌, Bool, true, false, ◌&&◌, not, List, [], ◌∷◌, ◌++◌, ◌==◌, ==_iff, nat_key,
  if◌then◌else◌, ◌≡◌, refl, sym, subst, ◌∙◌, arith, Bool-cases, inl, inr,
}
use cryptobot.Common.Dict
use cryptobot.Bus.Defs.{
  ComponentsMap, Subscribers, is_processed, stop_each, stop_publishers, stop_all_subscribers,
}

abbrev pub count : ℕ → List ℕ → ℕ
count c [] = 0
count c (x ∷ xs) = (if x == c then 1 else 0) + count c xs

-- The subscribers of all publishers.
abbrev pub all_subscribers : ComponentsMap → Subscribers
all_subscribers [] = []
all_subscribers ((publisher, cs) ∷ m) = cs ++ all_subscribers m

-- A component that is subscribed; the null pointer is none.
abbrev pub takes_part : ℕ → Subscribers → Bool
takes_part c cs = not (c == 0) && is_processed c cs

is_processed-count : (c : ℕ) (xs : List ℕ) → is_processed c xs ≡ not (count c xs == 0)
is_processed-count c [] = ground arith
is_processed-count c (x ∷ xs) = ground (arith, is_processed-count c xs)

module _ {ℓ} {W : Type ℓ} (stop : ℕ → W → W × Bool) where
  stop_each-append :
      (xs ys : Subscribers) (p : List ℕ) (w : W)
      → stop_each stop (xs ++ ys) p w
        ≡ stop_each stop ys (stop_each stop xs p w).0 (stop_each stop xs p w).1
  unfolding stop_each
  stop_each-append [] ys p w = refl
  stop_each-append (c ∷ xs) ys p w = elim (Bool-cases (not (c == 0) && not (is_processed c p))) [
    | inl t ↦ rw t (stop_each-append xs ys (if (stop c w).1 then p else c ∷ p) (stop c w).0)
    | inr n ↦ rw n (stop_each-append xs ys p w)
  ]

  publishers-each :
      (m : ComponentsMap) (p : List ℕ) (w : W)
      → stop_publishers stop m p w ≡ stop_each stop (all_subscribers m) p w
  unfolding stop_publishers stop_each
  publishers-each [] p w = refl
  publishers-each ((publisher, cs) ∷ m) p w =
      publishers-each m (stop_each stop cs p w).0 (stop_each stop cs p w).1
      ∙ sym (stop_each-append cs (all_subscribers m) p w)

  stop_each-bound :
      (c : ℕ) (cs : Subscribers) (p : List ℕ) (w : W)
      → count c p ≤ 1
      → (count c (stop_each stop cs p w).0 ≤ 1) × (count c p ≤ count c (stop_each stop cs p w).0)
  unfolding stop_each
  stop_each-bound c [] p w h = ground (arith, h)
  stop_each-bound c (x ∷ cs) p w h =
      let next = if (stop x w).1 then p else x ∷ p in
      elim (Bool-cases (not (x == 0) && not (is_processed x p))) [
        | inl t ↦
            let rest =
              stop_each-bound c cs next (stop x w).0
                (ground (arith, t, h, is_processed-count x p, ==_iff x c)) in
            ground (arith, t, rest, ==_iff x c)
        | inr n ↦ let rest = stop_each-bound c cs p w h in ground (arith, n, rest)
      ]

  stop_each-other :
      (c : ℕ) (cs : Subscribers) (p : List ℕ) (w : W)
      → takes_part c cs ≡ false
      → count c (stop_each stop cs p w).0 ≡ count c p
  unfolding stop_each
  stop_each-other c [] p w h = refl
  stop_each-other c (x ∷ cs) p w h =
      let next = if (stop x w).1 then p else x ∷ p in
      elim (Bool-cases (not (x == 0) && not (is_processed x p))) [
        | inl t ↦ ground (arith, t, h, stop_each-other c cs next (stop x w).0, ==_iff x c)
        | inr n ↦ ground (arith, n, h, stop_each-other c cs p w)
      ]

  stop_each-reached :
      (c : ℕ) (cs : Subscribers) (p : List ℕ) (w : W)
      → ((v : W) → (stop c v).1 ≡ false)
      → count c p ≤ 1
      → takes_part c cs ≡ true
      → count c (stop_each stop cs p w).0 ≡ 1
  unfolding stop_each
  stop_each-reached c [] p w q b h = ground (arith, h)
  stop_each-reached c (x ∷ cs) p w q b h =
      let next = if (stop x w).1 then p else x ∷ p in
      let seen = is_processed-count c p in
      elim (Bool-cases (not (x == 0) && not (is_processed x p))) [
        | inl t ↦ elim (Bool-cases (x == c)) [
          | inl e ↦
              let same : x ≡ c = ground (arith, e, ==_iff x c) in
              let quiet : (stop x w).1 ≡ false =
                subst (λ y. (stop y w).1 ≡ false) (sym same) (q w) in
              let new : count c (x ∷ p) ≡ 1 = ground (arith, t, e, same, is_processed-count x p) in
              let rest = stop_each-bound c cs (x ∷ p) (stop x w).0 (omega (arith, new)) in
              rw (t, quiet) (omega (arith, new, rest))
          | inr m ↦ ground (
            arith,
            t,
            h,
            m,
            stop_each-reached c cs next (stop x w).0 q (ground (arith, m, b))
                (ground (arith, h, m)),
          )
        ]
        | inr n ↦ elim (Bool-cases (x == c)) [
          | inl e ↦
              let same : x ≡ c = ground (arith, e, ==_iff x c) in
              let old : count c p ≡ 1 = ground (arith, n, e, same, h, b, is_processed-count x p) in
              let rest = stop_each-bound c cs p w b in rw n (omega (arith, old, rest))
          | inr m ↦ ground (arith, n, stop_each-reached c cs p w q b (ground (arith, h, m)))
        ]
      ]

  each_lem :
      (c : ℕ) (cs : Subscribers) (w : W)
      → let stopped = count c (stop_each stop cs [] w).0 in
        (stopped ≤ (if takes_part c cs then 1 else 0))
        × (((v : W) → (stop c v).1 ≡ false) → stopped ≡ (if takes_part c cs then 1 else 0))
  each_lem c cs w =
      let bound = stop_each-bound c cs [] w (omega arith) in
      elim (Bool-cases (takes_part c cs)) [
        | inl t ↦ rw t (bound.0, λ q. stop_each-reached c cs [] w q (omega arith) t)
        | inr n ↦
            let none_at_all = stop_each-other c cs [] w n in
            rw n (omega (arith, none_at_all), λ q. none_at_all)
      ]

  -- StopAllSubscribers, whatever the components do when they are stopped, stops a component without
  -- an exception at most once, and only if it is subscribed to some publisher and not the null
  -- pointer.
  stop_all_subscribers-bound :
      (c : ℕ) (m : ComponentsMap) (w : W)
      → count c (stop_all_subscribers stop m w).0
        ≤ (if takes_part c (all_subscribers m) then 1 else 0)
  unfolding stop_all_subscribers
  stop_all_subscribers-bound c m w =
      rw (publishers-each m [] w) (each_lem c (all_subscribers m) w).0
