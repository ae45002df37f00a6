-- ===== src/Bus/Delivery.antt =====
-- Which components an event reaches, and in which order.
use cryptobot.Common.{
  ℕ, Bool, ◌&&◌, not, some, [], ◌∷◌, ◌++◌, ◌==◌, ==_iff, nat_key, if◌then◌else◌, ◌≡◌, refl, arith,
  Bool-cases, Option-cases, inl, inr,
}
use cryptobot.Common.Dict
use cryptobot.Common.Dict.{lookup-insert}
use cryptobot.Bus.Defs.{ComponentsMap, Subscribers, subscribers_of, subscribe, deliver, async_send}

module _ {ℓ ε} {W : Type ℓ} {E : Type ε} (accept : E → ℕ → W → W × Bool) where
  deliver-append :
      (event : E) (xs ys : Subscribers) (w : W)
      → deliver accept event (xs ++ ys) w ≡ deliver accept event ys (deliver accept event xs w)
  unfolding deliver
  deliver-append event [] ys w = refl
  deliver-append event (c ∷ xs) ys w =
      deliver-append event xs ys (if not (c == 0) then (accept event c w).0 else w)

  send-deliver :
      (publisher : ℕ) (event : E) (m : ComponentsMap) (w : W)
      → async_send accept publisher (some event) m w
        ≡ deliver accept event (subscribers_of publisher m) w
  unfolding async_send subscribers_of deliver
  send-deliver publisher event m w = elim (Option-cases (Dict.lookup publisher m)) [
    | inl n ↦ rw (n, async_send, subscribers_of) refl
    | inr (cs, e) ↦ rw (e, async_send, subscribers_of) refl
  ]

  subscribers_of-subscribe :
      (p q c : ℕ) (m : ComponentsMap)
      → subscribers_of q (subscribe p c m)
        ≡ (if p == q then subscribers_of q m ++ (c ∷ []) else subscribers_of q m)
  unfolding subscribers_of subscribe
  subscribers_of-subscribe p q c m =
      ground (arith, ==_iff p q, lookup-insert p q (subscribers_of p m ++ (c ∷ [])) m)

  -- A subscription makes an event of that publisher go, after all that it did before, to the new
  -- subscriber, unless this is the null pointer; an exception of an earlier subscriber does not keep
  -- it from there. It changes nothing for the events of other publishers.
  send-subscribe :
      (p q c : ℕ) (event : E) (m : ComponentsMap) (w : W)
      → async_send accept q (some event) (subscribe p c m) w
        ≡ let before = async_send accept q (some event) m w in
          (if p == q && not (c == 0) then (accept event c before).0 else before)
  unfolding deliver
  send-subscribe p q c event m w =
      rw
        (
          send-deliver q event (subscribe p c m) w,
          send-deliver q event m w,
          subscribers_of-subscribe p q c m,
        )
        (elim (Bool-cases (p == q)) [
          | inl t ↦ rw (t, deliver-append event (subscribers_of q m) (c ∷ []) w) refl
          | inr n ↦ rw n refl
        ])
