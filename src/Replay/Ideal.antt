-- ===== src/Replay/Ideal.antt =====
-- The service with a queue that always has room, as the list of what is pushed on it, and the service
-- of the code against it.
use cryptobot.Common.{
  ℕ, zero, suc, ◌+◌, ◌<◌, Bool, true, false, Option, none, some, List, [], ◌∷◌, ◌++◌, length, arith,
  ◌≡◌, refl, ap, ◌∙◌, subst, Bool-cases, inl, inr,
}
use cryptobot.Queue.{Queue}
use cryptobot.Replay.Defs.{
  OhlcvExt, External, push_kline, push_times, forward, Service, launch_one, ask_getter, run_round,
  run_rounds,
}

abbrev pub repeated : ℕ → OhlcvExt → List OhlcvExt → List OhlcvExt
repeated zero first out = out
repeated (suc n) first out = repeated n first (out ++ (first ∷ []))

unfoldable pub ideal_forward : List OhlcvExt → Option (List OhlcvExt) → Option (List OhlcvExt)
ideal_forward batch none = none
ideal_forward [] (some out) = some out
ideal_forward (first ∷ rest) (some out) = some (repeated (suc (length rest)) first out)

module _ (queue : Queue OhlcvExt) where
  open queue use {Q, try_dequeue_bulk}

  unfoldable pub ideal_round : Service queue (List OhlcvExt) → Service queue (List OhlcvExt)
  unfolding ideal_forward ask_getter
  ideal_round s =
      let s' = ask_getter queue (List OhlcvExt) s in
      let (batch, q) = try_dequeue_bulk 50 s'.internal_queue in
      record s' { internal_queue = q; external_queue = ideal_forward batch s'.external_queue }

  unfoldable pub ideal_rounds : ℕ → Service queue (List OhlcvExt) → Service queue (List OhlcvExt)
  unfolding ideal_round
  ideal_rounds zero s = s
  ideal_rounds (suc n) s = ideal_rounds n (ideal_round s)

-- Of so many calls of try_enqueue one after the other, from any call on, one finds room.
abbrev pub IsDrained : (accepts : ℕ → Bool) (tries : ℕ) → Type 0
IsDrained accepts tries = (t : ℕ) → (n : ℕ) × (n < tries) × (accepts (t + n) ≡ true)

abbrev pub taken_of : Option External → Option (List OhlcvExt)
taken_of none = none
taken_of (some x) = some x.taken

-- What the service has pushed, in place of its external queue.
abbrev pub seen : {queue : Queue OhlcvExt} → Service queue External → Service queue (List OhlcvExt)
seen s = record {
  is_init = s.is_init;
  history = s.history;
  internal_queue = s.internal_queue;
  external_queue = taken_of s.external_queue;
  need_fetch_more = s.need_fetch_more;
}

module _ (accepts : ℕ → Bool) (tries : ℕ) where
  push_kline_lem :
      (n m : ℕ) (k : OhlcvExt) (x : External)
      → m < n
      → accepts (x.calls + m) ≡ true
      → (x' : External) × (push_kline accepts tries n k x ≡ some x')
        × (x'.taken ≡ x.taken ++ (k ∷ []))
  unfolding push_kline
  push_kline_lem zero m k x l a = absurd (omega arith)
  push_kline_lem (suc n) zero k x l a =
      let same : x.calls + 0 ≡ x.calls = omega arith in
      let found : accepts x.calls ≡ true = subst (λ t. accepts t ≡ true) same a in
      (
        record { taken = x.taken ++ (k ∷ []); calls = suc x.calls },
        rw (push_kline, found) refl,
        refl,
      )
  push_kline_lem (suc n) (suc m) k x l a =
      let next : x.calls + suc m ≡ suc x.calls + m = omega arith in
      let (x', pushed, t) =
        push_kline_lem n m k (record x { calls = suc x.calls }) (omega (arith, l))
          (subst (λ t. accepts t ≡ true) next a) in
      elim (Bool-cases (accepts x.calls)) [
        | inl e ↦ (
          record { taken = x.taken ++ (k ∷ []); calls = suc x.calls },
          rw (push_kline, e) refl,
          refl,
        )
        | inr e ↦ (x', rw (push_kline, e) pushed, t)
      ]

  module _ (drained : IsDrained accepts tries) where
    push_times_lem :
        (n : ℕ) (k : OhlcvExt) (x : External)
        → (x' : External) × (push_times accepts tries n k x ≡ some x')
          × (x'.taken ≡ repeated n k x.taken)
    unfolding push_times
    push_times_lem zero k x = (x, refl, refl)
    push_times_lem (suc n) k x =
        let (m, l, a) = drained x.calls in
        let (x₁, pushed, t₁) = push_kline_lem tries m k x l a in
        let (x₂, rest, t₂) = push_times_lem n k x₁ in
        (x₂, rw (push_times, pushed) rest, t₂ ∙ ap (repeated n k) t₁)

    forward_lem :
        (batch : List OhlcvExt) (ext : Option External)
        → (ext' : Option External) × (forward accepts tries batch ext ≡ some ext')
          × (taken_of ext' ≡ ideal_forward batch (taken_of ext))
    unfolding forward ideal_forward
    forward_lem batch none = (none, refl, refl)
    forward_lem [] (some x) = (some x, refl, refl)
    forward_lem (first ∷ rest) (some x) =
        let (x', pushed, t) = push_times_lem (suc (length rest)) first x in
        (some x', rw (forward, pushed) refl, ap some t)

    module _ (queue : Queue OhlcvExt) where
      open queue use {Q, try_enqueue, try_dequeue_bulk}

      ask_of :
          (init : Bool) (history : List OhlcvExt) (q : Q) (ext : Option External) (need : Bool)
          → let s : Service queue External = record {
            is_init = init;
            history = history;
            internal_queue = q;
            external_queue = ext;
            need_fetch_more = need;
          } in
            seen (ask_getter queue External s) ≡ ask_getter queue (List OhlcvExt) (seen s)
      unfolding ask_getter launch_one
      ask_of init history q ext false = refl
      ask_of false history q ext true = refl
      ask_of true [] q ext true = refl
      ask_of true (k ∷ rest) q ext true = refl

      round_lem :
          (s : Service queue External)
          → (s' : Service queue External) × (run_round queue accepts tries s ≡ some s')
            × (seen s' ≡ ideal_round queue (seen s))
      unfolding run_round ideal_round
      round_lem s =
          let a = ask_getter queue External s in
          let (batch, q) = try_dequeue_bulk 50 a.internal_queue in
          let (ext, e, t) = forward_lem batch a.external_queue in
          let same =
            ask_of s.is_init s.history s.internal_queue s.external_queue s.need_fetch_more in
          (
            record a { internal_queue = q; external_queue = ext },
            rw (run_round, e) refl,
            ap (λ x. record (seen a) { internal_queue = q; external_queue = x }) t
                ∙ ap
                    (λ (z : Service queue (List OhlcvExt)).
                      let (batch', q') = try_dequeue_bulk 50 z.internal_queue in
                      record z {
                        internal_queue = q';
                        external_queue = ideal_forward batch' z.external_queue;
                      })
                    same,
          )

      -- Where the external queue is drained, the rounds of the service come to an end and do what
      -- they do with a queue that always has room.
      pub rounds_lem :
          (n : ℕ) (s : Service queue External)
          → (s' : Service queue External) × (run_rounds queue accepts tries n s ≡ some s')
            × (seen s' ≡ ideal_rounds queue n (seen s))
      unfolding run_rounds ideal_rounds
      rounds_lem zero s = (s, refl, refl)
      rounds_lem (suc n) s =
          let (s₁, e₁, t₁) = round_lem s in
          let (s₂, e₂, t₂) = rounds_lem n s₁ in
          (s₂, rw (run_rounds, e₁) e₂, t₂ ∙ ap (ideal_rounds queue n) t₁)
