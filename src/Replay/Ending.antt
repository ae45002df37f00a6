-- ===== src/Replay/Ending.antt =====
-- The rounds until the history is used up.
use cryptobot.Common.{
  ℕ, zero, suc, ◌≤◌, Bool, true, false, Option, none, some, List, [], ◌∷◌, ◌++◌, length, arith, ◌≡◌,
  refl, sym, ap, ◌∙◌, ◌⊎◌, subst, inl, inr,
}
use mathlib.Core.List.{append-nil}
use cryptobot.Queue.{Queue}
use cryptobot.Queue.Consume.{length_0}
use cryptobot.Replay.Rounds.{tail, klines, fetch, made, ideal_round_lem, ideal_rounds-klines}
use cryptobot.Replay.Defs.{OhlcvExt, External, Service, launch_one, ask_getter, run_rounds}
use cryptobot.Replay.Ideal.{ideal_round, ideal_rounds, IsDrained, taken_of, seen, rounds_lem}

module _ (queue : Queue OhlcvExt) where
  open queue use {Q, contents, try_enqueue, try_dequeue_bulk}

  -- The queue has room for a first element.
  abbrev pub HasRoom : Type 0
  HasRoom = (k : OhlcvExt) (q : Q) → contents q ≡ [] → (try_enqueue k q).0 ≡ true

  -- The getter has its queue, and either it is asked for more or it has no more.
  pub record IsActive (s : Service queue (List OhlcvExt)) : Type 0 where
    pub init : s.is_init ≡ true
    pub more : (s.need_fetch_more ≡ true) ⊎ (s.history ≡ [])
    pub empty : contents s.internal_queue ≡ []

  advance_of :
      (init : Bool) (history : List OhlcvExt) (q : Q) (ext : Option (List OhlcvExt)) (need : Bool)
      → HasRoom
      → init ≡ true
      → contents q ≡ []
      → (need ≡ true) ⊎ (history ≡ [])
      → let s' = fetch queue (made queue init history q ext need) in
        (s'.history ≡ tail history)
        × (s'.is_init ≡ true)
        × ((s'.need_fetch_more ≡ true) ⊎ (tail history ≡ []))
  unfolding launch_one
  advance_of false history q ext need room i h m = cc
  advance_of true history q ext false room i h (inl e) = cc
  advance_of true history q ext false room i h (inr e) = rw e (refl, refl, inr refl)
  advance_of true [] q ext true room i h m = (refl, refl, inr refl)
  advance_of true (k ∷ rest) q ext true room i h m = rw (room k q h) (refl, refl, inl refl)

  advance :
      (s : Service queue (List OhlcvExt))
      → HasRoom
      → IsActive s
      → ((ideal_round queue s).history ≡ tail s.history) × IsActive (ideal_round queue s)
  unfolding ideal_round ask_getter
  advance s room a =
      let (shorter, init, more) =
        advance_of s.is_init s.history s.internal_queue s.external_queue s.need_fetch_more room
          a.init a.empty a.more in
      (
        shorter,
        record {
          init = init;
          more =
              subst (λ h. ((fetch queue s).need_fetch_more ≡ true) ⊎ (h ≡ [])) (sym shorter) more;
          empty = (ideal_round_lem queue s a.empty).1;
        },
      )

  history_empty :
      (n : ℕ) (s : Service queue (List OhlcvExt))
      → HasRoom
      → IsActive s
      → length s.history ≤ n
      → (ideal_rounds queue n s).history ≡ []
  unfolding ideal_rounds
  history_empty zero s room a h = length_0 s.history h
  history_empty (suc n) s room a h =
      let (shorter, active) = advance s room a in
      history_empty n (ideal_round queue s) room active
        (subst (λ xs. length xs ≤ n) (sym shorter) (shorter_of s.history n h))
    where
      shorter_of : (xs : List OhlcvExt) (m : ℕ) → length xs ≤ suc m → length (tail xs) ≤ m
      shorter_of [] m l = omega arith
      shorter_of (x ∷ xs) m l = omega arith

  ideal_rounds-replay :
      (n : ℕ) (s : Service queue (List OhlcvExt)) (out : List OhlcvExt)
      → HasRoom
      → s.is_init ≡ true
      → s.need_fetch_more ≡ true
      → contents s.internal_queue ≡ []
      → s.external_queue ≡ some out
      → length s.history ≤ n
      → ((ideal_rounds queue n s).external_queue ≡ some (out ++ s.history))
        × ((ideal_rounds queue n s).history ≡ [])
  ideal_rounds-replay n s out room i more h e l =
      let none_left = history_empty n s room (record { init = i; more = inl more; empty = h }) l in
      let s' = ideal_rounds queue n s in
      let all : klines queue s' ≡ some (out ++ s.history) =
        ideal_rounds-klines queue n s h ∙ klines_out s.external_queue s.history out e in
      (pushed_all s'.external_queue s'.history (out ++ s.history) none_left all, none_left)
    where
      klines_out :
          (ext : Option (List OhlcvExt)) (hs out : List OhlcvExt)
          → ext ≡ some out
          → elim ext as (λ _. Option (List OhlcvExt)) [ none ↦ none | some x ↦ some (x ++ hs) ]
            ≡ some (out ++ hs)
      klines_out ext hs out e = rw e refl

      pushed_all :
          (ext : Option (List OhlcvExt)) (hs all : List OhlcvExt)
          → hs ≡ []
          → elim ext as (λ _. Option (List OhlcvExt)) [ none ↦ none | some x ↦ some (x ++ hs) ]
            ≡ some all
          → ext ≡ some all
      pushed_all none hs all z e = e
      pushed_all (some x) hs all z e = ap some (sym (append-nil x) ∙ ap (λ y. x ++ y) (sym z)) ∙ e

  taken-some :
      (ext : Option External) (all : List OhlcvExt)
      → taken_of ext ≡ some all
      → (x : External) × (ext ≡ some x) × (x.taken ≡ all)
  taken-some none all e = cc
  taken-some (some x) all e = (x, refl, cc)

  -- The replay ends: where one of every so many calls of try_enqueue on the external queue, one after
  -- the other, finds room, the queue between getter and service has room for one kline and nothing
  -- in it, and the getter has its queue and is asked for more, the loops around try_enqueue of as
  -- many rounds as the history has klines, or more, come to an end within so many tries each, the
  -- external queue has taken in the whole history after what it had, in order and once each, and
  -- the getter has nothing left.
  pub run_rounds-replay :
      (accepts : ℕ → Bool) (tries n : ℕ) (s : Service queue External) (x : External)
      → IsDrained accepts tries
      → HasRoom
      → s.is_init ≡ true
      → s.need_fetch_more ≡ true
      → contents s.internal_queue ≡ []
      → s.external_queue ≡ some x
      → length s.history ≤ n
      → (s' : Service queue External) × (x' : External) × (run_rounds queue accepts tries n s
          ≡ some s')
        × (s'.external_queue ≡ some x')
        × (x'.taken ≡ x.taken ++ s.history)
        × (s'.history ≡ [])
  run_rounds-replay accepts tries n s x drained room i more h e l =
      let (s', ended, same) = rounds_lem accepts tries drained queue n s in
      let (taken, none_left) =
        ideal_rounds-replay n (seen s) x.taken room i more h (ap taken_of e) l in
      let (x', held, all) =
        taken-some s'.external_queue (x.taken ++ s.history)
          (ap (λ (z : Service queue (List OhlcvExt)). z.external_queue) same ∙ taken) in
      (
        s',
        x',
        ended,
        held,
        all,
        ap (λ (z : Service queue (List OhlcvExt)). z.history) same ∙ none_left,
      )
