-- ===== src/Replay/Rounds.antt =====
-- What leaves the service over the rounds of its loop, where the external queue always has room.
use cryptobot.Common.{
  ℕ, zero, suc, ◌≤◌, Bool, true, false, Option, none, some, List, [], ◌∷◌, ◌++◌, length, arith,
  if◌then◌else◌, ◌≡◌, refl, sym, ap, ◌∙◌,
}
use mathlib.Core.List.{append-nil, append_assoc}
use cryptobot.Queue.{Queue}
use cryptobot.Replay.Defs.{OhlcvExt, Service, launch_one, ask_getter}
use cryptobot.Replay.Ideal.{ideal_forward, ideal_round, ideal_rounds}

-- A batch of at most one kline goes out as it is.
forward_one :
    (batch out : List OhlcvExt)
    → length batch ≤ 1
    → ideal_forward batch (some out) ≡ some (out ++ batch)
unfolding ideal_forward
forward_one [] out h = ap some (sym (append-nil out))
forward_one (x ∷ []) out h = refl
forward_one (x ∷ y ∷ rest) out h = absurd (omega arith)

one_of :
    (xs ys zs : List OhlcvExt)
    → xs ≡ ys ++ zs
    → length xs ≤ 1
    → (ys ≡ [] → xs ≡ [])
    → (ys ≡ xs) × (zs ≡ [])
one_of xs [] zs e h f = (sym (f refl), sym e ∙ f refl)
one_of [] (y ∷ ys) zs e h f = cc
one_of (x ∷ x' ∷ xs) (y ∷ ys) zs e h f = absurd (omega arith)
one_of (x ∷ []) (y ∷ []) [] e h f = (sym e, refl)
one_of (x ∷ []) (y ∷ []) (z ∷ zs) e h f = cc
one_of (x ∷ []) (y ∷ y' ∷ ys) zs e h f = cc

abbrev pub tail : List OhlcvExt → List OhlcvExt
tail [] = []
tail (x ∷ xs) = xs

module _ (queue : Queue OhlcvExt) where
  open queue use {Q, contents, try_enqueue, try_dequeue_bulk}

  -- A bulk dequeue of a queue with at most one element empties it.
  dequeue_one :
      (q : Q)
      → length (contents q) ≤ 1
      → ((try_dequeue_bulk 50 q).0 ≡ contents q) × (contents (try_dequeue_bulk 50 q).1 ≡ [])
  dequeue_one q h =
      one_of (contents q) (try_dequeue_bulk 50 q).0 (contents (try_dequeue_bulk 50 q).1)
        (queue.contents-try_dequeue_bulk 50 q) h (queue.try_dequeue_bulk_empty 50 q (omega arith))

  -- What has left the service and what the getter still has.
  abbrev pub klines : Service queue (List OhlcvExt) → Option (List OhlcvExt)
  klines s = elim s.external_queue [ none ↦ none | some out ↦ some (out ++ s.history) ]

  -- The service after the fetch of a round.
  abbrev pub fetch : Service queue (List OhlcvExt) → Service queue (List OhlcvExt)
  fetch s =
      if s.need_fetch_more
      then record (launch_one queue (List OhlcvExt) s).1 {
        need_fetch_more = (launch_one queue (List OhlcvExt) s).0;
      }
      else s

  abbrev drain : Service queue (List OhlcvExt) → Service queue (List OhlcvExt)
  drain s = record s {
    internal_queue = (try_dequeue_bulk 50 s.internal_queue).1;
    external_queue = ideal_forward (try_dequeue_bulk 50 s.internal_queue).0 s.external_queue;
  }

  -- What is pushed, on the way, and still in the history.
  abbrev on_way : Service queue (List OhlcvExt) → Option (List OhlcvExt)
  on_way s = elim s.external_queue [
    | none ↦ none
    | some out ↦ some (out ++ (contents s.internal_queue ++ s.history))
  ]

  -- A service from its fields.
  abbrev pub made :
      Bool → List OhlcvExt → Q → Option (List OhlcvExt) → Bool → Service queue (List OhlcvExt)
  made init history q ext need = record {
    is_init = init;
    history = history;
    internal_queue = q;
    external_queue = ext;
    need_fetch_more = need;
  }

  drain_of :
      (init need : Bool) (history : List OhlcvExt) (q : Q) (ext : Option (List OhlcvExt))
      → length (contents q) ≤ 1
      → klines (drain (made init history q ext need)) ≡ on_way (made init history q ext need)
  unfolding ideal_forward
  drain_of init need history q none h = refl
  drain_of init need history q (some out) h =
      let (all, _) = dequeue_one q h in
      let short : length (try_dequeue_bulk 50 q).0 ≤ 1 = rw all h in
      rw (forward_one (try_dequeue_bulk 50 q).0 out short)
        (ap some (ap (λ b. out ++ b ++ history) all ∙ append_assoc out (contents q) history))

  idle_of :
      (init need : Bool) (history : List OhlcvExt) (q : Q) (ext : Option (List OhlcvExt))
      → contents q ≡ []
      → (on_way (made init history q ext need) ≡ klines (made init history q ext need))
        × (length (contents q) ≤ 1)
  idle_of init need history q none h = (refl, rw h (omega arith))
  idle_of init need history q (some out) h = (rw h refl, rw h (omega arith))

  one_on_way :
      (history rest : List OhlcvExt) (q : Q) (ext : Option (List OhlcvExt))
      → contents q ++ rest ≡ history
      → on_way (made true rest q ext true) ≡ klines (made true history q ext true)
  one_on_way history rest q none h = refl
  one_on_way history rest q (some out) h = rw h refl

  put_of :
      (k : OhlcvExt) (rest : List OhlcvExt) (status : Bool) (q : Q) (ext : Option (List OhlcvExt))
      → contents q ≡ (if status then k ∷ [] else [])
      → (on_way (made true (if status then rest else k ∷ rest) q ext true)
          ≡ klines (made true (k ∷ rest) q ext true))
        × (length (contents q) ≤ 1)
  put_of k rest true q ext h = (one_on_way (k ∷ rest) rest q ext (rw h refl), rw h (omega arith))
  put_of k rest false q ext h =
      (one_on_way (k ∷ rest) (k ∷ rest) q ext (rw h refl), rw h (omega arith))

  -- A fetch from an empty queue leaves at most one kline on the way.
  fetch_of :
      (init need : Bool) (history : List OhlcvExt) (q : Q) (ext : Option (List OhlcvExt))
      → contents q ≡ []
      → (on_way (fetch (made init history q ext need)) ≡ klines (made init history q ext need))
        × (length (contents (fetch (made init history q ext need)).internal_queue) ≤ 1)
  unfolding launch_one
  fetch_of init false history q ext h = idle_of init false history q ext h
  fetch_of false true history q ext h = idle_of false true history q ext h
  fetch_of true true [] q ext h = idle_of true true [] q ext h
  fetch_of true true (k ∷ rest) q ext h =
      put_of k rest (try_enqueue k q).0 (try_enqueue k q).1 ext (
        queue.contents-try_enqueue k q
        ∙ ap (λ c. if (try_enqueue k q).0 then c ++ (k ∷ []) else c) h)

  -- In a round that begins with an empty internal queue no kline is lost or doubled.
  pub ideal_round_lem :
      (s : Service queue (List OhlcvExt))
      → contents s.internal_queue ≡ []
      → (klines (ideal_round queue s) ≡ klines s)
        × (contents (ideal_round queue s).internal_queue ≡ [])
  unfolding ideal_round ask_getter
  ideal_round_lem s h =
      let f = fetch s in
      let (same, short) =
        fetch_of s.is_init s.need_fetch_more s.history s.internal_queue s.external_queue h in
      (
        drain_of f.is_init f.need_fetch_more f.history f.internal_queue f.external_queue short
            ∙ same,
        (dequeue_one f.internal_queue short).1,
      )

  -- From an empty internal queue, after any number of rounds what has been pushed on the external
  -- queue, followed by what the getter still has, is what was pushed before, followed by the whole
  -- history: no kline is lost, doubled or moved.
  pub ideal_rounds-klines :
      (n : ℕ) (s : Service queue (List OhlcvExt))
      → contents s.internal_queue ≡ []
      → klines (ideal_rounds queue n s) ≡ klines s
  unfolding ideal_rounds
  ideal_rounds-klines zero s h = refl
  ideal_rounds-klines (suc n) s h =
      let (same, empty) = ideal_round_lem s h in
      ideal_rounds-klines n (ideal_round queue s) empty ∙ same
