-- ===== src/Replay/Shown.antt =====
-- What the book of the back test shows after a replay.
use cryptobot.Common.{
  ℕ, ◌≤◌, Bool, true, ◌&&◌, not, Option, none, some, List, [], ◌∷◌, ◌++◌, ◌==◌, length, arith, ◌≡◌,
  refl, sym, ap, ◌∙◌, subst, ◌/◌,
}
use cryptobot.Queue.{Queue}
use cryptobot.Replay.Ideal.{IsDrained}
use cryptobot.Replay.Defs.{External, OhlcvExt, Bbo, on_new_kline, run_engine, Service, run_rounds}
use cryptobot.Replay.Ending.{HasRoom, run_rounds-replay}

-- No kline opens at 0.
abbrev all_open : List OhlcvExt → Bool
all_open [] = true
all_open (k ∷ ks) = not (k.ohlcv.open_ == 0) && all_open ks

shown : (k : OhlcvExt) → not (k.ohlcv.open_ == 0) ≡ true → (b : Bbo) × (on_new_kline k ≡ some b)
unfolding on_new_kline
shown k h =
    (record { price = k.ohlcv.open_; qty = k.ohlcv.volume / k.ohlcv.open_ }, ground (arith, h))

run_engine-append :
    (ks : List OhlcvExt) (k : OhlcvExt) (b : Bbo)
    → all_open ks ≡ true
    → run_engine (ks ++ (k ∷ [])) b ≡ on_new_kline k
unfolding run_engine
run_engine-append [] k b h = kept (on_new_kline k)
  where
    kept : (o : Option Bbo) → elim o as (λ _. Option Bbo) [ none ↦ none | some x ↦ some x ] ≡ o
    kept none = refl
    kept (some x) = refl
run_engine-append (x ∷ ks) k b h =
    let (b', e) = shown x (ground (arith, h)) in
    subst
      (λ o.
        elim o as (λ _. Option Bbo) [ none ↦ none | some y ↦ run_engine (ks ++ (k ∷ [])) y ]
        ≡ on_new_kline k)
      (sym e) (run_engine-append ks k b' (ground (arith, h)))

-- Getter, service and engine together: under the conditions of run_rounds-replay, from an external
-- queue that has taken in nothing, and where no kline before the last opens at 0, the engine that
-- takes all that is pushed in as many rounds as there are klines, or more, shows the last kline of
-- the history.
pub run_engine-replay :
    (queue : Queue OhlcvExt) (accepts : ℕ → Bool) (tries n : ℕ) (s : Service queue External)
    (x : External) (ks : List OhlcvExt) (k : OhlcvExt) (b : Bbo)
    → IsDrained accepts tries
    → HasRoom queue
    → s.is_init ≡ true
    → s.need_fetch_more ≡ true
    → queue.contents s.internal_queue ≡ []
    → s.external_queue ≡ some x
    → x.taken ≡ []
    → s.history ≡ ks ++ (k ∷ [])
    → all_open ks ≡ true
    → length s.history ≤ n
    → (s' : Service queue External) × (x' : External) × (run_rounds queue accepts tries n s
        ≡ some s')
      × (s'.external_queue ≡ some x')
      × (run_engine x'.taken b ≡ on_new_kline k)
run_engine-replay queue accepts tries n s x ks k b drained room i more h e z last opens l =
    let (s', x', ended, held, all, none_left) =
      run_rounds-replay queue accepts tries n s x drained room i more h e l in
    let whole : x'.taken ≡ ks ++ (k ∷ []) = all ∙ ap (λ y. y ++ s.history) z ∙ last in
    (s', x', ended, held, rw whole (run_engine-append ks k b opens))
