-- ===== src/Replay/Tests.antt =====
-- A replay of two klines through a queue with room for one.
use cryptobot.Common.{
  ℕ, ◌%◌, ◌==◌, ◌≡◌, refl, Bool, true, some, List, [], ◌∷◌, ◌++◌, arith, Bool-cases, inl, inr,
  subst,
}
use cryptobot.Queue.Lists.{lists}
use cryptobot.Replay.Ideal.{IsDrained}
use cryptobot.Replay.Defs.{
  OhlcvExt, IntervalUnit, External, Service, push_kline, forward, run_rounds,
}
use cryptobot.Replay.Ending
use cryptobot.Replay.Ending.{HasRoom}

abbrev kline : ℕ → OhlcvExt
kline price = record {
  ohlcv = record { data_ = 0; open_ = price; high = price; low = price; close = price; volume = 7 };
  interval = record { unit = IntervalUnit.seconds; val = 1 };
  trading_pair = record { first = 1; second = 2 };
}

abbrev history : List OhlcvExt
history = kline 2 ∷ kline 3 ∷ []

abbrev service : Service (lists 1) External
service = record {
  is_init = true;
  history = history;
  internal_queue = [];
  external_queue = some (record { taken = []; calls = 0 });
  need_fetch_more = true;
}

-- Every second call finds room.
abbrev accepts : ℕ → Bool
accepts t = t % 2 == 1

accepts-IsDrained : IsDrained accepts 2
accepts-IsDrained t = elim (Bool-cases (accepts t)) [
  | inl e ↦ (0, omega arith, subst (λ n. accepts n ≡ true) (omega arith) e)
  | inr e ↦ (1, omega arith, ground (arith, e))
]

-- A batch of two would go out as its first kline twice.
doubled :
    forward accepts 2 history (some (record { taken = []; calls = 0 }))
    ≡ some (some (record { taken = kline 2 ∷ kline 2 ∷ []; calls = 4 }))
unfolding forward push_kline
doubled = refl

lists-HasRoom : HasRoom (lists 1)
lists-HasRoom k q h = rw h refl

run_rounds-replay_example :
    (s' : Service (lists 1) External) × (x' : External) × (run_rounds (lists 1) accepts 2 2 service
      ≡ some s')
    × (s'.external_queue ≡ some x')
    × (x'.taken ≡ [] ++ history)
    × (s'.history ≡ [])
run_rounds-replay_example =
    Ending.run_rounds-replay (lists 1) accepts 2 2 service (record { taken = []; calls = 0 })
      accepts-IsDrained lists-HasRoom refl refl refl refl (omega arith)
