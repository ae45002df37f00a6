-- ===== src/Replay/Defs.antt =====
-- One round of each of the two loops. Another thread takes from the queue that leaves the service, so
-- that whether a call of its try_enqueue finds room is a parameter.
use cryptobot.Common.{
  ℕ, zero, suc, ◌/◌, Bool, true, false, Option, none, some, List, [], ◌∷◌, ◌++◌, ◌==◌, length,
  if◌then◌else◌,
}
use cryptobot.Types.{TradingPair}
use cryptobot.Queue.{Queue}

pub data IntervalUnit : Type 0 where
  seconds minutes hours days unknown : IntervalUnit

pub record Interval : Type 0 where
  pub unit : IntervalUnit
  pub val : ℕ

pub record Ohlcv : Type 0 where
  pub data_ : ℕ
  pub open_ : ℕ
  pub high : ℕ
  pub low : ℕ
  pub close : ℕ
  pub volume : ℕ

pub record OhlcvExt : Type 0 where
  pub ohlcv : Ohlcv
  pub interval : Interval
  pub trading_pair : TradingPair

-- backtesting::BBO
pub record Bbo : Type 0 where
  pub price : ℕ
  pub qty : ℕ

-- MarketOrderBook::OnNewKLine: a division by 0 has no defined behaviour.
unfoldable pub on_new_kline : OhlcvExt → Option Bbo
on_new_kline k =
    if k.ohlcv.open_ == 0
    then none
    else some (record { price = k.ohlcv.open_; qty = k.ohlcv.volume / k.ohlcv.open_ })

-- The queue that leaves the service: what it has taken in, and how often try_enqueue was called.
pub record External : Type 0 where
  pub taken : List OhlcvExt
  pub calls : ℕ

module _ (accepts : ℕ → Bool) (tries : ℕ) where
  -- `while (!external->try_enqueue(k))`, for a number of calls: none where all of them fail.
  unfoldable pub push_kline : ℕ → OhlcvExt → External → Option External
  push_kline zero k x = none
  push_kline (suc n) k x =
      let rest = push_kline n k (record x { calls = suc x.calls }) in
      if accepts x.calls
      then some (record { taken = x.taken ++ (k ∷ []); calls = suc x.calls })
      else rest

  -- That loop, so many times.
  unfoldable pub push_times : ℕ → OhlcvExt → External → Option External
  push_times zero first x = some x
  push_times (suc n) first x = elim (push_kline tries first x) [
    | none ↦ none
    | some x' ↦ push_times n first x'
  ]

  -- The loop over the dequeued klines, which pushes the first one each time, where there is a queue.
  unfoldable pub forward : List OhlcvExt → Option External → Option (Option External)
  unfolding push_times
  forward batch none = some none
  forward [] (some x) = some (some x)
  forward (first ∷ rest) (some x) = elim (push_times (suc (length rest)) first x) [
    | none ↦ none
    | some x' ↦ some (some x')
  ]

-- The getter and the service, for a type of what leaves the service.
module _ (queue : Queue OhlcvExt) (X : Type 0) where
  open queue use {Q, try_enqueue}

  -- The getter's history from its iterator on, whether Init has set its queue, the queue that the
  -- service shares with it, and the one that leaves the service, where that is not a null pointer.
  pub record Service : Type 0 where
    pub is_init : Bool
    pub history : List OhlcvExt
    pub internal_queue : Q
    pub external_queue : Option X
    pub need_fetch_more : Bool

  -- OHLCVI::LaunchOne
  unfoldable pub launch_one : Service → Bool × Service
  launch_one s =
      if s.is_init
      then elim s.history [
        | [] ↦ (false, s)
        | ◌∷◌ k rest ↦
            let (status, q) = try_enqueue k s.internal_queue in
            (true, record s { history = if status then rest else k ∷ rest; internal_queue = q })
      ]
      else (false, s)

  -- The first half of a round of Run, which asks the getter.
  unfoldable pub ask_getter : Service → Service
  unfolding launch_one
  ask_getter s =
      let (more, fetched) = launch_one s in
      if s.need_fetch_more then record fetched { need_fetch_more = more } else s

module _ (queue : Queue OhlcvExt) (accepts : ℕ → Bool) (tries : ℕ) where
  open queue use {try_dequeue_bulk}

  -- One round of Run, or none where the loop around try_enqueue does not end in so many tries.
  unfoldable pub run_round : Service queue External → Option (Service queue External)
  unfolding forward ask_getter
  run_round s =
      let s' = ask_getter queue External s in
      let (batch, q) = try_dequeue_bulk 50 s'.internal_queue in
      elim (forward accepts tries batch s'.external_queue) [
        | none ↦ none
        | some ext ↦ some (record s' { internal_queue = q; external_queue = ext })
      ]

  unfoldable pub run_rounds : ℕ → Service queue External → Option (Service queue External)
  unfolding run_round
  run_rounds zero s = some s
  run_rounds (suc n) s = elim (run_round s) [ none ↦ none | some s' ↦ run_rounds n s' ]

-- backtesting::TradeEngine::Run over what it dequeues: each kline sets the book's BBO.
unfoldable pub run_engine : List OhlcvExt → Bbo → Option Bbo
unfolding on_new_kline
run_engine [] b = some b
run_engine (k ∷ ks) b = elim (on_new_kline k) [ none ↦ none | some b' ↦ run_engine ks b' ]
