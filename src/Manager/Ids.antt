-- ===== src/Manager/Ids.antt =====
-- The ids that NewOrder gives, over any sequence of calls of the manager.
use cryptobot.Common.{
  ℕ, ◌+◌, ◌-◌, ◌^◌, ◌<◌, ◌≤◌, Bool, List, [], ◌∷◌, arith, Bool-cases, inl, inr, length,
}
use cryptobot.Types.{ExchangeId, Side, TradingPair}
use cryptobot.Response.{Response}
use cryptobot.Manager.Defs.{
  OrderManager, Request, new_request, cancel_request, get_order, set_order, send, order_is_live,
  new_order, cancel_order, on_order_response, new_order_manager,
}

-- A call of the manager, with its arguments.
pub data Call : Type 0 where
  call_new : Bool → ExchangeId → TradingPair → (price : ℕ) → Side → (qty : ℕ) → Call
  call_cancel : Bool → ExchangeId → TradingPair → Side → Call
  call_response : Response → Call

unfoldable pub run_call : Call → OrderManager → OrderManager
run_call (call_new room e p price s qty) m = new_order room e p price s qty m
run_call (call_cancel room e p s) m = cancel_order room e p s m
run_call (call_response r) m = on_order_response r m

unfoldable pub run_calls : List Call → OrderManager → OrderManager
run_calls [] m = m
run_calls (c ∷ cs) m = run_calls cs (run_call c m)

-- Every NEW request has a smaller id than `n`, and than each NEW request sent after it.
unfoldable pub IsDescending : ℕ → List Request → Type 0
IsDescending n [] = Unit {0}
IsDescending n (new_request e p id s price qty ∷ rs) = (id < n) × IsDescending id rs
IsDescending n (cancel_request e p id ∷ rs) = IsDescending n rs

IsDescending-more : (n k : ℕ) (rs : List Request) → n ≤ k → IsDescending n rs → IsDescending k rs
unfolding IsDescending
IsDescending-more n k [] h d = tt
IsDescending-more n k (new_request e p id s price qty ∷ rs) h (l, d) = (omega arith, d)
IsDescending-more n k (cancel_request e p id ∷ rs) h d = IsDescending-more n k rs h d

-- One call uses one id at most.
record IsCounted (m m' : OrderManager) : Type 0 where
  descending : IsDescending m'.next_order_id m'.requests
  grows : m'.next_order_id ≤ m.next_order_id + 1

counted :
    (c : Call) (m : OrderManager)
    → m.next_order_id + 1 < 2 ^ 64
    → IsDescending m.next_order_id m.requests
    → IsCounted m (run_call c m)
unfolding run_call new_order cancel_order on_order_response set_order send IsDescending
counted (call_new room e p price s qty) m h d =
    let d' = IsDescending-more m.next_order_id (m.next_order_id + 1) m.requests (omega arith) d in
    elim (Bool-cases (order_is_live (get_order p s m).state)) [
      | inl l ↦ record { descending = ground arith; grows = ground arith }
      | inr l ↦ record { descending = ground arith; grows = ground arith }
    ]
counted (call_cancel room e p s) m h d = record { descending = ground arith; grows = ground arith }
counted (call_response r) m h d = record { descending = ground arith; grows = ground arith }

ids_from :
    (cs : List Call) (m : OrderManager)
    → m.next_order_id + length cs < 2 ^ 64
    → IsDescending m.next_order_id m.requests
    → IsDescending (run_calls cs m).next_order_id (run_calls cs m).requests
unfolding run_calls
ids_from [] m h d = d
ids_from (c ∷ cs) m h d =
    let i = counted c m (grind arith) d in
    let g = i.grows in ids_from cs (run_call c m) (grind arith) i.descending

-- After any fewer than 2^64 - 1 calls of the manager, the requests for a new order carry ids that grow
-- strictly in the order sent, all below the next id: no two orders share one.
pub new_order_ids :
    (cs : List Call)
    → length cs < 2 ^ 64 - 1
    → let m = run_calls cs new_order_manager in IsDescending m.next_order_id m.requests
unfolding IsDescending
new_order_ids cs h = ids_from cs new_order_manager (omega arith) tt
