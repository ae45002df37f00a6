-- ===== src/EventGetter/Tests.antt =====
-- The theorems on the getter at concrete calls.
use cryptobot.Common.{ℕ, ◌≡◌, refl, true, some, List, [], ◌∷◌}
use cryptobot.Types.{TradingPair, pair_key}
use cryptobot.EventGetter.Defs.{Getter, new_getter, register_callback, default_cb_on_close_session}
use cryptobot.EventGetter.Sessions
use cryptobot.EventGetter.Sessions.{Call, call_request, call_stop, run_calls, AllOn}

abbrev pair : TradingPair
pair = record { first = 1; second = 2 }

abbrev getter : Getter ℕ ℕ ℕ
getter = register_callback ℕ ℕ ℕ pair 5 (new_getter ℕ ℕ ℕ true)

abbrev calls : List (Call ℕ ℕ ℕ)
calls = call_request 9 (some (pair, 31)) ∷ call_stop ∷ []

reconnect-AllOn_example :
    let (g', out) =
      run_calls ℕ ℕ ℕ
        (call_request 8 (some (pair, 30)) ∷ calls)
        (default_cb_on_close_session ℕ ℕ ℕ getter) in
    (g'.active_session ≡ some 8) × AllOn ℕ ℕ ℕ 8 out
unfolding new_getter register_callback
reconnect-AllOn_example = Sessions.reconnect-AllOn ℕ ℕ ℕ 8 pair 30 calls getter refl
