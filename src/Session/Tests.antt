-- ===== src/Session/Tests.antt =====
-- The theorems on sessions and their pool at concrete events.
use cryptobot.Common.{ℕ, ◌≡◌, ◌≤◌, refl, true, false, List, [], ◌∷◌, ◌==◌, if◌then◌else◌}
use cryptobot.Session.{
  StatusSession, Registered, called_closed_system, called_response, written, spawned_loop,
  handshake_ends, loop_begins, loop_answered, requested, timer_expires, cancelled, step, Event,
  Session, new_session, close_session_fast, run, ConnectionPool, is_in, remove,
}
use cryptobot.Session.Once
use cryptobot.Session.Once.{system_calls}
use cryptobot.Session.Requests
use cryptobot.Session.Requests.{IsIdle}
use cryptobot.Session.Acquire

abbrev registered : Registered
registered = record {
  on_response = true;
  on_ready = true;
  on_expired = true;
  on_closed_system = true;
  on_closed_user = false;
}

-- A request, answered, and the timer that was not canceled.
abbrev events : List (Event ℕ)
events =
    handshake_ends true
    ∷ loop_begins
    ∷ requested true 1
    ∷ loop_begins
    ∷ loop_answered
    ∷ timer_expires
    ∷ []

run-Spends_example :
    (system_calls ℕ (run ℕ events (new_session ℕ registered)).1 ≤ 1)
    × (system_calls ℕ (run ℕ (cancelled ∷ events) (new_session ℕ registered)).1 ≡ 0)
unfolding new_session
run-Spends_example = Once.run-Spends ℕ events (new_session ℕ registered)

abbrev idle : Session ℕ
idle = record {
  status = StatusSession.ready;
  need_execute_on_closed_system = true;
  is_processing = false;
  request_queue = [];
  registered = registered;
}

idle-IsIdle : IsIdle ℕ idle
idle-IsIdle = record {
  is_ready = refl;
  open_end = refl;
  free = refl;
  no_requests = refl;
  answers = refl;
  in_pool = refl;
}

second_request_stays_example :
    let (s', out) =
      run ℕ (requested true 1 ∷ loop_begins ∷ requested true 2 ∷ requested true 3 ∷ []) idle in
    (out ≡ spawned_loop ∷ written 1 ∷ [])
    × (s'.request_queue ≡ 2 ∷ 3 ∷ [])
    × ((step ℕ loop_answered s').1 ≡ called_response ∷ called_closed_system ∷ [])
unfolding close_session_fast
second_request_stays_example = Requests.second_request_stays ℕ idle 1 (2 ∷ 3 ∷ []) idle-IsIdle

abbrev statuses : ℕ → StatusSession
statuses a = if a == 7 then StatusSession.ready else StatusSession.closing

abbrev pool : ConnectionPool
pool = record {
  awaiable_connections = 4 ∷ 7 ∷ [];
  live = 4 ∷ 7 ∷ [];
  free = [];
  is_handling_session = false;
}

on_end_again_example :
    let p' = Acquire.renewed 3 7 9 pool in
    (p'.awaiable_connections ≡ 4 ∷ 7 ∷ 7 ∷ 7 ∷ 7 ∷ [])
    × (is_in 7 p'.live ≡ true)
    × (remove 7 p'.live ≡ 4 ∷ [])
    × (p'.free ≡ [])
on_end_again_example = Acquire.on_end_again 3 7 9 pool refl refl
