-- ===== src/Session/Once.antt =====
-- The pool's callbacks for the end of a session are called at most once.
use cryptobot.Common.{
  ℕ, ◌+◌, ◌≤◌, ◌≡◌, Bool, true, false, List, [], ◌∷◌, ◌++◌, arith, if◌then◌else◌,
}
use cryptobot.Session.Defs.{
  StatusSession, Output, called_ready, called_expired, called_closed_system, called_closed_user,
  called_response, written, spawned_loop, Event, host_name_refused, resolve_begins, connect_begins,
  handshake_begins, handshake_ends, loop_begins, loop_answered, requested, timer_expires, cancelled,
  Session, when, transition_to, close_session_fast, close_to, loop_from, begin_loop, end_loop,
  async_request, step, run,
}

module _ (Request : Type 0) where
  -- How often on_expired_ and on_closed_system_ are called.
  unfoldable pub system_calls : List (Output Request) → ℕ
  system_calls [] = 0
  system_calls (called_expired ∷ out) = system_calls out + 1
  system_calls (called_closed_system ∷ out) = system_calls out + 1
  system_calls (called_ready ∷ out) = system_calls out
  system_calls (called_closed_user ∷ out) = system_calls out
  system_calls (called_response ∷ out) = system_calls out
  system_calls (written r ∷ out) = system_calls out
  system_calls (spawned_loop ∷ out) = system_calls out

  system_calls-append :
      (xs ys : List (Output Request)) → system_calls (xs ++ ys) ≡ system_calls xs + system_calls ys
  unfolding system_calls
  system_calls-append [] ys = omega arith
  system_calls-append (called_expired ∷ xs) ys = omega (arith, system_calls-append xs ys)
  system_calls-append (called_closed_system ∷ xs) ys = omega (arith, system_calls-append xs ys)
  system_calls-append (called_ready ∷ xs) ys = system_calls-append xs ys
  system_calls-append (called_closed_user ∷ xs) ys = system_calls-append xs ys
  system_calls-append (called_response ∷ xs) ys = system_calls-append xs ys
  system_calls-append (written r ∷ xs) ys = system_calls-append xs ys
  system_calls-append (spawned_loop ∷ xs) ys = system_calls-append xs ys

  -- The calls that a session may still make.
  abbrev pub budget : Session Request → ℕ
  budget s = if s.need_execute_on_closed_system then 1 else 0

  -- What a part of the session calls is taken from its budget.
  abbrev Spends : Session Request → Session Request × List (Output Request) → Type 0
  Spends s (s', out) = system_calls out + budget s' ≤ budget s

  transition_to-Spends :
      (n : StatusSession) (s : Session Request) → Spends s (transition_to Request n s)
  unfolding transition_to system_calls
  transition_to-Spends StatusSession.resolving s = ground arith
  transition_to-Spends StatusSession.connecting s = ground arith
  transition_to-Spends StatusSession.handshaking s = ground arith
  transition_to-Spends StatusSession.ready s = ground arith
  transition_to-Spends StatusSession.k_in_process s = ground arith
  transition_to-Spends StatusSession.expired s = ground arith
  transition_to-Spends StatusSession.closing s = ground arith
  transition_to-Spends StatusSession.cancelling s = ground arith

  close_session_fast-silent :
      (s : Session Request) → system_calls (close_session_fast Request s) ≡ 0
  unfolding close_session_fast system_calls
  close_session_fast-silent s = ground arith

  close_to-Spends : (n : StatusSession) (s : Session Request) → Spends s (close_to Request n s)
  unfolding close_to
  close_to-Spends n s = omega (
    arith,
    system_calls-append (close_session_fast Request s) (transition_to Request n s).1,
    close_session_fast-silent s,
    transition_to-Spends n s,
  )

  loop_from-Spends : (q : List Request) (s : Session Request) → Spends s (loop_from Request q s)
  unfolding loop_from system_calls
  loop_from-Spends [] s = transition_to-Spends StatusSession.ready s
  loop_from-Spends (r ∷ rs) s =
      let (s₁, out₁) = transition_to Request StatusSession.ready s in
      let (s₂, out₂) = transition_to Request StatusSession.k_in_process s₁ in
      omega (
        arith,
        system_calls-append out₁ (out₂ ++ (written r ∷ [])),
        system_calls-append out₂ (written r ∷ []),
        transition_to-Spends StatusSession.ready s,
        transition_to-Spends StatusSession.k_in_process s₁,
      )

  response-silent : (b : Bool) → system_calls (when Request b called_response) ≡ 0
  unfolding system_calls
  response-silent b = ground arith

  end_loop-Spends : (s : Session Request) → Spends s (end_loop Request s)
  unfolding end_loop system_calls
  end_loop-Spends s =
      let c = close_to Request StatusSession.closing s in
      omega (
        arith,
        system_calls-append (when Request s.registered.on_response called_response) c.1,
        response-silent s.registered.on_response,
        close_to-Spends StatusSession.closing s,
      )

  step-Spends : (e : Event Request) (s : Session Request) → Spends s (step Request e s)
  unfolding step begin_loop async_request system_calls
  step-Spends host_name_refused s = close_to-Spends StatusSession.expired s
  step-Spends resolve_begins s = ground arith
  step-Spends connect_begins s = ground arith
  step-Spends handshake_begins s = ground arith
  step-Spends (handshake_ends true) s = ground arith
  step-Spends (handshake_ends false) s = close_to-Spends StatusSession.expired s
  step-Spends loop_begins s = loop_from-Spends s.request_queue s
  step-Spends loop_answered s = end_loop-Spends s
  step-Spends (requested accepted r) s = ground arith
  step-Spends timer_expires s = close_to-Spends StatusSession.expired s
  step-Spends cancelled s =
      let t = transition_to-Spends StatusSession.cancelling s in omega (arith, t)

  run-budget :
      (events : List (Event Request)) (s : Session Request)
      → system_calls (run Request events s).1 ≤ budget s
  unfolding run system_calls
  run-budget [] s = ground arith
  run-budget (e ∷ es) s =
      let r = step Request e s in
      omega
        (arith, system_calls-append r.1 (run Request es r.0).1, step-Spends e s, run-budget es r.0)

  cancelled-silent :
      (s : Session Request)
      → (system_calls (step Request cancelled s).1 ≡ 0) × (budget (step Request cancelled s).0 ≡ 0)
  unfolding step transition_to system_calls
  cancelled-silent s = ground arith

  -- In any sequence of events, from any state, a session calls the pool's two callbacks for its end at
  -- most once together, and not at all where need_execute_on_closed_system is false; and from
  -- AsyncCloseSessionGracefully on it calls them in no sequence of events.
  pub run-Spends :
      (events : List (Event Request)) (s : Session Request)
      → (system_calls (run Request events s).1 ≤ budget s)
        × (system_calls (run Request (cancelled ∷ events) s).1 ≡ 0)
  unfolding run
  run-Spends events s =
      let r = step Request cancelled s in
      (
        run-budget events s,
        omega (
          arith,
          system_calls-append r.1 (run Request events r.0).1,
          cancelled-silent s,
          run-budget events r.0,
        ),
      )
