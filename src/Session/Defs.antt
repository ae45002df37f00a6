-- ===== src/Session/Defs.antt =====
-- HttpsSession3 as a state machine. A coroutine runs from one co_await to the next: each such part
-- is an event, as are the calls of the session's users and the timer. What the session calls, writes
-- to the stream or spawns is an output. An exception of a write or a read is caught, and the part
-- after it runs all the same. size_approx of the request queue is taken as the number of requests
-- that wait in it. The pool's callbacks, which destroy the session, are outputs too: what a session of
-- a pool is after such an output is the memory that the code still writes to, and no session.
use cryptobot.Common.{Bool, true, false, ◌&&◌, List, [], ◌∷◌, ◌++◌, if◌then◌else◌}

pub data StatusSession : Type 0 where
  resolving connecting handshaking ready k_in_process expired closing cancelling : StatusSession

abbrev pub status_eq : StatusSession → StatusSession → Bool
status_eq StatusSession.resolving StatusSession.resolving = true
status_eq StatusSession.connecting StatusSession.connecting = true
status_eq StatusSession.handshaking StatusSession.handshaking = true
status_eq StatusSession.ready StatusSession.ready = true
status_eq StatusSession.k_in_process StatusSession.k_in_process = true
status_eq StatusSession.expired StatusSession.expired = true
status_eq StatusSession.closing StatusSession.closing = true
status_eq StatusSession.cancelling StatusSession.cancelling = true
status_eq _ _ = false

-- Which callbacks are registered.
pub record Registered : Type 0 where
  pub on_response : Bool
  pub on_ready : Bool
  pub on_expired : Bool
  pub on_closed_system : Bool
  pub on_closed_user : Bool

module _ (Request : Type 0) where
  pub data Output : Type 0 where
    called_ready called_expired called_closed_system called_closed_user called_response : Output
    written : Request → Output
    -- A coroutine that runs RequestLoop.
    spawned_loop : Output

  pub data Event : Type 0 where
    -- Run, up to each of its co_awaits, and its end with the answer of the handshake.
    host_name_refused resolve_begins connect_begins handshake_begins : Event
    handshake_ends : Bool → Event
    -- RequestLoop, before and after the exchange's answer.
    loop_begins loop_answered : Event
    -- AsyncRequest, with the answer of try_enqueue, the timer, and AsyncCloseSessionGracefully.
    requested : Bool → Request → Event
    timer_expires cancelled : Event

  pub record Session : Type 0 where
    pub status : StatusSession
    pub need_execute_on_closed_system : Bool
    pub is_processing : Bool
    pub request_queue : List Request
    pub registered : Registered

  abbrev pub when : Bool → Output → List Output
  when b o = if b then o ∷ [] else []

  unfoldable pub new_session : Registered → Session
  new_session r = record {
    status = StatusSession.resolving;
    need_execute_on_closed_system = true;
    is_processing = false;
    request_queue = [];
    registered = r;
  }

  -- What TransitionTo does once the status is set.
  entered : StatusSession → Session → Session × List Output
  entered StatusSession.ready s = (s, when s.registered.on_ready called_ready)
  entered StatusSession.expired s = (
    record s { need_execute_on_closed_system = false },
    when (s.need_execute_on_closed_system && s.registered.on_expired) called_expired,
  )
  entered StatusSession.closing s = (
    record s { need_execute_on_closed_system = false },
    when (s.need_execute_on_closed_system && s.registered.on_closed_system) called_closed_system,
  )
  entered _ s = (s, [])

  unfoldable pub transition_to : StatusSession → Session → Session × List Output
  unfolding entered
  transition_to new_state s =
      if status_eq s.status new_state
      then (s, [])
      else entered new_state (record s { status = new_state })

  unfoldable pub close_session_fast : Session → List Output
  close_session_fast s = when s.registered.on_closed_user called_closed_user

  -- CloseSessionFast and the transition after it.
  unfoldable pub close_to : StatusSession → Session → Session × List Output
  unfolding transition_to close_session_fast
  close_to new_state s =
      let (s', out) = transition_to new_state s in (s', close_session_fast s ++ out)

  -- RequestLoop from its beginning to the write, where the queue is the given one.
  unfoldable pub loop_from : List Request → Session → Session × List Output
  unfolding transition_to
  loop_from [] s = transition_to StatusSession.ready s
  loop_from (r ∷ rs) s =
      let (s₁, out₁) = transition_to StatusSession.ready s in
      let (s₂, out₂) = transition_to StatusSession.k_in_process s₁ in
      (record s₂ { request_queue = rs }, out₁ ++ (out₂ ++ (written r ∷ [])))

  unfoldable pub begin_loop : Session → Session × List Output
  unfolding loop_from
  begin_loop s = loop_from s.request_queue s

  unfoldable pub end_loop : Session → Session × List Output
  unfolding close_to
  end_loop s =
      let (s', out) = close_to StatusSession.closing s in
      (record s' { is_processing = false }, when s.registered.on_response called_response ++ out)

  unfoldable pub async_request : Bool → Request → Session → Session × List Output
  async_request accepted r s =
      let queue = if accepted then s.request_queue ++ (r ∷ []) else s.request_queue in
      if s.is_processing
      then (record s { request_queue = queue }, [])
      else (record s { request_queue = queue; is_processing = true }, spawned_loop ∷ [])

  unfoldable pub step : Event → Session → Session × List Output
  unfolding close_to begin_loop end_loop async_request transition_to
  step host_name_refused s = close_to StatusSession.expired s
  step resolve_begins s = (record s { status = StatusSession.resolving }, [])
  step connect_begins s = (record s { status = StatusSession.connecting }, [])
  step handshake_begins s = (record s { status = StatusSession.handshaking }, [])
  step (handshake_ends true) s = (s, spawned_loop ∷ [])
  step (handshake_ends false) s = close_to StatusSession.expired s
  step loop_begins s = begin_loop s
  step loop_answered s = end_loop s
  step (requested accepted r) s = async_request accepted r s
  step timer_expires s = close_to StatusSession.expired s
  step cancelled s =
      let (s', out) = transition_to StatusSession.cancelling s in
      (record s' { need_execute_on_closed_system = false }, out)

  unfoldable pub run : List Event → Session → Session × List Output
  run [] s = (s, [])
  run (e ∷ es) s = let (s', out) = step e s in let (s'', rest) = run es s' in (s'', out ++ rest)
