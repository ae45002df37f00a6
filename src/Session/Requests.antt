-- ===== src/Session/Requests.antt =====
-- What becomes of the requests that a ready session is given, the first one and those that come while it
-- is under way.
use cryptobot.Common.{true, false, List, [], ◌∷◌, ◌++◌, ◌≡◌, refl, ◌∙◌, arith, ap, sym}
use mathlib.Core.List.{append-nil, append_assoc}
use cryptobot.Session.Defs.{
  StatusSession, Registered, called_closed_system, called_response, written, spawned_loop,
  loop_begins, loop_answered, requested, Event, Session, close_session_fast, transition_to,
  close_to, begin_loop, loop_from, end_loop, async_request, step, run,
}

module _ (Request : Type 0) where
  -- Ready, with nothing to do, and with the callbacks of the pool and of a client.
  pub record IsIdle (s : Session Request) : Type 0 where
    pub is_ready : s.status ≡ StatusSession.ready
    pub open_end : s.need_execute_on_closed_system ≡ true
    pub free : s.is_processing ≡ false
    pub no_requests : s.request_queue ≡ []
    pub answers : s.registered.on_response ≡ true
    pub in_pool : s.registered.on_closed_system ≡ true

  -- The requests given to AsyncRequest, each of them enqueued.
  abbrev pub all_requested : List Request → List (Event Request)
  all_requested [] = []
  all_requested (r ∷ rs) = requested true r ∷ all_requested rs

  -- A session with a request under way, and its queue.
  abbrev busy : StatusSession → Registered → List Request → Session Request
  busy status registered queue = record {
    status = status;
    need_execute_on_closed_system = true;
    is_processing = true;
    request_queue = queue;
    registered = registered;
  }

  -- Further requests are queued and nothing else happens.
  queued :
      (status : StatusSession) (registered : Registered) (rs queue : List Request)
      → run Request (all_requested rs) (busy status registered queue)
        ≡ (busy status registered (queue ++ rs), [])
  unfolding run step async_request
  queued status registered [] queue =
      ap (λ q. (busy status registered q, [])) (sym (append-nil queue))
  queued status registered (r ∷ rs) queue =
      queued status registered rs (queue ++ (r ∷ []))
      ∙ ap (λ q. (busy status registered q, [])) (append_assoc queue (r ∷ []) rs)

  run-append :
      (es fs : List (Event Request)) (s : Session Request)
      → run Request (es ++ fs) s ≡ (
        (run Request fs (run Request es s).0).0,
        (run Request es s).1 ++ (run Request fs (run Request es s).0).1,
      )
  unfolding run
  run-append [] fs s = refl
  run-append (e ∷ es) fs s =
      let (s', out) = step Request e s in
      let (s'', more) = run Request es s' in
      rw (run-append es fs s')
        (ap (λ o. ((run Request fs s'').0, o)) (sym (append_assoc out more (run Request fs s'').1)))

  -- The session after the write of its first request.
  first_written :
      (s : Session Request) (r : Request)
      → IsIdle s
      → run Request (requested true r ∷ loop_begins ∷ []) s
        ≡ (busy StatusSession.k_in_process s.registered [], spawned_loop ∷ written r ∷ [])
  unfolding run step async_request begin_loop loop_from transition_to
  first_written s r i = ground (arith, i.is_ready, i.open_end, i.free, i.no_requests)

  -- Of the requests that an idle session is given from the first one on until that is answered, only
  -- the first is written: the others, however many, wait in the queue, no loop is spawned for them,
  -- and what follows the answer is the response to the first client, the call of the user's close
  -- callback if there is one and, last of all, the call of the pool's callback.
  pub second_request_stays :
      (s : Session Request) (r : Request) (rs : List Request)
      → IsIdle s
      → let (s', out) = run Request (requested true r ∷ loop_begins ∷ all_requested rs) s in
        (out ≡ spawned_loop ∷ written r ∷ [])
        × (s'.request_queue ≡ rs)
        × ((step Request loop_answered s').1
            ≡ called_response ∷ (close_session_fast Request s ++ (called_closed_system ∷ [])))
  unfolding step end_loop close_to transition_to close_session_fast
  second_request_stays s r rs i =
      let whole = run-append (requested true r ∷ loop_begins ∷ []) (all_requested rs) s in
      let q = queued StatusSession.k_in_process s.registered rs [] in
      rw (whole, first_written s r i, q) (refl, refl, ground (arith, i.answers, i.in_pool))
