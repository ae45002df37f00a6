-- ===== src/EventGetter/Sessions.antt =====
-- On which session the requests are written, over a sequence of calls.
use cryptobot.Common.{
  ℕ, ◌≡◌, refl, subst, ap, Bool, true, false, if◌then◌else◌, Option, none, some, List, [], ◌∷◌,
  ◌++◌, All, arith,
}
use cryptobot.Common.Dict
use cryptobot.Types.{TradingPair, pair_key}
use cryptobot.EventGetter.Defs.{
  Output, register_on_response, register_on_close, register_default_on_close, async_write,
  async_close, Getter, register_callback, register_callback_on_close_session, close_calls,
  response_calls, send_after, register_callbacks_for_trading_pair, session_for, handle_book_event,
  async_stop, default_cb_on_close_session,
}

module _ (Callback CloseCallback Body : Type 0) where
  abbrev Out : Type 0
  Out = Output Callback CloseCallback Body

  abbrev pub Get : Type 0
  Get = Getter Callback CloseCallback Body

  -- A call while a session is active: a request, with the session that the pool would give, a
  -- registration, or a stop.
  pub data Call : Type 0 where
    call_request : ℕ → Option (TradingPair × Body) → Call
    call_register : TradingPair → Callback → Call
    call_register_close : TradingPair → CloseCallback → Call
    call_stop : Call

  unfoldable pub call : Call → Get → Get × List Out
  call (call_request a e) g = handle_book_event Callback CloseCallback Body a e g
  call (call_register p cb) g = (register_callback Callback CloseCallback Body p cb g, [])
  call (call_register_close p cb) g =
      (register_callback_on_close_session Callback CloseCallback Body p cb g, [])
  call call_stop g = (g, async_stop Callback CloseCallback Body g)

  unfoldable pub run_calls : List Call → Get → Get × List Out
  run_calls [] g = (g, [])
  run_calls (x ∷ xs) g =
      let (g', out) = call x g in let (g'', rest) = run_calls xs g' in (g'', out ++ rest)

  -- The session that an output is about.
  abbrev pub session_of : Out → ℕ
  session_of (register_on_response s cb p) = s
  session_of (register_on_close s cb) = s
  session_of (register_default_on_close s) = s
  session_of (async_write s b) = s
  session_of (async_close s) = s

  abbrev pub AllOn : ℕ → List Out → Type 0
  AllOn s out = All (λ o. session_of o ≡ s) out

  AllOn-append : (s : ℕ) (xs ys : List Out) → AllOn s xs → AllOn s ys → AllOn s (xs ++ ys)
  AllOn-append s [] ys h k = k
  AllOn-append s (x ∷ xs) ys (h, hs) k = (h, AllOn-append s xs ys hs k)

  sent-AllOn :
      (t : ℕ) (pair : TradingPair) (body : Body) (cb : Option Callback) (c : Option CloseCallback)
      → AllOn t (
          send_after Callback CloseCallback Body t body
            (response_calls Callback CloseCallback Body t pair cb c))
  unfolding send_after response_calls close_calls
  sent-AllOn t pair body none c = tt
  sent-AllOn t pair body (some cb) none = (refl, (refl, (refl, tt)))
  sent-AllOn t pair body (some cb) (some c) = (refl, (refl, (refl, (refl, tt))))

  -- What holds of a session's state and outputs.
  abbrev On : ℕ → Get × List Out → Type 0
  On s (g, out) = (g.active_session ≡ some s) × AllOn s out

  either_way :
      (s : ℕ) (b : Bool) (x y : Get × List Out) → On s x → On s y → On s (if b then x else y)
  either_way s true x y h k = h
  either_way s false x y h k = k

  request-AllOn :
      (s a : ℕ) (e : Option (TradingPair × Body)) (g : Get)
      → g.active_session ≡ some s
      → On s (handle_book_event Callback CloseCallback Body a e g)
  unfolding handle_book_event register_callbacks_for_trading_pair
  request-AllOn s a none g h = (h, tt)
  request-AllOn s a (some (pair, body)) g h =
      let t = session_for Callback CloseCallback Body a g in
      let same : t ≡ s = rw h refl in
      either_way s g.has_session_pool _ (g, [])
        (
          ap (λ u. some u) same,
          subst
              (λ u. AllOn u (
                send_after Callback CloseCallback Body t body
                  (register_callbacks_for_trading_pair Callback CloseCallback Body t pair g)))
              same
              (sent-AllOn t pair body (Dict.lookup pair g.callback_map)
                (Dict.lookup pair g.callback_on_close_session_map)),
        )
        (h, tt)

  call-AllOn :
      (s : ℕ) (x : Call) (g : Get)
      → g.active_session ≡ some s
      → ((call x g).0.active_session ≡ some s) × AllOn s (call x g).1
  unfolding call register_callback register_callback_on_close_session async_stop
  call-AllOn s (call_request a e) g h = request-AllOn s a e g h
  call-AllOn s (call_register p cb) g h = (h, tt)
  call-AllOn s (call_register_close p cb) g h = (h, tt)
  call-AllOn s call_stop g h = (h, rw (h, async_stop) (refl, tt))

  first_request :
      (a : ℕ) (pair : TradingPair) (body : Body) (g : Get)
      → g.has_session_pool ≡ true
      → On a (
          call
            (call_request a (some (pair, body)))
            (default_cb_on_close_session Callback CloseCallback Body g))
  unfolding call handle_book_event register_callbacks_for_trading_pair default_cb_on_close_session
  first_request a pair body g p = rw p (
    refl,
    sent-AllOn a pair body (Dict.lookup pair g.callback_map)
        (Dict.lookup pair g.callback_on_close_session_map),
  )

  -- While a session is active and does not close, everything is registered on it, written to it, or
  -- asked of it, whatever sessions the pool would give, and it stays the active one.
  pub run_calls-AllOn :
      (s : ℕ) (xs : List Call) (g : Get)
      → g.active_session ≡ some s
      → ((run_calls xs g).0.active_session ≡ some s) × AllOn s (run_calls xs g).1
  unfolding run_calls
  run_calls-AllOn s [] g h = (h, tt)
  run_calls-AllOn s (x ∷ xs) g h =
      let (now, out) = call-AllOn s x g h in
      let (then_on, rest) = run_calls-AllOn s xs (call x g).0 now in
      (then_on, AllOn-append s (call x g).1 (run_calls xs (call x g).0).1 out rest)

  -- The first request after the close of a session, where there is a session pool, makes the session
  -- that the pool gives the active one; from then on, until it closes, everything is
  -- registered on it, written to it or asked of it, whatever sessions the pool would give.
  pub reconnect-AllOn :
      (a : ℕ) (pair : TradingPair) (body : Body) (xs : List Call) (g : Get)
      → g.has_session_pool ≡ true
      → let (g', out) =
          run_calls
            (call_request a (some (pair, body)) ∷ xs)
            (default_cb_on_close_session Callback CloseCallback Body g) in
        (g'.active_session ≡ some a) × AllOn a out
  unfolding run_calls
  reconnect-AllOn a pair body xs g p =
      let closed = default_cb_on_close_session Callback CloseCallback Body g in
      let (now, out) = first_request a pair body g p in
      let x = call_request a (some (pair, body)) in
      let (then_on, rest) = run_calls-AllOn a xs (call x closed).0 now in
      (then_on, AllOn-append a (call x closed).1 (run_calls xs (call x closed).0).1 out rest)

  -- A request for a pair without a callback takes a session from the pool, and is not written.
  pub request-no_callback :
      (a : ℕ) (pair : TradingPair) (body : Body) (g : Get)
      → g.has_session_pool ≡ true
      → Dict.lookup pair g.callback_map ≡ none
      → g.active_session ≡ none
      → let (g', out) = handle_book_event Callback CloseCallback Body a (some (pair, body)) g in
        (g'.active_session ≡ some a) × (out ≡ [])
  unfolding handle_book_event register_callbacks_for_trading_pair send_after response_calls
  request-no_callback a pair body g p n f = ground arith
