-- ===== src/EventGetter/Defs.antt =====
-- The handlers of BookEventGetter3. A session is its address; what is called on it is an output. The
-- body that ArgsBodyType makes of a request, and the callbacks, are parameters.
use cryptobot.Common.{ℕ, Bool, Option, none, some, List, [], ◌∷◌, ◌++◌, if◌then◌else◌}
use cryptobot.Common.Dict
use cryptobot.Common.Dict.{Dict}
use cryptobot.Types.{TradingPair, pair_key}

module _ (Callback CloseCallback Body : Type 0) where
  pub data Output : Type 0 where
    register_on_response : ℕ → Callback → TradingPair → Output
    register_on_close : ℕ → CloseCallback → Output
    register_default_on_close : ℕ → Output
    async_write : ℕ → Body → Output
    async_close : ℕ → Output

  pub record Getter : Type 0 where
    pub has_session_pool : Bool
    pub callback_map : Dict TradingPair Callback
    pub callback_on_close_session_map : Dict TradingPair CloseCallback
    pub active_session : Option ℕ

  unfoldable pub new_getter : Bool → Getter
  new_getter has_pool = record {
    has_session_pool = has_pool;
    callback_map = [];
    callback_on_close_session_map = [];
    active_session = none;
  }

  unfoldable pub register_callback : TradingPair → Callback → Getter → Getter
  register_callback pair cb g = record g { callback_map = Dict.insert pair cb g.callback_map }

  unfoldable pub register_callback_on_close_session : TradingPair → CloseCallback → Getter → Getter
  register_callback_on_close_session pair cb g = record g {
    callback_on_close_session_map = Dict.insert pair cb g.callback_on_close_session_map;
  }

  unfoldable pub close_calls : ℕ → Option CloseCallback → List Output
  close_calls s none = register_default_on_close s ∷ []
  close_calls s (some c) = register_on_close s c ∷ register_default_on_close s ∷ []

  unfoldable pub response_calls :
      ℕ → TradingPair → Option Callback → Option CloseCallback → Option (List Output)
  unfolding close_calls
  response_calls s pair none c = none
  response_calls s pair (some cb) c = some (register_on_response s cb pair ∷ close_calls s c)

  -- RegisterCallbacksForTradingPair, on the active session: none where it returns false.
  unfoldable pub register_callbacks_for_trading_pair :
      ℕ → TradingPair → Getter → Option (List Output)
  unfolding response_calls
  register_callbacks_for_trading_pair s pair g =
      response_calls s pair (Dict.lookup pair g.callback_map)
        (Dict.lookup pair g.callback_on_close_session_map)

  -- The request is sent where the callbacks could be registered.
  unfoldable pub send_after : ℕ → Body → Option (List Output) → List Output
  send_after s body none = []
  send_after s body (some calls) = calls ++ (async_write s body ∷ [])

  -- The active session, or the one that AcquireConnection of the pool gives.
  abbrev pub session_for : ℕ → Getter → ℕ
  session_for acquired g = elim g.active_session [ none ↦ acquired | some s ↦ s ]

  -- CoExec and HandleBookEvent: `none` where the event or what it wraps is null.
  unfoldable pub handle_book_event : ℕ → Option (TradingPair × Body) → Getter → Getter × List Output
  unfolding register_callbacks_for_trading_pair send_after
  handle_book_event acquired none g = (g, [])
  handle_book_event acquired (some (pair, body)) g =
      let s = session_for acquired g in
      let g' : Getter = record g { active_session = some s } in
      let out = send_after s body (register_callbacks_for_trading_pair s pair g') in
      if g.has_session_pool then (g', out) else (g, [])

  unfoldable pub async_stop : Getter → List Output
  async_stop g = elim g.active_session [ none ↦ [] | some s ↦ async_close s ∷ [] ]

  unfoldable pub default_cb_on_close_session : Getter → Getter
  default_cb_on_close_session g = record g { active_session = none }
