-- ===== src/Generator/Tests.antt =====
-- The theorems on the generator at concrete events.
use cryptobot.Common.{ℕ, ◌≡◌, refl, ◌++◌, true, false, List, [], ◌∷◌, arith}
use cryptobot.Types.{ExchangeId, TradingPair, pair_key}
use cryptobot.Generator.{
  Diff, Snapshot, BidAskState, Policy, snapshot_callback, diff_callback, Component, RequestBbo,
  new_state, handle_diff, handle_snapshot, check_packet_loss,
}
use cryptobot.Generator.Stream
use cryptobot.Generator.Events.{
  Event, diff_event, snapshot_event, both, run, resync, Follows, IsGapless, IsTimely,
}
use cryptobot.Generator.Resync

abbrev pair : TradingPair
pair = record { first = 1; second = 2 }

abbrev other_pair : TradingPair
other_pair = record { first = 3; second = 2 }

abbrev diff : (first last prev : ℕ) → Diff
diff first last prev = record {
  exchange_id = ExchangeId.k_binance;
  trading_pair = pair;
  levels = record { bids = []; asks = [] };
  first_id = first;
  last_id = last;
  prev_id = prev;
}

abbrev snapshot : ℕ → Snapshot
snapshot id = record {
  exchange_id = ExchangeId.k_binance;
  trading_pair = pair;
  levels = record { bids = []; asks = [] };
  last_update_id = id;
}

abbrev events : List Event
events =
    diff_event (diff 5 7 4)
    ∷ snapshot_event (snapshot 8)
    ∷ diff_event (diff 8 9 7)
    ∷ diff_event (diff 10 12 9)
    ∷ []

events-IsTimely : IsTimely Policy.spot new_state events
unfolding IsTimely handle_diff handle_snapshot check_packet_loss
events-IsTimely = ground arith

run-IsGapless_example : IsGapless Policy.spot resync (run Policy.spot new_state events)
run-IsGapless_example = Stream.run-IsGapless Policy.spot events events-IsTimely

run-resyncs_example :
    run Policy.spot new_state
      (diff_event (diff 5 7 4) ∷ snapshot_event (snapshot 8) ∷ diff_event (diff 8 9 7) ∷ [])
    ≡ (handle_diff Policy.spot both (diff 5 7 4) new_state).1
      ++ (snapshot_callback (snapshot 8) ∷ diff_callback (diff 8 9 7) ∷ [])
unfolding Follows handle_diff check_packet_loss
run-resyncs_example =
    Resync.run-resyncs Policy.spot new_state (diff 5 7 4) (diff 8 9 7) (snapshot 8) refl refl refl

-- In step at id 7, with a surplus snapshot of id 20.
abbrev in_step : BidAskState
in_step = record {
  need_make_snapshot = false;
  diff_packet_lost = false;
  need_process_current_snapshot = false;
  need_process_current_diff = true;
  snapshot_and_diff_now_sync = false;
  last_id_diff_book_event = 7;
  snapshot = snapshot 20;
}

run-misses_loss_example :
    run Policy.spot in_step (diff_event (diff 10 12 9) ∷ diff_event (diff 13 14 12) ∷ [])
    ≡ diff_callback (diff 13 14 12) ∷ []
unfolding Follows check_packet_loss
run-misses_loss_example =
    Resync.run-misses_loss Policy.spot in_step (diff 10 12 9) (diff 13 14 12) refl refl refl refl
      (omega arith) refl

abbrev component : Component
component = record { callbacks = both; state_map = []; request_bbo = [] }

abbrev request : RequestBbo
request = record {
  exchange_id = ExchangeId.k_binance;
  trading_pair = pair;
  snapshot_depth = 100;
  subscribe = true;
  id = 6;
}
