-- ===== src/BybitGenerator/Tests.antt =====
-- The theorems on Bybit's generator at concrete events.
use cryptobot.Common.{ℕ, ◌≡◌, refl, true, false, List, [], ◌∷◌, arith}
use cryptobot.Types.{ExchangeId, TradingPair, pair_key}
use cryptobot.Generator.{Diff, Snapshot, BidAskState, RequestBbo, new_state}
use cryptobot.Generator.Events.{Event, diff_event, snapshot_event, both, resync}
use cryptobot.BybitGenerator.{
  spawn_subscribe, snapshot_callback, diff_callback, is_lost, handle_diff, handle_snapshot,
  Component,
}
use cryptobot.BybitGenerator.Events.{run, IsContiguous, IsAnswered}
use cryptobot.BybitGenerator.Stream
use cryptobot.BybitGenerator.Resync

abbrev pair : TradingPair
pair = record { first = 1; second = 2 }

abbrev diff : ℕ → Diff
diff id = record {
  exchange_id = ExchangeId.k_bybit;
  trading_pair = pair;
  levels = record { bids = []; asks = [] };
  first_id = id;
  last_id = id;
  prev_id = 0;
}

abbrev snapshot : ℕ → Snapshot
snapshot id = record {
  exchange_id = ExchangeId.k_bybit;
  trading_pair = pair;
  levels = record { bids = []; asks = [] };
  last_update_id = id;
}

-- A snapshot, two diffs, a loss, and the snapshot of the new subscription.
abbrev events : List Event
events =
    snapshot_event (snapshot 4)
    ∷ diff_event (diff 5)
    ∷ diff_event (diff 6)
    ∷ diff_event (diff 8)
    ∷ snapshot_event (snapshot 20)
    ∷ diff_event (diff 21)
    ∷ []

events-IsAnswered : IsAnswered events
events-IsAnswered = ground arith

run-IsContiguous_example : IsContiguous resync (run new_state events)
run-IsContiguous_example = Stream.run-IsContiguous events events-IsAnswered

handed_on :
    run new_state events
    ≡ snapshot_callback (snapshot 4)
      ∷ diff_callback (diff 5)
      ∷ diff_callback (diff 6)
      ∷ spawn_subscribe false pair
      ∷ spawn_subscribe true pair
      ∷ snapshot_callback (snapshot 20)
      ∷ diff_callback (diff 21)
      ∷ []
unfolding run handle_diff handle_snapshot
handed_on = refl

-- In step at id 7.
abbrev in_step : BidAskState
in_step = record {
  need_make_snapshot = false;
  diff_packet_lost = false;
  need_process_current_snapshot = false;
  need_process_current_diff = true;
  snapshot_and_diff_now_sync = false;
  last_id_diff_book_event = 7;
  snapshot = snapshot 4;
}

run-recovers_example :
    run in_step (diff_event (diff 9) ∷ snapshot_event (snapshot 20) ∷ diff_event (diff 21) ∷ [])
    ≡ spawn_subscribe false pair
      ∷ spawn_subscribe true pair
      ∷ snapshot_callback (snapshot 20)
      ∷ diff_callback (diff 21)
      ∷ []
unfolding is_lost
run-recovers_example =
    Resync.run-recovers in_step (diff 9) (diff 21) (snapshot 20) refl (ground arith) refl

run-passes_gap_example :
    run in_step (diff_event (diff 9) ∷ diff_event (diff 10) ∷ [])
    ≡ spawn_subscribe false pair ∷ spawn_subscribe true pair ∷ diff_callback (diff 10) ∷ []
unfolding is_lost
run-passes_gap_example = Resync.run-passes_gap in_step (diff 9) (diff 10) refl refl refl refl refl

abbrev info : RequestBbo
info = record {
  exchange_id = ExchangeId.k_bybit;
  trading_pair = pair;
  snapshot_depth = 50;
  subscribe = true;
  id = 6;
}

abbrev component : Component
component = record { callbacks = both; state_map = []; request_bbo = (pair, info) ∷ [] }
