-- ===== src/BybitGenerator/Resync.antt =====
-- How one trading pair gets in step after a loss, and the two ways in which it can go wrong.
use cryptobot.Common.{true, false, [], ◌∷◌, ◌≡◌, ◌≢◌, arith}
use cryptobot.Generator.{Diff, Snapshot, BidAskState, next_id}
use cryptobot.Generator.Events.{diff_event, snapshot_event, both}
use cryptobot.BybitGenerator.Defs.{
  spawn_subscribe, snapshot_callback, diff_callback, is_lost, handle_diff, handle_snapshot,
}
use cryptobot.BybitGenerator.Events.{run}

lost_lem :
    (d : Diff) (state : BidAskState)
    → is_lost d state ≡ true
    → handle_diff both d state ≡ (
      record state { diff_packet_lost = true; last_id_diff_book_event = d.last_id },
      spawn_subscribe false d.trading_pair ∷ spawn_subscribe true d.trading_pair ∷ [],
    )
unfolding handle_diff
lost_lem d state e = ground arith

shows :
    (d : Diff) (s : Snapshot) (state : BidAskState)
    → state.snapshot.last_update_id ≢ s.last_update_id
    → d.last_id ≡ next_id s.last_update_id
    → (handle_diff both d (handle_snapshot s state)).1 ≡ snapshot_callback s ∷ diff_callback d ∷ []
unfolding handle_diff handle_snapshot
shows d s state n e = ground arith

-- From any state, a diff that does not have the next id is answered by a request to unsubscribe
-- and then a request to subscribe; a snapshot with another id than the one held and the diff of the
-- id after it then put the pair in step: that snapshot and that diff are handed on.
pub run-recovers :
    (state : BidAskState) (d d' : Diff) (s : Snapshot)
    → is_lost d state ≡ true
    → state.snapshot.last_update_id ≢ s.last_update_id
    → d'.last_id ≡ next_id s.last_update_id
    → run state (diff_event d ∷ snapshot_event s ∷ diff_event d' ∷ [])
      ≡ spawn_subscribe false d.trading_pair
        ∷ spawn_subscribe true d.trading_pair
        ∷ snapshot_callback s
        ∷ diff_callback d'
        ∷ []
unfolding run
run-recovers state d d' s l n e =
    let seen = record state { diff_packet_lost = true; last_id_diff_book_event = d.last_id } in
    rw (lost_lem d state l, shows d' s seen n e)

in_order :
    (d : Diff) (state : BidAskState)
    → state.need_make_snapshot ≡ false
    → state.need_process_current_snapshot ≡ false
    → state.need_process_current_diff ≡ true
    → d.last_id ≡ next_id state.last_id_diff_book_event
    → (handle_diff both d state).1 ≡ diff_callback d ∷ []
unfolding handle_diff
in_order d state n q p e = ground arith

-- While the book is in step, a diff that does not have the next id is dropped and a new
-- subscription is asked for, yet a diff whose id comes after the dropped one's is handed on before
-- any snapshot: the receiver misses the dropped diff.
pub run-passes_gap :
    (state : BidAskState) (d d' : Diff)
    → state.need_make_snapshot ≡ false
    → state.need_process_current_snapshot ≡ false
    → state.need_process_current_diff ≡ true
    → is_lost d state ≡ true
    → d'.last_id ≡ next_id d.last_id
    → run state (diff_event d ∷ diff_event d' ∷ [])
      ≡ spawn_subscribe false d.trading_pair
        ∷ spawn_subscribe true d.trading_pair
        ∷ diff_callback d'
        ∷ []
unfolding run
run-passes_gap state d d' n q p l e =
    let seen = record state { diff_packet_lost = true; last_id_diff_book_event = d.last_id } in
    rw (lost_lem d state l, in_order d' seen n q p e)

-- While the book is in step, a new snapshot that comes twice before the next diff is not handed
-- on: the diff of the id after it is handed on alone.
pub run-forgets_snapshot :
    (state : BidAskState) (d : Diff) (s : Snapshot)
    → state.need_make_snapshot ≡ false
    → state.need_process_current_diff ≡ true
    → state.snapshot.last_update_id ≢ s.last_update_id
    → d.last_id ≡ next_id s.last_update_id
    → run state (snapshot_event s ∷ snapshot_event s ∷ diff_event d ∷ []) ≡ diff_callback d ∷ []
unfolding run handle_diff handle_snapshot
run-forgets_snapshot state d s m p n e = ground arith
