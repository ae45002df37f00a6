-- ===== src/Generator/Resync.antt =====
-- How one trading pair gets in step, and how it can miss a lost packet.
use cryptobot.Common.{◌≤◌, true, false, [], ◌∷◌, ◌++◌, ◌≡◌, arith}
use cryptobot.Generator.{
  Diff, Snapshot, BidAskState, Policy, check_packet_loss, snapshot_callback, diff_callback, in_sync,
  handle_diff, handle_snapshot,
}
use cryptobot.Generator.Events.{diff_event, snapshot_event, both, run, Follows}

handle_diff-last_id :
    (policy : Policy) (d : Diff) (state : BidAskState)
    → (handle_diff policy both d state).0.last_id_diff_book_event ≡ d.last_id
unfolding handle_diff
handle_diff-last_id policy d state = ground arith

not_lost :
    (policy : Policy) (d d' : Diff) (state : BidAskState)
    → state.last_id_diff_book_event ≡ d.last_id
    → Follows policy d d'
    → check_packet_loss policy d' state ≡ false
unfolding check_packet_loss Follows
not_lost Policy.spot d d' state e f = ground arith
not_lost Policy.futures d d' state e f = ground arith

sync_step :
    (policy : Policy) (d : Diff) (state : BidAskState)
    → state.need_make_snapshot ≡ true
    → in_sync d state.snapshot ≡ true
    → check_packet_loss policy d state ≡ false
    → (handle_diff policy both d state).1 ≡ snapshot_callback state.snapshot ∷ diff_callback d ∷ []
unfolding handle_diff
sync_step policy d state n s e = ground arith

-- While a snapshot is needed, a diff, then the snapshot, then a diff that follows the first one
-- and covers the id after the snapshot's bring the book in step: the snapshot and the second diff are passed on.
pub run-resyncs :
    (policy : Policy) (state : BidAskState) (d d' : Diff) (s : Snapshot)
    → (handle_diff policy both d state).0.need_make_snapshot ≡ true
    → Follows policy d d'
    → in_sync d' s ≡ true
    → run policy state (diff_event d ∷ snapshot_event s ∷ diff_event d' ∷ [])
      ≡ (handle_diff policy both d state).1 ++ (snapshot_callback s ∷ diff_callback d' ∷ [])
unfolding run handle_snapshot
run-resyncs policy state d d' s n f e =
    let seen = handle_snapshot s (handle_diff policy both d state).0 in
    let out = (handle_diff policy both d state).1 in
    cc (
      sync_step policy d' seen n e
        (not_lost policy d d' seen (handle_diff-last_id policy d state) f))

missed :
    (policy : Policy) (d : Diff) (state : BidAskState)
    → state.need_make_snapshot ≡ false
    → check_packet_loss policy d state ≡ true
    → d.last_id ≤ state.snapshot.last_update_id
    → ((handle_diff policy both d state).1 ≡ [])
      × ((handle_diff policy both d state).0.need_make_snapshot ≡ false)
      × ((handle_diff policy both d state).0.need_process_current_snapshot
          ≡ state.need_process_current_snapshot)
      × ((handle_diff policy both d state).0.need_process_current_diff
          ≡ state.need_process_current_diff)
unfolding handle_diff
missed policy d state n l o = ground arith

pass_step :
    (policy : Policy) (d : Diff) (state : BidAskState)
    → state.need_make_snapshot ≡ false
    → state.need_process_current_snapshot ≡ false
    → state.need_process_current_diff ≡ true
    → check_packet_loss policy d state ≡ false
    → (handle_diff policy both d state).1 ≡ diff_callback d ∷ []
unfolding handle_diff
pass_step policy d state n s p e = ground arith

-- A lost packet goes unnoticed while the book is in step (no snapshot needed or pending, diffs
-- passed on), where the snapshot held is not older than the diff that shows the loss: that diff is
-- dropped, no snapshot is asked for, and the next diff is passed on as if nothing were missing.
pub run-misses_loss :
    (policy : Policy) (state : BidAskState) (d d' : Diff)
    → state.need_make_snapshot ≡ false
    → state.need_process_current_snapshot ≡ false
    → state.need_process_current_diff ≡ true
    → check_packet_loss policy d state ≡ true
    → d.last_id ≤ state.snapshot.last_update_id
    → Follows policy d d'
    → run policy state (diff_event d ∷ diff_event d' ∷ []) ≡ diff_callback d' ∷ []
unfolding run
run-misses_loss policy state d d' n s p l o f =
    let (out, n', s', p') = missed policy d state n l o in
    let after = (handle_diff policy both d state).0 in
    cc (
      out,
      pass_step policy d' after n' (ground arith) (ground arith)
          (not_lost policy d d' after (handle_diff-last_id policy d state) f),
    )
