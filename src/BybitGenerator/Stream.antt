-- ===== src/BybitGenerator/Stream.antt =====
-- Towards a contiguous stream: a sequence of events.
use cryptobot.Common.{
  ℕ, ◌==◌, ◌∙◌, not, Bool, true, false, List, [], ◌∷◌, ◌++◌, ◌≡◌, ◌≢◌, refl, arith, inl, inr,
  Bool-cases, sym, subst,
}
use cryptobot.Types.{TradingPair}
use cryptobot.Generator.{Diff, Snapshot, BidAskState, next_id, new_state}
use cryptobot.Generator.Events.{
  Event, diff_event, snapshot_event, both, Track, resync, at_snapshot, at_diff,
}
use cryptobot.BybitGenerator.Defs.{
  Output, spawn_subscribe, snapshot_callback, diff_callback, is_lost, handle_diff, handle_snapshot,
}
use cryptobot.BybitGenerator.Events.{run, IsContiguous, Answers, IsAnswered}
use cryptobot.BybitGenerator.Outcome.{
  IsFresh, Outcome, asks, syncs, passes, Out, Agrees, unsubscribed, in_order, stepped, outcome,
}

request-IsContiguous :
    {state : BidAskState} {t : Track} (b : Bool) (pair : TradingPair) (rest : List Output)
    → Agrees state t
    → IsContiguous resync rest
    → IsContiguous t (spawn_subscribe b pair ∷ rest)
unfolding IsContiguous
request-IsContiguous b pair rest (unsubscribed l) g = g
request-IsContiguous b pair rest (in_order l p f o) g = g

snapshot-IsContiguous :
    {state : BidAskState} {t : Track} (s : Snapshot) (rest : List Output)
    → Agrees state t
    → IsContiguous (at_snapshot s) rest
    → IsContiguous t (snapshot_callback s ∷ rest)
unfolding IsContiguous
snapshot-IsContiguous s rest (unsubscribed l) g = g
snapshot-IsContiguous s rest (in_order l p f o) g = g

diff-IsContiguous :
    {state : BidAskState} {t : Track} (d : Diff) (rest : List Output)
    → Agrees state t
    → state.diff_packet_lost ≡ false
    → state.need_process_current_snapshot ≡ false
    → d.last_id ≡ next_id state.last_id_diff_book_event
    → IsContiguous (at_diff d) rest
    → IsContiguous t (diff_callback d ∷ rest)
unfolding IsContiguous
diff-IsContiguous d rest (unsubscribed l) k q e g = absurd (ground (arith, l, k))
diff-IsContiguous d rest (in_order l p f o) k q e g = (cc (e, o q), g)

-- One diff's outputs, before outputs that are contiguous after them.
extend :
    (d : Diff) {state state' : BidAskState} {t : Track} {out : List Output} (rest : List Output)
    → Agrees state t
    → Outcome d state state' out
    → ((t' : Track) → Agrees state' t' → IsContiguous t' rest)
    → IsContiguous t (out ++ rest)
unfolding IsContiguous
extend d {state} {t} rest a (asks l e) k =
    subst (λ o. IsContiguous t (o ++ rest)) (sym e)
      (request-IsContiguous false d.trading_pair (spawn_subscribe true d.trading_pair ∷ rest) a
        (k resync (unsubscribed l)))
extend d {state} {t} rest a (syncs i n e) k =
    subst (λ o. IsContiguous t (o ++ rest)) (sym e)
      (snapshot-IsContiguous state.snapshot (diff_callback d ∷ rest) a
        (n, k (at_diff d) (stepped i)))
extend d {t} rest a (passes l q i n e) k =
    subst (λ o. IsContiguous t (o ++ rest)) (sym e)
      (diff-IsContiguous d rest a l q n (k (at_diff d) (stepped i)))

handle_snapshot-Agrees :
    (s : Snapshot) {state : BidAskState} {t : Track}
    → (state.need_process_current_snapshot ≡ true
        → state.snapshot.last_update_id ≢ s.last_update_id)
    → Agrees state t
    → Agrees (handle_snapshot s state) t
unfolding handle_snapshot
handle_snapshot-Agrees s {state} new (unsubscribed l) = unsubscribed (ground arith)
handle_snapshot-Agrees s {state} new (in_order l p f o) =
    elim (Bool-cases state.need_process_current_snapshot) [
      | inl q ↦
          let n = new q in
          in_order (ground arith) (ground arith) (λ h. ground arith) (λ h. ground arith)
      | inr q ↦
          let last = o q in
          in_order (ground arith) (ground arith) (λ h. ground arith) (λ h. ground arith)
    ]

-- What the stream so far says of the state: its ids, and that a snapshot that answered a loss waits.
record Follows (state : BidAskState) (lost : Bool) (last snapshot_id : ℕ) : Type 0 where
  last_id : state.last_id_diff_book_event ≡ last
  held : state.snapshot.last_update_id ≡ snapshot_id
  answered : lost ≡ false → state.diff_packet_lost ≡ true → IsFresh state

handle_diff-Follows :
    (d : Diff) (state : BidAskState) (lost : Bool) (last snapshot_id : ℕ)
    → Follows state lost last snapshot_id
    → Follows (handle_diff both d state).0 (not (d.last_id == next_id last)) d.last_id snapshot_id
unfolding handle_diff is_lost
handle_diff-Follows d state lost last snapshot_id f = record {
  last_id = ground arith;
  held = ground (arith, f.held);
  answered = λ e l. ground (arith, f.last_id, e, l);
}

handle_snapshot-Follows :
    (s : Snapshot) (state : BidAskState) (lost : Bool) (last snapshot_id : ℕ)
    → s.last_update_id ≢ snapshot_id
    → Follows state lost last snapshot_id
    → Follows (handle_snapshot s state) false s.last_update_id s.last_update_id
unfolding handle_snapshot
handle_snapshot-Follows s state lost last snapshot_id n f = record {
  last_id = ground (arith, f.held, n);
  held = ground (arith, f.held, n);
  answered = λ e l. (ground (arith, f.held, n), ground (arith, f.held, n));
}

ready :
    (d : Diff) (state : BidAskState) (lost : Bool) (last snapshot_id : ℕ)
    → Follows state lost last snapshot_id
    → (lost ≡ true → d.last_id ≢ next_id last)
    → state.diff_packet_lost ≡ true
    → d.last_id ≡ next_id state.last_id_diff_book_event
    → IsFresh state
ready d state true last snapshot_id f n l e = absurd (n refl (rw (sym f.last_id) e))
ready d state false last snapshot_id f n l e = f.answered refl l

run-Agrees :
    (events : List Event) (state : BidAskState) (t : Track) (lost : Bool) (last snapshot_id : ℕ)
    → Follows state lost last snapshot_id
    → Answers lost last snapshot_id events
    → Agrees state t
    → IsContiguous t (run state events)
unfolding run IsContiguous Out
run-Agrees [] state t lost last id f answers (unsubscribed l) = tt
run-Agrees [] state t lost last id f answers (in_order l p g o) = tt
run-Agrees (diff_event d ∷ events) state t lost last id f (now, later) a =
    let state' = (handle_diff both d state).0 in
    extend d (run state' events) a (outcome d state (ready d state lost last id f now) a) (λ t' a'.
      run-Agrees events state' t' (not (d.last_id == next_id last)) d.last_id id
        (handle_diff-Follows d state lost last id f) later a')
run-Agrees (snapshot_event s ∷ events) state t lost last id f (now, later) a =
    run-Agrees events (handle_snapshot s state) t false s.last_update_id s.last_update_id
      (handle_snapshot-Follows s state lost last id now f) later
      (handle_snapshot-Agrees s (λ _. λ e. now (sym e ∙ f.held)) a)

new_state-Follows : Follows new_state true 0 0
new_state-Follows = record { last_id = refl; held = refl; answered = λ e l. cc }

-- Started afresh, with both callbacks registered, on any sequence of diffs and snapshots of one
-- pair in which (IsAnswered), at the start and after a diff out of order, no diff has the id after
-- the one before it until a snapshot has come, and no snapshot has the id of the snapshot before
-- it, or 0 as the first one, the component hands on a contiguous stream: each snapshot is followed
-- at once by the diff of the next id, each further diff has the id after the one before it, and
-- after a request for a new subscription no diff comes before the next snapshot.
pub run-IsContiguous :
    (events : List Event) → IsAnswered events → IsContiguous resync (run new_state events)
run-IsContiguous events answers =
    run-Agrees events new_state resync true 0 0 new_state-Follows answers (unsubscribed refl)
