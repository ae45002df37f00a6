-- ===== src/Generator/Stream.antt =====
-- Towards a stream without a gap: what one diff can lead to, and then a sequence of events.
use cryptobot.Common.{
  ◌+◌, ◌^◌, ◌-◌, ◌<◌, ◌≤◌, true, false, List, [], ◌∷◌, ◌++◌, leb, ◌≡◌, refl, arith, inl, inr,
  Bool-cases, sym, subst,
}
use cryptobot.Types.{TradingPair}
use cryptobot.Generator.Defs.{
  Diff, Snapshot, BidAskState, Policy, check_packet_loss, Output, spawn_request, snapshot_callback,
  diff_callback, in_sync, handle_diff, handle_snapshot, new_state,
}
use cryptobot.Generator.Events.{
  Event, diff_event, snapshot_event, both, run, Track, resync, at_snapshot, at_diff, Follows,
  IsGapless, IsTimely,
}

-- A book in step: nothing of the snapshot is pending, diffs are passed on, and the last one seen is `d`.
record IsStep (state : BidAskState) (d : Diff) : Type 0 where
  step : state.need_make_snapshot ≡ false
  shown : state.need_process_current_snapshot ≡ false
  passing : state.need_process_current_diff ≡ true
  last : state.last_id_diff_book_event ≡ d.last_id

-- The four things that a diff can lead to.
data Outcome (policy : Policy) (d : Diff) (state state' : BidAskState) (out : List Output)
    : Type 0 where
  waits :
      state.need_make_snapshot ≡ true
      → state'.need_make_snapshot ≡ true
      → out ≡ []
      → Outcome policy d state state' out
  asks :
      state'.need_make_snapshot ≡ true
      → out ≡ spawn_request d.trading_pair ∷ []
      → Outcome policy d state state' out
  syncs :
      IsStep state' d
      → d.first_id ≤ state.snapshot.last_update_id + 1
      → state.snapshot.last_update_id + 1 ≤ d.last_id
      → out ≡ snapshot_callback state.snapshot ∷ diff_callback d ∷ []
      → Outcome policy d state state' out
  passes :
      state.need_make_snapshot ≡ false
      → IsStep state' d
      → check_packet_loss policy d state ≡ false
      → out ≡ diff_callback d ∷ []
      → Outcome policy d state state' out

in_sync_is_newer :
    (d : Diff) (s : Snapshot)
    → s.last_update_id < 2 ^ 64 - 1
    → in_sync d s ≡ true
    → leb d.last_id s.last_update_id ≡ false
in_sync_is_newer d s h e = ground arith

-- The state agrees with what was last handed on.
data Agrees (state : BidAskState) : Track → Type 0 where
  at_start : state.need_make_snapshot ≡ true → Agrees state resync
  out_of_step : {d : Diff} → state.need_make_snapshot ≡ true → Agrees state (at_diff d)
  in_step : {d : Diff} → IsStep state d → Agrees state (at_diff d)

keep :
    {state state' : BidAskState} {t : Track}
    → Agrees state t
    → state'.need_make_snapshot ≡ true
    → Agrees state' t
keep (at_start n) n' = at_start n'
keep (out_of_step n) n' = out_of_step n'
keep (in_step i) n' = out_of_step n'

Out : Policy → Diff → BidAskState → Type 0
unfolding handle_diff
Out policy d state =
    Outcome policy d state (handle_diff policy both d state).0 (handle_diff policy both d state).1

outcome_asked :
    (policy : Policy) (d : Diff) (state : BidAskState)
    → state.need_make_snapshot ≡ true
    → in_sync d state.snapshot ≡ false
    → Out policy d state
unfolding handle_diff Out
outcome_asked policy d state n s = elim (Bool-cases (leb d.last_id state.snapshot.last_update_id)) [
  | inl e ↦ waits n (ground arith) (ground arith)
  | inr e ↦ asks (ground arith) (ground arith)
]

outcome_synced :
    (policy : Policy) (d : Diff) (state : BidAskState)
    → state.snapshot.last_update_id < 2 ^ 64 - 1
    → state.need_make_snapshot ≡ true
    → in_sync d state.snapshot ≡ true
    → Out policy d state
unfolding handle_diff Out
outcome_synced policy d state h n s =
    let newer = in_sync_is_newer d state.snapshot h s in
    elim (Bool-cases (check_packet_loss policy d state)) [
      | inl e ↦ asks (ground arith) (ground arith)
      | inr e ↦
          syncs
            (record {
              step = ground arith;
              shown = ground arith;
              passing = ground arith;
              last = ground arith;
            })
            (ground arith) (ground arith) (ground arith)
    ]

outcome_step :
    (policy : Policy) (d d0 : Diff) (state : BidAskState)
    → IsStep state d0
    → state.snapshot.last_update_id < d.last_id
    → Out policy d state
unfolding handle_diff Out
outcome_step policy d d0 state i h =
    let n = i.step in
    let s = i.shown in
    let p = i.passing in
    elim (Bool-cases (check_packet_loss policy d state)) [
      | inl e ↦ asks (ground arith) (ground arith)
      | inr e ↦
          passes n
            (record {
              step = ground arith;
              shown = ground arith;
              passing = ground arith;
              last = ground arith;
            })
            e (ground arith)
    ]

outcome_needed :
    (policy : Policy) (d : Diff) (state : BidAskState)
    → state.snapshot.last_update_id < 2 ^ 64 - 1
    → state.need_make_snapshot ≡ true
    → Out policy d state
outcome_needed policy d state h n = elim (Bool-cases (in_sync d state.snapshot)) [
  | inl e ↦ outcome_synced policy d state h n e
  | inr e ↦ outcome_asked policy d state n e
]

outcome :
    (policy : Policy) (d : Diff) (state : BidAskState) {t : Track}
    → state.snapshot.last_update_id < 2 ^ 64 - 1
    → (state.need_make_snapshot ≡ false → state.snapshot.last_update_id < d.last_id)
    → Agrees state t
    → Out policy d state
outcome policy d state h timely (at_start n) = outcome_needed policy d state h n
outcome policy d state h timely (out_of_step n) = outcome_needed policy d state h n
outcome policy d state h timely (in_step {d = d0} i) =
    outcome_step policy d d0 state i (timely i.step)

handle_diff-snapshot :
    (policy : Policy) (d : Diff) (state : BidAskState)
    → (handle_diff policy both d state).0.snapshot ≡ state.snapshot
unfolding handle_diff
handle_diff-snapshot policy d state = ground arith

follows :
    (policy : Policy) (d d' : Diff) (state : BidAskState)
    → state.last_id_diff_book_event ≡ d.last_id
    → check_packet_loss policy d' state ≡ false
    → Follows policy d d'
unfolding check_packet_loss Follows
follows Policy.spot d d' state l e = ground arith
follows Policy.futures d d' state l e = ground arith

ask-IsGapless :
    (policy : Policy) {state : BidAskState} {t : Track} (pair : TradingPair) (rest : List Output)
    → Agrees state t
    → IsGapless policy resync rest
    → IsGapless policy t (spawn_request pair ∷ rest)
unfolding IsGapless
ask-IsGapless policy pair rest (at_start n) g = g
ask-IsGapless policy pair rest (out_of_step n) g = g
ask-IsGapless policy pair rest (in_step i) g = g

sync-IsGapless :
    (policy : Policy) {state : BidAskState} {t : Track} (s : Snapshot) (rest : List Output)
    → Agrees state t
    → IsGapless policy (at_snapshot s) rest
    → IsGapless policy t (snapshot_callback s ∷ rest)
unfolding IsGapless
sync-IsGapless policy s rest (at_start n) g = g
sync-IsGapless policy s rest (out_of_step n) g = g
sync-IsGapless policy s rest (in_step i) g = g

-- One diff's outputs, before outputs that have no gap after them.
extend :
    (policy : Policy) (d : Diff) {state state' : BidAskState} {t : Track} {out : List Output}
    (rest : List Output)
    → Agrees state t
    → Outcome policy d state state' out
    → ((t' : Track) → Agrees state' t' → IsGapless policy t' rest)
    → IsGapless policy t (out ++ rest)
unfolding IsGapless
extend policy d {t} rest a (waits n n' e) k =
    subst (λ o. IsGapless policy t (o ++ rest)) (sym e) (k t (keep a n'))
extend policy d {t} rest a (asks n' e) k =
    subst (λ o. IsGapless policy t (o ++ rest)) (sym e)
      (ask-IsGapless policy d.trading_pair rest a (k resync (at_start n')))
extend policy d {state} {t} rest a (syncs i below above e) k =
    subst (λ o. IsGapless policy t (o ++ rest)) (sym e)
      (sync-IsGapless policy state.snapshot (diff_callback d ∷ rest) a
        (below, above, k (at_diff d) (in_step i)))
extend policy d rest (at_start n') (passes n i l e) k = cc
extend policy d rest (out_of_step n') (passes n i l e) k = cc
extend policy d {state} rest (in_step {d = d0} j) (passes n i l e) k =
    subst (λ o. IsGapless policy (at_diff d0) (o ++ rest)) (sym e)
      (follows policy d0 d state j.last l, k (at_diff d) (in_step i))

run-Agrees :
    (policy : Policy) (events : List Event) (state : BidAskState) (t : Track)
    → state.snapshot.last_update_id < 2 ^ 64 - 1
    → IsTimely policy state events
    → Agrees state t
    → IsGapless policy t (run policy state events)
unfolding run IsGapless IsTimely handle_snapshot Out
run-Agrees policy [] state t h timely (at_start n) = tt
run-Agrees policy [] state t h timely (out_of_step n) = tt
run-Agrees policy [] state t h timely (in_step i) = tt
run-Agrees policy (diff_event d ∷ events) state t h (now, later) a =
    let state' = (handle_diff policy both d state).0 in
    extend policy d (run policy state' events) a (outcome policy d state h now a) (λ t' a'.
      run-Agrees policy events state' t'
        (subst (λ s. s.last_update_id < 2 ^ 64 - 1) (sym (handle_diff-snapshot policy d state)) h)
        later a')
run-Agrees policy (snapshot_event s ∷ events) state t h (now, later) a =
    run-Agrees policy events (handle_snapshot s state) t now later (store a)
  where
    store : {t : Track} → Agrees state t → Agrees (handle_snapshot s state) t
    store (at_start n) = at_start n
    store (out_of_step n) = out_of_step n
    store (in_step i) =
        in_step (record { step = i.step; shown = i.shown; passing = i.passing; last = i.last })

-- Started afresh, with both callbacks registered, on any sequence of diffs and snapshots of one
-- pair that is timely (IsTimely), the component hands on a stream without a gap: each snapshot is
-- followed at once by a diff that covers the id after it, each further diff starts where the one
-- before it ends, and after a request for a snapshot no diff comes before the next snapshot.
pub run-IsGapless :
    (policy : Policy) (events : List Event)
    → IsTimely policy new_state events
    → IsGapless policy resync (run policy new_state events)
run-IsGapless policy events timely =
    run-Agrees policy events new_state resync (omega arith) timely (at_start refl)
