-- ===== src/BybitGenerator/Events.antt =====
-- The events of one trading pair, what the component hands on for a sequence of them, and what it
-- means that this has no gap.
use cryptobot.Common.{ℕ, Bool, true, false, not, List, [], ◌∷◌, ◌++◌, ◌==◌, ◌≡◌, ◌≢◌}
use cryptobot.Generator.{BidAskState, next_id}
use cryptobot.Generator.Events.{
  Event, diff_event, snapshot_event, both, Track, resync, at_snapshot, at_diff,
}
use cryptobot.BybitGenerator.Defs.{
  Output, spawn_subscribe, snapshot_callback, diff_callback, handle_diff, handle_snapshot,
}

-- The events of one pair handled in turn, with both callbacks registered.
unfoldable pub run : BidAskState → List Event → List Output
run state [] = []
run state (diff_event d ∷ events) =
    let (state', out) = handle_diff both d state in out ++ run state' events
run state (snapshot_event s ∷ events) = run (handle_snapshot s state) events

-- A snapshot comes with the diff of the next id, a diff has the id after the one before it, and
-- after a request there is no diff before a snapshot.
unfoldable pub IsContiguous : Track → List Output → Type 0
IsContiguous resync [] = Unit {0}
IsContiguous resync (spawn_subscribe b pair ∷ out) = IsContiguous resync out
IsContiguous resync (snapshot_callback s ∷ out) = IsContiguous (at_snapshot s) out
IsContiguous resync (diff_callback d ∷ out) = ⊥
IsContiguous (at_snapshot s) [] = ⊥
IsContiguous (at_snapshot s) (spawn_subscribe b pair ∷ out) = ⊥
IsContiguous (at_snapshot s) (snapshot_callback s' ∷ out) = ⊥
IsContiguous (at_snapshot s) (diff_callback d ∷ out) =
    (d.last_id ≡ next_id s.last_update_id) × IsContiguous (at_diff d) out
IsContiguous (at_diff d') [] = Unit {0}
IsContiguous (at_diff d') (spawn_subscribe b pair ∷ out) = IsContiguous resync out
IsContiguous (at_diff d') (snapshot_callback s ∷ out) = IsContiguous (at_snapshot s) out
IsContiguous (at_diff d') (diff_callback d ∷ out) =
    (d.last_id ≡ next_id d'.last_id) × IsContiguous (at_diff d) out

-- The stream after a diff that was out of order (`lost`) or not, from the last id and the id of the
-- last snapshot: as long as no snapshot answers a loss, no diff has the id after the one before it,
-- and no snapshot has the id of the snapshot before it.
abbrev pub Answers : (lost : Bool) (last snapshot_id : ℕ) → List Event → Type 0
Answers lost last snapshot_id [] = Unit {0}
Answers lost last snapshot_id (diff_event d ∷ events) =
    (lost ≡ true → d.last_id ≢ next_id last)
    × Answers (not (d.last_id == next_id last)) d.last_id snapshot_id events
Answers lost last snapshot_id (snapshot_event s ∷ events) =
    (s.last_update_id ≢ snapshot_id) × Answers false s.last_update_id s.last_update_id events

-- A stream from its start, which counts as a loss, with the ids that a fresh state has.
abbrev pub IsAnswered : List Event → Type 0
IsAnswered events = Answers true 0 0 events
