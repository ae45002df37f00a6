-- ===== src/Generator/Events.antt =====
-- The events of one trading pair, what the component hands on for a sequence of them, and what it
-- means that this has no gap.
use cryptobot.Common.{◌+◌, ◌^◌, ◌-◌, ◌<◌, ◌≤◌, true, false, List, [], ◌∷◌, ◌++◌, ◌≡◌}
use cryptobot.Generator.Defs.{
  Diff, Snapshot, BidAskState, Policy, next_id, Output, spawn_request, snapshot_callback,
  diff_callback, Callbacks, handle_diff, handle_snapshot,
}

pub data Event : Type 0 where
  diff_event : Diff → Event
  snapshot_event : Snapshot → Event

abbrev pub both : Callbacks
both = record { for_snapshots = true; for_diffs = true }

-- The events of one pair handled in turn.
unfoldable pub run : Policy → BidAskState → List Event → List Output
run policy state [] = []
run policy state (diff_event d ∷ events) =
    let (state', out) = handle_diff policy both d state in out ++ run policy state' events
run policy state (snapshot_event s ∷ events) = run policy (handle_snapshot s state) events

-- What the last outputs were: a request, a snapshot or a diff.
pub data Track : Type 0 where
  resync : Track
  at_snapshot : Snapshot → Track
  at_diff : Diff → Track

-- The second diff starts where the first one ends.
unfoldable pub Follows : Policy → Diff → Diff → Type 0
Follows Policy.spot d d' = d'.first_id ≡ next_id d.last_id
Follows Policy.futures d d' = d'.prev_id ≡ d.last_id

-- A snapshot comes with the diff that covers the id after it, a diff follows the one before it, and
-- after a request there is no diff before a snapshot.
unfoldable pub IsGapless : Policy → Track → List Output → Type 0
IsGapless policy resync [] = Unit {0}
IsGapless policy resync (spawn_request pair ∷ out) = IsGapless policy resync out
IsGapless policy resync (snapshot_callback s ∷ out) = IsGapless policy (at_snapshot s) out
IsGapless policy resync (diff_callback d ∷ out) = ⊥
IsGapless policy (at_snapshot s) [] = ⊥
IsGapless policy (at_snapshot s) (spawn_request pair ∷ out) = ⊥
IsGapless policy (at_snapshot s) (snapshot_callback s' ∷ out) = ⊥
IsGapless policy (at_snapshot s) (diff_callback d ∷ out) =
    (d.first_id ≤ s.last_update_id + 1)
    × (s.last_update_id + 1 ≤ d.last_id)
    × IsGapless policy (at_diff d) out
IsGapless policy (at_diff d') [] = Unit {0}
IsGapless policy (at_diff d') (spawn_request pair ∷ out) = IsGapless policy resync out
IsGapless policy (at_diff d') (snapshot_callback s ∷ out) = IsGapless policy (at_snapshot s) out
IsGapless policy (at_diff d') (diff_callback d ∷ out) =
    Follows policy d' d × IsGapless policy (at_diff d) out

-- The snapshot's id does not wrap, and while the book is in step no diff ends at or before the
-- snapshot held.
unfoldable pub IsTimely : Policy → BidAskState → List Event → Type 0
IsTimely policy state [] = Unit {0}
IsTimely policy state (diff_event d ∷ events) =
    (state.need_make_snapshot ≡ false → state.snapshot.last_update_id < d.last_id)
    × IsTimely policy (handle_diff policy both d state).0 events
IsTimely policy state (snapshot_event s ∷ events) =
    (s.last_update_id < 2 ^ 64 - 1) × IsTimely policy (handle_snapshot s state) events
