-- ===== src/BybitGenerator/Outcome.antt =====
-- What one diff can lead to, from a state that agrees with what was last handed on.
use cryptobot.Common.{◌==◌, true, false, List, [], ◌∷◌, ◌≡◌, arith, inl, inr, Bool-cases}
use cryptobot.Generator.{Diff, BidAskState, next_id}
use cryptobot.Generator.Events.{both, Track, resync, at_diff}
use cryptobot.BybitGenerator.Defs.{
  Output, spawn_subscribe, snapshot_callback, diff_callback, is_lost, handle_diff,
}

-- A book in step whose last diff is `d`.
pub record IsStep (state : BidAskState) (d : Diff) : Type 0 where
  pub kept : state.diff_packet_lost ≡ false
  pub shown : state.need_process_current_snapshot ≡ false
  pub passing : state.need_process_current_diff ≡ true
  pub last : state.last_id_diff_book_event ≡ d.last_id

-- The last id is that of the snapshot, which waits to be handed on.
abbrev pub IsFresh : BidAskState → Type 0
IsFresh state =
    (state.need_process_current_snapshot ≡ true)
    × (state.last_id_diff_book_event ≡ state.snapshot.last_update_id)

pub data Outcome (d : Diff) (state state' : BidAskState) (out : List Output) : Type 0 where
  asks :
      state'.diff_packet_lost ≡ true
      → out ≡ spawn_subscribe false d.trading_pair ∷ spawn_subscribe true d.trading_pair ∷ []
      → Outcome d state state' out
  syncs :
      IsStep state' d
      → d.last_id ≡ next_id state.snapshot.last_update_id
      → out ≡ snapshot_callback state.snapshot ∷ diff_callback d ∷ []
      → Outcome d state state' out
  passes :
      state.diff_packet_lost ≡ false
      → state.need_process_current_snapshot ≡ false
      → IsStep state' d
      → d.last_id ≡ next_id state.last_id_diff_book_event
      → out ≡ diff_callback d ∷ []
      → Outcome d state state' out

unfoldable pub Out : Diff → BidAskState → Type 0
Out d state = Outcome d state (handle_diff both d state).0 (handle_diff both d state).1

outcome_lost : (d : Diff) (state : BidAskState) → is_lost d state ≡ true → Out d state
unfolding handle_diff Out
outcome_lost d state e = asks (ground arith) (ground arith)

handle_diff-IsStep :
    (d : Diff) (state : BidAskState)
    → is_lost d state ≡ false
    → (state.need_process_current_snapshot ≡ false → state.need_process_current_diff ≡ true)
    → IsStep (handle_diff both d state).0 d
unfolding handle_diff
handle_diff-IsStep d state e p = record {
  kept = ground arith;
  shown = ground arith;
  passing = ground arith;
  last = ground arith;
}

outcome_fresh :
    (d : Diff) (state : BidAskState) → is_lost d state ≡ false → IsFresh state → Out d state
unfolding handle_diff Out
outcome_fresh d state e (p, l) =
    syncs (handle_diff-IsStep d state e (λ q. ground arith)) (ground arith) (ground arith)

outcome_in_order :
    (d : Diff) (state : BidAskState)
    → is_lost d state ≡ false
    → state.diff_packet_lost ≡ false
    → state.need_process_current_snapshot ≡ false
    → state.need_process_current_diff ≡ true
    → Out d state
unfolding handle_diff Out
outcome_in_order d state e l q p =
    let i = handle_diff-IsStep d state e (λ _. p) in
    elim (Bool-cases state.need_make_snapshot) [
      | inl n ↦ elim (Bool-cases (d.last_id == next_id state.snapshot.last_update_id)) [
        | inl s ↦ syncs i (ground arith) (ground arith)
        | inr s ↦ passes l q i (ground arith) (ground arith)
      ]
      | inr n ↦ passes l q i (ground arith) (ground arith)
    ]

-- The state agrees with what was last handed on.
pub data Agrees (state : BidAskState) : Track → Type 0 where
  unsubscribed : state.diff_packet_lost ≡ true → Agrees state resync
  in_order :
      {d : Diff}
      → state.diff_packet_lost ≡ false
      → state.need_process_current_diff ≡ true
      → (state.need_process_current_snapshot ≡ true
          → state.last_id_diff_book_event ≡ state.snapshot.last_update_id)
      → (state.need_process_current_snapshot ≡ false → state.last_id_diff_book_event ≡ d.last_id)
      → Agrees state (at_diff d)

pub stepped : {state : BidAskState} {d : Diff} → IsStep state d → Agrees state (at_diff d)
stepped i = in_order i.kept i.passing (λ p. ground (arith, i.shown, p)) (λ _. i.last)

pub outcome :
    (d : Diff) (state : BidAskState) {t : Track}
    → (state.diff_packet_lost ≡ true
        → d.last_id ≡ next_id state.last_id_diff_book_event
        → IsFresh state)
    → Agrees state t
    → Out d state
unfolding is_lost
outcome d state answered a = elim (Bool-cases (is_lost d state)) [
  | inl e ↦ outcome_lost d state e
  | inr e ↦ kept e a
]
  where
    kept : {t : Track} → is_lost d state ≡ false → Agrees state t → Out d state
    kept e (unsubscribed l) = outcome_fresh d state e (answered l (ground arith))
    kept e (in_order l p f o) = elim (Bool-cases state.need_process_current_snapshot) [
      | inl q ↦ outcome_fresh d state e (q, f q)
      | inr q ↦ outcome_in_order d state e l q p
    ]
