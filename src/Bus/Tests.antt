-- ===== src/Bus/Tests.antt =====
-- A bus whose program state is the list of the calls; component 2 throws.
use cryptobot.Common.{ℕ, ◌≡◌, refl, Bool, ◌==◌, some, List, [], ◌∷◌}
use cryptobot.Common.Dict
use cryptobot.Bus.Defs.{ComponentsMap, async_send, stop_all_subscribers}
use cryptobot.Bus.Stopping

abbrev accept : ℕ → ℕ → List ℕ → List ℕ × Bool
accept event c w = (c ∷ w, c == 2)

abbrev subscribers : ComponentsMap
subscribers = (7, 1 ∷ 2 ∷ 0 ∷ 3 ∷ []) ∷ (8, 3 ∷ 2 ∷ []) ∷ []

-- The exception of 2 keeps neither 3 from its event nor 2 from a second attempt.
sent : async_send accept 7 (some 5) subscribers [] ≡ 3 ∷ 2 ∷ 1 ∷ []
unfolding async_send Dict.lookup
sent = refl

stopped : (stop_all_subscribers (accept 0) subscribers []).1 ≡ 2 ∷ 3 ∷ 2 ∷ 1 ∷ []
unfolding stop_all_subscribers
stopped = refl
