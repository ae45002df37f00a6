-- ===== src/Bus/Defs.antt =====
-- The map of subscribers and the operations on it. A component is its address, and 0 is the null
-- pointer. What a component does when it is called is a parameter: what the program's state becomes,
-- and whether the call threw an exception.
use cryptobot.Common.{
  ℕ, Bool, false, ◌&&◌, ◌||◌, not, Option, none, some, List, [], ◌∷◌, ◌++◌, ◌==◌, nat_key,
  if◌then◌else◌,
}
use cryptobot.Common.Dict
use cryptobot.Common.Dict.{Dict}

abbrev pub Subscribers : Type 0
Subscribers = List ℕ

abbrev pub ComponentsMap : Type 0
ComponentsMap = Dict ℕ Subscribers

-- `subscribers_[publisher]`, which is empty where there is no key yet.
unfoldable pub subscribers_of : ℕ → ComponentsMap → Subscribers
subscribers_of publisher m = elim (Dict.lookup publisher m) [ none ↦ [] | some s ↦ s ]

unfoldable pub subscribe : (publisher subscriber : ℕ) → ComponentsMap → ComponentsMap
unfolding subscribers_of
subscribe publisher subscriber m =
    Dict.insert publisher (subscribers_of publisher m ++ (subscriber ∷ [])) m

-- `processed_subscribers.find(c) != end()`
abbrev pub is_processed : ℕ → List ℕ → Bool
is_processed c [] = false
is_processed c (x ∷ xs) = x == c || is_processed c xs

module _ {ℓ} {W : Type ℓ} where
  module _ {ε} {E : Type ε} (accept : E → ℕ → W → W × Bool) where
    -- The loop of AsyncSend: an exception is caught, and the next subscriber follows.
    unfoldable pub deliver : E → Subscribers → W → W
    deliver event [] w = w
    deliver event (c ∷ cs) w = deliver event cs (if not (c == 0) then (accept event c w).0 else w)

    -- AsyncSend of an event, or of a null pointer.
    unfoldable pub async_send : ℕ → Option E → ComponentsMap → W → W
    unfolding deliver
    async_send publisher none m w = w
    async_send publisher (some event) m w = elim (Dict.lookup publisher m) [
      | none ↦ w
      | some cs ↦ deliver event cs w
    ]

  module _ (stop : ℕ → W → W × Bool) where
    -- The loop over the subscribers of one publisher, from the processed set so far.
    unfoldable pub stop_each : Subscribers → List ℕ → W → List ℕ × W
    stop_each [] processed w = (processed, w)
    stop_each (c ∷ cs) processed w =
        let (w', threw) = stop c w in
        if not (c == 0) && not (is_processed c processed)
        then stop_each cs (if threw then processed else c ∷ processed) w'
        else stop_each cs processed w

    -- The loop over the map.
    unfoldable pub stop_publishers : ComponentsMap → List ℕ → W → List ℕ × W
    unfolding stop_each
    stop_publishers [] processed w = (processed, w)
    stop_publishers ((publisher, cs) ∷ m) processed w =
        let (processed', w') = stop_each cs processed w in stop_publishers m processed' w'

    -- StopAllSubscribers, with the set that it ends with.
    unfoldable pub stop_all_subscribers : ComponentsMap → W → List ℕ × W
    unfolding stop_publishers
    stop_all_subscribers m w = stop_publishers m [] w

    -- StopSubscribersForPublisher, with the set that it ends with.
    unfoldable pub stop_subscribers_for_publisher : ℕ → ComponentsMap → W → List ℕ × W
    unfolding stop_each
    stop_subscribers_for_publisher publisher m w =
        if publisher == 0
        then ([], w)
        else elim (Dict.lookup publisher m) [ none ↦ ([], w) | some cs ↦ stop_each cs [] w ]
