-- ===== src/Engine/Responses.antt =====
-- What the engine makes of the responses in its queue.
use cryptobot.Common.{
  ℕ, ◌≡◌, refl, ap, ◌∙◌, ◌≤◌, ◌&&◌, List, [], ◌∷◌, length, arith, Bool-cases, inl, inr,
  if◌then◌else◌,
}
use cryptobot.Common.Dict
use cryptobot.Types.{TradingPair, pair_eq, pair_eq_iff, pair_key}
use cryptobot.Double.{Double}
use cryptobot.Response.{Response}
use cryptobot.Queue.{Queue}
use cryptobot.Queue.Consume.{handle_all, consume_rounds, consume_rounds_lem}
use cryptobot.Position.{Positions, info, add_fill, keep_fill}
use cryptobot.Position.Fill.{IsInt, IsWithin, net, add_fills, add_fills-position}
use cryptobot.Engine.Defs.{is_filled, TradeEngine, on_order_response}

-- The fills of a pair.
abbrev pub fills : TradingPair → List Response → List Response
fills pair [] = []
fills pair (r ∷ rs) =
    let rest = fills pair rs in
    if is_filled r.type && pair_eq r.trading_pair pair then r ∷ rest else rest

module _ (d : Double) where
  info-keep_fill :
      (r : Response) (pair : TradingPair) (k : Positions d)
      → info d pair (keep_fill d r k)
        ≡ (if pair_eq r.trading_pair pair then add_fill d r (info d pair k) else info d pair k)
  unfolding info keep_fill
  info-keep_fill r pair k = ground (
    arith,
    pair_eq_iff r.trading_pair pair,
    Dict.lookup-insert r.trading_pair pair (add_fill d r (info d r.trading_pair k)) k,
  )

  module _ {ℓ} {S : Type ℓ} (strategy : Response → S → S) where
    abbrev handled : Response → TradeEngine d S → TradeEngine d S
    handled = on_order_response d S strategy

    step-info :
        (r : Response) (pair : TradingPair) (e : TradeEngine d S)
        → info d pair (handled r e).position_keeper ≡ (
            if is_filled r.type && pair_eq r.trading_pair pair
            then add_fill d r (info d pair e.position_keeper)
            else info d pair e.position_keeper)
    unfolding on_order_response
    step-info r pair e = elim (Bool-cases (is_filled r.type)) [
      | inl y ↦ rw y (info-keep_fill r pair e.position_keeper)
      | inr n ↦ rw n refl
    ]

    handle_all-info :
        (rs : List Response) (pair : TradingPair) (e : TradeEngine d S)
        → info d pair (handle_all handled rs e).position_keeper
          ≡ add_fills d (fills pair rs) (info d pair e.position_keeper)
    unfolding add_fills
    handle_all-info [] pair e = refl
    handle_all-info (r ∷ rs) pair e =
        handle_all-info rs pair (handled r e)
        ∙ ap (λ p. add_fills d (fills pair rs) p) (step-info r pair e)
        ∙ elim (Bool-cases (is_filled r.type && pair_eq r.trading_pair pair)) [
          | inl y ↦ rw y refl
          | inr n ↦ rw n refl
        ]

    -- The engine's loop, in as many rounds as there are responses in its queue, or more: the queue is
    -- empty, and the position of a pair is the one before plus what the fills of that pair bought
    -- minus what they sold, whatever other responses and fills of other pairs stand between them,
    -- for fills with uint64_t quantities that keep the exact position within an int.
    pub consume_rounds-position :
        (queue : Queue Response) (n : ℕ) (q : queue.Q) (pair : TradingPair) (e : TradeEngine d S)
        → length (queue.contents q) ≤ n
        → IsInt (info d pair e.position_keeper).position
        → IsWithin (info d pair e.position_keeper).position (fills pair (queue.contents q))
        → let (q', e') = consume_rounds (on_order_response d S strategy) queue n (q, e) in
          (queue.contents q' ≡ [])
          × ((info d pair e'.position_keeper).position
              ≡ net (info d pair e.position_keeper).position (fills pair (queue.contents q)))
    consume_rounds-position queue n q pair e l i w =
        let (empty, all) = consume_rounds_lem handled queue n q e l in
        let before = info d pair e.position_keeper in
        (
          empty,
          ap (λ x. (info d pair x.position_keeper).position) all
              ∙ ap (λ p. p.position) (handle_all-info (queue.contents q) pair e)
              ∙ add_fills-position d (fills pair (queue.contents q)) before i w,
        )
