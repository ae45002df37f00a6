-- ===== src/OrderBook/Book1/Channels.antt =====
-- OrderBook of cross_arbitrage, whose updateBBO also tells the strategy and the position keeper.
use cryptobot.Common.{
  ℕ, Option, none, some, ◌++◌, ◌≡◌, ◌≢◌, refl, ◌∙◌, sym, subst, Bool, true, false, ◌&&◌, not, ◌==◌,
  List, [], ◌∷◌, if◌then◌else◌,
}
use cryptobot.Types.{ExchangeId, TradingPair, Side, side_eq}
use cryptobot.OrderBook.Containers.{Containers}
use cryptobot.OrderBook.Half.{top, reaches_top}
use cryptobot.OrderBook.Book2.{MarketUpdateType, Bbo, bid_reaches, ask_reaches}
use cryptobot.OrderBook.Book1.Defs.{
  MeMarketUpdate, Book, bids_of, asks_of, bid_will_be_updated, ask_will_be_updated, update_bbo,
  on_market_update,
}
use cryptobot.OrderBook.Book1.Sides.{level_of, IsWell, IsFresh, IsFree, move}
use cryptobot.OrderBook.Book1.Room.{is_full, on_market_update_or_end, on_market_update_or_end-some}
use cryptobot.OrderBook.Book1.Update.{default_lem, bbo_of-move, on_market_update-IsFresh}

-- What is put into the two channels. The message to the position keeper carries the address of the
-- book's own BBO, so that it has no value of its own.
pub data Message : Type 0 where
  bbid_updated bask_updated : ExchangeId → TradingPair → ℕ → ℕ → Message
  update_bbo_of : ExchangeId → TradingPair → Message

pub record Channels : Type 0 where
  pub exchange : ExchangeId
  pub trading_pair : TradingPair
  pub has_trade_engine : Bool
  pub has_position_keeper : Bool

-- What becomes of a message: allocate hands out the pool's last block, which ends the program, or
-- try_enqueue fails, which is logged, or the message is in the channel.
pub data Sent : Type 0 where
  exhausted refused delivered : Sent

-- SendMessageToChannel: what is then in the channel.
pub send : Message → Sent → Option (List Message)
send m exhausted = none
send m refused = some []
send m delivered = some (m ∷ [])

module _ (sent : Message → Sent) where
  -- Two sends, one after the other.
  unfoldable pub send_two : (first second : Message) → Option (List Message)
  unfolding send
  send_two first second = elim (send first (sent first)) [
    | none ↦ none
    | some ms ↦ elim (send second (sent second)) [ none ↦ none | some ms' ↦ some (ms ++ ms') ]
  ]

  -- What updateBBO puts into the channels, in its order, for the BBO as it has just been updated, or
  -- none where it ends the program.
  unfoldable pub messages : Channels → Bool → Bool → Bbo → Option (List Message)
  unfolding send_two
  messages ch update_bid update_ask bbo =
      if not ch.has_trade_engine
      then some []
      else if not ch.has_position_keeper
      then some []
      else if update_bid
      then send_two (bbid_updated ch.exchange ch.trading_pair bbo.bid_price bbo.bid_qty)
          (update_bbo_of ch.exchange ch.trading_pair)
      else if update_ask
      then send_two (bask_updated ch.exchange ch.trading_pair bbo.ask_price bbo.ask_qty)
          (update_bbo_of ch.exchange ch.trading_pair)
      else some []

-- A CLEAR returns before updateBBO.
abbrev unless_clear : MarketUpdateType → Option (List Message) → Option (List Message)
unless_clear MarketUpdateType.clear ms = some []
unless_clear MarketUpdateType.k_default ms = ms

-- OnMarketUpdate of the derived class, for what becomes of its messages, or none where it ends the
-- program.
unfoldable pub on_market_update_sends :
    (c : Containers)
    → (Message → Sent)
    → Channels
    → MeMarketUpdate
    → Book c
    → Option (Book c × List Message)
unfolding messages on_market_update_or_end
on_market_update_sends c sent ch u b = elim (on_market_update_or_end c u b) [
  | none ↦ none
  | some b' ↦
      let out = messages sent ch (bid_will_be_updated c u b) (ask_will_be_updated c u b) b'.bbo in
      elim (unless_clear u.type out) [ none ↦ none | some ms ↦ some (b', ms) ]
]

-- What the strategy knows of a book: the last best bid and the last best ask that it was told.
pub record Told : Type 0 where
  pub bid : ℕ × ℕ
  pub ask : ℕ × ℕ

unfoldable pub listen : List Message → Told → Told
listen [] t = t
listen (bbid_updated e p price qty ∷ ms) t = listen ms (record t { bid = (price, qty) })
listen (bask_updated e p price qty ∷ ms) t = listen ms (record t { ask = (price, qty) })
listen (update_bbo_of e p ∷ ms) t = listen ms t

-- What the strategy knows is the BBO of the book.
abbrev pub Knows : Told → Bbo → Type 0
Knows t o = (t.bid ≡ (o.bid_price, o.bid_qty)) × (t.ask ≡ (o.ask_price, o.ask_qty))

-- A message to the strategy is delivered, and the pool of the other one has blocks.
pub record IsServed (sent : Message → Sent) : Type 0 where
  pub bids :
      (e : ExchangeId) (p : TradingPair) (price qty : ℕ)
      → sent (bbid_updated e p price qty) ≡ delivered
  pub asks :
      (e : ExchangeId) (p : TradingPair) (price qty : ℕ)
      → sent (bask_updated e p price qty) ≡ delivered
  pub keeper : (e : ExchangeId) (p : TradingPair) → sent (update_bbo_of e p) ≢ exhausted

-- The message to the position keeper tells the strategy nothing.
keeper_lem :
    (o : Sent) (e : ExchangeId) (p : TradingPair)
    → o ≢ exhausted
    → (ms : List Message) × (send (update_bbo_of e p) o ≡ some ms) × ((t : Told) → listen ms t ≡ t)
unfolding send listen
keeper_lem exhausted e p n = absurd (n refl)
keeper_lem refused e p n = ([], refl, λ t. refl)
keeper_lem delivered e p n = (update_bbo_of e p ∷ [], refl, λ t. refl)

two_lem :
    (sent : Message → Sent) (first : Message) (e : ExchangeId) (p : TradingPair)
    → sent first ≡ delivered
    → sent (update_bbo_of e p) ≢ exhausted
    → (ms : List Message) × (send_two sent first (update_bbo_of e p) ≡ some (first ∷ ms))
      × ((t : Told) → listen ms t ≡ t)
unfolding send_two send
two_lem sent first e p d n =
    let (ms, kept, silent) = keeper_lem (sent (update_bbo_of e p)) e p n in
    (ms, rw (send_two, d, kept) refl, silent)

-- A side is told where its flag is set, and the two flags are not set at once.
told_lem :
    (c : Containers) (sent : Message → Sent) (ch : Channels) (wb wa : Bool) (b : Book c) (t : Told)
    → IsServed sent
    → ch.has_trade_engine ≡ true
    → ch.has_position_keeper ≡ true
    → wb && wa ≡ false
    → Knows t b.bbo
    → let o = (update_bbo c wb wa b).bbo in
      (ms : List Message) × (messages sent ch wb wa o ≡ some ms) × Knows (listen ms t) o
unfolding update_bbo messages listen
told_lem c sent ch true true b t s e k n h = cc
told_lem c sent ch true false b t s e k n h =
    let bid = top c (bids_of c b) in
    let first = bbid_updated ch.exchange ch.trading_pair bid.0 bid.1 in
    let (ms, out, silent) =
      two_lem sent first ch.exchange ch.trading_pair
        (s.bids ch.exchange ch.trading_pair bid.0 bid.1) (s.keeper ch.exchange ch.trading_pair) in
    (first ∷ ms, rw (messages, e, k) out, rw (silent (record t { bid = bid })) (refl, h.1))
told_lem c sent ch false true b t s e k n h =
    let ask = top c (asks_of c b) in
    let first = bask_updated ch.exchange ch.trading_pair ask.0 ask.1 in
    let (ms, out, silent) =
      two_lem sent first ch.exchange ch.trading_pair
        (s.asks ch.exchange ch.trading_pair ask.0 ask.1) (s.keeper ch.exchange ch.trading_pair) in
    (first ∷ ms, rw (messages, e, k) out, rw (silent (record t { ask = ask })) (h.0, refl))
told_lem c sent ch false false b t s e k n h = ([], rw (messages, e, k) refl, h)

one_side :
    (c : Containers) (u : MeMarketUpdate) (b : Book c)
    → bid_will_be_updated c u b && ask_will_be_updated c u b ≡ false
one_side c u b =
    both (u.side) (reaches_top c bid_reaches (bids_of c b) u.price)
      (reaches_top c ask_reaches (asks_of c b) u.price)
  where
    both :
        (s : Side) (x y : Bool) → (side_eq s Side.k_bid && x) && (side_eq s Side.k_ask && y) ≡ false
    both Side.k_invalid x y = refl
    both Side.k_ask x y = refl
    both Side.k_bid true y = refl
    both Side.k_bid false y = refl
    both Side.k_max x y = refl

sends_lem :
    {c : Containers} (o : Option (Book c)) (out : Book c → Option (List Message))
    (type : MarketUpdateType) (b : Book c) (ms : List Message)
    → o ≡ some b
    → type ≡ MarketUpdateType.k_default
    → out b ≡ some ms
    → elim o as (λ _. Option (Book c × List Message)) [
      | none ↦ none
      | some b' ↦ elim (unless_clear type (out b')) [ none ↦ none | some ms' ↦ some (b', ms') ]
    ]
      ≡ some (b, ms)
sends_lem o out type b ms e d m = rw (e, d, m) refl

-- With both channels there, a strategy that knows the BBO of a book in step with its trees, and
-- takes in what an update puts into its channel, knows the best bid and the best ask of the trees
-- afterwards, and the program does not end, for an update that is no CLEAR on a well-formed book
-- whose other side does not hold the price, where the book's pool is not full and, of the messages,
-- those to the strategy are delivered and those to the position keeper find a block: the return
-- after the messages of a bid costs no message of an ask.
pub listen-Knows :
    (c : Containers) (sent : Message → Sent) (ch : Channels) (u : MeMarketUpdate) (b : Book c)
    (t : Told)
    → IsServed sent
    → ch.has_trade_engine ≡ true
    → ch.has_position_keeper ≡ true
    → u.type ≡ MarketUpdateType.k_default
    → is_full c b ≡ false
    → IsWell c b
    → IsFree c u.side u.price b
    → IsFresh c b
    → Knows t b.bbo
    → (b' : Book c) × (ms : List Message) × (on_market_update_sends c sent ch u b ≡ some (b', ms))
      × ((listen ms t).bid ≡ top c (bids_of c b'))
      × ((listen ms t).ask ≡ top c (asks_of c b'))
unfolding on_market_update_sends
listen-Knows c sent ch u b t s e k d room w f fresh h =
    let b₁ = move c (not (u.qty == 0)) u.side (level_of u) b in
    let b' = on_market_update c u b in
    let same : b₁.bbo ≡ b.bbo = bbo_of-move c (not (u.qty == 0)) u.side (level_of u) b in
    let wb = bid_will_be_updated c u b in
    let wa = ask_will_be_updated c u b in
    let now : (ms : List Message) × (messages sent ch wb wa b'.bbo ≡ some ms)
        × Knows (listen ms t) b'.bbo =
      subst
        (λ (x : Book c).
          (ms : List Message) × (messages sent ch wb wa x.bbo ≡ some ms)
          × Knows (listen ms t) x.bbo)
        (sym (default_lem c u b d))
        (told_lem c sent ch wb wa b₁ t s e k (one_side c u b) (rw same h)) in
    let (ms, out, told) = now in
    let (bid, ask) = on_market_update-IsFresh c u b d w f fresh in
    let served : on_market_update_or_end c u b ≡ some b' =
      on_market_update_or_end-some c u b room in
    (
      b',
      ms,
      sends_lem (on_market_update_or_end c u b) (λ x. messages sent ch wb wa x.bbo) u.type b' ms
          served d out,
      told.0 ∙ bid,
      told.1 ∙ ask,
    )
