-- ===== src/Engine/Tests.antt =====
-- The engine and the gateway at queues of a few elements.
use cryptobot.Common.{
  ℕ, ◌≡◌, refl, none, some, List, [], ◌∷◌, ◌++◌, arith, Bool, true, false, if◌then◌else◌, subst,
}
use mathlib.Core.Option.{some-injective}
use cryptobot.Common.Int.{pos, ◌+ℤ◌, ◌*ℤ◌}
use cryptobot.Common.Dict
use cryptobot.Common.Dict.{Dict}
use cryptobot.Types.{ExchangeId, Side, TradingPair, exchange_eq, exchange_key}
use cryptobot.Double.Integers.{integers}
use cryptobot.Response.{Response, ClientResponseType}
use cryptobot.Queue.Lists.{lists}
use cryptobot.Queue.Consume.{consume_rounds}
use cryptobot.Position.{info}
use cryptobot.Position.Fill.{IsWithin, net}
use cryptobot.Engine.Defs.{TradeEngine, on_order_response}
use cryptobot.Engine.Responses
use cryptobot.Engine.Responses.{fills}
use cryptobot.Engine.Gateway
use cryptobot.Engine.Gateway.{
  RequestNewOrder, RequestCancelOrder, ClientRequestType, OrderGateway2, gateway_rounds, news,
}

abbrev pair : TradingPair
pair = record { first = 1; second = 2 }

abbrev response : ClientResponseType → TradingPair → Side → ℕ → Response
response type p side qty = record {
  type = type;
  exchange_id = ExchangeId.k_binance;
  trading_pair = p;
  order_id = 7;
  side = side;
  price = 10;
  exec_qty = qty;
  leaves_qty = 0;
}

abbrev responses : List Response
responses =
    response ClientResponseType.filled pair Side.k_bid 5
    ∷ response ClientResponseType.accepted pair Side.k_bid 6
    ∷ response ClientResponseType.filled (record { first = 3; second = 4 }) Side.k_bid 7
    ∷ response ClientResponseType.filled pair Side.k_ask 8
    ∷ []

abbrev count_responses : Response → ℕ → ℕ
count_responses r n = n

abbrev engine : TradeEngine integers ℕ
engine = record { position_keeper = []; strategy = 0; trading_pair = pair }

flat : (info integers pair engine.position_keeper).position ≡ pos 0
unfolding info Dict.lookup
flat = refl

consume_rounds-position_example :
    let (q', e') =
      consume_rounds
        (on_order_response integers ℕ count_responses)
        (lists 9)
        4
        (responses, engine) in
    (q' ≡ [])
    × ((info integers pair e'.position_keeper).position
        ≡ net (info integers pair engine.position_keeper).position (fills pair responses))
unfolding IsWithin ◌+ℤ◌ ◌*ℤ◌ info Dict.lookup
consume_rounds-position_example =
    Responses.consume_rounds-position integers count_responses (lists 9) 4 responses pair engine
      (omega arith) (record { above = omega arith; below = omega arith })
      (
        omega arith,
        record { above = omega arith; below = omega arith },
        (omega arith, record { above = omega arith; below = omega arith }, tt),
      )

abbrev order : ExchangeId → ℕ → RequestNewOrder
order e id = record {
  exchange_id = e;
  type = ClientRequestType.new;
  trading_pair = pair;
  order_id = id;
  side = Side.k_bid;
  price = 10;
  qty = 1;
}

abbrev push : RequestNewOrder → List RequestNewOrder → List RequestNewOrder
push r w = w ++ (r ∷ [])

abbrev ignore : RequestCancelOrder → List RequestNewOrder → List RequestNewOrder
ignore r w = w

abbrev new_limit_orders :
    Dict ExchangeId (RequestNewOrder → List RequestNewOrder → List RequestNewOrder)
new_limit_orders = (ExchangeId.k_binance, push) ∷ []

abbrev canceled_orders :
    Dict ExchangeId (RequestCancelOrder → List RequestNewOrder → List RequestNewOrder)
canceled_orders = (ExchangeId.k_binance, ignore) ∷ []

abbrev gateway : OrderGateway2 new_limit_orders canceled_orders (lists 9) (lists 9)
gateway = record {
  requests_new_order = order ExchangeId.k_binance 1 ∷ order ExchangeId.k_mexc 2 ∷ [];
  requests_cancel_order =
      record {
        exchange_id = ExchangeId.k_binance;
        type = ClientRequestType.cancel;
        trading_pair = pair;
        order_id = 1;
      }
      ∷ [];
  world = [];
}

-- The one executor of a table.
only {ℓ} :
    {F : Type ℓ} (P : F → Type 0) (found : Bool) (only_one exec : F)
    → P only_one
    → (if found then some only_one else none) ≡ some exec
    → P exec
only P true x exec p e = subst P (some-injective x exec e) p
only P false x exec p e = cc

pushes :
    (r : RequestNewOrder) (v : List RequestNewOrder)
    (exec : RequestNewOrder → List RequestNewOrder → List RequestNewOrder)
    → Dict.lookup r.exchange_id new_limit_orders ≡ some exec
    → exec r v ≡ v ++ (r ∷ [])
unfolding Dict.lookup
pushes r v exec e =
    only (λ f. f r v ≡ v ++ (r ∷ [])) (exchange_eq ExchangeId.k_binance r.exchange_id) push exec
      refl e

ignores :
    (r : RequestCancelOrder) (v : List RequestNewOrder)
    (exec : RequestCancelOrder → List RequestNewOrder → List RequestNewOrder)
    → Dict.lookup r.exchange_id canceled_orders ≡ some exec
    → exec r v ≡ v
unfolding Dict.lookup
ignores r v exec e =
    only (λ f. f r v ≡ v) (exchange_eq ExchangeId.k_binance r.exchange_id) ignore exec refl e

gateway_rounds-news_example :
    let g' = gateway_rounds new_limit_orders canceled_orders (lists 9) (lists 9) 2 gateway in
    (g'.requests_new_order ≡ [])
    × (g'.world
        ≡ []
          ++ news new_limit_orders canceled_orders
              (lists 9)
              (lists 9)
              (λ w. w)
              gateway.requests_new_order)
gateway_rounds-news_example =
    Gateway.gateway_rounds-news new_limit_orders canceled_orders (lists 9) (lists 9) (λ w. w) 2
      gateway pushes ignores (omega arith)
