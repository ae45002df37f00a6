-- ===== src/Engine/Defs.antt =====
-- What the engine keeps that its loop changes, and the handling of a response. What the strategy does
-- with a response is a parameter.
use cryptobot.Common.{Bool, true, false, if◌then◌else◌}
use cryptobot.Types.{TradingPair}
use cryptobot.Double.{Double}
use cryptobot.Response.{Response, ClientResponseType}
use cryptobot.OrderBook.Book2.{Bbo}
use cryptobot.Position.{Positions, keep_fill, keep_bbo}

abbrev pub is_filled : ClientResponseType → Bool
is_filled ClientResponseType.filled = true
is_filled _ = false

module _ {ℓ} (d : Double) (S : Type ℓ) where
  pub record TradeEngine : Type ℓ where
    pub position_keeper : Positions d
    pub strategy : S
    pub trading_pair : TradingPair

  unfoldable pub on_order_response : (Response → S → S) → Response → TradeEngine → TradeEngine
  on_order_response strategy r e =
      if is_filled r.type
      then record e {
        position_keeper = keep_fill d r e.position_keeper;
        strategy = strategy r e.strategy;
      }
      else e

  -- OnOrderBookUpdate, with the BBO of the engine's book.
  unfoldable on_order_book_update : Bbo → TradeEngine → TradeEngine
  on_order_book_update bbo e = record e {
    position_keeper = keep_bbo d e.trading_pair bbo e.position_keeper;
  }
